-- ===== src/Tests/Objects.antt =====
-- Objects of extension/maxminddb.c that are made, closed and given up.
use max_mind_db_reader_pytho.Tests.Data.{db, city}
use max_mind_db_reader_pytho.Metadata.Answer.{Breaks, Tells, reader_metadata-Tells}
use max_mind_db_reader_pytho.Runtime.{uninit}
use max_mind_db_reader_pytho.Base.{refl, arith}
use max_mind_db_reader_pytho.Reader.{reader_dealloc}
use max_mind_db_reader_pytho.Reader.Dealloc.{Ends, reader_dealloc-Ends}
use max_mind_db_reader_pytho.Base.{ℕ, pos, ◌≡◌, refl, false, none, some, List, [], ◌∷◌}
use max_mind_db_reader_pytho.Runtime.Outcome.{Outcome, Ensures}
use max_mind_db_reader_pytho.Lookup.{lookup_address}
use max_mind_db_reader_pytho.Iter.{reader_iter_next, zero_node}
use max_mind_db_reader_pytho.Runtime.{fault, bad_lock}
use max_mind_db_reader_pytho.Value.{Value, Fields}
use max_mind_db_reader_pytho.Metadata.{kwlist, metadata_call, reader_metadata}
use max_mind_db_reader_pytho.Metadata.Keywords.{Fails, Builds, metadata_call-Builds}
use max_mind_db_reader_pytho.Closed.{Refuses, closed-Refuses}
use max_mind_db_reader_pytho.Reader.{reader_enter, reader_init, reader_dealloc}
use max_mind_db_reader_pytho.Reader.Init.{reader_init-reader_dealloc}
use max_mind_db_reader_pytho.Iter.{reader_iter}
use max_mind_db_reader_pytho.Tests.Data.{address, demo, open_reader, closed_reader, new_reader}

abbrev from_names : List (List ℕ) → Fields
from_names [] = Fields.end
from_names (k ∷ ks) = Fields.field k (Value.int (pos 1)) (from_names ks)

-- The nine fields of the metadata, all with the number 1.
abbrev pub nine_fields : Fields
nine_fields = from_names kwlist

metadata_example :
    Outcome
      (Fails nine_fields)
      (Builds demo nine_fields open_reader)
      (metadata_call demo [] nine_fields open_reader)
metadata_example = metadata_call-Builds demo nine_fields open_reader

closed_example :
    Ensures (Refuses false closed_reader) (reader_enter demo closed_reader)
    × Ensures (Refuses none closed_reader) (lookup_address demo address closed_reader)
    × Ensures (Refuses none closed_reader) (reader_metadata demo closed_reader)
    × Ensures (Refuses none closed_reader) (reader_iter demo closed_reader)
    × Ensures
        (Refuses (none, zero_node ∷ []) closed_reader)
        (reader_iter_next demo 4 (zero_node ∷ []) closed_reader)
closed_example = closed-Refuses demo closed_reader (0, refl) refl refl address 4 (zero_node ∷ [])

failed_init_example :
    Ensures
      (λ done u. done ≡ false → reader_dealloc demo u ≡ fault bad_lock)
      (reader_init demo (some ("a.mmdb", pos 2)) new_reader)
failed_init_example =
    reader_init-reader_dealloc demo (some ("a.mmdb", pos 2)) new_reader refl refl refl

dealloc_example : Ensures (λ _ z. Ends demo uninit open_reader z) (reader_dealloc demo open_reader)
dealloc_example = reader_dealloc-Ends demo uninit open_reader refl (omega arith)

reader_metadata_example :
    Outcome
      (Breaks demo db city)
      (Tells demo db city open_reader)
      (reader_metadata demo open_reader)
reader_metadata_example = reader_metadata-Tells demo db city open_reader (0, refl) refl (λ h. refl)
