-- ===== src/Extension/Members.antt =====
-- The attributes of a Metadata object: extension/maxminddb.c, lines 1215-1257, against the arguments
-- that the object was made from.
use max_mind_db_reader_pytho.Base.{
  ℕ, true, false, Option, none, some, List, [], ◌∷◌, map, ◌≡◌, ◌≢◌, ◌∙◌, ◌⊎◌, sym, refl, ap, inl,
  inr, Bool-cases, ◌==◌, ◌&&◌, if◌then◌else◌, arith, ==_iff,
}
use max_mind_db_reader_pytho.Value.{Fields, same_key}
use max_mind_db_reader_pytho.Env.{Env}
use max_mind_db_reader_pytho.Runtime.{World}
use max_mind_db_reader_pytho.Runtime.Outcome.{Outcome, mono}
use max_mind_db_reader_pytho.Metadata.{
  Slot, Metadata, codes, kwlist, lookup, is_keyword, metadata_call,
}
use max_mind_db_reader_pytho.Metadata.Keywords.{Fails, Builds, metadata_call-Builds}
use max_mind_db_reader_pytho.Extension.Tables.{
  MemberDef, Offset, metadata_members, closed_of_reader, binary_format_major_version_of_metadata,
  binary_format_minor_version_of_metadata, build_epoch_of_metadata, database_type_of_metadata,
  description_of_metadata, ip_version_of_metadata, languages_of_metadata, node_count_of_metadata,
  record_size_of_metadata,
}

-- The field of a Metadata object at an offset; the other offset is one of the Reader struct.
unfoldable pub metadata_field : Offset → Metadata → Slot
metadata_field closed_of_reader self = none
metadata_field binary_format_major_version_of_metadata self = self.binary_format_major_version
metadata_field binary_format_minor_version_of_metadata self = self.binary_format_minor_version
metadata_field build_epoch_of_metadata self = self.build_epoch
metadata_field database_type_of_metadata self = self.database_type
metadata_field description_of_metadata self = self.description
metadata_field ip_version_of_metadata self = self.ip_version
metadata_field languages_of_metadata self = self.languages
metadata_field node_count_of_metadata self = self.node_count
metadata_field record_size_of_metadata self = self.record_size

-- The getter of a member, by its name: `none` is AttributeError, and `some none` is None, which a
-- `T_OBJECT` member that is NULL gives.
unfoldable pub get_member : List MemberDef → List ℕ → Metadata → Option Slot
unfolding same_key metadata_field
get_member [] k self = none
get_member (d ∷ members) k self =
    if same_key (codes d.name) k
    then some (metadata_field d.offset self)
    else get_member members k self

same_key_eq : (j k : List ℕ) → same_key j k ≡ true → j ≡ k
unfolding same_key
same_key_eq [] [] e = refl
same_key_eq [] (y ∷ ys) e = ground arith
same_key_eq (x ∷ xs) [] e = ground arith
same_key_eq (x ∷ xs) (y ∷ ys) e = elim (Bool-cases (x == y)) [
  | inl h ↦
      let tail : xs ≡ ys = same_key_eq xs ys (ap (λ b. b && same_key xs ys) (sym h) ∙ e) in
      ap (λ n. n ∷ xs) ((==_iff x y).0 h) ∙ ap (λ ns. y ∷ ns) tail
  | inr h ↦ ground arith
]

-- The names of some members, and their values.
abbrev names : List MemberDef → List (List ℕ)
names members = map (λ (d : MemberDef). codes d.name) members

abbrev values : List MemberDef → Metadata → List Slot
values members self = map (λ (d : MemberDef). metadata_field d.offset self) members

-- What is read by a name, where the members have the values of a dict.
abbrev Reads : Fields → List (List ℕ) → List ℕ → Option Slot → Type 0
Reads d ks k o =
    ((is_keyword k ks ≡ true) × (o ≡ some (lookup k d))) ⊎ ((is_keyword k ks ≡ false) × (o ≡ none))

get_member_lem :
    (d : Fields) (self : Metadata) (k : List ℕ) (members : List MemberDef)
    → values members self ≡ map (λ j. lookup j d) (names members)
    → Reads d (names members) k (get_member members k self)
unfolding get_member is_keyword
get_member_lem d self k [] h = inr (refl, refl)
get_member_lem d self k (m ∷ members) h = elim (Bool-cases (same_key (codes m.name) k)) [
  | inl e ↦
      let head : metadata_field m.offset self ≡ lookup (codes m.name) d = cc in
      inl (rw e refl, rw e (ap some (head ∙ ap (λ j. lookup j d) (same_key_eq _ k e))))
  | inr e ↦
      let tail : values members self ≡ map (λ j. lookup j d) (names members) = cc in
      rw e (get_member_lem d self k members tail)
]

-- An object that is made has an attribute for each of the nine names, with the value of the dict,
-- and no other.
abbrev pub Shows : Fields → Option Metadata → World → Type 0
Shows d none u = u.error ≢ none
Shows d (some m) u = (k : List ℕ) → Reads d kwlist k (get_member metadata_members k m)

-- Where the call of the Metadata type on a dict makes an object, its attributes are the entries of
-- the dict: every name that the constructor takes is readable as the value that the dict has for
-- it, and no other name is. Where it returns NULL, an exception is set; the only other outcomes are
-- the two faults, for a dict with a key that is not one of the nine names, and for one that lacks
-- one of them.
pub metadata_call-Shows :
    (env : Env) (d : Fields) (w : World) → Outcome (Fails d) (Shows d) (metadata_call env [] d w)
unfolding metadata_field
metadata_call-Shows env d w = mono (metadata_call-Builds env d w) shows
  where
    shows : (o : Option Metadata) (u : World) → Builds env d w o u → Shows d o u
    shows none u (owns, set, starved) = set
    shows (some m) u (known, complete, same, owns, error) =
        λ k. get_member_lem d m k metadata_members same
