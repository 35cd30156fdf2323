-- ===== src/Tests/Opening.antt =====
-- The constructor of maxminddb/reader.py on a whole file: one node, a string and the metadata.
use max_mind_db_reader_pytho.Base.{
  some, ℕ, ◌<◌, pos, String, ◌≡◌, refl, List, [], ◌∷◌, ◌++◌, ◌==◌, if◌then◌else◌, length, drop,
  replicate, arith,
}
use max_mind_db_reader_pytho.Entry.BigEndian.{big_endian}
use max_mind_db_reader_pytho.Metadata.{codes}
use max_mind_db_reader_pytho.Pure.{ok, raises, value_error}
use max_mind_db_reader_pytho.Pure.Decoder.{str, int, is_hashable}
use max_mind_db_reader_pytho.Pure.Decoder.Format.{leaf, control, size_bound, text, uint16}
use max_mind_db_reader_pytho.Pure.Decoder.RoundTrip.{
  Data, plain, map_of, Pairs, no_pairs, pair, encode, items_of, IsWritable, ArePairs,
}
use max_mind_db_reader_pytho.Pure.Reader.{get_with_prefix_len, Argument, object, address_of}
use max_mind_db_reader_pytho.Pure.Open.{file_buffer}
use max_mind_db_reader_pytho.Pure.Session.{
  Session, open_session, close_session, enter, with_session,
}
use max_mind_db_reader_pytho.Pure.Session.Answers.{with_session-Leads}
use max_mind_db_reader_pytho.Pure.Reader.Tree.{Holds, descend}
use max_mind_db_reader_pytho.Pure.Init.{metadata_start_marker, metadata_of, init}
use max_mind_db_reader_pytho.Pure.Init.Opens.{
  is_absent, IsAbsent-is_absent, database, init-database,
}
use max_mind_db_reader_pytho.Pure.Buffer.{at, slice}
use max_mind_db_reader_pytho.Pure.File.{open_file, get_slice, get_index, init_file}
use max_mind_db_reader_pytho.Pure.File.Ends.{ends_with}
use max_mind_db_reader_pytho.Pure.File.Same.{init_file-init}
use max_mind_db_reader_pytho.Tests.Python.{
  address, no_names, ascii, node, node-NodeBytes, metadata, tree,
}

abbrev key : String → Data
key s = plain 2 (length (codes s)) (codes s) (str (codes s))

abbrev number : ℕ → Data
number n = plain 5 1 (n ∷ []) (int (pos (big_endian (n ∷ []))))

abbrev pairs_of : List (String × Data) → Pairs
pairs_of [] = no_pairs
pairs_of ((k, v) ∷ fs) = pair (key k) v (pairs_of fs)

abbrev named_fields : List (String × Data)
named_fields =
    ("binary_format_major_version", number 2)
    ∷ ("binary_format_minor_version", number 0)
    ∷ ("build_epoch", number 9)
    ∷ ("database_type", key "Test")
    ∷ ("description", map_of no_pairs)
    ∷ ("ip_version", number 6)
    ∷ ("languages", map_of no_pairs)
    ∷ ("node_count", number 1)
    ∷ ("record_size", number 24)
    ∷ []

abbrev fields : Pairs
fields = pairs_of named_fields

abbrev search_tree_and_data : List ℕ
search_tree_and_data = node ++ (replicate 16 0 ++ (65 ∷ 97 ∷ []))

number-IsWritable : (n : ℕ) → IsWritable ascii (number n)
number-IsWritable n = (uint16, omega arith)

abbrev AreWritable : List (String × Data) → Type 0
AreWritable [] = Unit
AreWritable ((k, v) ∷ fs) = (length (codes k) < size_bound) × IsWritable ascii v × AreWritable fs

pairs_of-ArePairs : (fs : List (String × Data)) → AreWritable fs → ArePairs ascii (pairs_of fs)
unfolding is_hashable
pairs_of-ArePairs [] h = tt
pairs_of-ArePairs ((k, v) ∷ fs) (small, w, ws) =
    (refl, (text refl, small), w, pairs_of-ArePairs fs ws)

fields-IsWritable : IsWritable ascii (map_of fields)
fields-IsWritable = (
  pairs_of-ArePairs named_fields (
    omega arith,
    number-IsWritable 2,
    (
      omega arith,
      number-IsWritable 0,
      (
        omega arith,
        number-IsWritable 9,
        (
          omega arith,
          (text refl, omega arith),
          (
            omega arith,
            (tt, omega arith),
            (
              omega arith,
              number-IsWritable 6,
              (
                omega arith,
                (tt, omega arith),
                (omega arith, number-IsWritable 1, (omega arith, number-IsWritable 24, tt)),
              ),
            ),
          ),
        ),
      ),
    ),
  ),
  omega arith,
)

abbrev contents : List ℕ
contents = database search_tree_and_data (map_of fields) []

contents-Holds : Holds contents metadata 0 tree
unfolding encode
contents-Holds =
    (refl, omega arith, 1, 17, node, node-NodeBytes, record { rest = _; is = refl }, refl, refl)

opened_example :
    (u : ℕ) × (init ascii 3 (contents)
      ≡ ok (record {
        buffer = contents;
        buffer_size = length (contents);
        metadata = metadata;
        ipv4_start = u;
      }))
    × Holds (contents) metadata u (if 6 == 6 then (descend (λ i. 0) 96 0 tree).0 else tree)
unfolding encode is_absent metadata_of big_endian
opened_example =
    init-database ascii 3 search_tree_and_data (map_of fields) [] (items_of fields) metadata tree
      (omega arith)
      (IsAbsent-is_absent metadata_start_marker
        (drop 1 (metadata_start_marker ++ (encode (map_of fields) ++ []))) refl)
      fields-IsWritable (omega arith) refl refl contents-Holds

file_example :
    (init_file ascii 3 (open_file contents) ≡ init ascii 3 contents)
    × (get_slice (open_file contents) 0 3 ≡ ok (slice contents 0 3))
    × (get_index (open_file contents) 9 ≡ at contents 9)
unfolding encode ends_with
file_example = init_file-init ascii 3 contents 0 3 9 (omega arith) refl (omega arith)

abbrev v6 : Argument
v6 = object (some address) 6

session_example :
    (s : Session) × (open_session ascii 3 file_buffer contents ≡ ok s)
    × (with_session (λ r. get_with_prefix_len r ascii 3 no_names v6) s
        ≡ (ok (some (str (97 ∷ [])), 1), close_session s))
    × (enter (close_session s) ≡ raises (value_error "Attempt to reopen a closed MaxMind DB"))
unfolding encode is_absent metadata_of big_endian address_of control
session_example =
    with_session-Leads ascii 3 file_buffer search_tree_and_data (map_of fields) [] (items_of fields)
      metadata tree (omega arith)
      (IsAbsent-is_absent metadata_start_marker
        (drop 1 (metadata_start_marker ++ (encode (map_of fields) ++ []))) refl)
      fields-IsWritable (omega arith) refl refl contents-Holds no_names v6 address 6
      (some (str (97 ∷ []))) refl (ground arith) refl
      (
        1,
        24,
        omega arith,
        omega arith,
        leaf (text {bs = 97 ∷ []} refl) (omega arith) (record { rest = _; is = refl }),
      )
