-- ===== src/Pure/Init.antt =====
-- The constructor of the reader in Python, from the bytes of the file on: `Reader.__init__` of
-- maxminddb/reader.py, lines 67-114, and the dataclass `Metadata`, lines 312-361.
pub mod Opens
use max_mind_db_reader_pytho.Base.{
  ℕ, zero, suc, ◌+◌, ◌-◌, ℤ, pos, negsuc, Bool, true, false, ◌&&◌, Option, some, none, String, List,
  [], ◌∷◌, ◌++◌, map, ◌==◌, if◌then◌else◌, length, drop,
}
use max_mind_db_reader_pytho.Value.{same_key}
use max_mind_db_reader_pytho.Metadata.{codes, is_keyword}
use max_mind_db_reader_pytho.Pure.{
  Result, ok, raises, pure, ◌>>=◌, invalid_database_error, type_error, not_modelled,
}
use max_mind_db_reader_pytho.Pure.Decoder.{
  Decoder, Record, dict, str, int, Items, end, item, decode,
}
use max_mind_db_reader_pytho.Pure.Reader.{Metadata, Reader, find_ipv4_start}

-- `_METADATA_START_MARKER`
abbrev pub metadata_start_marker : List ℕ
metadata_start_marker = 171 ∷ 205 ∷ 239 ∷ codes "MaxMind.com"

-- Whether bytes begin with other ones.
unfoldable pub starts_with : List ℕ → List ℕ → Bool
starts_with bytes [] = true
starts_with [] (x ∷ needle) = false
starts_with (b ∷ bytes) (x ∷ needle) = (b == x) && starts_with bytes needle

-- A place that was found behind, or this one if the needle is here.
abbrev pub or_here : Option ℕ → (here : Bool) → (index : ℕ) → Option ℕ
or_here (some i) here index = some i
or_here none here index = if here then some index else none

-- The last place, counted from `index`, where bytes have the needle, which is not empty.
unfoldable pub find_last : (needle : List ℕ) → (index : ℕ) → List ℕ → Option ℕ
unfolding starts_with
find_last needle index [] = none
find_last needle index (b ∷ bytes) =
    or_here (find_last needle (index + 1) bytes) (starts_with (b ∷ bytes) needle) index

-- `rfind` of bytes from a start on, with `none` for -1.
unfoldable pub rfind : List ℕ → (needle : List ℕ) → (start : ℕ) → Option ℕ
unfolding find_last
rfind bytes needle start = find_last needle start (drop start bytes)

abbrev pub field_names : List (List ℕ)
field_names = map codes (
    "binary_format_major_version" ∷ "binary_format_minor_version" ∷ "build_epoch" ∷ "database_type"
    ∷ "description" ∷ "ip_version" ∷ "languages" ∷ "node_count" ∷ "record_size" ∷ [])

unfoldable pub is_key : List ℕ → Record → Bool
unfolding same_key
is_key name (str s) = same_key s name
is_key name _ = false

-- The value of a key in a dict: the last assignment counts.
unfoldable pub keyword : List ℕ → Items → Option Record
unfolding is_key
keyword name end = none
keyword name (item k v d) = elim (keyword name d) [
  | some r ↦ some r
  | none ↦ if is_key name k then some v else none
]

-- Every key is the name of a field.
unfoldable pub only_fields : Items → Bool
unfolding is_keyword
only_fields end = true
only_fields (item (str s) v d) = is_keyword s field_names && only_fields d
only_fields (item _ v d) = false

unfoldable pub has_fields : Items → List (List ℕ) → Bool
unfolding keyword
has_fields d [] = true
has_fields d (name ∷ names) = elim (keyword name d) [ none ↦ false | some v ↦ has_fields d names ]

-- A number that the reader computes with. What follows with one that is not an int, or that is
-- negative, is not modelled.
unfoldable pub number : Option Record → Result ℕ
number (some (int (pos n))) = ok n
number _ = raises not_modelled

-- `Metadata(**metadata)`
unfoldable pub metadata_of : Items → Result Metadata
unfolding only_fields has_fields number
metadata_of d =
    if only_fields d && has_fields d field_names
    then (do
      ip_version ← number (keyword (codes "ip_version") d)
      node_count ← number (keyword (codes "node_count") d)
      record_size ← number (keyword (codes "record_size") d)
      ok (record { ip_version = ip_version; node_count = node_count; record_size = record_size }))
    else raises type_error

module _ (decode_utf8 : List ℕ → Option (List ℕ)) (limit : ℕ) where
  -- `__init__` from the decoded metadata on.
  unfoldable pub init_with : List ℕ → Record → Result Reader
  unfolding metadata_of find_ipv4_start
  init_with buffer (dict d) = do
    m ← metadata_of d
    ipv4_start ← find_ipv4_start buffer m
    ok (record {
      buffer = buffer;
      buffer_size = length buffer;
      metadata = m;
      ipv4_start = ipv4_start;
    })
  init_with buffer _ =
      raises (invalid_database_error "Error reading metadata in database file ({filename}).")

  -- `__init__` from the answer of the search for the marker on.
  unfoldable pub open_at : List ℕ → Option ℕ → Result Reader
  unfolding decode init_with
  open_at buffer none = raises (
      invalid_database_error
        "Error opening database file ({filename}). Is this a valid MaxMind DB file?")
  open_at buffer (some place) = do
    let metadata_start = place + length metadata_start_marker
    (metadata, last) ←
        decode decode_utf8
          (record { buffer = buffer; pointer_base = metadata_start; pointer_test = false }) limit
          metadata_start
    init_with buffer metadata

  -- `__init__`, with a buffer of bytes or a memory map loaded.
  unfoldable pub init : List ℕ → Result Reader
  unfolding rfind open_at
  init buffer = open_at buffer (rfind buffer metadata_start_marker (length buffer - 131072))
