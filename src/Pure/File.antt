-- ===== src/Pure/File.antt =====
-- The buffer of MODE_FILE, `FileBuffer` of maxminddb/file.py, where the platform has `os.pread`, and
-- the constructor of the reader on it.
pub mod Ends
pub mod Same
use max_mind_db_reader_pytho.Base.{
  ℕ, zero, suc, ◌+◌, ◌-◌, ℤ, pos, negsuc, sub_ℕ, Bool, true, false, Option, some, none, List, [],
  ◌∷◌, map, if◌then◌else◌, length, take, drop,
}
use max_mind_db_reader_pytho.Pure.{Result, ok, raises, pure, ◌>>=◌, value_error, os_error}
use max_mind_db_reader_pytho.Pure.Buffer.{at}
use max_mind_db_reader_pytho.Pure.Reader.{Reader}
use max_mind_db_reader_pytho.Pure.Init.{metadata_start_marker, find_last, open_at}

-- A file that nothing writes to, with the size that was read when it was opened.
pub record FileBuffer : Type 0 where
  pub contents : List ℕ
  pub size : ℕ
  pub is_open : Bool

-- `__init__`
abbrev pub open_file : List ℕ → FileBuffer
open_file contents = record { contents = contents; size = length contents; is_open = true }

-- `_read`, with `os.pread`.
unfoldable pub read : FileBuffer → (buffersize : ℤ) (offset : ℕ) → Result (List ℕ)
read self buffersize offset =
    if self.is_open
    then elim buffersize [
      | pos n ↦ ok (take n (drop offset self.contents))
      | negsuc n ↦ raises os_error
    ]
    else raises (value_error "I/O operation on closed file")

-- `__getitem__` with a slice
unfoldable pub get_slice : FileBuffer → (start stop : ℕ) → Result (List ℕ)
unfolding read
get_slice self start stop = read self (sub_ℕ stop start) start

-- `__getitem__` with an int
unfoldable pub get_index : FileBuffer → ℕ → Result ℕ
unfolding read at
get_index self index = do bytes ← read self (pos 1) index; at bytes 0

-- A place in the file, of one behind a start.
abbrev pub shifted : (start : ℕ) → Option ℕ → Option ℕ
shifted start none = none
shifted start (some place) = some (start + place)

-- `rfind`
unfoldable pub rfind_file : FileBuffer → (needle : List ℕ) → (start : ℕ) → Result (Option ℕ)
unfolding read find_last
rfind_file self needle start = do
  bytes ← read self (sub_ℕ self.size (start + 1)) start
  ok (shifted start (find_last needle 0 bytes))

-- `close`
unfoldable pub close : FileBuffer → FileBuffer
close self = record { contents = self.contents; size = self.size; is_open = false }

-- `Reader.__init__` on this buffer. What follows the search reads slices and single bytes only, which
-- are those of the contents.
unfoldable pub init_file :
    (decode_utf8 : List ℕ → Option (List ℕ)) (limit : ℕ) → FileBuffer → Result Reader
unfolding rfind_file open_at
init_file decode_utf8 limit self = do
  place ← rfind_file self metadata_start_marker (self.size - 131072)
  open_at decode_utf8 limit self.contents place
