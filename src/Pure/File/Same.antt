-- ===== src/Pure/File/Same.antt =====
-- A file read piece by piece, maxminddb/file.py, against the bytes of the file in memory.
use max_mind_db_reader_pytho.Base.{
  ℕ, zero, suc, ◌+◌, ◌-◌, ◌≤◌, ◌<◌, ◌≡◌, refl, ap, sym, ◌∙◌, sub_ℕ, false, Option, List, [], ◌∷◌,
  ◌++◌, length, length-append, length-drop, take, drop, get_elem?, arith,
}
use max_mind_db_reader_pytho.Pure.{ok, ◌>>=◌}
use max_mind_db_reader_pytho.Pure.Buffer.{at, slice, take-append}
use max_mind_db_reader_pytho.Pure.Init.{metadata_start_marker, find_last, rfind, open_at, init}
use max_mind_db_reader_pytho.Pure.Init.Opens.{drop-front}
use max_mind_db_reader_pytho.Pure.File.{
  open_file, read, get_slice, get_index, shifted, rfind_file, init_file,
}
use max_mind_db_reader_pytho.Pure.File.Ends.{
  ends_with, ends_with-drop, find_last-last, find_last-shifted,
}

-- Reads of a file that is open.
read-open_file :
    (contents : List ℕ) (start stop : ℕ)
    → start ≤ stop
    → read (open_file contents) (sub_ℕ stop start) start ≡ ok (slice contents start stop)
unfolding read
read-open_file contents start stop le = ground (arith, le)

-- `rfind` of the file reads all bytes but the last one.
rfind_file-slice :
    (contents needle : List ℕ) (start : ℕ)
    → start < length contents
    → rfind_file (open_file contents) needle start
      ≡ ok (
          shifted start
            (find_last needle 0 (take (length contents - (start + 1)) (drop start contents))))
unfolding rfind_file read
rfind_file-slice contents needle start le = ground (arith, le)

rfind_file-rfind :
    (bytes needle : List ℕ) (b start : ℕ)
    → start ≤ length bytes
    → 0 < length needle
    → ends_with (bytes ++ (b ∷ [])) needle ≡ false
    → rfind_file (open_file (bytes ++ (b ∷ []))) needle start
      ≡ ok (rfind (bytes ++ (b ∷ [])) needle start)
unfolding rfind
rfind_file-rfind bytes needle b start le some_needle h =
    let contents = bytes ++ (b ∷ []) in
    let rest = drop start bytes in
    let size = length-append bytes (b ∷ []) in
    let front = drop-front start bytes (b ∷ []) le in
    let e : length contents - (start + 1) ≡ length rest =
      omega (arith, size, length-drop start bytes) in
    let taken : take (length contents - (start + 1)) (drop start contents) ≡ rest =
      ap (λ ys. take (length contents - (start + 1)) ys) front
      ∙ ap (λ n. take n (rest ++ (b ∷ []))) e
      ∙ take-append rest (b ∷ []) in
    let none_last : ends_with (rest ++ (b ∷ [])) needle ≡ false =
      ap (λ ys. ends_with ys needle) (sym front)
      ∙ ends_with-drop start contents needle some_needle h in
    let zero_more : start + 0 ≡ start = omega arith in
    rfind_file-slice contents needle start (omega (arith, size))
    ∙ ap (λ ys. ok (shifted start (find_last needle 0 ys))) taken
    ∙ ap ok (
        sym (find_last-shifted needle rest start 0)
        ∙ ap (λ i. find_last needle i rest) zero_more
        ∙ sym (find_last-last rest needle b start some_needle none_last)
        ∙ ap (find_last needle start) (sym front))

get_slice-slice :
    (contents : List ℕ) (start stop : ℕ)
    → start ≤ stop
    → get_slice (open_file contents) start stop ≡ ok (slice contents start stop)
unfolding get_slice
get_slice-slice contents start stop le = read-open_file contents start stop le

get_elem?-take :
    (bytes : List ℕ) (index : ℕ) → get_elem? (take 1 (drop index bytes)) 0 ≡ get_elem? bytes index
get_elem?-take [] zero = refl
get_elem?-take [] (suc index) = refl
get_elem?-take (b ∷ bytes) zero = refl
get_elem?-take (b ∷ bytes) (suc index) = get_elem?-take bytes index

get_index-at :
    (contents : List ℕ) (index : ℕ) → get_index (open_file contents) index ≡ at contents index
unfolding get_index read at
get_index-at contents index = rw (at, get_elem?-take contents index) refl

-- What stands in front of the last byte.
last_split :
    (bytes : List ℕ) → 0 < length bytes → (front : List ℕ) × (b : ℕ) × (bytes ≡ front ++ (b ∷ []))
last_split [] h = absurd (omega arith)
last_split (b ∷ []) h = ([], b, refl)
last_split (b ∷ c ∷ bytes) h =
    let (front, last, e) = last_split (c ∷ bytes) (omega arith) in
    (b ∷ front, last, ap (λ ys. b ∷ ys) e)

open_file-rfind :
    (contents needle : List ℕ) (start : ℕ)
    → start < length contents
    → 0 < length needle
    → ends_with contents needle ≡ false
    → rfind_file (open_file contents) needle start ≡ ok (rfind contents needle start)
open_file-rfind contents needle start le some_needle h =
    let (front, b, e) = last_split contents (omega arith) in
    let size = length-append front (b ∷ []) in
    let whole = ap length e in
    ap (λ ys. rfind_file (open_file ys) needle start) e
    ∙ rfind_file-rfind front needle b start (omega (arith, size, whole)) some_needle
        (ap (λ ys. ends_with ys needle) (sym e) ∙ h)
    ∙ ap (λ ys. ok (rfind ys needle start)) (sym e)

-- The reader that reads a file piece by piece does what the one with the file in memory does: the
-- constructor makes the same reader or raises the same exception, and slices and single bytes are the
-- same, out of range too. The file has a byte and does not end with the marker of the metadata.
pub init_file-init :
    (decode_utf8 : List ℕ → Option (List ℕ)) (limit : ℕ) (contents : List ℕ) (start stop index : ℕ)
    → 0 < length contents
    → ends_with contents metadata_start_marker ≡ false
    → start ≤ stop
    → (init_file decode_utf8 limit (open_file contents) ≡ init decode_utf8 limit contents)
      × (get_slice (open_file contents) start stop ≡ ok (slice contents start stop))
      × (get_index (open_file contents) index ≡ at contents index)
unfolding init_file init
init_file-init decode_utf8 limit contents start stop index some_byte h le = (
  ap (λ r. r >>= open_at decode_utf8 limit contents)
      (open_file-rfind contents metadata_start_marker (length contents - 131072) (omega arith)
        (omega arith) h),
  get_slice-slice contents start stop le,
  get_index-at contents index,
)
