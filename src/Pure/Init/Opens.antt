-- ===== src/Pure/Init/Opens.antt =====
-- The constructor of the reader in Python opens the files that the format describes:
-- maxminddb/reader.py, lines 67-114.
use max_mind_db_reader_pytho.Base.{
  ℕ, zero, suc, ◌+◌, ◌-◌, ◌≤◌, ◌≡◌, refl, ap, sym, ◌∙◌, Bool, true, false, not, ◌&&◌, Bool-cases,
  inl, inr, Option, some, none, List, [], ◌∷◌, ◌++◌, ◌==◌, ==_refl, if◌then◌else◌, length,
  length-drop, drop, arith,
}
use max_mind_db_reader_pytho.Iter.Trie.{Trie}
use max_mind_db_reader_pytho.Pure.{ok}
use max_mind_db_reader_pytho.Pure.Buffer.{At, At-then, drop-append}
use max_mind_db_reader_pytho.Pure.Decoder.{Decoder, dict, Items}
use max_mind_db_reader_pytho.Pure.Decoder.Reads.{decode-Stored}
use max_mind_db_reader_pytho.Pure.Decoder.RoundTrip.{
  Data, record_of, encode, levels, IsWritable, encode-Stored,
}
use max_mind_db_reader_pytho.Pure.Reader.{Metadata}
use max_mind_db_reader_pytho.Pure.Reader.Tree.{Holds, descend, find_ipv4_start-Holds}
use max_mind_db_reader_pytho.Pure.Init.{
  metadata_start_marker, starts_with, find_last, rfind, metadata_of, init_with, open_at, init,
}

-- The bytes have the needle at no place.
abbrev pub IsAbsent : List ℕ → List ℕ → Type 0
IsAbsent needle [] = Unit
IsAbsent needle (b ∷ bytes) = (starts_with (b ∷ bytes) needle ≡ false) × IsAbsent needle bytes

-- The same as a test.
unfoldable pub is_absent : List ℕ → List ℕ → Bool
unfolding starts_with
is_absent needle [] = true
is_absent needle (b ∷ bytes) = not (starts_with (b ∷ bytes) needle) && is_absent needle bytes

pub IsAbsent-is_absent :
    (needle bytes : List ℕ) → is_absent needle bytes ≡ true → IsAbsent needle bytes
unfolding is_absent
IsAbsent-is_absent needle [] h = tt
IsAbsent-is_absent needle (b ∷ bytes) h = elim (Bool-cases (starts_with (b ∷ bytes) needle)) [
  | inl e ↦ absurd (ground (arith, e, h))
  | inr e ↦
      (e, IsAbsent-is_absent needle bytes (ap (λ t. not t && is_absent needle bytes) (sym e) ∙ h))
]

find_last-IsAbsent :
    (needle bytes : List ℕ) (index : ℕ)
    → IsAbsent needle bytes
    → find_last needle index bytes ≡ none
unfolding find_last
find_last-IsAbsent needle [] index h = refl
find_last-IsAbsent needle (b ∷ bytes) index (h, hs) =
    rw (find_last, find_last-IsAbsent needle bytes (index + 1) hs, h) refl

starts_with-append : (needle behind : List ℕ) → starts_with (needle ++ behind) needle ≡ true
unfolding starts_with
starts_with-append [] [] = refl
starts_with-append [] (b ∷ behind) = refl
starts_with-append (x ∷ needle) behind = rw (==_refl x, starts_with-append needle behind) refl

-- What stands in front does not change the last place.
find_last-append :
    (needle front bytes : List ℕ) (index place : ℕ)
    → find_last needle (index + length front) bytes ≡ some place
    → find_last needle index (front ++ bytes) ≡ some place
unfolding find_last
find_last-append needle [] bytes index place h =
    let e : index ≡ index + length {A = ℕ} [] = omega arith in
    ap (λ i. find_last needle i bytes) e ∙ h
find_last-append needle (x ∷ front) bytes index place h =
    let e : index + 1 + length front ≡ index + suc (length front) = omega arith in
    let rest =
      find_last-append needle front bytes (index + 1) place
        (ap (λ i. find_last needle i bytes) e ∙ h) in
    rw (find_last, rest) refl

pub drop-front :
    (n : ℕ) (front bytes : List ℕ)
    → n ≤ length front
    → drop n (front ++ bytes) ≡ drop n front ++ bytes
drop-front zero front bytes h = refl
drop-front (suc n) [] bytes h = absurd (omega arith)
drop-front (suc n) (x ∷ front) bytes h = drop-front n front bytes (omega arith)

-- The last place of a needle that does not occur behind its first byte again.
rfind_lem :
    (front : List ℕ) (x : ℕ) (needle behind : List ℕ) (start : ℕ)
    → start ≤ length front
    → IsAbsent (x ∷ needle) (needle ++ behind)
    → rfind (front ++ ((x ∷ needle) ++ behind)) (x ∷ needle) start ≡ some (length front)
unfolding rfind find_last
rfind_lem front x needle behind start h absent =
    ap (find_last (x ∷ needle) start) (drop-front start front ((x ∷ needle) ++ behind) h)
    ∙ find_last-append (x ∷ needle) (drop start front) ((x ∷ needle) ++ behind) start (length front)
        (rw
          (
            find_last,
            find_last-IsAbsent (x ∷ needle) (needle ++ behind)
                (start + length (drop start front) + 1) absent,
            starts_with-append (x ∷ needle) behind,
          )
          (ap some (omega (arith, length-drop start front))))

-- A file: search tree and data section, the marker, the metadata, and what is behind them.
abbrev pub database : List ℕ → Data → List ℕ → List ℕ
database front d behind = front ++ (metadata_start_marker ++ (encode d ++ behind))

module _ (decode_utf8 : List ℕ → Option (List ℕ)) (limit : ℕ) where
  init_with_lem :
      (file : List ℕ) (d : Items) (m : Metadata) (t : Trie)
      → metadata_of d ≡ ok m
      → Holds file m 0 t
      → (u : ℕ) × (init_with decode_utf8 limit file (dict d)
          ≡ ok (record { buffer = file; buffer_size = length file; metadata = m; ipv4_start = u }))
        × Holds file m u (if m.ip_version == 6 then (descend (λ i. 0) 96 0 t).0 else t)
  unfolding init_with
  init_with_lem file d m t known h =
      let (u, e, start) = find_ipv4_start-Holds file m t h in
      (u, rw (init_with, known, e) refl, start)

  -- The constructor opens a file whose metadata, written by the format as a map of the nine fields
  -- with numbers where it computes, follow the last marker in the last 128 kB, and whose first
  -- bytes hold a search tree: the reader has the bytes of the file, the numbers of the metadata,
  -- and as the start of IPv4 the record that 96 zero bits lead to from the root of an IPv6 tree, or
  -- the root.
  pub init-database :
      (front : List ℕ) (d : Data) (behind : List ℕ) (items : Items) (m : Metadata) (t : Trie)
      → length (database front d behind) - 131072 ≤ length front
      → IsAbsent metadata_start_marker (drop 1 (metadata_start_marker ++ (encode d ++ behind)))
      → IsWritable decode_utf8 d
      → levels d ≤ limit
      → record_of d ≡ dict items
      → metadata_of items ≡ ok m
      → Holds (database front d behind) m 0 t
      → (u : ℕ) × (init decode_utf8 limit (database front d behind)
          ≡ ok (record {
            buffer = database front d behind;
            buffer_size = length (database front d behind);
            metadata = m;
            ipv4_start = u;
          }))
        × Holds
            (database front d behind)
            m
            u
            (if m.ip_version == 6 then (descend (λ i. 0) 96 0 t).0 else t)
  unfolding init open_at
  init-database front d behind items m t near absent writable fits is known h =
      let file = database front d behind in
      let start = length front + length metadata_start_marker in
      let here : At file (length front) (metadata_start_marker ++ encode d) = record {
        rest = behind;
        is = drop-append front (metadata_start_marker ++ (encode d ++ behind));
      } in
      let self : Decoder = record { buffer = file; pointer_base = start; pointer_test = false } in
      let read = decode-Stored decode_utf8 self refl limit fits (
        encode-Stored decode_utf8 self d (levels d) start (start + length (encode d)) writable
          (omega arith) (At-then metadata_start_marker (encode d) start refl here) refl) in
      let (u, e, last) = init_with_lem file items m t known h in
      let found =
        rfind_lem front 171 (drop 1 metadata_start_marker) (encode d ++ behind)
          (length file - 131072) near absent in
      (u, rw (init, found, read, is) e, last)
