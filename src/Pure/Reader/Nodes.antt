-- ===== src/Pure/Reader/Nodes.antt =====
-- The nodes of the search tree as the format lays them out, and `_read_node` of maxminddb/reader.py,
-- which reads them back.
use mathlib.Core.Path.{subst}
use max_mind_db_reader_pytho.Base.{
  ℕ, ◌+◌, ◌*◌, ◌/◌, ◌%◌, ◌^◌, ◌<◌, ◌≡◌, refl, ap, List, [], ◌∷◌, ◌++◌, length, arith,
}
use max_mind_db_reader_pytho.Entry.BigEndian.{big_endian}
use max_mind_db_reader_pytho.Pure.{ok}
use max_mind_db_reader_pytho.Pure.Buffer.{At, slice, slice-At, At-first, At-then}
use max_mind_db_reader_pytho.Pure.Reader.{Metadata, node_byte_size, read_node, fill_28, pop}

-- A number in three and in four bytes.
abbrev pub three_bytes : ℕ → List ℕ
three_bytes n = (n / 65536) ∷ (n / 256 % 256) ∷ (n % 256) ∷ []

abbrev pub four_bytes : ℕ → List ℕ
four_bytes n = (n / 16777216) ∷ (n / 65536 % 256) ∷ (n / 256 % 256) ∷ (n % 256) ∷ []

-- The low 24 bits of a number in three bytes.
abbrev pub low_bytes : ℕ → List ℕ
low_bytes n = (n / 65536 % 256) ∷ (n / 256 % 256) ∷ (n % 256) ∷ []

-- A node with its two records. With 28 bits, the byte in the middle has the high four bits of both.
pub data NodeBytes : (record_size left right : ℕ) → List ℕ → Type 0 where
  small : {l r : ℕ} → l < 2 ^ 24 → r < 2 ^ 24 → NodeBytes 24 l r (three_bytes l ++ three_bytes r)
  medium :
      {l r : ℕ}
      → l < 2 ^ 28
      → r < 2 ^ 28
      → NodeBytes 28 l r (low_bytes l ++ (l / 16777216 * 16 + r / 16777216) ∷ low_bytes r)
  large : {l r : ℕ} → l < 2 ^ 32 → r < 2 ^ 32 → NodeBytes 32 l r (four_bytes l ++ four_bytes r)

-- A part of bytes that stand in the buffer.
slice-part :
    {buffer : List ℕ} {base : ℕ} (xs ys zs : List ℕ) (start stop : ℕ)
    → start ≡ base + length xs
    → stop ≡ start + length ys
    → At buffer base (xs ++ (ys ++ zs))
    → slice buffer start stop ≡ ys
slice-part xs ys zs start stop e e' a =
    slice-At stop e' (At-first ys zs (At-then xs (ys ++ zs) start e a))

module _ (buffer : List ℕ) (m : Metadata) (node : ℕ) where
  abbrev base : ℕ
  base = node * node_byte_size m

  abbrev Both : ℕ → ℕ → Type 0
  Both l r = (read_node buffer m node 0 ≡ ok l) × (read_node buffer m node 1 ≡ ok r)

  -- Nodes of 6, 7 and 8 bytes.
  resized :
      {bs : List ℕ} (size : ℕ)
      → m.record_size ≡ size
      → At buffer base bs
      → At buffer (node * (size / 4)) bs
  resized {bs} size e a = subst (λ n. At buffer (node * (n / 4)) bs) e a

  read_24 :
      (l r : ℕ)
      → m.record_size ≡ 24
      → l < 2 ^ 24
      → r < 2 ^ 24
      → At buffer base (three_bytes l ++ three_bytes r)
      → Both l r
  unfolding read_node big_endian
  read_24 l r e hl hr a =
      let here = resized 24 e a in
      (
        rw
            (
              read_node,
              e,
              slice-part [] (three_bytes l) (three_bytes r) (node * 6 + 0) (node * 6 + 0 + 3)
                  (omega arith) (omega arith) here,
            )
            (ap ok (omega arith)),
        rw
            (
              read_node,
              e,
              slice-part (three_bytes l) (three_bytes r) [] (node * 6 + 3) (node * 6 + 3 + 3)
                  (omega arith) (omega arith) here,
            )
            (ap ok (omega arith)),
      )

  read_28 :
      (l r : ℕ)
      → m.record_size ≡ 28
      → l < 2 ^ 28
      → r < 2 ^ 28
      → At buffer base (low_bytes l ++ (l / 16777216 * 16 + r / 16777216) ∷ low_bytes r)
      → Both l r
  unfolding read_node big_endian fill_28 pop
  read_28 l r e hl hr a =
      let here = resized 28 e a in
      let middle = l / 16777216 * 16 + r / 16777216 in
      (
        rw
            (
              read_node,
              e,
              slice-part [] (low_bytes l ++ middle ∷ []) (low_bytes r) (node * 7 + 0)
                  (node * 7 + 0 + 4) (omega arith) (omega arith) here,
            )
            (ap ok (omega arith)),
        rw
            (
              read_node,
              e,
              slice-part (low_bytes l) (middle ∷ low_bytes r) [] (node * 7 + 3) (node * 7 + 3 + 4)
                  (omega arith) (omega arith) here,
            )
            (ap ok (omega arith)),
      )

  read_32 :
      (l r : ℕ)
      → m.record_size ≡ 32
      → l < 2 ^ 32
      → r < 2 ^ 32
      → At buffer base (four_bytes l ++ four_bytes r)
      → Both l r
  unfolding read_node big_endian
  read_32 l r e hl hr a =
      let here = resized 32 e a in
      (
        rw
            (
              read_node,
              e,
              slice-part [] (four_bytes l) (four_bytes r) (node * 8 + 0) (node * 8 + 0 + 4)
                  (omega arith) (omega arith) here,
            )
            (ap ok (omega arith)),
        rw
            (
              read_node,
              e,
              slice-part (four_bytes l) (four_bytes r) [] (node * 8 + 4) (node * 8 + 4 + 4)
                  (omega arith) (omega arith) here,
            )
            (ap ok (omega arith)),
      )

  of_size :
      (size left right : ℕ) (bs : List ℕ)
      → m.record_size ≡ size
      → NodeBytes size left right bs
      → At buffer base bs
      → Both left right
  of_size _ _ _ _ e (small {l} {r} hl hr) a = read_24 l r e hl hr a
  of_size _ _ _ _ e (medium {l} {r} hl hr) a = read_28 l r e hl hr a
  of_size _ _ _ _ e (large {l} {r} hl hr) a = read_32 l r e hl hr a

  -- Both records of a node that stands in the buffer are read back, for each of the three sizes.
  pub read_node-NodeBytes :
      (left right : ℕ) (bs : List ℕ)
      → NodeBytes m.record_size left right bs
      → At buffer (node * node_byte_size m) bs
      → (read_node buffer m node 0 ≡ ok left) × (read_node buffer m node 1 ≡ ok right)
  read_node-NodeBytes left right bs n a = of_size m.record_size left right bs refl n a
