-- ===== src/Pure/Decoder/Cycles.antt =====
-- Pointers that never lead to a value: `_decode_pointer` of maxminddb/decoder.py, lines 92-113.
use max_mind_db_reader_pytho.Base.{ℕ, zero, suc, ◌+◌, ◌≡◌, refl, ◌∙◌, false, Option, List}
use max_mind_db_reader_pytho.Pure.{raises, recursion_error}
use max_mind_db_reader_pytho.Pure.Buffer.{At}
use max_mind_db_reader_pytho.Pure.Decoder.{Decoder, decode}
use max_mind_db_reader_pytho.Pure.Decoder.Format.{Points}
use max_mind_db_reader_pytho.Pure.Decoder.Pointers.{decode_type-Points}

-- The buffer has a pointer at each of the offsets, which leads to one of them.
abbrev pub IsTrap : Decoder → (ℕ → Type 0) → Type 0
IsTrap self P =
    (offset : ℕ)
    → P offset
    → (bs : List ℕ) × (number : ℕ) × Points bs number
      × At self.buffer offset bs
      × P (number + self.pointer_base)

-- Decoding at a pointer from which pointers lead to pointers for ever ends with a RecursionError,
-- however deep Python's stack is.
pub decode-IsTrap :
    (decode_utf8 : List ℕ → Option (List ℕ)) (self : Decoder) (P : ℕ → Type 0)
    → self.pointer_test ≡ false
    → IsTrap self P
    → (limit offset : ℕ) → P offset
    → decode decode_utf8 self limit offset ≡ raises recursion_error
unfolding decode
decode-IsTrap decode_utf8 self P plain trap zero offset h = refl
decode-IsTrap decode_utf8 self P plain trap (suc limit) offset h =
    let (bs, number, points, here, next) = trap offset h in
    decode_type-Points decode_utf8 self (decode decode_utf8 self limit) offset points here plain
    ∙ rw (decode-IsTrap decode_utf8 self P plain trap limit (number + self.pointer_base) next) refl
