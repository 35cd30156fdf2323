-- ===== src/Pure/Decoder/Pointers.antt =====
-- Pointers are followed: `_decode_pointer` of maxminddb/decoder.py, lines 92-113.
use mathlib.Core.Path.{subst}
use max_mind_db_reader_pytho.Base.{
  ℕ, ◌+◌, ◌/◌, ◌%◌, ◌≡◌, refl, ap, ◌∙◌, false, Option, List, [], ◌∷◌, length, arith,
}
use max_mind_db_reader_pytho.Pure.{ok, ◌>>=◌}
use max_mind_db_reader_pytho.Pure.Buffer.{At, slice, at-At, slice-At, At-then}
use max_mind_db_reader_pytho.Pure.Decoder.{
  Decoder, Decoded, size_from_ctrl_byte, type_decoder, decode_type, decode_as, decode_pointer,
  pointer_value,
}
use max_mind_db_reader_pytho.Pure.Decoder.Format.{
  Points, one_byte, two_bytes, three_bytes, four_bytes,
}

module _ (decode_utf8 : List ℕ → Option (List ℕ)) (self : Decoder) (decode : ℕ → Decoded) where
  -- A pointer whose number is known.
  decode_pointer_lem :
      (size offset number : ℕ) (buf : List ℕ)
      → slice self.buffer offset (offset + (size / 8 + 1)) ≡ buf
      → pointer_value decode_utf8 self size buf ≡ ok number
      → self.pointer_test ≡ false
      → decode_pointer decode_utf8 self decode size offset
        ≡ decode number >>= (λ (v, last). ok (v, offset + (size / 8 + 1)))
  unfolding decode_pointer
  decode_pointer_lem size offset number buf e e' plain = rw (decode_pointer, e, e', plain) refl

  pointer_value-Points :
      {bs : List ℕ} {number : ℕ}
      → Points bs number
      → (ctrl : ℕ) × (buf : List ℕ) × (bs ≡ ctrl ∷ buf)
        × (ctrl / 32 ≡ 1)
        × (length buf ≡ ctrl % 32 / 8 + 1)
        × (pointer_value decode_utf8 self (ctrl % 32) buf ≡ ok (number + self.pointer_base))
  unfolding pointer_value
  pointer_value-Points (one_byte h low lt) =
      let e : (32 + h) % 32 ≡ h = omega arith in
      let k : h / 8 ≡ 0 = omega arith in
      let r : h % 8 ≡ h = omega arith in
      (
        32 + h,
        low ∷ [],
        refl,
        omega arith,
        omega arith,
        rw (pointer_value, e, k, r) (ap ok (omega arith)),
      )
  pointer_value-Points (two_bytes h a b lt) =
      let e : (40 + h) % 32 ≡ 8 + h = omega arith in
      let k : (8 + h) / 8 ≡ 1 = omega arith in
      let r : (8 + h) % 8 ≡ h = omega arith in
      (
        40 + h,
        a ∷ b ∷ [],
        refl,
        omega arith,
        omega arith,
        rw (pointer_value, e, k, r) (ap ok (omega arith)),
      )
  pointer_value-Points (three_bytes h a b c lt) =
      let e : (48 + h) % 32 ≡ 16 + h = omega arith in
      let k : (16 + h) / 8 ≡ 2 = omega arith in
      let r : (16 + h) % 8 ≡ h = omega arith in
      (
        48 + h,
        a ∷ b ∷ c ∷ [],
        refl,
        omega arith,
        omega arith,
        rw (pointer_value, e, k, r) (ap ok (omega arith)),
      )
  pointer_value-Points (four_bytes h a b c d lt) =
      let e : (56 + h) % 32 ≡ 24 + h = omega arith in
      let k : (24 + h) / 8 ≡ 3 = omega arith in
      (
        56 + h,
        a ∷ b ∷ c ∷ d ∷ [],
        refl,
        omega arith,
        omega arith,
        rw (pointer_value, e, k) (ap ok (omega arith)),
      )

  -- The control byte of a pointer.
  decode_type-pointer :
      (offset ctrl : ℕ) (buf : List ℕ)
      → ctrl / 32 ≡ 1
      → At self.buffer offset (ctrl ∷ buf)
      → decode_type decode_utf8 self decode offset
        ≡ decode_pointer decode_utf8 self decode (ctrl % 32) (offset + 1)
  unfolding decode_type decode_as type_decoder size_from_ctrl_byte
  decode_type-pointer offset ctrl buf e a = rw (decode_type, at-At a, e) refl

  -- A pointer in the buffer: what is decoded is what it points to, and the offset is behind the
  -- pointer.
  pub decode_type-Points :
      {bs : List ℕ} {number : ℕ} (offset : ℕ)
      → Points bs number
      → At self.buffer offset bs
      → self.pointer_test ≡ false
      → decode_type decode_utf8 self decode offset
        ≡ decode (number + self.pointer_base) >>= (λ (v, last). ok (v, offset + length bs))
  decode_type-Points {bs} {number} offset points a plain =
      let (ctrl, buf, is, type_num, width, pointed) = pointer_value-Points points in
      let here = subst (At self.buffer offset) is a in
      let buf_here = At-then (ctrl ∷ []) buf (offset + 1) (omega arith) here in
      let e : offset + 1 + (ctrl % 32 / 8 + 1) ≡ offset + length bs =
        omega (arith, width, ap length is) in
      decode_type-pointer offset ctrl buf type_num here
      ∙ decode_pointer_lem (ctrl % 32) (offset + 1) _ buf
          (slice-At (offset + 1 + (ctrl % 32 / 8 + 1)) (omega (arith, width)) buf_here) pointed
          plain
      ∙ ap (λ k. decode (number + self.pointer_base) >>= (λ (v, last). ok (v, k))) e
