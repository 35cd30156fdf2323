-- ===== src/Pure/Decoder/Leaves.antt =====
-- Values without parts are read from their bytes: maxminddb/decoder.py, lines 52-82 and 115-122.
use max_mind_db_reader_pytho.Base.{
  ℕ, ◌+◌, ◌^◌, ◌≤◌, ◌<◌, ◌≡◌, refl, ap, ℤ, pos, true, false, ◌==◌, Option, some, List, [], ◌∷◌, ltb,
  length, arith, sub_ℕ, All, IsByte,
}
use max_mind_db_reader_pytho.Entry.BigEndian.{big_endian}
use max_mind_db_reader_pytho.Pure.{ok}
use max_mind_db_reader_pytho.Pure.Buffer.{At, unpack, unpack_signed, slice-At}
use max_mind_db_reader_pytho.Pure.Decoder.{
  Decoder, Decoded, Record, int, type_decoder, decode_boolean, decode_bytes, decode_double,
  decode_float, decode_int32, decode_uint, decode_utf8_string, verify_size,
}
use max_mind_db_reader_pytho.Pure.Decoder.Format.{
  Leaf, text, double_bits, octets, uint16, uint32, short_int32, natural_int32, negative_int32,
  uint64, uint128, falsity, truth, float_bits,
}
use max_mind_db_reader_pytho.Pure.Decoder.Header.{ok_pair}

module _ (decode_utf8 : List ℕ → Option (List ℕ)) (self : Decoder) where
  -- A decoder that reads a value from its bytes.
  abbrev pub Reads : (ℕ → ℕ → Decoded) → ℕ → ℕ → List ℕ → Record → Type 0
  Reads decoder n o bs v = decoder n o ≡ ok (v, o + length bs)

  decode_uint-Reads :
      (o : ℕ) (bs : List ℕ)
      → At self.buffer o bs
      → Reads (decode_uint decode_utf8 self) (length bs) o bs (int (pos (big_endian bs)))
  unfolding decode_uint
  decode_uint-Reads o bs a = rw (decode_uint, slice-At (o + length bs) refl a) refl

  -- Four bytes in two's complement.
  unpack_natural :
      (bs : List ℕ)
      → length bs ≡ 4
      → big_endian bs < 2 ^ 31
      → unpack_signed bs ≡ ok (pos (big_endian bs))
  unfolding unpack_signed
  unpack_natural bs width small =
      let e : (length bs == 4) ≡ true = ground arith in
      let e' : ltb (big_endian bs) (2 ^ 31) ≡ true = ground arith in rw (unpack_signed, e, e') refl

  unpack_negative :
      (bs : List ℕ)
      → length bs ≡ 4
      → 2 ^ 31 ≤ big_endian bs
      → unpack_signed bs ≡ ok (sub_ℕ (big_endian bs) (2 ^ 32))
  unfolding unpack_signed
  unpack_negative bs width big =
      let e : (length bs == 4) ≡ true = ground arith in
      let e' : ltb (big_endian bs) (2 ^ 31) ≡ false = ground arith in rw (unpack_signed, e, e') refl

  int32_whole :
      (o : ℕ) (bs : List ℕ) (x : ℤ)
      → length bs ≡ 4
      → unpack_signed bs ≡ ok x
      → At self.buffer o bs
      → Reads (decode_int32 decode_utf8 self) 4 o bs (int x)
  unfolding decode_int32
  int32_whole o bs x width e a =
      rw (decode_int32, slice-At (o + 4) (omega (arith, width)) a, e)
        (ok_pair refl (omega (arith, width)))

  int_at : {n m o : ℕ} → n ≡ m → ◌≡◌ {A = Decoded} (ok (int (pos n), o)) (ok (int (pos m), o))
  int_at {o} e = ap (λ k. ok (int (pos k), o)) e

  int32_short :
      (o : ℕ) (bs : List ℕ)
      → length bs < 4
      → All IsByte bs
      → At self.buffer o bs
      → Reads (decode_int32 decode_utf8 self) (length bs) o bs (int (pos (big_endian bs)))
  unfolding decode_int32 big_endian
  int32_short o [] h hs a = ok_pair refl (omega arith)
  int32_short o (x ∷ []) h (hx, _) a =
      let e : ltb (big_endian (0 ∷ 0 ∷ 0 ∷ x ∷ [])) (2 ^ 31) ≡ true = ground arith in
      rw (decode_int32, slice-At (o + 1) refl a, e) (int_at (omega arith))
  int32_short o (x ∷ y ∷ []) h (hx, (hy, _)) a =
      let e : ltb (big_endian (0 ∷ 0 ∷ x ∷ y ∷ [])) (2 ^ 31) ≡ true = ground arith in
      rw (decode_int32, slice-At (o + 2) refl a, e) (int_at (omega arith))
  int32_short o (x ∷ y ∷ z ∷ []) h (hx, (hy, (hz, _))) a =
      let e : ltb (big_endian (0 ∷ x ∷ y ∷ z ∷ [])) (2 ^ 31) ≡ true = ground arith in
      rw (decode_int32, slice-At (o + 3) refl a, e) (int_at (omega arith))
  int32_short o (x ∷ y ∷ z ∷ u ∷ bs) h hs a = absurd (omega arith)

  module _ (decode : ℕ → Decoded) where
    -- A value without parts is read from its bytes.
    pub Leaf-Reads :
        {t n : ℕ} {bs : List ℕ} {v : Record} (o : ℕ)
        → Leaf decode_utf8 t n bs v
        → At self.buffer o bs
        → (decoder : ℕ → ℕ → Decoded) × (1 < t)
          × (type_decoder decode_utf8 self decode t ≡ some decoder)
          × Reads decoder n o bs v
    unfolding type_decoder decode_utf8_string decode_double decode_float decode_bytes decode_boolean
        verify_size unpack
    Leaf-Reads {bs} o (text e) a = (
      decode_utf8_string decode_utf8 self,
      omega arith,
      refl,
      rw (decode_utf8_string, slice-At (o + length bs) refl a, e) refl,
    )
    Leaf-Reads {bs} o (double_bits e) a = (
      decode_double decode_utf8 self,
      omega arith,
      refl,
      let h : (length bs == 8) ≡ true = ground arith in
          rw (decode_double, slice-At (o + 8) (omega (arith, e)) a, h)
            (ok_pair refl (omega (arith, e))),
    )
    Leaf-Reads {bs} o octets a = (
      decode_bytes decode_utf8 self,
      omega arith,
      refl,
      rw (decode_bytes, slice-At (o + length bs) refl a) refl,
    )
    Leaf-Reads {bs} o uint16 a =
        (decode_uint decode_utf8 self, omega arith, refl, decode_uint-Reads o bs a)
    Leaf-Reads {bs} o uint32 a =
        (decode_uint decode_utf8 self, omega arith, refl, decode_uint-Reads o bs a)
    Leaf-Reads {bs} o (short_int32 h hs) a =
        (decode_int32 decode_utf8 self, omega arith, refl, int32_short o bs h hs a)
    Leaf-Reads {bs} o (natural_int32 e h) a = (
      decode_int32 decode_utf8 self,
      omega arith,
      refl,
      int32_whole o bs _ e (unpack_natural bs e h) a,
    )
    Leaf-Reads {bs} o (negative_int32 e h) a = (
      decode_int32 decode_utf8 self,
      omega arith,
      refl,
      int32_whole o bs _ e (unpack_negative bs e h) a,
    )
    Leaf-Reads {bs} o uint64 a =
        (decode_uint decode_utf8 self, omega arith, refl, decode_uint-Reads o bs a)
    Leaf-Reads {bs} o uint128 a =
        (decode_uint decode_utf8 self, omega arith, refl, decode_uint-Reads o bs a)
    Leaf-Reads o falsity a =
        (decode_boolean decode_utf8 self, omega arith, refl, ok_pair refl (omega arith))
    Leaf-Reads o truth a =
        (decode_boolean decode_utf8 self, omega arith, refl, ok_pair refl (omega arith))
    Leaf-Reads {bs} o (float_bits e) a = (
      decode_float decode_utf8 self,
      omega arith,
      refl,
      let h : (length bs == 4) ≡ true = ground arith in
          rw (decode_float, slice-At (o + 4) (omega (arith, e)) a, h)
            (ok_pair refl (omega (arith, e))),
    )
