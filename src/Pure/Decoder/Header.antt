-- ===== src/Pure/Decoder/Header.antt =====
-- The control bytes are read back: `decode`, `_read_extended` and `_size_from_ctrl_byte` of
-- maxminddb/decoder.py.
use mathlib.Core.Path.{subst}
use max_mind_db_reader_pytho.Base.{
  ℕ, ◌+◌, ◌-◌, ◌*◌, ◌/◌, ◌%◌, ◌≤◌, ◌<◌, ◌≡◌, refl, ap, ◌∙◌, true, false, ◌==◌, Option, some, List,
  [], ◌∷◌, ltb, length, Bool-cases, inl, inr, arith,
}
use max_mind_db_reader_pytho.Entry.BigEndian.{big_endian}
use max_mind_db_reader_pytho.Pure.{Result, ok}
use max_mind_db_reader_pytho.Pure.Buffer.{At, unpack, at-At, slice-At, At-first, At-then}
use max_mind_db_reader_pytho.Pure.Decoder.{
  Decoder, Decoded, size_from_ctrl_byte, read_extended, type_decoder, decode_as, decode_type,
}
use max_mind_db_reader_pytho.Pure.Decoder.Format.{size_bits, size_bytes, control, size_bound}

pub unpack_two : (a b : ℕ) → unpack 2 (a ∷ b ∷ []) ≡ ok (a * 256 + b)
unfolding unpack big_endian
unpack_two a b = ap ok (omega arith)

pub unpack_four :
    (a b c d : ℕ) → unpack 4 (a ∷ b ∷ c ∷ d ∷ []) ≡ ok (a * 16777216 + b * 65536 + c * 256 + d)
unfolding unpack big_endian
unpack_four a b c d = ap ok (omega arith)

pub ok_pair {ℓ} :
    {A : Type ℓ} {a a' : A} {b b' : ℕ}
    → a ≡ a'
    → b ≡ b'
    → ◌≡◌ {A = Result (A × ℕ)} (ok (a, b)) (ok (a', b'))
ok_pair {a'} {b} e e' = ap (λ x. ok (x, b)) e ∙ ap (λ y. ok (a', y)) e'

-- The four forms of a size.
size_bytes_small : (n : ℕ) → ltb n 29 ≡ true → (size_bits n ≡ n) × (size_bytes n ≡ [])
unfolding size_bits size_bytes
size_bytes_small n small = (rw small refl, rw small refl)

size_bytes_one :
    (n : ℕ)
    → ltb n 29 ≡ false
    → ltb n 285 ≡ true
    → (size_bits n ≡ 29) × (size_bytes n ≡ (n - 29) ∷ [])
unfolding size_bits size_bytes
size_bytes_one n h one = (rw (h, one) refl, rw (h, one) refl)

size_bytes_two :
    (n : ℕ)
    → ltb n 29 ≡ false
    → ltb n 285 ≡ false
    → ltb n 65821 ≡ true
    → (size_bits n ≡ 30) × (size_bytes n ≡ ((n - 285) / 256) ∷ ((n - 285) % 256) ∷ [])
unfolding size_bits size_bytes
size_bytes_two n h h' two = (rw (h, h', two) refl, rw (h, h', two) refl)

size_bytes_three :
    (n : ℕ)
    → ltb n 29 ≡ false
    → ltb n 285 ≡ false
    → ltb n 65821 ≡ false
    → (size_bits n ≡ 31)
      × (size_bytes n
          ≡ ((n - 65821) / 65536) ∷ ((n - 65821) / 256 % 256) ∷ ((n - 65821) % 256) ∷ [])
unfolding size_bits size_bytes
size_bytes_three n h h' h'' = (rw (h, h', h'') refl, rw (h, h', h'') refl)

module _ (decode_utf8 : List ℕ → Option (List ℕ)) (self : Decoder) where
  module _ (c o t : ℕ) (not_pointer : (t == 1) ≡ false) where
    from_small :
        (n : ℕ)
        → c % 32 ≡ n
        → ltb n 29 ≡ true
        → size_from_ctrl_byte decode_utf8 self c o t ≡ ok (n, o)
    unfolding size_from_ctrl_byte
    from_small n bits small = rw (size_from_ctrl_byte, not_pointer, bits, small) refl

    from_one :
        (b : ℕ)
        → c % 32 ≡ 29
        → At self.buffer o (b ∷ [])
        → size_from_ctrl_byte decode_utf8 self c o t ≡ ok (29 + b, o + 1)
    unfolding size_from_ctrl_byte
    from_one b bits a = rw (size_from_ctrl_byte, not_pointer, bits, at-At a) refl

    from_two :
        (a b : ℕ)
        → c % 32 ≡ 30
        → At self.buffer o (a ∷ b ∷ [])
        → size_from_ctrl_byte decode_utf8 self c o t ≡ ok (285 + (a * 256 + b), o + 2)
    unfolding size_from_ctrl_byte
    from_two a b bits here =
        rw (size_from_ctrl_byte, not_pointer, bits, slice-At (o + 2) (omega arith) here)
          (ok_pair (omega arith) refl)

    from_three :
        (a b d : ℕ)
        → c % 32 ≡ 31
        → At self.buffer o (a ∷ b ∷ d ∷ [])
        → size_from_ctrl_byte decode_utf8 self c o t
          ≡ ok (0 * 16777216 + a * 65536 + b * 256 + d + 65821, o + 3)
    unfolding size_from_ctrl_byte
    from_three a b d bits here =
        rw (size_from_ctrl_byte, not_pointer, bits, slice-At (o + 3) (omega arith) here)
          (ok_pair (omega arith) refl)

    pub size_from_ctrl_byte-size_bytes :
        (n : ℕ)
        → c % 32 ≡ size_bits n
        → n < size_bound
        → At self.buffer o (size_bytes n)
        → size_from_ctrl_byte decode_utf8 self c o t ≡ ok (n, o + length (size_bytes n))
    size_from_ctrl_byte-size_bytes n bits bound a = elim (Bool-cases (ltb n 29)) [
      | inl small ↦
          let (e, e') = size_bytes_small n small in
          from_small n (bits ∙ e) small ∙ ok_pair refl (omega (arith, ap length e'))
      | inr h ↦ elim (Bool-cases (ltb n 285)) [
        | inl one ↦
            let (e, e') = size_bytes_one n h one in
            from_one (n - 29) (bits ∙ e) (subst (At self.buffer o) e' a)
            ∙ ok_pair (ground arith) (omega (arith, ap length e'))
        | inr h' ↦ elim (Bool-cases (ltb n 65821)) [
          | inl two ↦
              let (e, e') = size_bytes_two n h h' two in
              from_two ((n - 285) / 256) ((n - 285) % 256) (bits ∙ e)
                (subst (At self.buffer o) e' a)
              ∙ ok_pair (ground arith) (omega (arith, ap length e'))
          | inr three ↦
              let (e, e') = size_bytes_three n h h' three in
              from_three ((n - 65821) / 65536) ((n - 65821) / 256 % 256) ((n - 65821) % 256)
                (bits ∙ e) (subst (At self.buffer o) e' a)
              ∙ ok_pair (ground arith) (omega (arith, ap length e'))
        ]
      ]
    ]

size_bits-lt : (n : ℕ) → size_bits n < 32
unfolding size_bits
size_bits-lt n = elim (Bool-cases (ltb n 29)) [
  | inl small ↦ rw small (ground arith)
  | inr h ↦ elim (Bool-cases (ltb n 285)) [
    | inl one ↦ rw (h, one) (omega arith)
    | inr h' ↦ elim (Bool-cases (ltb n 65821)) [
      | inl two ↦ rw (h, h', two) (omega arith)
      | inr three ↦ rw (h, h', three) (omega arith)
    ]
  ]
]

control_short : (t n : ℕ) → ltb t 8 ≡ true → control t n ≡ (t * 32 + size_bits n) ∷ size_bytes n
unfolding control
control_short t n h = rw h refl

control_extended : (t n : ℕ) → ltb t 8 ≡ false → control t n ≡ size_bits n ∷ (t - 7) ∷ size_bytes n
unfolding control
control_extended t n h = rw h refl

module _ (decode_utf8 : List ℕ → Option (List ℕ)) (self : Decoder) (decode : ℕ → Decoded) where
  read_extended_lem :
      (offset t : ℕ)
      → 7 ≤ t
      → At self.buffer offset ((t - 7) ∷ [])
      → read_extended decode_utf8 self offset ≡ ok (t, offset + 1)
  unfolding read_extended
  read_extended_lem offset t h a =
      let e : ltb (t - 7 + 7) 7 ≡ false = ground arith in
      rw (read_extended, at-At a, e) (ok_pair (omega arith) refl)

  decode_as_lem :
      {decoder : (size offset : ℕ) → Decoded} (ctrl t offset : ℕ) (n last : ℕ)
      → type_decoder decode_utf8 self decode t ≡ some decoder
      → size_from_ctrl_byte decode_utf8 self ctrl offset t ≡ ok (n, last)
      → decode_as decode_utf8 self decode ctrl t offset ≡ decoder n last
  unfolding decode_as
  decode_as_lem ctrl t offset n last known size = rw (decode_as, known, size) refl

  -- The control bytes of a type that is no pointer: the decoder of the type is called with the size
  -- and the offset behind them.
  pub decode_type-control :
      (offset t n : ℕ) (decoder : (size offset : ℕ) → Decoded)
      → 1 < t
      → n < size_bound
      → type_decoder decode_utf8 self decode t ≡ some decoder
      → At self.buffer offset (control t n)
      → decode_type decode_utf8 self decode offset ≡ decoder n (offset + length (control t n))
  unfolding decode_type
  decode_type-control offset t n decoder proper bound known a = elim (Bool-cases (ltb t 8)) [
    | inl short ↦
        let form = control_short t n short in
        let here = subst (At self.buffer offset) form a in
        let ctrl = t * 32 + size_bits n in
        let h : (ctrl / 32 == 0) ≡ false = ground (arith, size_bits-lt n) in
        let e : ctrl / 32 ≡ t = omega (arith, size_bits-lt n) in
        let bits : ctrl % 32 ≡ size_bits n = omega (arith, size_bits-lt n) in
        let size =
          size_from_ctrl_byte-size_bytes decode_utf8 self ctrl (offset + 1) t (ground arith) n bits
            bound (At-then (ctrl ∷ []) (size_bytes n) (offset + 1) (omega arith) here) in
        rw (decode_type, at-At here, h, e, decode_as_lem ctrl t (offset + 1) n _ known size)
          (ap (decoder n) (omega (arith, ap length form)))
    | inr long ↦
        let form = control_extended t n long in
        let here = subst (At self.buffer offset) form a in
        let h : (size_bits n / 32 == 0) ≡ true = ground (arith, size_bits-lt n) in
        let bits : size_bits n % 32 ≡ size_bits n = omega (arith, size_bits-lt n) in
        let size =
          size_from_ctrl_byte-size_bytes decode_utf8 self (size_bits n) (offset + 1 + 1) t
            (ground arith) n bits bound
            (At-then (size_bits n ∷ (t - 7) ∷ []) (size_bytes n) (offset + 1 + 1) (omega arith)
              here) in
        let type_byte =
          At-first ((t - 7) ∷ []) (size_bytes n)
            (At-then (size_bits n ∷ []) ((t - 7) ∷ size_bytes n) (offset + 1) (omega arith) here) in
        rw
          (
            decode_type,
            at-At here,
            h,
            read_extended_lem (offset + 1) t (ground arith) type_byte,
            decode_as_lem (size_bits n) t (offset + 1 + 1) n _ known size,
          )
          (ap (decoder n) (omega (arith, ap length form)))
  ]
