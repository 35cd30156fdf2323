-- ===== src/Pure/Reader/Bits.antt =====
-- The bits of an address, as `_find_address_in_tree` of maxminddb/reader.py takes them from the bytes,
-- line 201, are those of the number that the bytes stand for.
use native.Mathlib.Nat.{
  pow-suc, one-le-pow, div-div-eq-div-mul, mul-add-div, mul-add-div_right, div-eq_of_lt,
}
use max_mind_db_reader_pytho.Base.{
  ℕ, suc, ◌+◌, ◌-◌, ◌*◌, ◌/◌, ◌%◌, ◌^◌, ◌<◌, ◌≡◌, ap, sym, ◌∙◌, List, [], ◌∷◌, length, arith, All,
  IsByte, Bool-cases, inl, inr, ltb,
}
use max_mind_db_reader_pytho.Entry.BigEndian.{big_endian, big_endian-lt}
use max_mind_db_reader_pytho.Iter.Prefix.{pow_bytes, pow_sum}
use max_mind_db_reader_pytho.Pure.Reader.{address_bit}

-- The bit of a number of so many bits at a depth, the most significant one first.
abbrev pub bit_of : (bits number : ℕ) → ℕ → ℕ
bit_of bits number d = number / 2 ^ (bits - 1 - d) % 2

pow_positive : (k : ℕ) → 0 < 2 ^ k
pow_positive k = omega (arith, one-le-pow k 2 (omega arith))

-- A bit of the first byte of a number.
first_byte :
    (b e len i : ℕ)
    → e < 256 ^ len
    → i < 8
    → (b * 256 ^ len + e) / 2 ^ ((len + 1) * 8 - 1 - i) ≡ b / 2 ^ (7 - i)
first_byte b e len i small lt =
    let exponent : (len + 1) * 8 - 1 - i ≡ 8 * len + (7 - i) = omega arith in
    let positive : 0 < 256 ^ len = omega (arith, one-le-pow len 256 (omega arith)) in
    let whole : (b * 256 ^ len + e) / 256 ^ len ≡ b =
      mul-add-div_right positive b e ∙ ap (λ n. b + n) (div-eq_of_lt small) ∙ omega arith in
    rw exponent (
      ap (λ n. (b * 256 ^ len + e) / n)
        (sym (ap (λ n. n * 2 ^ (7 - i)) (pow_bytes len) ∙ pow_sum (8 * len) (7 - i)))
      ∙ sym (div-div-eq-div-mul (b * 256 ^ len + e) (256 ^ len) (2 ^ (7 - i)))
      ∙ ap (λ n. n / 2 ^ (7 - i)) whole)

-- A bit behind the first byte.
later_byte :
    (b e len j : ℕ)
    → j < len * 8
    → (b * 256 ^ len + e) / 2 ^ (len * 8 - 1 - j) % 2 ≡ e / 2 ^ (len * 8 - 1 - j) % 2
later_byte b e len j lt =
    let k = len * 8 - 1 - j in
    let exponent : 8 * len ≡ k + suc j = omega arith in
    let split : 256 ^ len ≡ 2 ^ k * (2 ^ j * 2) =
      pow_bytes len
      ∙ ap (λ n. 2 ^ n) exponent
      ∙ sym (pow_sum k (suc j))
      ∙ ap (λ n. 2 ^ k * n) (pow-suc 2 j) in
    let parts : b * 256 ^ len + e ≡ 2 ^ k * (b * 2 ^ j * 2) + e =
      ap (λ n. b * n + e) split ∙ regroup b (2 ^ k) (2 ^ j) e in
    let divided : (b * 256 ^ len + e) / 2 ^ k ≡ b * 2 ^ j * 2 + e / 2 ^ k =
      ap (λ n. n / 2 ^ k) parts ∙ mul-add-div (pow_positive k) (b * 2 ^ j * 2) e in
    ap (λ n. n % 2) divided ∙ omega arith
  where
    regroup : (b x y e : ℕ) → b * (x * (y * 2)) + e ≡ x * (b * y * 2) + e
    regroup b x y e = grind arith

same_exponent : (len i : ℕ) → (len + 1) * 8 - 1 - i ≡ suc len * 8 - 1 - i
same_exponent len i = omega arith

pub address_bit-bit_of :
    (packed : List ℕ) (i : ℕ)
    → All IsByte packed
    → i < length packed * 8
    → address_bit packed i ≡ bit_of (length packed * 8) (big_endian packed) i
unfolding address_bit big_endian
address_bit-bit_of [] i h lt = absurd (omega arith)
address_bit-bit_of (b ∷ bs) i (hb, h) lt = elim (Bool-cases (ltb i 8)) [
  | inl first ↦
      let byte : i / 8 ≡ 0 = ground arith in
      let low : i % 8 ≡ i = ground arith in
      rw (byte, low)
        (ap (λ n. n % 2)
            (sym (first_byte b (big_endian bs) (length bs) i (big_endian-lt bs h) (ground arith)))
          ∙ ap (λ k. (b * 256 ^ length bs + big_endian bs) / 2 ^ k % 2)
              (same_exponent (length bs) i))
  | inr later ↦
      let j = i - 8 in
      let byte : i / 8 ≡ suc (j / 8) = ground arith in
      let low : i % 8 ≡ j % 8 = ground arith in
      let exponent : length bs * 8 - 1 - j ≡ suc (length bs) * 8 - 1 - i = ground arith in
      let within : j < length bs * 8 = ground arith in
      rw (byte, low)
        (address_bit-bit_of bs j h within
          ∙ sym (later_byte b (big_endian bs) (length bs) j within)
          ∙ ap (λ k. (b * 256 ^ length bs + big_endian bs) / 2 ^ k % 2) exponent)
]
