-- ===== src/Entry/BigEndian.antt =====
-- `from_uint128` of extension/maxminddb.c, lines 1142-1171: two halves of 64 bits, printed as 32
-- hexadecimal digits and read back.
use native.Mathlib.Nat.{pow-suc, one-le-pow}
use max_mind_db_reader_pytho.Base.{
  ℕ, zero, suc, ◌+◌, ◌*◌, ◌/◌, ◌%◌, ◌^◌, ◌≤◌, ◌<◌, ◌≡◌, refl, ap, ◌∙◌, List, [], ◌∷◌, ◌++◌, arith,
  length, length-append, take, drop, take-append-drop, length-drop, take_all, length-take, All,
  All-take, All-drop, IsByte,
}
use max_mind_db_reader_pytho.Base.Bits.{bit_or_low}
use max_mind_db_reader_pytho.Env.{Uint128, byte_array, whole}
use max_mind_db_reader_pytho.Entry.{
  shift_in, read_half, high_half, low_half, hex_digit, print_hex, hex_value, parse_hex,
  uint128_text, uint128_value,
}

-- The number that bytes stand for, the first the most significant.
unfoldable pub big_endian : List ℕ → ℕ
big_endian [] = 0
big_endian (b ∷ bs) = b * 256 ^ length bs + big_endian bs

pub big_endian-lt : (bs : List ℕ) → All IsByte bs → big_endian bs < 256 ^ length bs
unfolding big_endian
big_endian-lt [] h = omega arith
big_endian-lt (b ∷ bs) (hb, h) = grind (arith, pow-suc 256 (length bs), big_endian-lt bs h)

pow-length-append : (xs ys : List ℕ) → 256 ^ length (xs ++ ys) ≡ 256 ^ length xs * 256 ^ length ys
pow-length-append [] ys = omega arith
pow-length-append (x ∷ xs) ys = omega (
  arith,
  pow-suc 256 (length (xs ++ ys)),
  pow-suc 256 (length xs),
  ap (λ (t : ℕ). t * 256) (pow-length-append xs ys),
  ap (λ (t : ℕ). t * 256 ^ length ys) (pow-suc 256 (length xs)),
)

pub big_endian-append :
    (xs ys : List ℕ) → big_endian (xs ++ ys) ≡ big_endian xs * 256 ^ length ys + big_endian ys
unfolding big_endian
big_endian-append [] ys = omega arith
big_endian-append (x ∷ xs) ys =
    omega (arith, big_endian-append xs ys, ap (λ (t : ℕ). x * t) (pow-length-append xs ys))

shift_in_lem : (x b : ℕ) → x * 256 < 2 ^ 64 → b < 256 → shift_in x b ≡ x * 256 + b
unfolding shift_in
shift_in_lem x b h hb = ground (arith, bit_or_low 8 x b)

read_half_lem :
    (x : ℕ) (bs : List ℕ)
    → All IsByte bs
    → x * 256 ^ length bs + big_endian bs < 2 ^ 64
    → read_half x bs ≡ x * 256 ^ length bs + big_endian bs
unfolding read_half big_endian
read_half_lem x [] h lt = omega arith
read_half_lem x (b ∷ bs) (hb, h) lt =
    rw
      (shift_in_lem x b
        (fits (256 ^ length bs) (one-le-pow (length bs) 256 (omega arith)) (omega (arith, regroup)))
        hb)
      (read_half_lem (x * 256 + b) bs h (omega (arith, regroup)) ∙ omega (arith, regroup))
  where
    fits : (p : ℕ) → 1 ≤ p → x * (p * 256) < 2 ^ 64 → x * 256 < 2 ^ 64
    fits p h lt = grind arith

    regroup : x * 256 ^ suc (length bs) ≡ x * 256 * 256 ^ length bs
    regroup = omega (arith, ap (λ (t : ℕ). x * t) (pow-suc 256 (length bs)))

hex_value-hex_digit : (d : ℕ) → d < 16 → hex_value (hex_digit d) ≡ d
unfolding hex_digit hex_value
hex_value-hex_digit d h = ground arith

parse_hex-append :
    (acc : ℕ) (cs : List ℕ) (c : ℕ)
    → parse_hex acc (cs ++ c ∷ []) ≡ parse_hex acc cs * 16 + hex_value c
unfolding parse_hex
parse_hex-append acc [] c = refl
parse_hex-append acc (d ∷ cs) c = parse_hex-append (acc * 16 + hex_value d) cs c

parse_hex-print_hex : (k acc n : ℕ) → n < 16 ^ k → parse_hex acc (print_hex k n) ≡ acc * 16 ^ k + n
unfolding print_hex
parse_hex-print_hex zero acc n h = unfold parse_hex in omega arith
parse_hex-print_hex (suc k) acc n h =
    rw
      (
        parse_hex-append,
        hex_value-hex_digit (n % 16) (omega arith),
        parse_hex-print_hex k acc (n / 16) (omega (arith, pow-suc 16 k)),
      )
      (omega (arith, ap (λ (t : ℕ). acc * t) (pow-suc 16 k)))

length-print_hex : (k n : ℕ) → length (print_hex k n) ≡ k
unfolding print_hex
length-print_hex zero n = refl
length-print_hex (suc k) n = omega (
  arith,
  length-append (print_hex k (n / 16)) (hex_digit (n % 16) ∷ []),
  length-print_hex k (n / 16),
)

-- Digits of two halves, one behind the other.
parse_hex-append_all :
    (acc : ℕ) (cs ds : List ℕ) → parse_hex acc (cs ++ ds) ≡ parse_hex (parse_hex acc cs) ds
unfolding parse_hex
parse_hex-append_all acc [] ds = refl
parse_hex-append_all acc (c ∷ cs) ds = parse_hex-append_all (acc * 16 + hex_value c) cs ds

-- The text is not cut: it is two times 16 digits.
text_of_halves :
    (u : Uint128) → uint128_text u ≡ print_hex 16 (high_half u) ++ print_hex 16 (low_half u)
unfolding uint128_text
text_of_halves u = take_all 32 _ (
    omega (
      arith,
      length-append (print_hex 16 (high_half u)) (print_hex 16 (low_half u)),
      length-print_hex 16 (high_half u),
      length-print_hex 16 (low_half u),
    ))

value_of_halves :
    (u : Uint128)
    → high_half u < 2 ^ 64
    → low_half u < 2 ^ 64
    → uint128_value u ≡ high_half u * 2 ^ 64 + low_half u
unfolding uint128_value
value_of_halves u hi lo =
    rw
      (
        uint128_value,
        text_of_halves,
        parse_hex-append_all,
        parse_hex-print_hex 16 0 (high_half u) hi,
        parse_hex-print_hex 16 (0 * 16 ^ 16 + high_half u) (low_half u) lo,
      )
      (omega arith)

half_lem :
    (bs : List ℕ)
    → length bs ≡ 8
    → All IsByte bs
    → (read_half 0 bs ≡ big_endian bs) × (big_endian bs < 2 ^ 64)
half_lem bs n h =
    let lt : big_endian bs < 2 ^ 64 = rw n at (big_endian-lt bs h) in
    (read_half_lem 0 bs h (omega arith) ∙ omega arith, lt)

-- A uint128 that is stored as 16 bytes is read, through its two halves and their hexadecimal text,
-- as the big-endian number of the bytes.
pub uint128_value-big_endian :
    (bs : List ℕ) → length bs ≡ 16 → All IsByte bs → uint128_value (byte_array bs) ≡ big_endian bs
uint128_value-big_endian bs n h =
    rw (value_of_halves (byte_array bs) (rw high hi.1) (rw low lo.1), high, low)
      (whole_number ∙ ap big_endian (take-append-drop 8 bs))
  where
    front : length (take 8 bs) ≡ 8
    front = omega (arith, length-take 8 bs)

    back : length (take 8 (drop 8 bs)) ≡ 8
    back = omega (arith, length-take 8 (drop 8 bs), length-drop 8 bs)

    hi : (read_half 0 (take 8 bs) ≡ big_endian (take 8 bs)) × (big_endian (take 8 bs) < 2 ^ 64)
    hi = half_lem (take 8 bs) front (All-take IsByte 8 bs h)

    lo :
        (read_half 0 (take 8 (drop 8 bs)) ≡ big_endian (take 8 (drop 8 bs)))
        × (big_endian (take 8 (drop 8 bs)) < 2 ^ 64)
    lo = half_lem (take 8 (drop 8 bs)) back (All-take IsByte 8 (drop 8 bs) (All-drop IsByte 8 bs h))

    rest : take 8 (drop 8 bs) ≡ drop 8 bs
    rest = take_all 8 (drop 8 bs) (omega (arith, length-drop 8 bs))

    eight : length (drop 8 bs) ≡ 8
    eight = omega (arith, length-drop 8 bs)

    whole_number :
        big_endian (take 8 bs) * 2 ^ 64 + big_endian (take 8 (drop 8 bs))
        ≡ big_endian (take 8 bs ++ drop 8 bs)
    whole_number = rw (big_endian-append (take 8 bs) (drop 8 bs), rest, eight)

    high : high_half (byte_array bs) ≡ big_endian (take 8 bs)
    high = unfold high_half in hi.0

    low : low_half (byte_array bs) ≡ big_endian (take 8 (drop 8 bs))
    low = unfold low_half in lo.0

-- A uint128 below 2^128 that is stored in the compiler's own type is read as its value.
pub uint128_value-whole : (n : ℕ) → n < 2 ^ 128 → uint128_value (whole n) ≡ n
uint128_value-whole n h =
    value_of_halves (whole n) (unfold high_half in omega arith) (unfold low_half in omega arith)
    ∙ unfold high_half low_half in omega arith
