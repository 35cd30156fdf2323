-- ===== src/Iter/Prefix.antt =====
-- The address of a node of the iterator as a number: extension/maxminddb.c, line 841. A node at a
-- depth stands for the addresses that begin with its first bits, so its other bits are clear.
use Prim.Native.Nat.{bit_or}
use native.Mathlib.Nat.{pow-suc, one-le-pow, add-mul}
use max_mind_db_reader_pytho.Base.{
  ℕ, zero, suc, ◌+◌, ◌-◌, ◌*◌, ◌/◌, ◌%◌, ◌^◌, ◌<◌, ◌≡◌, ap, ◌∙◌, List, [], ◌∷◌, arith, length,
  length-set, get_or, set, All, IsByte,
}
use max_mind_db_reader_pytho.Base.Bits.{bit_or_low}
use max_mind_db_reader_pytho.Entry.BigEndian.{big_endian}
use max_mind_db_reader_pytho.Iter.{set_bit}

-- The low k bits of byte i are clear, and so are the bytes behind it.
abbrev pub IsClear : (i k : ℕ) → List ℕ → Type 0
IsClear i k [] = Unit {0}
IsClear zero k (b ∷ bs) = ((a : ℕ) × (b ≡ a * 2 ^ k)) × All (λ c. c ≡ 0) bs
IsClear (suc i) k (b ∷ bs) = IsClear i k bs

pub IsClear-less : (i k : ℕ) (ip : List ℕ) → IsClear i (suc k) ip → IsClear i k ip
IsClear-less i k [] h = tt
IsClear-less zero k (b ∷ bs) ((a, e), h) =
    ((a * 2, e ∙ omega (arith, ap (λ (t : ℕ). a * t) (pow-suc 2 k))), h)
IsClear-less (suc i) k (b ∷ bs) h = IsClear-less i k bs h

zeros-IsClear : (ip : List ℕ) → All (λ c. c ≡ 0) ip → IsClear 0 8 ip
zeros-IsClear [] h = tt
zeros-IsClear (b ∷ bs) (e, h) = ((0, omega arith), h)

pub IsClear-over : (i : ℕ) (ip : List ℕ) → IsClear i 0 ip → IsClear (suc i) 8 ip
IsClear-over i [] h = tt
IsClear-over zero (b ∷ bs) (p, h) = zeros-IsClear bs h
IsClear-over (suc i) (b ∷ bs) h = IsClear-over i bs h

-- The byte that gets a bit.
bit_fits : (k a : ℕ) → k < 8 → a * 2 ^ suc k < 256 → a * 2 ^ suc k + 2 ^ k < 256
bit_fits zero a h lt = omega arith
bit_fits (suc zero) a h lt = omega arith
bit_fits (suc (suc zero)) a h lt = omega arith
bit_fits (suc (suc (suc zero))) a h lt = omega arith
bit_fits (suc (suc (suc (suc zero)))) a h lt = omega arith
bit_fits (suc (suc (suc (suc (suc zero))))) a h lt = omega arith
bit_fits (suc (suc (suc (suc (suc (suc zero)))))) a h lt = omega arith
bit_fits (suc (suc (suc (suc (suc (suc (suc zero))))))) a h lt = omega arith
bit_fits (suc (suc (suc (suc (suc (suc (suc (suc k)))))))) a h lt = absurd (omega arith)

byte_or : (k a b : ℕ) → k < 8 → b < 256 → b ≡ a * 2 ^ suc k → bit_or b (2 ^ k) % 256 ≡ b + 2 ^ k
byte_or k a b h lt e =
    rw (e, bit_or_low (suc k) a (2 ^ k) (omega (arith, pow-suc 2 k, one-le-pow k 2 (omega arith))))
      (omega (arith, bit_fits k a h (rw e at lt)))

-- The number with the changed byte.
big_endian-set :
    (ip : List ℕ) (i x : ℕ)
    → i < length ip
    → big_endian (set ip i (get_or ip i 0 + x)) ≡ big_endian ip + x * 256 ^ (length ip - 1 - i)
unfolding big_endian
big_endian-set [] i x h = absurd (omega arith)
big_endian-set (b ∷ bs) zero x h =
    let last : suc (length bs) - 1 - 0 ≡ length bs = omega arith in
    rw last (omega (arith, add-mul b x (256 ^ length bs)))
big_endian-set (b ∷ bs) (suc i) x h =
    let last : suc (length bs) - 1 - suc i ≡ length bs - 1 - i = omega arith in
    rw (last, length-set bs i (get_or bs i 0 + x))
      (omega (arith, big_endian-set bs i x (omega arith)))

-- 2^k in byte i of 16 is 2^(127 - d) for the bit d = 8 * i + (7 - k).
pow_eight : (n : ℕ) → 2 ^ suc (suc (suc (suc (suc (suc (suc (suc n))))))) ≡ 256 * 2 ^ n
pow_eight n = omega (
  arith,
  pow-suc 2 n,
  pow-suc 2 (suc n),
  pow-suc 2 (suc (suc n)),
  pow-suc 2 (suc (suc (suc n))),
  pow-suc 2 (suc (suc (suc (suc n)))),
  pow-suc 2 (suc (suc (suc (suc (suc n))))),
  pow-suc 2 (suc (suc (suc (suc (suc (suc n)))))),
  pow-suc 2 (suc (suc (suc (suc (suc (suc (suc n))))))),
)

zero_plus : (n : ℕ) → 0 + n ≡ n
zero_plus n = omega arith

pub pow_bytes : (m : ℕ) → 256 ^ m ≡ 2 ^ (8 * m)
pow_bytes zero = omega arith
pow_bytes (suc m) =
    let e : 8 * suc m ≡ suc (suc (suc (suc (suc (suc (suc (suc (8 * m)))))))) = omega arith in
    rw e (omega (arith, pow-suc 256 m, pow_bytes m, pow_eight (8 * m)))

pub pow_sum : (k m : ℕ) → 2 ^ k * 2 ^ m ≡ 2 ^ (k + m)
pow_sum zero m = rw (zero_plus m) (omega arith)
pow_sum (suc k) m =
    let e : suc k + m ≡ suc (k + m) = omega arith in
    rw e (omega (arith, pow-suc 2 (k + m), pow_sum k m, ap (λ (t : ℕ). t * 2 ^ m) (pow-suc 2 k)))

weight : (d : ℕ) → d < 128 → 2 ^ (7 - d % 8) * 256 ^ (16 - 1 - d / 8) ≡ 2 ^ (127 - d)
weight d h =
    let e : 127 - d ≡ (7 - d % 8) + 8 * (16 - 1 - d / 8) = omega arith in
    rw (e, pow_bytes (16 - 1 - d / 8)) (pow_sum (7 - d % 8) (8 * (16 - 1 - d / 8)))

-- The clear bits below a depth.
abbrev pub IsBelow : (depth : ℕ) → List ℕ → Type 0
IsBelow d ip = IsClear (d / 8) (8 - d % 8) ip

get_or-IsByte : (ip : List ℕ) (i : ℕ) → All IsByte ip → get_or ip i 0 < 256
get_or-IsByte [] i h = omega arith
get_or-IsByte (b ∷ bs) zero (p, h) = p
get_or-IsByte (b ∷ bs) (suc i) (p, h) = get_or-IsByte bs i h

pub get_or-IsClear :
    (i k : ℕ) (ip : List ℕ) → IsClear i k ip → (a : ℕ) × (get_or ip i 0 ≡ a * 2 ^ k)
get_or-IsClear i k [] h = (0, omega arith)
get_or-IsClear zero k (b ∷ bs) (p, h) = p
get_or-IsClear (suc i) k (b ∷ bs) h = get_or-IsClear i k bs h

pub set_bit_byte :
    (ip : List ℕ) (d : ℕ)
    → All IsByte ip
    → IsBelow d ip
    → set_bit d ip ≡ set ip (d / 8) (get_or ip (d / 8) 0 + 2 ^ (7 - d % 8))
unfolding set_bit
set_bit_byte ip d h c =
    let (a, e) = get_or-IsClear (d / 8) (8 - d % 8) ip c in
    let k : 8 - d % 8 ≡ suc (7 - d % 8) = omega arith in
    ap (λ (v : ℕ). set ip (d / 8) v)
      (byte_or (7 - d % 8) a (get_or ip (d / 8) 0) (omega arith) (get_or-IsByte ip (d / 8) h)
        (e ∙ ap (λ (t : ℕ). a * 2 ^ t) k))

-- A bit that is set below the depth adds its power of two to the address.
pub big_endian-set_bit :
    (ip : List ℕ) (d : ℕ)
    → length ip ≡ 16
    → All IsByte ip
    → d < 128
    → IsBelow d ip
    → big_endian (set_bit d ip) ≡ big_endian ip + 2 ^ (127 - d)
big_endian-set_bit ip d n h lt c =
    rw (set_bit_byte ip d h c, big_endian-set ip (d / 8) (2 ^ (7 - d % 8)) (omega arith), n)
      (ap (λ (t : ℕ). big_endian ip + t) (weight d lt))
