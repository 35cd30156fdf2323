-- ===== src/Iter/Family.antt =====
-- Which networks the iterator takes for IPv4, and the bytes that it passes to `ip_network`:
-- `is_ipv6` and lines 879-893 of extension/maxminddb.c.
use Prim.Native.Nat.{bit_or}
use native.Mathlib.Nat.{add-mul, one-le-pow}
use max_mind_db_reader_pytho.Base.{
  ℕ, zero, suc, ◌+◌, ◌*◌, ◌^◌, ◌≤◌, ◌<◌, ◌≡◌, refl, sym, ap, ◌∙◌, ◌⊎◌, inl, inr, true, false, List,
  [], ◌∷◌, arith, length, take, drop, take-append-drop, length-drop, take_all, All, All-drop,
  IsByte, ◌==◌, Bool-cases, pos, sub_ℕ,
}
use max_mind_db_reader_pytho.Base.Bits.{bit_or_is_zero, zero-bit_or}
use max_mind_db_reader_pytho.Entry.BigEndian.{big_endian, big_endian-append, big_endian-lt}
use max_mind_db_reader_pytho.Iter.{is_ipv6, or_all, ip_start, ip_length}
use max_mind_db_reader_pytho.Iter.Trie.{Network, packed, prefix}

or_all_zero : (z : ℕ) (bs : List ℕ) → or_all z bs ≡ 0 → (z ≡ 0) × All (λ b. b ≡ 0) bs
unfolding or_all
or_all_zero z [] e = (e, tt)
or_all_zero z (b ∷ bs) e =
    let (p, h) = or_all_zero (bit_or z b) bs e in let (q, r) = bit_or_is_zero z b p in (q, (r, h))

or_all_zeros : (bs : List ℕ) → All (λ b. b ≡ 0) bs → or_all 0 bs ≡ 0
unfolding or_all
or_all_zeros [] h = refl
or_all_zeros (b ∷ bs) (e, h) = rw (zero-bit_or b, e) (or_all_zeros bs h)

big_endian_zeros : (bs : List ℕ) → All (λ b. b ≡ 0) bs → big_endian bs ≡ 0
unfolding big_endian
big_endian_zeros [] h = refl
big_endian_zeros (b ∷ bs) (e, h) = rw e (omega (arith, big_endian_zeros bs h))

zeros_big_endian : (bs : List ℕ) → big_endian bs ≡ 0 → All (λ b. b ≡ 0) bs
unfolding big_endian
zeros_big_endian [] e = tt
zeros_big_endian (zero ∷ bs) e = (refl, zeros_big_endian bs (omega arith))
zeros_big_endian (suc b ∷ bs) e =
    absurd (omega (arith, add-mul 1 b (256 ^ length bs), one-le-pow (length bs) 256 (omega arith)))

sub_zero : (d : ℕ) → sub_ℕ d 0 ≡ pos d
sub_zero d = ground arith

module _ (ip : List ℕ) (n : length ip ≡ 16) (h : All IsByte ip) where
  halves : big_endian ip ≡ big_endian (take 12 ip) * 2 ^ 32 + big_endian (drop 12 ip)
  halves =
      let four : length (drop 12 ip) ≡ 4 = omega (arith, length-drop 12 ip) in
      let e : big_endian (take 12 ip) * 256 ^ length (drop 12 ip) + big_endian (drop 12 ip)
          ≡ big_endian (take 12 ip) * 2 ^ 32 + big_endian (drop 12 ip) =
        rw four refl in
      ap big_endian (sym (take-append-drop 12 ip)) ∙ big_endian-append (take 12 ip) (drop 12 ip) ∙ e

  low_part : big_endian (drop 12 ip) < 2 ^ 32
  low_part =
      let four : length (drop 12 ip) ≡ 4 = omega (arith, length-drop 12 ip) in
      rw four at (big_endian-lt (drop 12 ip) (All-drop IsByte 12 ip h))

  pub is_ipv6_cases :
      ((is_ipv6 ip ≡ true) × (2 ^ 32 ≤ big_endian ip))
      ⊎ ((is_ipv6 ip ≡ false)
          × (big_endian ip < 2 ^ 32)
          × (big_endian (drop 12 ip) ≡ big_endian ip))
  unfolding is_ipv6
  is_ipv6_cases = elim (Bool-cases (or_all 0 (take 12 ip) == 0)) [
    | inl zeros ↦
        let (_, all) = or_all_zero 0 (take 12 ip) (ground arith) in
        let none_set : big_endian (take 12 ip) ≡ 0 = big_endian_zeros (take 12 ip) all in
        inr (rw zeros refl, omega (arith, halves, low_part), omega (arith, halves))
    | inr set ↦ inl (rw set refl, omega (arith, halves, positive set))
  ]
    where
      positive : (or_all 0 (take 12 ip) == 0) ≡ false → 1 ≤ big_endian (take 12 ip)
      positive set = elim (Bool-cases (big_endian (take 12 ip) == 0)) [
        | inr some_set ↦ ground arith
        | inl none_set ↦
            let e : or_all 0 (take 12 ip) ≡ 0 =
              or_all_zeros (take 12 ip) (zeros_big_endian (take 12 ip) (ground arith)) in
            absurd (ground arith)
      ]

-- In an IPv6 tree, for a network with an address of 16 bytes, ip_network gets the address as its
-- number: in 16 bytes with the depth as prefix length from 2^32 on, and below in 4 bytes with a
-- prefix length that is 96 less, negative for a network of a depth less than 96.
pub packed-big_endian :
    (n : Network)
    → length n.ip ≡ 16
    → All IsByte n.ip
    → (big_endian (packed 128 n) ≡ big_endian n.ip)
      × (((2 ^ 32 ≤ big_endian n.ip) × (length (packed 128 n) ≡ 16) × (prefix 128 n ≡ pos n.depth))
          ⊎ ((big_endian n.ip < 2 ^ 32)
              × (length (packed 128 n) ≡ 4)
              × (prefix 128 n ≡ sub_ℕ n.depth 96)))
unfolding ip_start ip_length
packed-big_endian n len h = elim (is_ipv6_cases n.ip len h) [
  | inl (six, large) ↦
      rw six (rw (take_all 16 n.ip (omega arith)) (refl, inl (large, len, sub_zero n.depth)))
  | inr (four, small, same) ↦
      let few : length (drop 12 n.ip) ≡ 4 = omega (arith, length-drop 12 n.ip) in
      rw four (rw (take_all 4 (drop 12 n.ip) (omega arith)) (same, inr (small, few, refl)))
]
