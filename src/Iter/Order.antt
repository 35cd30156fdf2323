-- ===== src/Iter/Order.antt =====
-- The order of the networks that an iteration lists: extension/maxminddb.c, lines 816-848.
use native.Mathlib.Nat.{pow-suc}
use mathlib.Core.Path.{subst}
use max_mind_db_reader_pytho.Base.{
  ℕ, zero, suc, ◌+◌, ◌-◌, ◌*◌, ◌/◌, ◌%◌, ◌^◌, ◌≤◌, ◌<◌, ◌≡◌, sym, ap, ◌∙◌, inl, inr, List, [], ◌∷◌,
  ◌++◌, arith, length, length-set, get_or, set, All, IsByte, ◌==◌, ◌&&◌, Bool-cases,
}
use max_mind_db_reader_pytho.Entry.BigEndian.{big_endian}
use max_mind_db_reader_pytho.Iter.{set_bit, is_ipv6}
use max_mind_db_reader_pytho.Iter.Trie.{Trie, nothing, data_at, branch, Network, networks, height}
use max_mind_db_reader_pytho.Iter.Prefix.{
  IsClear, IsBelow, IsClear-less, IsClear-over, set_bit_byte, big_endian-set_bit,
}

-- The networks lie one behind the other between two addresses, each with all of its addresses.
abbrev pub IsOrdered : (from to : ℕ) → List Network → Type 0
IsOrdered from to [] = from ≤ to
IsOrdered from to (n ∷ ns) =
    (from ≤ big_endian n.ip) × IsOrdered (big_endian n.ip + 2 ^ (128 - n.depth)) to ns

IsOrdered-append :
    (a b c : ℕ) (ms ns : List Network)
    → IsOrdered a b ms
    → IsOrdered b c ns
    → IsOrdered a c (ms ++ ns)
IsOrdered-append a b c [] [] h k = omega arith
IsOrdered-append a b c [] (n ∷ ns) h (p, k) = (omega arith, k)
IsOrdered-append a b c (m ∷ ms) ns (p, h) k =
    (p, IsOrdered-append (big_endian m.ip + 2 ^ (128 - m.depth)) b c ms ns h k)

-- The clear bits of the children.
IsBelow-next : (d : ℕ) (ip : List ℕ) → IsClear (d / 8) (7 - d % 8) ip → IsBelow (d + 1) ip
IsBelow-next d ip h = elim (Bool-cases (d % 8 == 7)) [
  | inl last ↦
      let k : 7 - d % 8 ≡ 0 = ground arith in
      let i : (d + 1) / 8 ≡ suc (d / 8) = ground arith in
      let j : 8 - (d + 1) % 8 ≡ 8 = ground arith in rw (i, j) (IsClear-over (d / 8) ip (rw k at h))
  | inr inner ↦
      let i : (d + 1) / 8 ≡ d / 8 = ground arith in
      let j : 8 - (d + 1) % 8 ≡ 7 - d % 8 = ground arith in rw (i, j) h
]

IsBelow-less : (d : ℕ) (ip : List ℕ) → IsBelow d ip → IsClear (d / 8) (suc (7 - d % 8)) ip
IsBelow-less d ip h = let k : 8 - d % 8 ≡ suc (7 - d % 8) = omega arith in rw k at h

set-IsClear :
    (i k : ℕ) (ip : List ℕ) → IsClear i (suc k) ip → IsClear i k (set ip i (get_or ip i 0 + 2 ^ k))
set-IsClear i k [] h = tt
set-IsClear zero k (b ∷ bs) ((a, e), h) =
    ((a * 2 + 1, omega (arith, e, ap (λ (t : ℕ). a * t) (pow-suc 2 k))), h)
set-IsClear (suc i) k (b ∷ bs) h = set-IsClear i k bs h

All-set : (ip : List ℕ) (i v : ℕ) → All IsByte ip → v < 256 → All IsByte (set ip i v)
All-set [] i v h lt = tt
All-set (b ∷ bs) zero v (p, h) lt = (lt, h)
All-set (b ∷ bs) (suc i) v (p, h) lt = (p, All-set bs i v h lt)

-- What the `ip_packed` of a node at a depth is.
pub record IsPrefix (d : ℕ) (ip : List ℕ) : Type 0 where
  pub length_lem : length ip ≡ 16
  pub octets : All IsByte ip
  pub below : IsBelow d ip

pub IsPrefix-left : (d : ℕ) (ip : List ℕ) → IsPrefix d ip → IsPrefix (d + 1) ip
IsPrefix-left d ip p = record {
  length_lem = p.length_lem;
  octets = p.octets;
  below = IsBelow-next d ip (IsClear-less (d / 8) (7 - d % 8) ip (IsBelow-less d ip p.below));
}

pub IsPrefix-right : (d : ℕ) (ip : List ℕ) → IsPrefix d ip → IsPrefix (d + 1) (set_bit d ip)
unfolding set_bit
IsPrefix-right d ip p = record {
  length_lem = length-set ip (d / 8) _ ∙ p.length_lem;
  octets = All-set ip (d / 8) _ p.octets (omega arith);
  below =
      subst (IsBelow (d + 1)) (sym (set_bit_byte ip d p.octets p.below))
        (IsBelow-next d _ (set-IsClear (d / 8) (7 - d % 8) ip (IsBelow-less d ip p.below)));
}

-- The networks of a tree at a depth that fits an address are listed in the order of their
-- addresses, do not overlap, and lie within the addresses that begin with the bits of the address
-- at its root.
pub networks-IsOrdered :
    (s : ℕ) (ip : List ℕ) (d : ℕ) (t : Trie)
    → IsPrefix d ip
    → d + height t ≤ 128
    → IsOrdered (big_endian ip) (big_endian ip + 2 ^ (128 - d)) (networks s ip d t)
networks-IsOrdered s ip d nothing p h = omega arith
networks-IsOrdered s ip d (data_at e) p h = (omega arith, omega arith)
networks-IsOrdered s ip d (branch n l r) p h = elim (Bool-cases ((n == s) && is_ipv6 ip)) [
  | inl alias ↦ rw alias (omega arith)
  | inr other ↦
      let half : 128 - (d + 1) ≡ 127 - d = omega arith in
      let whole : 128 - d ≡ suc (127 - d) = omega arith in
      let bit : big_endian (set_bit d ip) ≡ big_endian ip + 2 ^ (127 - d) =
        big_endian-set_bit ip d p.length_lem p.octets (omega arith) p.below in
      let total : big_endian ip + 2 ^ (128 - d) ≡ big_endian (set_bit d ip) + 2 ^ (128 - (d + 1)) =
        rw (whole, half) (omega (arith, bit, pow-suc 2 (127 - d))) in
      let left : IsOrdered (big_endian ip) (big_endian ip + 2 ^ (127 - d))
          (networks s ip (d + 1) l) =
        rw half at (networks-IsOrdered s ip (d + 1) l (IsPrefix-left d ip p) (omega arith)) in
      let right : IsOrdered (big_endian ip + 2 ^ (127 - d)) (big_endian ip + 2 ^ (128 - d))
          (networks s (set_bit d ip) (d + 1) r) =
        rw (total, ← bit)
          (networks-IsOrdered s (set_bit d ip) (d + 1) r (IsPrefix-right d ip p) (omega arith)) in
      rw other (
        IsOrdered-append _ _ _ (networks s ip (d + 1) l) (networks s (set_bit d ip) (d + 1) r) left
          right)
]
