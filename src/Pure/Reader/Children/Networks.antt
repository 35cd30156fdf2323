-- ===== src/Pure/Reader/Children/Networks.antt =====
-- The iteration of maxminddb/reader.py, lines 166-192, against the one of extension/maxminddb.c, lines
-- 768-940: the networks of one tree.
use native.Mathlib.Nat.{pow-suc, one-le-pow, mul-le-mul_left}
use max_mind_db_reader_pytho.Base.{
  ℕ, zero, suc, ◌+◌, ◌-◌, ◌*◌, ◌^◌, ◌≤◌, ◌<◌, ◌≡◌, ◌≢◌, refl, ap, sym, ◌∙◌, ℤ, pos, sub_ℕ, Bool,
  true, false, not, ◌&&◌, Option, List, [], ◌∷◌, ◌++◌, map, ◌==◌, ltb, leb, if◌then◌else◌, arith,
  All, replicate, Bool-cases, inl, inr,
}
use max_mind_db_reader_pytho.Entry.BigEndian.{big_endian}
use max_mind_db_reader_pytho.Iter.{set_bit, is_ipv6}
use max_mind_db_reader_pytho.Iter.Trie.{
  Trie, nothing, data_at, branch, height, Network, networks, packed, prefix,
}
use max_mind_db_reader_pytho.Iter.Prefix.{big_endian-set_bit, pow_sum}
use max_mind_db_reader_pytho.Iter.Order.{IsPrefix, IsPrefix-left, IsPrefix-right}
use max_mind_db_reader_pytho.Iter.Family.{is_ipv6_cases, packed-big_endian}
use max_mind_db_reader_pytho.Pure.{Result}
use max_mind_db_reader_pytho.Pure.Decoder.{Record}
use max_mind_db_reader_pytho.Pure.Reader.{Metadata, Reader}
use max_mind_db_reader_pytho.Pure.Reader.Tree.{Holds, pointer_to, child}
use max_mind_db_reader_pytho.Pure.Reader.Children.Collect.{
  collect, collect-append, then_from_stop, map-append, All-append_left, All-append_right,
}
use max_mind_db_reader_pytho.Pure.Reader.Children.{
  yield_result, item, data_item, generate_children, iter,
}

and_false : (b : Bool) → (b && false) ≡ false
and_false true = refl
and_false false = refl

not_zero : (a x b : ℕ) → b ≡ a * x → 1 ≤ b → (a == 0) ≡ false
not_zero zero x b e h = absurd (omega arith)
not_zero (suc a) x b e h = ground arith

-- A bit at a depth of 96 or less counts 2 ^ 32 at least.
zero_below : (a d b : ℕ) → d ≤ 96 → b ≡ a * 2 ^ (128 - d) → b < 2 ^ 32 → (a == 0) ≡ true
zero_below zero d b high e small = refl
zero_below (suc a) d b high e small =
    let exponent : 32 + (96 - d) ≡ 128 - d = omega arith in
    let split : 2 ^ (128 - d) ≡ 2 ^ 32 * 2 ^ (96 - d) =
      sym (pow_sum 32 (96 - d) ∙ ap (λ k. 2 ^ k) exponent) in
    let heavy : 2 ^ 32 * 1 ≤ 2 ^ 32 * 2 ^ (96 - d) =
      mul-le-mul_left (2 ^ 32) (one-le-pow (96 - d) 2 (omega arith)) in
    absurd (omega (arith, e, split, heavy, small))

-- The numbers of the addresses of the two children.
left_address : (d a b : ℕ) → d < 128 → b ≡ a * 2 ^ (128 - d) → b ≡ a * 2 * 2 ^ (128 - (d + 1))
left_address d a b lt e =
    let k : 128 - d ≡ suc (128 - (d + 1)) = omega arith in
    omega (arith, e, ap (λ i. a * 2 ^ i) k, ap (λ i. a * i) (pow-suc 2 (128 - (d + 1))))

right_address :
    (d a b : ℕ)
    → d < 128
    → b ≡ a * 2 ^ (128 - d)
    → b + 2 ^ (127 - d) ≡ (a * 2 + 1) * 2 ^ (128 - (d + 1))
right_address d a b lt e =
    let k : 127 - d ≡ 128 - (d + 1) = omega arith in
    omega (arith, left_address d a b lt e, ap (λ i. 2 ^ i) k)

-- Where the tree of IPv4 starts, it is a node, and it is one at no depth beyond 96: then the two tests
-- for aliases agree.
abbrev pub IsApart : Metadata → (ipv4_start : ℕ) → (depth : ℕ) → Trie → Type 0
IsApart m s d nothing = Unit
IsApart m s d (data_at e) = pointer_to m e ≢ s
IsApart m s d (branch n l r) = (n ≡ s → d ≤ 96) × IsApart m s (d + 1) l × IsApart m s (d + 1) r

-- The address of a network is not the one behind the last address of IPv4.
abbrev pub IsSettled : Network → Type 0
IsSettled n = big_endian n.ip ≢ 2 ^ 32

module _ {ℓ} {N : Type ℓ} (ip_network : ℕ → ℤ → Result N) (self : Reader)
    (decode_utf8 : List ℕ → Option (List ℕ)) (limit : ℕ) where
  -- What is yielded for a network, with the arguments that the extension gives to `ip_network`.
  abbrev pub item_of : Network → Result (N × Record)
  item_of n =
      item ip_network self decode_utf8 limit (big_endian (packed 128 n)) (prefix 128 n)
        (pointer_to self.metadata n.entry)

  -- The prefix length that the reader computes is the extension's.
  prefix_lem :
      (n : Network)
      → IsSettled n
      → IsPrefix n.depth n.ip
      → (if leb (big_endian n.ip) (2 ^ 32) && true then sub_ℕ n.depth 96 else pos n.depth)
        ≡ prefix 128 n
  prefix_lem n settled p =
      let (same, cases) = packed-big_endian n p.length_lem p.octets in
      elim cases [
        | inl (large, len, e) ↦
            let above : leb (big_endian n.ip) (2 ^ 32) ≡ false = ground (arith, settled) in
            rw above (sym e)
        | inr (small, len, e) ↦
            let below : leb (big_endian n.ip) (2 ^ 32) ≡ true = ground arith in rw below (sym e)
      ]

  -- The item of a data record at a depth.
  data_item_lem :
      (n : Network) (ip_acc : ℕ)
      → self.metadata.ip_version ≡ 6
      → n.depth ≤ 128
      → IsPrefix n.depth n.ip
      → IsSettled n
      → big_endian n.ip ≡ ip_acc * 2 ^ (128 - n.depth)
      → data_item ip_network self decode_utf8 limit
          (pointer_to self.metadata n.entry)
          n.depth
          ip_acc
        ≡ collect (item_of n ∷ [])
  unfolding data_item
  data_item_lem n ip_acc six fits p settled e =
      let shallow : ltb 128 n.depth ≡ false = ground arith in
      let address = (packed-big_endian n p.length_lem p.octets).0 in
      rw (data_item, six, shallow, ← e, prefix_lem n settled p, address)
        (sym (then_from_stop (yield_result _)))

  -- Whether the test for aliases holds at a node.
  alias_lem :
      (n d ip_acc : ℕ) (ip : List ℕ)
      → (n ≡ self.ipv4_start → d ≤ 96)
      → IsPrefix d ip
      → big_endian ip ≡ ip_acc * 2 ^ (128 - d)
      → (not (ip_acc == 0) && (n == self.ipv4_start)) ≡ ((n == self.ipv4_start) && is_ipv6 ip)
  alias_lem n d ip_acc ip apart p e = elim (Bool-cases (n == self.ipv4_start)) [
    | inr other ↦ rw other (and_false (not (ip_acc == 0)))
    | inl start ↦ elim (is_ipv6_cases ip p.length_lem p.octets) [
      | inl (is, large) ↦
          let set : (ip_acc == 0) ≡ false =
            not_zero ip_acc (2 ^ (128 - d)) (big_endian ip) e (omega (arith, large)) in
          rw (start, is, set) refl
      | inr (is, small, same) ↦
          let clear : (ip_acc == 0) ≡ true =
            zero_below ip_acc d (big_endian ip) (apart (ground arith)) e small in
          rw (start, is, clear) refl
    ]
  ]

  -- The iteration from a record of the tree on.
  children_lem :
      (rounds v d ip_acc : ℕ) (ip : List ℕ) (t : Trie)
      → height t < rounds
      → d + height t ≤ 128
      → self.metadata.ip_version ≡ 6
      → IsPrefix d ip
      → big_endian ip ≡ ip_acc * 2 ^ (128 - d)
      → Holds self.buffer self.metadata v t
      → IsApart self.metadata self.ipv4_start d t
      → All IsSettled (networks self.ipv4_start ip d t)
      → generate_children ip_network self decode_utf8 limit rounds v d ip_acc
        ≡ collect (map item_of (networks self.ipv4_start ip d t))
  unfolding generate_children
  children_lem zero v d ip_acc ip t enough fits six p e h apart settled = absurd (omega arith)
  children_lem (suc rounds) v d ip_acc ip nothing enough fits six p e h apart settled =
      let above : ltb self.metadata.node_count v ≡ false = ground arith in
      let below : ltb v self.metadata.node_count ≡ false = ground arith in
      elim (Bool-cases (not (ip_acc == 0) && (v == self.ipv4_start))) [
        | inl alias ↦ rw (generate_children, alias) refl
        | inr other ↦ rw (generate_children, other, above, below) refl
      ]
  children_lem (suc rounds) v d ip_acc ip (data_at x) enough fits six p e h apart (settled, _) =
      let above : ltb self.metadata.node_count v ≡ true = ground arith in
      let differs : (v == self.ipv4_start) ≡ false = ground (arith, apart) in
      let other : (not (ip_acc == 0) && (v == self.ipv4_start)) ≡ false =
        rw differs (and_false (not (ip_acc == 0))) in
      rw (generate_children, other, above, h)
        (data_item_lem (record { ip = ip; depth = d; entry = x }) ip_acc six (omega (arith, fits)) p
          settled e)
  children_lem (suc rounds) v d ip_acc ip (branch n l r) enough fits six p e h
        (high, apart_l, apart_r) settled =
      let s = self.ipv4_start in
      let here : Holds self.buffer self.metadata n (branch n l r) =
        (refl, h.1, h.2, h.3, h.4, h.5, h.6, h.7, h.8) in
      let (u, read_l, held_l) = child self.buffer self.metadata n 0 l r (omega arith) here in
      let (w, read_r, held_r) = child self.buffer self.metadata n 1 l r (omega arith) here in
      let above : ltb self.metadata.node_count n ≡ false = ground (arith, h.1) in
      let below : ltb n self.metadata.node_count ≡ true = ground (arith, h.1) in
      let alias = alias_lem n d ip_acc ip high p e in
      let bit = big_endian-set_bit ip d p.length_lem p.octets (omega (arith, fits)) p.below in
      elim (Bool-cases ((n == s) && is_ipv6 ip)) [
        | inl skipped ↦ rw (generate_children, h.0, alias ∙ skipped, skipped) refl
        | inr other ↦
            let rest : All IsSettled
                (networks s ip (d + 1) l ++ networks s (set_bit d ip) (d + 1) r) =
              rw other at settled in
            let left =
              children_lem rounds u (d + 1) (ip_acc * 2) ip l (omega (arith, enough))
                (omega (arith, fits)) six (IsPrefix-left d ip p)
                (left_address d ip_acc (big_endian ip) (omega (arith, fits)) e) held_l apart_l
                (All-append_left IsSettled (networks s ip (d + 1) l) _ rest) in
            let right =
              children_lem rounds w (d + 1) (ip_acc * 2 + 1) (set_bit d ip) r
                (omega (arith, enough)) (omega (arith, fits)) six (IsPrefix-right d ip p)
                (bit ∙ right_address d ip_acc (big_endian ip) (omega (arith, fits)) e) held_r
                apart_r (All-append_right IsSettled (networks s ip (d + 1) l) _ rest) in
            rw
              (
                generate_children,
                h.0,
                alias ∙ other,
                above,
                below,
                read_l,
                left,
                read_r,
                right,
                other,
              )
              (sym (
                ap collect (
                  map-append item_of (networks s ip (d + 1) l)
                    (networks s (set_bit d ip) (d + 1) r))
                ∙ collect-append (map item_of (networks s ip (d + 1) l)) _))
      ]

  -- Where the buffer holds a tree of an IPv6 database that is no deeper than an address and for
  -- which Python's stack has room, the reader's iteration gives the networks that the iterator of
  -- the extension gives for the tree, in the same order and with the same address and prefix
  -- length, each with the data of its pointer, up to the first one that raises; provided that the
  -- record at the start of IPv4 is a node at a depth of 96 at most, which no data record shares,
  -- and that no network begins right behind the last address of IPv4.
  pub iter-networks :
      (rounds : ℕ) (t : Trie)
      → height t < rounds
      → height t ≤ 128
      → self.metadata.ip_version ≡ 6
      → Holds self.buffer self.metadata 0 t
      → IsApart self.metadata self.ipv4_start 0 t
      → All IsSettled (networks self.ipv4_start (replicate 16 0) 0 t)
      → iter ip_network self decode_utf8 limit rounds
        ≡ collect (map item_of (networks self.ipv4_start (replicate 16 0) 0 t))
  unfolding iter big_endian
  iter-networks rounds t enough fits six h apart settled =
      children_lem rounds 0 0 0 (replicate 16 0) t enough (omega (arith, fits)) six root
        (omega arith) h apart settled
    where
      root : IsPrefix 0 (replicate 16 0)
      root = record {
        length_lem = refl;
        octets = ground arith;
        below = ((0, omega arith), ground arith);
      }
