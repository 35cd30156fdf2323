-- ===== src/Pure/Reader/Tree.antt =====
-- The search tree that a buffer holds, and the walks of maxminddb/reader.py down it: lines 103-114 and
-- 194-217.
use max_mind_db_reader_pytho.Base.{
  ℕ, zero, suc, ◌+◌, ◌*◌, ◌<◌, ◌≡◌, refl, true, false, List, ◌==◌, leb, if◌then◌else◌, arith,
  Bool-cases, inl, inr,
}
use max_mind_db_reader_pytho.Env.{Entry}
use max_mind_db_reader_pytho.Iter.Trie.{Trie, nothing, data_at, branch}
use max_mind_db_reader_pytho.Pure.{Result, ok, raises, invalid_database_error}
use max_mind_db_reader_pytho.Pure.Buffer.{At}
use max_mind_db_reader_pytho.Pure.Reader.{
  Metadata, node_byte_size, read_node, skip_zeros, find_ipv4_start,
}
use max_mind_db_reader_pytho.Pure.Reader.Nodes.{NodeBytes, read_node-NodeBytes}

-- The record of an entry of the data section.
abbrev pub pointer_to : Metadata → Entry → ℕ
pointer_to m e = m.node_count + 16 + e.offset

-- The buffer holds that tree under a record.
abbrev pub Holds : List ℕ → Metadata → ℕ → Trie → Type 0
Holds buffer m v nothing = v ≡ m.node_count
Holds buffer m v (data_at e) = v ≡ pointer_to m e
Holds buffer m v (branch n l r) =
    (v ≡ n)
    × (n < m.node_count)
    × (left : ℕ) × (right : ℕ) × (bs : List ℕ) × NodeBytes m.record_size left right bs
    × At buffer (n * node_byte_size m) bs
    × Holds buffer m left l
    × Holds buffer m right r

-- The record that so many bits lead to, from some depth on, and its depth: the walk ends early at a
-- record that is no node.
abbrev pub descend : (bit : ℕ → ℕ) → (rounds depth : ℕ) → Trie → Trie × ℕ
descend bit zero d t = (t, d)
descend bit (suc k) d nothing = (nothing, d)
descend bit (suc k) d (data_at e) = (data_at e, d)
descend bit (suc k) d (branch n l r) = descend bit k (d + 1) (if bit d == 0 then l else r)

-- What the walk of an address is to answer: no pointer, the pointer of the data, or an exception
-- where the address ends above the leaves.
abbrev pub answer : Metadata → Trie × ℕ → Result (ℕ × ℕ)
answer m (nothing, d) = ok (0, d)
answer m (data_at e, d) = ok (pointer_to m e, d)
answer m (branch n l r, d) = raises (invalid_database_error "Invalid node in search tree")

module _ (buffer : List ℕ) (m : Metadata) where
  -- A step to the record that a bit selects.
  pub child :
      (n b : ℕ) (l r : Trie)
      → b < 2
      → Holds buffer m n (branch n l r)
      → (v : ℕ) × (read_node buffer m n b ≡ ok v) × Holds buffer m v (if b == 0 then l else r)
  child n zero l r lt (e, inside, left, right, bs, form, a, hl, hr) =
      (left, (read_node-NodeBytes buffer m n left right bs form a).0, hl)
  child n (suc zero) l r lt (e, inside, left, right, bs, form, a, hl, hr) =
      (right, (read_node-NodeBytes buffer m n left right bs form a).1, hr)
  child n (suc (suc b)) l r lt h = absurd (omega arith)

  -- The loop over the zero bits ends at what they lead to.
  skip_zeros_lem :
      (k d v : ℕ) (t : Trie)
      → Holds buffer m v t
      → (u : ℕ) × (skip_zeros buffer m k v ≡ ok u) × Holds buffer m u (descend (λ i. 0) k d t).0
  unfolding skip_zeros
  skip_zeros_lem zero d v t h = (v, refl, h)
  skip_zeros_lem (suc k) d v nothing h =
      let e : leb m.node_count v ≡ true = ground arith in (v, rw (skip_zeros, e) refl, h)
  skip_zeros_lem (suc k) d v (data_at x) h =
      let e : leb m.node_count v ≡ true = ground arith in (v, rw (skip_zeros, e) refl, h)
  skip_zeros_lem (suc k) d v (branch n l r) h =
      let here : Holds buffer m n (branch n l r) = (refl, h.1, h.2, h.3, h.4, h.5, h.6, h.7, h.8) in
      let (w, read, next) = child n 0 l r (omega arith) here in
      let e : leb m.node_count v ≡ false = ground (arith, h.0, h.1) in
      let (u, rest, last) = skip_zeros_lem k (d + 1) w l next in
      (u, rw (skip_zeros, e, h.0, read) rest, last)

-- What the constructor stores as the start of IPv4 is the record that 96 zero bits lead to from the
-- root of an IPv6 tree, and the root otherwise.
pub find_ipv4_start-Holds :
    (buffer : List ℕ) (m : Metadata) (t : Trie)
    → Holds buffer m 0 t
    → (u : ℕ) × (find_ipv4_start buffer m ≡ ok u)
      × Holds buffer m u (if m.ip_version == 6 then (descend (λ i. 0) 96 0 t).0 else t)
unfolding find_ipv4_start
find_ipv4_start-Holds buffer m t h = elim (Bool-cases (m.ip_version == 6)) [
  | inl six ↦
      let (u, e, last) = skip_zeros_lem buffer m 96 0 0 t h in
      (u, rw (find_ipv4_start, six) e, rw six last)
  | inr other ↦ (0, rw (find_ipv4_start, other) refl, rw other h)
]
