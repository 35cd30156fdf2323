-- ===== src/Pure/Reader/Lookup.antt =====
-- What a lookup answers: `_find_address_in_tree` and `get_with_prefix_len` of maxminddb/reader.py, lines
-- 130-164 and 194-217.
use max_mind_db_reader_pytho.Base.{
  String, ℕ, zero, suc, ◌+◌, ◌-◌, ◌*◌, ◌≤◌, ◌<◌, ◌≡◌, refl, ap, true, false, Option, none, some,
  List, ◌==◌, ◌&&◌, ltb, leb, if◌then◌else◌, length, arith, All, IsByte,
}
use max_mind_db_reader_pytho.Env.{Entry}
use max_mind_db_reader_pytho.Entry.BigEndian.{big_endian}
use max_mind_db_reader_pytho.Iter.Trie.{Trie, nothing, data_at, branch}
use max_mind_db_reader_pytho.Pure.{Result, ok, raises, invalid_database_error}
use max_mind_db_reader_pytho.Pure.Decoder.{Record}
use max_mind_db_reader_pytho.Pure.Decoder.Format.{Stored}
use max_mind_db_reader_pytho.Pure.Decoder.Reads.{decode-Stored}
use max_mind_db_reader_pytho.Pure.Reader.{
  search_tree_size, Reader, find_node, find_address_in_tree, start_node, resolve_data_pointer,
  get_with_prefix_len, lookup_packed, Argument, address_of,
}
use max_mind_db_reader_pytho.Pure.Reader.Tree.{Holds, descend, answer, pointer_to, child}
use max_mind_db_reader_pytho.Pure.Reader.Bits.{bit_of, address_bit-bit_of}

module _ (self : Reader) (packed : List ℕ) (bytes : All IsByte packed) where
  -- The bits of the address, as a number.
  abbrev bit : ℕ → ℕ
  bit = bit_of (length packed * 8) (big_endian packed)

  find_node_lem :
      (k d v : ℕ) (t : Trie)
      → k + d ≤ length packed * 8
      → Holds self.buffer self.metadata v t
      → (u : ℕ) × (find_node self packed k d v ≡ ok (u, (descend bit k d t).1))
        × Holds self.buffer self.metadata u (descend bit k d t).0
  unfolding find_node
  find_node_lem zero d v t fits h = (v, refl, h)
  find_node_lem (suc k) d v nothing fits h =
      let e : ltb v self.metadata.node_count ≡ false = ground arith in
      (v, rw (find_node, e) refl, h)
  find_node_lem (suc k) d v (data_at x) fits h =
      let e : ltb v self.metadata.node_count ≡ false = ground arith in
      (v, rw (find_node, e) refl, h)
  find_node_lem (suc k) d v (branch n l r) fits h =
      let here : Holds self.buffer self.metadata n (branch n l r) =
        (refl, h.1, h.2, h.3, h.4, h.5, h.6, h.7, h.8) in
      let (w, read, next) = child self.buffer self.metadata n (bit d) l r (omega arith) here in
      let e : ltb v self.metadata.node_count ≡ true = ground (arith, h.0, h.1) in
      let (u, rest, last) =
        find_node_lem k (d + 1) w (if bit d == 0 then l else r) (omega (arith, fits)) next in
      (
        u,
        rw (find_node, e, h.0, address_bit-bit_of packed d bytes (omega (arith, fits)), read) rest,
        last,
      )

  -- The answer for a record that the walk ends at.
  answer_lem :
      (u : ℕ) (end : Trie × ℕ)
      → Holds self.buffer self.metadata u end.0
      → (if u == self.metadata.node_count
          then ok (0, end.1)
          else if ltb self.metadata.node_count u
          then ok (u, end.1)
          else raises (invalid_database_error "Invalid node in search tree"))
        ≡ answer self.metadata end
  answer_lem u (nothing, d) h =
      let e : (u == self.metadata.node_count) ≡ true = ground arith in rw e refl
  answer_lem u (data_at x, d) h =
      let e : (u == self.metadata.node_count) ≡ false = ground arith in
      let e' : ltb self.metadata.node_count u ≡ true = ground arith in
      rw (e, e') (ap (λ n. ok (n, d)) h)
  answer_lem u (branch n l r, d) h =
      let e : (u == self.metadata.node_count) ≡ false = ground (arith, h.0, h.1) in
      let e' : ltb self.metadata.node_count u ≡ false = ground (arith, h.0, h.1) in rw (e, e') refl

  -- Where the buffer holds a tree under the node that the walk starts at, the walk answers for the
  -- record that the bits of the address, read as a number, lead to in the tree: no pointer or the
  -- pointer of the data, with the depth of the record, and an exception where the address ends
  -- above the leaves.
  pub find_address_in_tree-descend :
      (t : Trie)
      → Holds self.buffer self.metadata (start_node self (length packed * 8)) t
      → find_address_in_tree self packed
        ≡ answer self.metadata
            (descend (bit_of (length packed * 8) (big_endian packed)) (length packed * 8) 0 t)
  unfolding find_address_in_tree
  find_address_in_tree-descend t h =
      let (u, e, last) =
        find_node_lem (length packed * 8) 0 (start_node self (length packed * 8)) t (omega arith)
          h in
      rw (find_address_in_tree, e) (answer_lem u (descend bit (length packed * 8) 0 t) last)

-- The value that a record of the tree leads to, where it can be decoded.
abbrev pub Leads : (List ℕ → Option (List ℕ)) → Reader → (limit : ℕ) → Trie → Option Record → Type 0
Leads decode_utf8 self limit nothing none = Unit
Leads decode_utf8 self limit nothing (some v) = ⊥
Leads decode_utf8 self limit (data_at e) none = ⊥
Leads decode_utf8 self limit (data_at e) (some v) =
    (levels : ℕ) × (last : ℕ) × (levels ≤ limit)
    × (search_tree_size self.metadata + 16 + e.offset < self.buffer_size)
    × Stored decode_utf8
        (record {
          buffer = self.buffer;
          pointer_base = search_tree_size self.metadata + 16;
          pointer_test = false;
        })
        levels (search_tree_size self.metadata + 16 + e.offset) v last
Leads decode_utf8 self limit (branch n l r) v = ⊥

module _ (decode_utf8 : List ℕ → Option (List ℕ)) (self : Reader) (limit : ℕ) where
  resolve_lem :
      (e : Entry) (v : Record)
      → Leads decode_utf8 self limit (data_at e) (some v)
      → resolve_data_pointer self decode_utf8 limit (pointer_to self.metadata e) ≡ ok v
  unfolding resolve_data_pointer
  resolve_lem e v (levels, last, fits, inside, stored) =
      let place : pointer_to self.metadata e
            - self.metadata.node_count
            + search_tree_size self.metadata
          ≡ search_tree_size self.metadata + 16 + e.offset =
        omega arith in
      let h : leb self.buffer_size (search_tree_size self.metadata + 16 + e.offset) ≡ false =
        ground arith in
      rw (resolve_data_pointer, place, h, decode-Stored decode_utf8 _ refl limit fits stored) refl

  with_data :
      (packed : List ℕ) (version : ℕ) (end : Trie × ℕ) (v : Option Record)
      → (version == 6) && (self.metadata.ip_version == 4) ≡ false
      → find_address_in_tree self packed ≡ answer self.metadata end
      → Leads decode_utf8 self limit end.0 v
      → lookup_packed self decode_utf8 limit packed version ≡ ok (v, end.1)
  unfolding lookup_packed
  with_data packed version (nothing, d) none supported e h = rw (lookup_packed, supported, e) refl
  with_data packed version (nothing, d) (some v) supported e h = elim h [ ]
  with_data packed version (data_at x, d) none supported e h = elim h [ ]
  with_data packed version (data_at x, d) (some v) supported e h =
      let found : (pointer_to self.metadata x == 0) ≡ false = ground arith in
      rw (lookup_packed, supported, e, found, resolve_lem x v h) refl
  with_data packed version (branch n l r, d) v supported e h = elim h [ ]

  -- Where the buffer holds a search tree from the node that the walk starts at, and the bits of the
  -- address lead in it to no value, or to one that is stored in the buffer as the format says, at a
  -- place before the end of the buffer and no deeper than the stack takes: a lookup with an argument
  -- that stands for the address, of a version that the database supports, returns that value, or
  -- None where there is none, and the depth of the record.
  pub get_with_prefix_len-Leads :
      (ip_address : String → Result (List ℕ × ℕ)) (argument : Argument) (packed : List ℕ)
      (version : ℕ) (t : Trie) (v : Option Record)
      → address_of ip_address argument ≡ ok (packed, version)
      → All IsByte packed
      → (version == 6) && (self.metadata.ip_version == 4) ≡ false
      → Holds self.buffer self.metadata (start_node self (length packed * 8)) t
      → Leads decode_utf8 self limit
          (descend (bit_of (length packed * 8) (big_endian packed)) (length packed * 8) 0 t).0
          v
      → get_with_prefix_len self decode_utf8 limit ip_address argument
        ≡ ok (
          v,
          (descend (bit_of (length packed * 8) (big_endian packed)) (length packed * 8) 0 t).1,
        )
  unfolding get_with_prefix_len
  get_with_prefix_len-Leads ip_address argument packed version t v known bytes supported h leads =
      rw (get_with_prefix_len, known)
        (with_data packed version _ v supported (find_address_in_tree-descend self packed bytes t h)
          leads)
