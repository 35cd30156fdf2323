-- ===== src/Pure/Reader.antt =====
-- The Reader in Python over a search tree in a buffer: maxminddb/reader.py.
pub mod Nodes
pub mod Tree
pub mod Bits
pub mod Lookup
pub mod Children
use max_mind_db_reader_pytho.Base.{
  ℕ, zero, suc, ◌+◌, ◌-◌, ◌*◌, ◌/◌, ◌%◌, ◌^◌, ℤ, pos, sub_ℕ, Bool, true, false, not, ◌&&◌, ◌||◌,
  Option, some, none, String, List, [], ◌∷◌, ◌++◌, ◌==◌, ltb, leb, if◌then◌else◌, length, get_or,
}
use max_mind_db_reader_pytho.Pure.{
  Result, Exn, ok, raises, pure, ◌>>=◌, invalid_database_error, value_error, index_error,
  type_error,
}
use max_mind_db_reader_pytho.Pure.Buffer.{slice, unpack}
use max_mind_db_reader_pytho.Pure.Decoder.{Decoder, Record, decode}

-- The numbers of `Metadata` that the reader computes with.
pub record Metadata : Type 0 where
  pub ip_version : ℕ
  pub node_count : ℕ
  pub record_size : ℕ

-- `node_byte_size` and `search_tree_size`
abbrev pub node_byte_size : Metadata → ℕ
node_byte_size m = m.record_size / 4

abbrev pub search_tree_size : Metadata → ℕ
search_tree_size m = m.node_count * node_byte_size m

-- `Reader`, open. Its decoder reads the same buffer.
pub record Reader : Type 0 where
  pub buffer : List ℕ
  pub buffer_size : ℕ
  pub metadata : Metadata
  pub ipv4_start : ℕ

-- `bytearray.pop`: what is left, and the last byte.
unfoldable pub pop : List ℕ → Result (List ℕ × ℕ)
pop [] = raises index_error
pop (b ∷ []) = ok ([], b)
pop (b ∷ c ∷ bs) = do (front, last) ← pop (c ∷ bs); ok (b ∷ front, last)

-- The two ways to fill up a record of 28 bits to four bytes.
unfoldable pub fill_28 : (index : ℕ) → List ℕ → Result (List ℕ)
unfolding pop
fill_28 index node_bytes =
    if index == 0
    then (do (front, last) ← pop node_bytes; ok ((last / 16) ∷ front))
    else elim node_bytes [ [] ↦ raises index_error | b ∷ bs ↦ ok ((b % 16) ∷ bs) ]

-- `_read_node`, before there is a reader whose `_ipv4_start` is set.
unfoldable pub read_node : List ℕ → Metadata → (node_number index : ℕ) → Result ℕ
unfolding fill_28 unpack
read_node buffer metadata node_number index =
    let base_offset = node_number * node_byte_size metadata in
    let record_size = metadata.record_size in
    if record_size == 24
    then (let offset = base_offset + index * 3 in unpack 4 (0 ∷ slice buffer offset (offset + 3)))
    else if record_size == 28
    then (let offset = base_offset + 3 * index in
        (do node_bytes ← fill_28 index (slice buffer offset (offset + 4)); unpack 4 node_bytes))
    else if record_size == 32
    then (let offset = base_offset + index * 4 in unpack 4 (slice buffer offset (offset + 4)))
    else raises (invalid_database_error "Unknown record size: {record_size}")

-- The loop of `__init__` that goes down the zero bits.
unfoldable pub skip_zeros : List ℕ → Metadata → (rounds node : ℕ) → Result ℕ
unfolding read_node
skip_zeros buffer metadata zero node = ok node
skip_zeros buffer metadata (suc rounds) node =
    if leb metadata.node_count node
    then ok node
    else read_node buffer metadata node 0 >>= skip_zeros buffer metadata rounds

-- `_ipv4_start`
unfoldable pub find_ipv4_start : List ℕ → Metadata → Result ℕ
unfolding skip_zeros
find_ipv4_start buffer metadata =
    if metadata.ip_version == 6 then skip_zeros buffer metadata 96 0 else ok 0

-- The bit of an address that `_find_address_in_tree` takes at a depth.
unfoldable pub address_bit : List ℕ → ℕ → ℕ
address_bit packed i = get_or packed (i / 8) 0 / 2 ^ (7 - i % 8) % 2

-- The argument of a lookup: a str, or an object with its `version`, and its `packed` if it has one.
pub data Argument : Type 0 where
  text : String → Argument
  object : Option (List ℕ) → (version : ℕ) → Argument

-- The bytes and the version of an address; `ip_address` is the function of that name in `ipaddress`.
unfoldable pub address_of : (String → Result (List ℕ × ℕ)) → Argument → Result (List ℕ × ℕ)
address_of ip_address (text s) = ip_address s
address_of ip_address (object none version) = raises type_error
address_of ip_address (object (some packed) version) = ok (packed, version)

abbrev ipv6_in_ipv4 : String
ipv6_in_ipv4 =
    "Error looking up {ip_address}. You attempted to look up an IPv6 address in an IPv4-only database."

module _ (self : Reader) where
  -- `_start_node`
  unfoldable pub start_node : (length : ℕ) → ℕ
  start_node bits = if (self.metadata.ip_version == 6) && (bits == 32) then self.ipv4_start else 0

  -- The loop of `_find_address_in_tree`; `rounds` is `bit_count - i`.
  unfoldable pub find_node : List ℕ → (rounds i node : ℕ) → Result (ℕ × ℕ)
  unfolding read_node address_bit
  find_node packed zero i node = ok (node, i)
  find_node packed (suc rounds) i node =
      if ltb node self.metadata.node_count
      then read_node self.buffer self.metadata node (address_bit packed i)
        >>= find_node packed rounds (i + 1)
      else ok (node, i)

  -- `_find_address_in_tree`
  unfoldable pub find_address_in_tree : List ℕ → Result (ℕ × ℕ)
  unfolding find_node start_node
  find_address_in_tree packed = do
    let bit_count = length packed * 8
    (node, i) ← find_node packed bit_count 0 (start_node bit_count)
    if node == self.metadata.node_count
        then ok (0, i)
        else if ltb self.metadata.node_count node
        then ok (node, i)
        else raises (invalid_database_error "Invalid node in search tree")

  module _ (decode_utf8 : List ℕ → Option (List ℕ)) (limit : ℕ) where
    -- `_resolve_data_pointer`
    unfoldable pub resolve_data_pointer : ℕ → Result Record
    unfolding decode
    resolve_data_pointer pointer = do
      let resolved = pointer - self.metadata.node_count + search_tree_size self.metadata
      if leb self.buffer_size resolved
          then raises (invalid_database_error "The MaxMind DB file's search tree is corrupt")
          else (do
            (data', last) ←
                decode decode_utf8
                  (record {
                    buffer = self.buffer;
                    pointer_base = search_tree_size self.metadata + 16;
                    pointer_test = false;
                  })
                  limit resolved
            ok data')

    -- From the test of the version on, in `get_with_prefix_len`.
    unfoldable pub lookup_packed : (packed : List ℕ) (version : ℕ) → Result (Option Record × ℕ)
    unfolding find_address_in_tree resolve_data_pointer
    lookup_packed packed version =
        if (version == 6) && (self.metadata.ip_version == 4)
        then raises (value_error ipv6_in_ipv4)
        else (do
          (pointer, prefix_len) ← find_address_in_tree packed
          if pointer == 0
              then ok (none, prefix_len)
              else (do data' ← resolve_data_pointer pointer; ok (some data', prefix_len)))

    module _ (ip_address : String → Result (List ℕ × ℕ)) where
      -- `get_with_prefix_len`
      unfoldable pub get_with_prefix_len : Argument → Result (Option Record × ℕ)
      unfolding address_of lookup_packed
      get_with_prefix_len argument = do
        (packed, version) ← address_of ip_address argument
        lookup_packed packed version

      -- `get`
      unfoldable pub get : Argument → Result (Option Record)
      unfolding get_with_prefix_len
      get argument = do (data', prefix_len) ← get_with_prefix_len argument; ok data'
