-- ===== src/Pure/Decoder.antt =====
-- The decoder of the data section: maxminddb/decoder.py.
pub mod Format
pub mod Header
pub mod Leaves
pub mod Pointers
pub mod Reads
pub mod Cycles
pub mod RoundTrip
use max_mind_db_reader_pytho.Base.{
  ℕ, zero, suc, ◌+◌, ◌-◌, ◌*◌, ◌/◌, ◌%◌, ◌^◌, ℤ, pos, Bool, true, false, not, ◌||◌, Option, some,
  none, String, List, [], ◌∷◌, ◌++◌, ◌==◌, ltb, if◌then◌else◌, length, replicate,
}
use max_mind_db_reader_pytho.Entry.BigEndian.{big_endian}
use max_mind_db_reader_pytho.Pure.{
  Result, ok, raises, pure, ◌>>=◌, invalid_database_error, unicode_decode_error, type_error,
  recursion_error,
}
use max_mind_db_reader_pytho.Pure.Buffer.{at, slice, unpack, unpack_signed}

-- The objects that are decoded. A str is its code points, a float the bits of the `double` or
-- `single` it is read from. A dict is the list of the assignments that made it, the first one first:
-- a later one to the same key replaces the value.
mutual
  pub data Record : Type 0 where
    dict : Items → Record
    list : Records → Record
    str : List ℕ → Record
    bytes : List ℕ → Record
    double single : ℕ → Record
    int : ℤ → Record
    bool : Bool → Record

  pub data Records : Type 0 where
    nil : Records
    cons : Record → Records → Records

  pub data Items : Type 0 where
    end : Items
    item : (key value : Record) → Items → Items

-- Whether a record can be the key of a dict.
unfoldable pub is_hashable : Record → Bool
is_hashable (dict d) = false
is_hashable (list l) = false
is_hashable _ = true

-- `Decoder`
pub record Decoder : Type 0 where
  pub buffer : List ℕ
  pub pointer_base : ℕ
  pub pointer_test : Bool

abbrev pub Decoded : Type 0
Decoded = Result (Record × ℕ)

abbrev bad_data : String
bad_data =
    "The MaxMind DB file's data section contains bad data (unknown data type or corrupt data)"

-- `_verify_size`, in front of what follows it.
unfoldable pub verify_size : (expected actual : ℕ) → Decoded → Decoded
verify_size expected actual rest =
    if expected == actual then rest else raises (invalid_database_error bad_data)

-- `rjust(4, b"\x00")`
abbrev rjust : List ℕ → List ℕ
rjust packed_bytes = replicate (4 - length packed_bytes) 0 ++ packed_bytes

module _ (decode_utf8 : List ℕ → Option (List ℕ)) (self : Decoder) where
  -- `_decode_boolean`
  unfoldable pub decode_boolean : (size offset : ℕ) → Decoded
  decode_boolean size offset = ok (bool (not (size == 0)), offset)

  -- `_decode_bytes`
  unfoldable pub decode_bytes : (size offset : ℕ) → Decoded
  decode_bytes size offset = ok (bytes (slice self.buffer offset (offset + size)), offset + size)

  -- `_decode_double` and `_decode_float`
  unfoldable pub decode_double : (size offset : ℕ) → Decoded
  unfolding verify_size unpack
  decode_double size offset = verify_size size 8 (do
    value ← unpack 8 (slice self.buffer offset (offset + size))
    ok (double value, offset + size))

  unfoldable pub decode_float : (size offset : ℕ) → Decoded
  unfolding verify_size unpack
  decode_float size offset = verify_size size 4 (do
    value ← unpack 4 (slice self.buffer offset (offset + size))
    ok (single value, offset + size))

  -- `_decode_int32`
  unfoldable pub decode_int32 : (size offset : ℕ) → Decoded
  unfolding unpack_signed
  decode_int32 size offset = if size == 0 then ok (int (pos 0), offset) else (do
    let packed_bytes = slice self.buffer offset (offset + size)
    value ← unpack_signed (if size == 4 then packed_bytes else rjust packed_bytes)
    ok (int value, offset + size))

  -- `_decode_uint`
  unfoldable pub decode_uint : (size offset : ℕ) → Decoded
  unfolding big_endian
  decode_uint size offset =
      ok (int (pos (big_endian (slice self.buffer offset (offset + size)))), offset + size)

  -- `_decode_utf8_string`
  unfoldable pub decode_utf8_string : (size offset : ℕ) → Decoded
  decode_utf8_string size offset = elim (decode_utf8 (slice self.buffer offset (offset + size))) [
    | none ↦ raises unicode_decode_error
    | some s ↦ ok (str s, offset + size)
  ]

  -- `_size_from_ctrl_byte`
  unfoldable pub size_from_ctrl_byte : (ctrl_byte offset type_num : ℕ) → Result (ℕ × ℕ)
  unfolding at unpack
  size_from_ctrl_byte ctrl_byte offset type_num =
      let size = ctrl_byte % 32 in
      if (type_num == 1) || ltb size 29
      then ok (size, offset)
      else if size == 29
      then (do b ← at self.buffer offset; ok (29 + b, offset + 1))
      else if size == 30
      then (do n ← unpack 2 (slice self.buffer offset (offset + 2)); ok (285 + n, offset + 2))
      else (do n ← unpack 4 (0 ∷ slice self.buffer offset (offset + 3)); ok (n + 65821, offset + 3))

  -- `_read_extended`: its test for a type number below 7 can not hold.
  unfoldable pub read_extended : ℕ → Result (ℕ × ℕ)
  unfolding at
  read_extended offset = do
    next_byte ← at self.buffer offset
    let type_num = next_byte + 7
    if ltb type_num 7
        then raises (
            invalid_database_error
              "Something went horribly wrong in the decoder. An extended type resolved to a type number < 8 ({type_num})")
        else ok (type_num, offset + 1)

  -- The number that a pointer of that size holds, in `_decode_pointer`.
  unfoldable pub pointer_value : (size : ℕ) → List ℕ → Result ℕ
  unfolding unpack
  pointer_value size buf =
      let pointer_size = size / 8 + 1 in
      if pointer_size == 1
      then (do n ← unpack 2 (size % 8 ∷ buf); ok (n + self.pointer_base))
      else if pointer_size == 2
      then (do n ← unpack 4 (0 ∷ size % 8 ∷ buf); ok (n + 2048 + self.pointer_base))
      else if pointer_size == 3
      then (do n ← unpack 4 (size % 8 ∷ buf); ok (n + 526336 + self.pointer_base))
      else (do n ← unpack 4 buf; ok (n + self.pointer_base))

  -- The decoders that call `decode`.
  module _ (decode : ℕ → Decoded) where
    -- `_decode_array`
    unfoldable pub decode_array : (size offset : ℕ) → Result (Records × ℕ)
    decode_array zero offset = ok (nil, offset)
    decode_array (suc size) offset = do
      (value, offset') ← decode offset
      (array, offset'') ← decode_array size offset'
      ok (cons value array, offset'')

    -- `_decode_map`
    unfoldable pub decode_map : (size offset : ℕ) → Result (Items × ℕ)
    unfolding is_hashable
    decode_map zero offset = ok (end, offset)
    decode_map (suc size) offset = do
      (key, offset') ← decode offset
      (value, offset'') ← decode offset'
      let rest = decode_map size offset''
      if is_hashable key
          then (do (container, last) ← rest; ok (item key value container, last))
          else raises type_error

    -- `_decode_pointer`
    unfoldable pub decode_pointer : (size offset : ℕ) → Decoded
    unfolding pointer_value
    decode_pointer size offset = do
      let new_offset = offset + (size / 8 + 1)
      pointer ← pointer_value size (slice self.buffer offset new_offset)
      if self.pointer_test
          then ok (int (pos pointer), new_offset)
          else (do (value, unused) ← decode pointer; ok (value, new_offset))

    -- `_type_decoder`: `none` is its KeyError.
    unfoldable pub type_decoder : (type_num : ℕ) → Option ((size offset : ℕ) → Decoded)
    unfolding decode_array decode_map decode_pointer decode_boolean decode_bytes decode_double
        decode_float decode_int32 decode_uint decode_utf8_string
    type_decoder type_num =
        if type_num == 1
        then some decode_pointer
        else if type_num == 2
        then some decode_utf8_string
        else if type_num == 3
        then some decode_double
        else if type_num == 4
        then some decode_bytes
        else if type_num == 5
        then some decode_uint
        else if type_num == 6
        then some decode_uint
        else if type_num == 7
        then some (λ size offset. (do (d, last) ← decode_map size offset; ok (dict d, last)))
        else if type_num == 8
        then some decode_int32
        else if type_num == 9
        then some decode_uint
        else if type_num == 10
        then some decode_uint
        else if type_num == 11
        then some (λ size offset. (do (l, last) ← decode_array size offset; ok (list l, last)))
        else if type_num == 14
        then some decode_boolean
        else if type_num == 15
        then some decode_float
        else none

    -- `decode`, once the type number is known.
    unfoldable pub decode_as : (ctrl_byte type_num new_offset : ℕ) → Decoded
    unfolding type_decoder size_from_ctrl_byte
    decode_as ctrl_byte type_num new_offset = elim (type_decoder type_num) [
      | none ↦ raises (invalid_database_error "Unexpected type number ({type_num}) encountered")
      | some decoder ↦ (do
        (size, last) ← size_from_ctrl_byte ctrl_byte new_offset type_num
        decoder size last)
    ]

    unfoldable pub decode_type : (offset : ℕ) → Decoded
    unfolding at read_extended decode_as
    decode_type offset = do
      ctrl_byte ← at self.buffer offset
      (type_num, new_offset) ←
          (if ctrl_byte / 32 == 0
            then read_extended (offset + 1)
            else ok (ctrl_byte / 32, offset + 1))
      decode_as ctrl_byte type_num new_offset

  -- `decode`, where Python's stack takes `limit` more calls of it.
  unfoldable pub decode : (limit : ℕ) (offset : ℕ) → Decoded
  unfolding decode_type
  decode zero offset = raises recursion_error
  decode (suc limit) offset = decode_type (decode limit) offset
