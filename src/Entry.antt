-- ===== src/Entry.antt =====
-- `from_entry_data_list`, `from_map`, `from_array` and `from_uint128` of extension/maxminddb.c,
-- lines 1028-1171: a list of decoded entries becomes a Python object. Where the C code moves a
-- pointer to a list pointer, the functions return the list that is left: it begins with the last
-- node that was read.
pub mod Resources
pub mod Layout
pub mod BigEndian
pub mod Long
use Prim.Native.Nat.{bit_or}
use max_mind_db_reader_pytho.Base.{
  ℕ, zero, suc, ℤ, pos, sub_ℕ, ◌+◌, ◌-◌, ◌*◌, ◌/◌, ◌%◌, ◌^◌, Option, none, some, List, [], ◌∷◌,
  ◌++◌, ltb, if◌then◌else◌, take, drop,
}
use max_mind_db_reader_pytho.Env.{
  Env, Uint128, byte_array, whole, EntryData, EntryDataList, map, array, utf8_string, bytes, double,
  uint16, uint32, boolean, uint64, uint128, int32, other,
}
use max_mind_db_reader_pytho.Runtime.{
  Cmd, out_of_fuel, pure, crash, ◌>>=◌, ◌>>◌, raise, no_memory, free, new_ref, decref, allocate,
  malloc, new_object, invalid_database_error, by_callee, null_pointer, wrong_member, number,
}
use max_mind_db_reader_pytho.Value.{Value, Items, Fields, dict, list, insert, snoc, size}

-- A `PyObject *` and the list pointer behind it.
abbrev pub Decoded : Type 0
Decoded = Option Value × EntryDataList

-- `(x << 8) | b` on a uint64_t.
shift_in : ℕ → ℕ → ℕ
shift_in x b = bit_or (x * 256 % 2 ^ 64) b

-- The loops over the bytes of a uint128.
read_half : ℕ → List ℕ → ℕ
unfolding shift_in
read_half x [] = x
read_half x (b ∷ bs) = read_half (shift_in x b) bs

unfoldable pub high_half : Uint128 → ℕ
unfolding read_half
high_half (byte_array bs) = read_half 0 (take 8 bs)
high_half (whole n) = n / 2 ^ 64

unfoldable pub low_half : Uint128 → ℕ
unfolding read_half
low_half (byte_array bs) = read_half 0 (take 8 (drop 8 bs))
low_half (whole n) = n % 2 ^ 64

hex_digit : ℕ → ℕ
hex_digit d = if ltb d 10 then b'0' + d else b'A' + (d - 10)

-- `%016X`: the last k hexadecimal digits.
unfoldable pub print_hex : ℕ → ℕ → List ℕ
unfolding hex_digit
print_hex zero n = []
print_hex (suc k) n = print_hex k (n / 16) ++ hex_digit (n % 16) ∷ []

hex_value : ℕ → ℕ
hex_value c = if ltb c b'A' then c - b'0' else c - b'A' + 10

-- `PyLong_FromString` in base 16, over digits.
unfoldable pub parse_hex : ℕ → List ℕ → ℕ
unfolding hex_value
parse_hex acc [] = acc
parse_hex acc (c ∷ cs) = parse_hex (acc * 16 + hex_value c) cs

-- The text that `snprintf` leaves in a buffer of 33 bytes, and the number that is read from it.
unfoldable pub uint128_text : Uint128 → List ℕ
uint128_text u = take 32 (print_hex 16 (high_half u) ++ print_hex 16 (low_half u))

unfoldable pub uint128_value : Uint128 → ℕ
uint128_value u = parse_hex 0 (uint128_text u)

-- The conversion of a uint32_t to a `long` of that many bits.
unfoldable pub to_long : (bits : ℕ) → ℕ → ℤ
to_long bits n =
    let m = n % 2 ^ bits in if ltb m (2 ^ (bits - 1)) then pos m else sub_ℕ m (2 ^ bits)

module _ (env : Env) where
  -- `PyUnicode_FromStringAndSize`
  unfoldable pub unicode_from_string : List ℕ → Cmd (Option (List ℕ))
  unfolding new_object
  unicode_from_string s = elim (env.decode_utf8 s) [
    | none ↦ (do raise by_callee "PyUnicode_FromStringAndSize" []; pure none)
    | some k ↦ (do got ← new_object env; pure (if got then some k else none))
  ]

  -- The return of a new object, for one that only the want of memory prevents.
  new_value : EntryDataList → Value → Cmd Decoded
  unfolding new_object
  new_value l v = do got ← new_object env; pure (if got then some v else none, l)

  new_str : EntryDataList → List ℕ → Cmd Decoded
  unfolding unicode_from_string
  new_str l s = do
    k ← unicode_from_string s
    elim k [ none ↦ pure (none, l) | some k ↦ pure (some (Value.str k), l) ]

  from_uint128 : EntryDataList → Uint128 → Cmd Decoded
  unfolding malloc new_value
  from_uint128 l u = do
    num_str ← malloc env
    if num_str
        then (do v ← new_value l (Value.int (pos (uint128_value u))); free; pure v)
        else do no_memory; pure (none, l)

  -- The key at the head of the list: its `utf8_string` is read whatever its type is.
  key_of : EntryDataList → Cmd (Option (List ℕ))
  unfolding unicode_from_string
  key_of [] = crash null_pointer
  key_of (utf8_string s ∷ l) = unicode_from_string s
  key_of (_ ∷ l) = crash wrong_member

  -- `PyDict_SetItem`, whose result is not looked at.
  pub dict_set_item : List ℕ → Value → Fields → Cmd Fields
  unfolding allocate
  dict_set_item k v d = do
    got ← allocate env
    if got then pure (insert k v d) else (do no_memory; pure d)

  -- The loop of `from_map`, `left` rounds before its end; the list pointer is not NULL on entry, and
  -- `decode` is the call of `from_entry_data_list`.
  map_loop : (EntryDataList → Cmd Decoded) → (left : ℕ) → EntryDataList → Fields → Cmd Decoded
  unfolding key_of dict_set_item
  map_loop decode zero l d = pure (some (dict d), l)
  map_loop decode (suc left) [] d = pure (some (dict d), [])
  map_loop decode (suc left) (x ∷ l) d = do
    key ← key_of l
    elim key [
      | none ↦ pure (none, l)
      | some k ↦ do
        (value, l') ← decode (drop 1 l)
        elim value [
          | none ↦ (do decref; decref; pure (none, l'))
          | some v ↦ do d' ← dict_set_item k v d; decref; decref; map_loop decode left l' d'
        ]
    ]

  from_map : (EntryDataList → Cmd Decoded) → (map_size : ℕ) → EntryDataList → Cmd Decoded
  unfolding new_object map_loop
  from_map decode map_size l = do
    py_obj ← new_object env
    if py_obj then map_loop decode map_size l Fields.end else (do no_memory; pure (none, l))

  -- The loop of `from_array`. `PyList_SetItem` takes the reference over.
  array_loop : (EntryDataList → Cmd Decoded) → (left : ℕ) → EntryDataList → Items → Cmd Decoded
  array_loop decode zero l a = pure (some (list a 0), l)
  array_loop decode (suc left) [] a = pure (some (list a (suc left)), [])
  array_loop decode (suc left) (x ∷ l) a = do
    (value, l') ← decode l
    elim value [
      | none ↦ (do decref; pure (none, l'))
      | some v ↦ (do decref; array_loop decode left l' (snoc a v))
    ]

  from_array : (EntryDataList → Cmd Decoded) → (size : ℕ) → EntryDataList → Cmd Decoded
  unfolding new_object array_loop
  from_array decode size l = do
    py_obj ← new_object env
    if py_obj then array_loop decode size l Items.nil else (do no_memory; pure (none, l))

  -- The `switch` on the type of the first node; `l` is the whole list.
  pub from_entry : (EntryDataList → Cmd Decoded) → EntryDataList → EntryData → Cmd Decoded
  unfolding from_map from_array new_str new_value from_uint128
  from_entry decode l (map n) = from_map decode n l
  from_entry decode l (array n) = from_array decode n l
  from_entry decode l (utf8_string s) = new_str l s
  from_entry decode l (bytes s) = new_value l (Value.bytearray s)
  from_entry decode l (double x) = new_value l (Value.float x)
  from_entry decode l (EntryData.float x) = new_value l (Value.float (env.double_of_float x))
  from_entry decode l (uint16 n) = new_value l (Value.int (pos n))
  from_entry decode l (uint32 n) = new_value l (Value.int (to_long env.long_bits n))
  from_entry decode l (boolean b) = do new_ref; pure (some (Value.bool b), l)
  from_entry decode l (uint64 n) = new_value l (Value.int (pos n))
  from_entry decode l (uint128 u) = from_uint128 l u
  from_entry decode l (int32 n) = new_value l (Value.int n)
  from_entry decode l (other type) = do
    raise invalid_database_error "Invalid data type arguments: %d" (number (pos type) ∷ [])
    pure (none, l)

  -- `fuel` bounds the depth of the calls.
  unfoldable pub from_entry_data_list : (fuel : ℕ) → EntryDataList → Cmd Decoded
  unfolding from_entry
  from_entry_data_list zero l = λ _. out_of_fuel
  from_entry_data_list (suc fuel) [] = do
    raise invalid_database_error
        "Error while looking up data. Your database may be corrupt or you have found a bug in libmaxminddb."
        []
    pure (none, [])
  from_entry_data_list (suc fuel) (x ∷ l) = from_entry (from_entry_data_list fuel) (x ∷ l) x
