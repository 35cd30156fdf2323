-- ===== src/Pure/Decoder/Format.antt =====
-- The data section as the format lays it out, against which maxminddb/decoder.py is stated: control
-- bytes, sizes, pointers, and the values that stand in a buffer.
use max_mind_db_reader_pytho.Base.{
  ℕ, suc, ◌+◌, ◌-◌, ◌*◌, ◌/◌, ◌%◌, ◌^◌, ◌≤◌, ◌<◌, ◌≡◌, pos, true, false, Option, some, List, [],
  ◌∷◌, ◌++◌, ltb, if◌then◌else◌, length, sub_ℕ, All, IsByte,
}
use max_mind_db_reader_pytho.Entry.BigEndian.{big_endian}
use max_mind_db_reader_pytho.Pure.Buffer.{At}
use max_mind_db_reader_pytho.Pure.Decoder.{
  Decoder, Record, dict, list, str, bytes, double, single, int, bool, Records, nil, cons, Items,
  end, item, is_hashable,
}

-- The five bits of a control byte for a size, and the bytes behind it.
unfoldable pub size_bits : ℕ → ℕ
size_bits size =
    if ltb size 29 then size else if ltb size 285 then 29 else if ltb size 65821 then 30 else 31

unfoldable pub size_bytes : ℕ → List ℕ
size_bytes size =
    if ltb size 29
    then []
    else if ltb size 285
    then (size - 29) ∷ []
    else if ltb size 65821
    then ((size - 285) / 256) ∷ ((size - 285) % 256) ∷ []
    else (((size - 65821) / 65536) ∷ ((size - 65821) / 256 % 256) ∷ ((size - 65821) % 256) ∷ [])

-- The control byte, the byte of an extended type, and the bytes of the size.
unfoldable pub control : (type_num size : ℕ) → List ℕ
unfolding size_bits size_bytes
control type_num size =
    if ltb type_num 8
    then (type_num * 32 + size_bits size) ∷ size_bytes size
    else size_bits size ∷ (type_num - 7) ∷ size_bytes size

-- The largest size is below this.
abbrev pub size_bound : ℕ
size_bound = 65821 + 2 ^ 24

-- Values without parts: the number of the type, the size, the bytes behind the control bytes, and
-- the value.
pub data Leaf (decode_utf8 : List ℕ → Option (List ℕ))
    : (type_num size : ℕ) → List ℕ → Record → Type 0 where
  text : {bs s : List ℕ} → decode_utf8 bs ≡ some s → Leaf decode_utf8 2 (length bs) bs (str s)
  double_bits : {bs : List ℕ} → length bs ≡ 8 → Leaf decode_utf8 3 8 bs (double (big_endian bs))
  octets : {bs : List ℕ} → Leaf decode_utf8 4 (length bs) bs (bytes bs)
  uint16 : {bs : List ℕ} → Leaf decode_utf8 5 (length bs) bs (int (pos (big_endian bs)))
  uint32 : {bs : List ℕ} → Leaf decode_utf8 6 (length bs) bs (int (pos (big_endian bs)))
  -- Below four bytes a number is not negative.
  short_int32 :
      {bs : List ℕ}
      → length bs < 4
      → All IsByte bs
      → Leaf decode_utf8 8 (length bs) bs (int (pos (big_endian bs)))
  natural_int32 :
      {bs : List ℕ}
      → length bs ≡ 4
      → big_endian bs < 2 ^ 31
      → Leaf decode_utf8 8 4 bs (int (pos (big_endian bs)))
  negative_int32 :
      {bs : List ℕ}
      → length bs ≡ 4
      → 2 ^ 31 ≤ big_endian bs
      → Leaf decode_utf8 8 4 bs (int (sub_ℕ (big_endian bs) (2 ^ 32)))
  uint64 : {bs : List ℕ} → Leaf decode_utf8 9 (length bs) bs (int (pos (big_endian bs)))
  uint128 : {bs : List ℕ} → Leaf decode_utf8 10 (length bs) bs (int (pos (big_endian bs)))
  falsity : Leaf decode_utf8 14 0 [] (bool false)
  truth : Leaf decode_utf8 14 1 [] (bool true)
  float_bits : {bs : List ℕ} → length bs ≡ 4 → Leaf decode_utf8 15 4 bs (single (big_endian bs))

-- The four forms of a pointer, and the number that each of them stands for.
pub data Points : List ℕ → ℕ → Type 0 where
  one_byte : (high low : ℕ) → high < 8 → Points ((32 + high) ∷ low ∷ []) (high * 256 + low)
  two_bytes :
      (high a b : ℕ)
      → high < 8
      → Points ((40 + high) ∷ a ∷ b ∷ []) (high * 65536 + a * 256 + b + 2048)
  three_bytes :
      (high a b c : ℕ)
      → high < 8
      → Points ((48 + high) ∷ a ∷ b ∷ c ∷ []) (high * 16777216 + a * 65536 + b * 256 + c + 526336)
  four_bytes :
      (ignored a b c d : ℕ)
      → ignored < 8
      → Points ((56 + ignored) ∷ a ∷ b ∷ c ∷ d ∷ []) (a * 16777216 + b * 65536 + c * 256 + d)

abbrev pub count : Records → ℕ
count nil = 0
count (cons v vs) = suc (count vs)

abbrev pub entries : Items → ℕ
entries end = 0
entries (item k v d) = suc (entries d)

module _ (decode_utf8 : List ℕ → Option (List ℕ)) (self : Decoder) where
  -- The buffer has a value from an offset to a last one, in that many levels of arrays, maps and
  -- pointers at most.
  mutual
    pub data Stored : (levels offset : ℕ) → Record → (last : ℕ) → Type 0 where
      leaf :
          {levels offset : ℕ} {type_num size : ℕ} {bs : List ℕ} {v : Record}
          → Leaf decode_utf8 type_num size bs v
          → size < size_bound
          → At self.buffer offset (control type_num size ++ bs)
          → Stored (suc levels) offset v (offset + length (control type_num size) + length bs)
      array :
          {levels offset last : ℕ} {vs : Records}
          → count vs < size_bound
          → At self.buffer offset (control 11 (count vs))
          → StoredAll levels (offset + length (control 11 (count vs))) vs last
          → Stored (suc levels) offset (list vs) last
      map :
          {levels offset last : ℕ} {d : Items}
          → entries d < size_bound
          → At self.buffer offset (control 7 (entries d))
          → StoredItems levels (offset + length (control 7 (entries d))) d last
          → Stored (suc levels) offset (dict d) last
      pointer :
          {levels offset last number : ℕ} {bs : List ℕ} {v : Record}
          → Points bs number
          → At self.buffer offset bs
          → Stored levels (number + self.pointer_base) v last
          → Stored (suc levels) offset v (offset + length bs)

    pub data StoredAll : (levels offset : ℕ) → Records → (last : ℕ) → Type 0 where
      no_values : {levels offset : ℕ} → StoredAll levels offset nil offset
      value :
          {levels offset next last : ℕ} {v : Record} {vs : Records}
          → Stored levels offset v next
          → StoredAll levels next vs last
          → StoredAll levels offset (cons v vs) last

    pub data StoredItems : (levels offset : ℕ) → Items → (last : ℕ) → Type 0 where
      no_entries : {levels offset : ℕ} → StoredItems levels offset end offset
      entry :
          {levels offset middle next last : ℕ} {k v : Record} {d : Items}
          → is_hashable k ≡ true
          → Stored levels offset k middle
          → Stored levels middle v next
          → StoredItems levels next d last
          → StoredItems levels offset (item k v d) last
