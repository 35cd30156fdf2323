-- ===== src/Entry/Layout/Defs.antt =====
-- Values of a database, the list that libmaxminddb makes of one, and the Python object that stands
-- for it.
use mathlib.Core.Option
use max_mind_db_reader_pytho.Base.{
  ℕ, suc, pos, ◌≤◌, ◌<◌, arith, length, Option, none, some, List, ◌∷◌,
}
use max_mind_db_reader_pytho.Env.{
  Env, EntryData, EntryDataList, map, array, utf8_string, bytes, double, float, uint16, uint32,
  boolean, uint64, uint128, int32, other,
}
use max_mind_db_reader_pytho.Value.{Value, Items, Fields, dict, list, insert, snoc}
use max_mind_db_reader_pytho.Entry.{uint128_value, to_long}

-- An entry that stands for a whole value.
abbrev pub IsLeaf : EntryData → Type 0
IsLeaf (map n) = ⊥
IsLeaf (array n) = ⊥
IsLeaf (other t) = ⊥
IsLeaf _ = Unit {0}

mutual
  pub data Data : Type 0 where
    leaf : (e : EntryData) → IsLeaf e → Data
    object : DataFields → Data
    sequence : DataItems → Data

  pub data DataItems : Type 0 where
    nil : DataItems
    cons : Data → DataItems → DataItems

  pub data DataFields : Type 0 where
    end : DataFields
    field : List ℕ → Data → DataFields → DataFields

abbrev pub count_items : DataItems → ℕ
count_items nil = 0
count_items (cons x xs) = suc (count_items xs)

abbrev pub count_fields : DataFields → ℕ
count_fields end = 0
count_fields (field k v fs) = suc (count_fields fs)

-- The entries of a value, in front of `rest`.
abbrev mutual
  pub layout : Data → EntryDataList → EntryDataList
  layout (leaf e p) rest = e ∷ rest
  layout (object fs) rest = map (count_fields fs) ∷ layout_fields fs rest
  layout (sequence xs) rest = array (count_items xs) ∷ layout_items xs rest

  pub layout_items : DataItems → EntryDataList → EntryDataList
  layout_items nil rest = rest
  layout_items (cons x xs) rest = layout x (layout_items xs rest)

  pub layout_fields : DataFields → EntryDataList → EntryDataList
  layout_fields end rest = rest
  layout_fields (field k v fs) rest = utf8_string k ∷ layout v (layout_fields fs rest)

infixl 5 ◌>>=◌
abbrev pub ◌>>=◌ {ℓ κ} : {A : Type ℓ} {B : Type κ} → Option A → (A → Option B) → Option B
none >>= f = none
some a >>= f = f a

-- The object that a value becomes: none if a string in it is not UTF-8.
module _ (env : Env) where
  abbrev pub leaf_value : EntryData → Option Value
  leaf_value (utf8_string s) = Option.map Value.str (env.decode_utf8 s)
  leaf_value (bytes s) = some (Value.bytearray s)
  leaf_value (double x) = some (Value.float x)
  leaf_value (float x) = some (Value.float (env.double_of_float x))
  leaf_value (uint16 n) = some (Value.int (pos n))
  leaf_value (uint32 n) = some (Value.int (to_long env.long_bits n))
  leaf_value (boolean b) = some (Value.bool b)
  leaf_value (uint64 n) = some (Value.int (pos n))
  leaf_value (uint128 u) = some (Value.int (pos (uint128_value u)))
  leaf_value (int32 n) = some (Value.int n)
  leaf_value _ = none

  abbrev mutual
    pub value : Data → Option Value
    value (leaf e p) = leaf_value e
    value (object fs) = value_fields fs Fields.end >>= λ d. some (dict d)
    value (sequence xs) = value_items xs Items.nil >>= λ a. some (list a 0)

    -- Fields are put into a dict one after the other, so the last of two equal keys counts.
    pub value_fields : DataFields → Fields → Option Fields
    value_fields end d = some d
    value_fields (field k v fs) d =
        env.decode_utf8 k >>= λ k'. value v >>= λ v'. value_fields fs (insert k' v' d)

    pub value_items : DataItems → Items → Option Items
    value_items nil a = some a
    value_items (cons x xs) a = value x >>= λ x'. value_items xs (snoc a x')

mutual
  pub length-layout : (t : Data) (rest : EntryDataList) → length rest < length (layout t rest)
  length-layout (leaf e p) rest = omega arith
  length-layout (object fs) rest = omega (arith, length-layout_fields fs rest)
  length-layout (sequence xs) rest = omega (arith, length-layout_items xs rest)

  pub length-layout_items :
      (xs : DataItems) (rest : EntryDataList) → length rest ≤ length (layout_items xs rest)
  length-layout_items nil rest = omega arith
  length-layout_items (cons x xs) rest =
      omega (arith, length-layout x (layout_items xs rest), length-layout_items xs rest)

  pub length-layout_fields :
      (fs : DataFields) (rest : EntryDataList) → length rest ≤ length (layout_fields fs rest)
  length-layout_fields end rest = omega arith
  length-layout_fields (field k v fs) rest =
      omega (arith, length-layout v (layout_fields fs rest), length-layout_fields fs rest)
