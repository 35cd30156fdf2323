-- ===== src/Value.antt =====
-- The Python objects that the extension builds: the values of a record in the database.
use max_mind_db_reader_pytho.Base.{
  ℕ, ℤ, ◌+◌, Bool, true, false, List, [], ◌∷◌, ◌==◌, ◌&&◌, if◌then◌else◌,
}

-- A str is its code points and a float its bits. `list` holds the slots that are set and the number
-- of those that still hold NULL.
mutual
  pub data Value : Type 0 where
    dict : Fields → Value
    list : Items → (nulls : ℕ) → Value
    str : List ℕ → Value
    bytearray : List ℕ → Value
    float : ℕ → Value
    int : ℤ → Value
    bool : Bool → Value

  pub data Items : Type 0 where
    nil : Items
    cons : Value → Items → Items

  pub data Fields : Type 0 where
    end : Fields
    field : List ℕ → Value → Fields → Fields

-- Equality of two str keys.
unfoldable pub same_key : List ℕ → List ℕ → Bool
same_key [] [] = true
same_key [] (y ∷ ys) = false
same_key (x ∷ xs) [] = false
same_key (x ∷ xs) (y ∷ ys) = (x == y) && same_key xs ys

-- `d[k] = v`: a key that is there keeps its place.
unfoldable pub insert : List ℕ → Value → Fields → Fields
insert k v end = field k v end
insert k v (field j u d) = if same_key j k then field j v d else field j u (insert k v d)

-- Sets the next slot.
unfoldable pub snoc : Items → Value → Items
snoc nil v = cons v nil
snoc (cons u us) v = cons u (snoc us v)

unfoldable pub size : Items → ℕ
size nil = 0
size (cons v vs) = size vs + 1
