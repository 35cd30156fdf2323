-- ===== src/Entry/Layout/Leaves.antt =====
-- The conversion of an entry that is a whole value, and of the parts of a map: extension/
-- maxminddb.c, lines 1028-1077 and 1142-1171.
use max_mind_db_reader_pytho.Base.{
  ℕ, pos, ◌+◌, ◌≤◌, ◌≡◌, ◌≢◌, refl, ◌⊎◌, inl, inr, true, false, Option, none, some, List, ◌∷◌,
  arith, Bool-cases, Option-cases,
}
use max_mind_db_reader_pytho.Env.{
  Env, Uint128, EntryData, EntryDataList, map, array, utf8_string, boolean, uint128, other,
}
use max_mind_db_reader_pytho.Runtime.{World, Cmd}
use max_mind_db_reader_pytho.Runtime.Outcome.{
  Ensures, returns, given, gave, Given, Same, Owns, Starved, new_object_lem, malloc_lem, free_lem,
}
use max_mind_db_reader_pytho.Value.{Value, Fields, insert, int}
use max_mind_db_reader_pytho.Entry.{
  Decoded, uint128_value, unicode_from_string, new_value, new_str, from_uint128, dict_set_item,
  from_entry,
}
use max_mind_db_reader_pytho.Entry.Layout.Defs.{IsLeaf, leaf_value}

-- No exception came up and `P` holds, or an allocation failed and an exception is set.
abbrev pub Intact : Env → World → World → Type 0 → Type 0
Intact env w w' P = ((w'.error ≡ w.error) × P) ⊎ ((w'.error ≢ none) × Starved env)

-- What the conversion of a layout in front of `rest` returns, where the value's object is `expected`:
-- that object, owned, with the pointer at the node before `rest`, or NULL with an exception because
-- the value has no object. Only a failed allocation can make it otherwise.
abbrev pub Converted : Env → World → EntryDataList → Option Value → Decoded → World → Type 0
Converted env w rest expected (some v, l) w' =
    Owns w w' w.blocks (w.refs + 1) w.lists
    × ((e : EntryData) × (l ≡ e ∷ rest))
    × Intact env w w' (expected ≡ some v)
Converted env w rest expected (none, l) w' =
    Same w w'
    × (w.refs ≤ w'.refs)
    × (w'.refs ≤ w.refs + 1)
    × (w'.error ≢ none)
    × ((expected ≡ none) ⊎ Starved env)

module _ (env : Env) where
  abbrev pub Decodes : World → List ℕ → Option (List ℕ) → World → Type 0
  Decodes w s none w' =
      Owns w w' w.blocks w.refs w.lists
      × (w'.error ≢ none)
      × ((env.decode_utf8 s ≡ none) ⊎ Starved env)
  Decodes w s (some k) w' =
      Owns w w' w.blocks (w.refs + 1) w.lists × (w'.error ≡ w.error) × (env.decode_utf8 s ≡ some k)

  pub unicode_lem : (s : List ℕ) (w : World) → Given (Decodes w s) (unicode_from_string env s w)
  unfolding unicode_from_string
  unicode_lem s w = elim (Option-cases (env.decode_utf8 s)) [
    | inl bad ↦
        given (rw (bad, unicode_from_string) (returns (ground arith, ground arith, inl bad)))
    | inr (k, good) ↦ elim (new_object_lem env w) [
      | gave true w₁ e p ↦
          given (rw (good, unicode_from_string, e) (returns (ground arith, ground arith, good)))
      | gave false w₁ e (p, q, r) ↦
          given (rw (good, unicode_from_string, e) (returns (p, q, inr r)))
    ]
  ]

  new_value-Converted :
      (e : EntryData) (rest : EntryDataList) (v : Value) (w : World)
      → Ensures (Converted env w rest (some v)) (new_value env (e ∷ rest) v w)
  unfolding new_value
  new_value-Converted e rest v w = elim (new_object_lem env w) [
    | gave true w₁ q p ↦ rw q (returns (ground arith, (e, refl), ground arith))
    | gave false w₁ q (p, r, s) ↦
        rw q (returns (ground arith, ground arith, ground arith, r, inr s))
  ]

  new_str-Converted :
      (e : EntryData) (rest : EntryDataList) (s : List ℕ) (w : World)
      → Ensures (Converted env w rest (leaf_value env (utf8_string s))) (new_str env (e ∷ rest) s w)
  unfolding new_str
  new_str-Converted e rest s w = elim (unicode_lem s w) [
    | gave (some k) w₁ q (p, r, d) ↦ rw (q, d) (returns (ground arith, (e, refl), ground arith))
    | gave none w₁ q (p, r, inl bad) ↦
        rw (q, bad) (returns (ground arith, ground arith, ground arith, r, inl refl))
    | gave none w₁ q (p, r, inr s) ↦
        rw q (returns (ground arith, ground arith, ground arith, r, inr s))
  ]

  from_uint128-Converted :
      (e : EntryData) (rest : EntryDataList) (u : Uint128) (w : World)
      → Ensures
          (Converted env w rest (some (int (pos (uint128_value u)))))
          (from_uint128 env (e ∷ rest) u w)
  unfolding from_uint128
  from_uint128-Converted e rest u w = elim (malloc_lem env w) [
    | gave false w₁ q (p, r, s) ↦
        rw q (returns (ground arith, ground arith, ground arith, ground arith, inr s))
    | gave true w₁ q p ↦
        elim (given (new_value-Converted e rest (int (pos (uint128_value u))) w₁)) [
          | gave (some v, l) w₂ q' r ↦
              rw (q, q', free_lem {w = w₂} (omega arith))
                (returns (ground arith, r.1, ground arith))
          | gave (none, l) w₂ q' r ↦
              rw (q, q', free_lem {w = w₂} (omega arith))
                (returns (ground arith, ground arith, ground arith, ground arith, r.4))
        ]
  ]

  -- What `PyDict_SetItem` leaves.
  pub set_item_lem :
      (k : List ℕ) (v : Value) (d : Fields) (w : World)
      → Given
          (λ d' w'. Owns w w' w.blocks w.refs w.lists × Intact env w w' (d' ≡ insert k v d))
          (dict_set_item env k v d w)
  unfolding dict_set_item
  set_item_lem k v d w = elim (Bool-cases (env.memory w.time)) [
    | inl got ↦ given (rw got (returns (ground arith)))
    | inr lost ↦ given (rw lost (returns (ground arith, inr ((λ e. cc), (w.time, lost)))))
  ]

  pub leaf-Converted :
      (decode : EntryDataList → Cmd Decoded) (e : EntryData) (rest : EntryDataList) (w : World)
      → IsLeaf e
      → Ensures (Converted env w rest (leaf_value env e)) (from_entry env decode (e ∷ rest) e w)
  unfolding from_entry
  leaf-Converted decode (map n) rest w h = elim h [ ]
  leaf-Converted decode (array n) rest w h = elim h [ ]
  leaf-Converted decode (other t) rest w h = elim h [ ]
  leaf-Converted decode (utf8_string s) rest w h = new_str-Converted _ rest s w
  leaf-Converted decode (uint128 u) rest w h = from_uint128-Converted _ rest u w
  leaf-Converted decode (boolean b) rest w h = returns (ground arith, (_, refl), ground arith)
  leaf-Converted decode _ rest w h = new_value-Converted _ rest _ w
