-- ===== src/Entry/Resources.antt =====
-- What `from_entry_data_list` does to the world on any list, well formed or not: extension/
-- maxminddb.c, lines 1028-1171.
use max_mind_db_reader_pytho.Base.{
  ℕ, zero, suc, ◌+◌, ◌-◌, ◌≤◌, ◌<◌, ◌≡◌, ◌≢◌, refl, ◌⊎◌, inl, inr, true, false, pos, Option, none,
  some, List, [], ◌∷◌, arith, length, drop, length-drop_one, Bool-cases, Option-cases,
}
use max_mind_db_reader_pytho.Env.{
  Env, Uint128, EntryData, EntryDataList, map, array, utf8_string, boolean, uint128, other,
}
use max_mind_db_reader_pytho.Runtime.{World, Fault, Cmd, null_pointer, wrong_member}
use max_mind_db_reader_pytho.Runtime.Outcome.{
  Outcome, returns, faults, cases, Same, New, mono, new_object_lem, decref_lem, free_lem,
  malloc_lem, gave, Given, given, Owns,
}
use max_mind_db_reader_pytho.Value.{Value, Items, Fields, end, nil, int, insert, snoc}
use max_mind_db_reader_pytho.Entry.{
  Decoded, uint128_value, unicode_from_string, new_value, new_str, from_uint128, key_of,
  dict_set_item, map_loop, array_loop, from_entry, from_entry_data_list,
}

-- The faults of a list that libmaxminddb does not make: one that ends early, and a map with a key
-- that is no string.
abbrev pub Corrupt : Fault → Type 0
Corrupt f = (f ≡ null_pointer) ⊎ (f ≡ wrong_member)

-- On success the caller owns one reference more. On failure an exception is set, and at most one
-- reference has leaked.
abbrev pub Accounted : World → Option Value → World → Type 0
Accounted w (some v) w' = w'.refs ≡ w.refs + 1
Accounted w none w' = (w.refs ≤ w'.refs) × (w'.refs ≤ w.refs + 1) × (w'.error ≢ none)

pub record Post (l : EntryDataList) (w : World) (r : Decoded) (w' : World) : Type 0 where
  pub same : Same w w'
  pub accounted : Accounted w r.0 w'
  pub shorter : length r.1 ≤ length l

module _ (env : Env) where
  unicode-New : (s : List ℕ) (w : World) → Outcome Corrupt (New w) (unicode_from_string env s w)
  unfolding unicode_from_string
  unicode-New s w = elim (Option-cases (env.decode_utf8 s)) [
    | inl bad ↦ rw (bad, unicode_from_string) (returns (ground arith))
    | inr (k, good) ↦ elim (Bool-cases (env.memory w.time)) [
      | inl got ↦ rw (good, unicode_from_string, got) (returns (ground arith))
      | inr lost ↦ rw (good, unicode_from_string, lost) (returns (ground arith))
    ]
  ]

  new_value-Post :
      (l : EntryDataList) (v : Value) (w : World) → Outcome Corrupt (Post l w) (new_value env l v w)
  unfolding new_value
  new_value-Post l v w = elim (Bool-cases (env.memory w.time)) [
    | inl got ↦ rw got (returns (ground arith))
    | inr lost ↦ rw lost (returns (ground arith))
  ]

  new_str-Post :
      (l : EntryDataList) (s : List ℕ) (w : World) → Outcome Corrupt (Post l w) (new_str env l s w)
  unfolding new_str
  new_str-Post l s w = elim (cases (unicode-New s w)) [
    | inl (none, w', e, p) ↦ rw e (returns (ground arith))
    | inl (some k, w', e, p) ↦ rw e (returns (ground arith))
    | inr (f, e, bad) ↦ rw e (faults bad)
  ]

  from_uint128-Post :
      (l : EntryDataList) (u : Uint128) (w : World)
      → Outcome Corrupt (Post l w) (from_uint128 env l u w)
  unfolding from_uint128
  from_uint128-Post l u w = elim (malloc_lem env w) [
    | gave true w₁ e p ↦ elim (cases (new_value-Post l (int (pos (uint128_value u))) w₁)) [
      | inl ((some v, l'), w₂, e', q) ↦
          rw (e, e', free_lem {w = w₂} (omega arith)) (returns (ground arith))
      | inl ((none, l'), w₂, e', q) ↦
          rw (e, e', free_lem {w = w₂} (omega arith)) (returns (ground arith))
      | inr (f, e', bad) ↦ rw (e, e') (faults bad)
    ]
    | gave false w₁ e p ↦ rw e (returns (ground arith))
  ]

  key_of-New : (l : EntryDataList) (w : World) → Outcome Corrupt (New w) (key_of env l w)
  unfolding key_of
  key_of-New [] w = faults (inl refl)
  key_of-New (utf8_string s ∷ l) w = unicode-New s w
  key_of-New (_ ∷ l) w = faults (inr refl)

  dict_set_item_lem :
      (k : List ℕ) (v : Value) (d : Fields) (w : World)
      → Given
          (λ d' w'.
            Owns w w' w.blocks w.refs w.lists
            × (w'.error ≡ none → (w.error ≡ none) × (d' ≡ insert k v d)))
          (dict_set_item env k v d w)
  unfolding dict_set_item
  dict_set_item_lem k v d w = elim (Bool-cases (env.memory w.time)) [
    | inl got ↦ given (rw got (returns (ground arith)))
    | inr lost ↦ given (rw lost (returns (ground arith)))
  ]

abbrev drop_ref : World → World
drop_ref w = record w { refs = w.refs - 1 }

-- The loops, for a call `decode` that behaves on lists shorter than n. `w₀` is the world before the
-- container was made; it is owned until the loop returns.
module _ (env : Env) (decode : EntryDataList → Cmd Decoded) (n : ℕ)
    (ih : (l : EntryDataList) (w : World)
      → length l < n
      → Outcome Corrupt (Post l w) (decode l w)) where
  map_loop-Post :
      (left : ℕ) (l : EntryDataList) (d : Fields) (w₀ w : World)
      → length l ≤ n
      → Owns w₀ w w₀.blocks (w₀.refs + 1) w₀.lists
      → Outcome Corrupt (Post l w₀) (map_loop env decode left l d w)
  unfolding map_loop
  map_loop-Post zero l d w₀ w le o = returns (ground arith)
  map_loop-Post (suc left) [] d w₀ w le o = returns (ground arith)
  map_loop-Post (suc left) (x ∷ l) d w₀ w le o = elim (cases (key_of-New env l w)) [
    | inr (f, e, bad) ↦ rw e (faults bad)
    | inl (none, w₁, e, p) ↦ rw e (returns (ground arith))
    | inl (some k, w₁, e, p) ↦ elim (cases (ih (drop 1 l) w₁ (omega (arith, length-drop_one l)))) [
      | inr (f, e', bad) ↦ rw (e, e') (faults bad)
      | inl ((none, l'), w₂, e', q) ↦
          rw (e, e', decref_lem {w = w₂} (omega arith), decref_lem {w = drop_ref w₂} (omega arith))
            (returns (ground (arith, length-drop_one l)))
      | inl ((some v, l'), w₂, e', q) ↦ elim (dict_set_item_lem env k v d w₂) [
        | gave d' w₃ e'' r ↦
            rw
              (
                e,
                e',
                e'',
                decref_lem {w = w₃} (omega arith),
                decref_lem {w = drop_ref w₃} (omega arith),
              )
              (mono
                (map_loop-Post left l' d' w₀ (drop_ref (drop_ref w₃))
                  (omega (arith, length-drop_one l)) (ground arith))
                λ r w₄ post. ground (arith, length-drop_one l))
      ]
    ]
  ]

  array_loop-Post :
      (left : ℕ) (l : EntryDataList) (a : Items) (w₀ w : World)
      → length l ≤ n
      → Owns w₀ w w₀.blocks (w₀.refs + 1) w₀.lists
      → Outcome Corrupt (Post l w₀) (array_loop env decode left l a w)
  unfolding array_loop
  array_loop-Post zero l a w₀ w le o = returns (ground arith)
  array_loop-Post (suc left) [] a w₀ w le o = returns (ground arith)
  array_loop-Post (suc left) (x ∷ l) a w₀ w le o = elim (cases (ih l w (omega arith))) [
    | inr (f, e, bad) ↦ rw e (faults bad)
    | inl ((none, l'), w₁, e, q) ↦
        rw (e, decref_lem {w = w₁} (omega arith)) (returns (ground arith))
    | inl ((some v, l'), w₁, e, q) ↦
        rw (e, decref_lem {w = w₁} (omega arith))
          (mono (array_loop-Post left l' (snoc a v) w₀ (drop_ref w₁) (omega arith) (ground arith))
            λ r w₂ post. ground arith)
  ]

  from_entry-Post :
      (x : EntryData) (l : EntryDataList) (w : World)
      → length l ≤ n
      → Outcome Corrupt (Post l w) (from_entry env decode l x w)
  unfolding from_entry
  from_entry-Post (map k) l w le = elim (new_object_lem env w) [
    | gave true w₁ e p ↦ rw e (map_loop-Post k l end w w₁ le p.0)
    | gave false w₁ e p ↦ rw e (returns (ground arith))
  ]
  from_entry-Post (array k) l w le = elim (new_object_lem env w) [
    | gave true w₁ e p ↦ rw e (array_loop-Post k l nil w w₁ le p.0)
    | gave false w₁ e p ↦ rw e (returns (ground arith))
  ]
  from_entry-Post (utf8_string s) l w le = new_str-Post env l s w
  from_entry-Post (boolean b) l w le = returns (ground arith)
  from_entry-Post (uint128 u) l w le = from_uint128-Post env l u w
  from_entry-Post (other t) l w le = returns (ground arith)
  from_entry-Post _ l w le = new_value-Post env l _ w

module _ (env : Env) where
  -- On any list, with fuel for one call more than its length, the conversion returns or meets one
  -- of the two faults of a corrupt list; where it returns, the reader, the warnings, the blocks
  -- and the lists are as before, an object is one new reference, and NULL comes with an exception
  -- and at most one leaked reference.
  pub from_entry_data_list-Post :
      (fuel : ℕ) (l : EntryDataList) (w : World)
      → length l < fuel
      → Outcome Corrupt (Post l w) (from_entry_data_list env fuel l w)
  unfolding from_entry_data_list
  from_entry_data_list-Post zero l w lt = absurd (omega arith)
  from_entry_data_list-Post (suc fuel) [] w lt = returns (ground arith)
  from_entry_data_list-Post (suc fuel) (x ∷ l) w lt =
      from_entry-Post env (from_entry_data_list env fuel) fuel (from_entry_data_list-Post fuel) x
        (x ∷ l) w (omega arith)
