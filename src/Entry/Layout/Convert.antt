-- ===== src/Entry/Layout/Convert.antt =====
-- `from_entry_data_list` on the layout of a value: extension/maxminddb.c, lines 1028-1140.
use max_mind_db_reader_pytho.Base.{
  ℕ, zero, suc, sym, ◌∙◌, ◌+◌, ◌-◌, ◌≤◌, ◌<◌, ◌≡◌, ◌≢◌, refl, ◌⊎◌, inl, inr, true, false, Option,
  none, some, ◌∷◌, arith, length,
}
use max_mind_db_reader_pytho.Env.{Env, EntryData, EntryDataList}
use max_mind_db_reader_pytho.Runtime.{World}
use max_mind_db_reader_pytho.Runtime.Outcome.{
  Ensures, returns, given, gave, mono, Same, Owns, Starved, new_object_lem, decref_lem,
}
use max_mind_db_reader_pytho.Value.{Value, Items, Fields, snoc, dict, list}
use max_mind_db_reader_pytho.Entry.{
  Decoded, key_of, map_loop, array_loop, from_entry, from_entry_data_list,
}
use max_mind_db_reader_pytho.Entry.Layout.Defs.{
  ◌>>=◌, length-layout, Data, DataItems, DataFields, leaf, object, sequence, field, cons, nil, end,
  count_items, count_fields, layout, layout_items, layout_fields, value, value_items, value_fields,
}
use max_mind_db_reader_pytho.Entry.Layout.Leaves.{
  Intact, Converted, unicode_lem, set_item_lem, leaf-Converted,
}

abbrev drop_ref : World → World
drop_ref w = record w { refs = w.refs - 1 }

module _ (env : Env) where
  -- What a loop does from a world in which it owns the container.
  abbrev Looped : World → EntryDataList → Option Value → Decoded → World → Type 0
  Looped w rest expected (some v, l) w' =
      Owns w w' w.blocks w.refs w.lists
      × ((e : EntryData) × (l ≡ e ∷ rest))
      × Intact env w w' (expected ≡ some v)
  Looped w rest expected (none, l) w' =
      Same w w'
      × (w.refs ≤ w'.refs + 1)
      × (w'.refs ≤ w.refs)
      × (w'.error ≢ none)
      × ((expected ≡ none) ⊎ Starved env)

  Intact-then :
      (u v w : World) {P Q R : Type 0}
      → Intact env u v P
      → Intact env v w Q
      → (P → Q → R)
      → Intact env u w R
  Intact-then u v w (inl (e, p)) (inl (f, q)) both = inl (f ∙ e, both p q)
  Intact-then u v w (inl (e, p)) (inr s) both = inr s
  Intact-then u v w (inr (n, s)) (inl (f, q)) both = inr ((λ e. n (sym f ∙ e)), s)
  Intact-then u v w (inr (n, s)) (inr t) both = inr t

  Looped-step :
      (u v w : World) (rest : EntryDataList) {before after : Option Value} (r : Decoded)
      → Owns u v u.blocks u.refs u.lists
      → Intact env u v (before ≡ after)
      → Looped v rest after r w
      → Looped u rest before r w
  Looped-step u v w rest (some x, l) o i (p, q, j) = (ground arith, q, Intact-then u v w i j ◌∙◌)
  Looped-step u v w rest (none, l) o (inl (e, f)) (p, q, r, s, inl g) =
      (ground arith, ground arith, ground arith, s, inl (f ∙ g))
  Looped-step u v w rest (none, l) o (inl (e, f)) (p, q, r, s, inr t) =
      (ground arith, ground arith, ground arith, s, inr t)
  Looped-step u v w rest (none, l) o (inr (n, t)) (p, q, r, s, g) =
      (ground arith, ground arith, ground arith, s, inr t)

  Looped-Converted :
      (u v w : World) (rest : EntryDataList) (expected : Option Value) (r : Decoded)
      → Owns u v u.blocks (u.refs + 1) u.lists
      → v.error ≡ u.error
      → Looped v rest expected r w
      → Converted env u rest expected r w
  Looped-Converted u v w rest x' (some x, l) o e (p, q, i) = (ground arith, q, ground arith)
  Looped-Converted u v w rest x' (none, l) o e (p, q, r, s, t) =
      (ground arith, ground arith, ground arith, s, t)

  mutual
    unfolding from_entry_data_list from_entry map_loop array_loop key_of

    layout-Converted :
        (t : Data) (fuel : ℕ) (rest : EntryDataList) (w : World)
        → length (layout t rest) < fuel
        → Ensures
            (Converted env w rest (value env t))
            (from_entry_data_list env fuel (layout t rest) w)
    layout-Converted t zero rest w lt = absurd (omega arith)
    layout-Converted (leaf e h) (suc fuel) rest w lt =
        leaf-Converted env (from_entry_data_list env fuel) e rest w h
    layout-Converted (object fs) (suc fuel) rest w lt = elim (new_object_lem env w) [
      | gave true w₁ e (p, q) ↦ rw e (
          mono (fields-Converted fs fuel _ rest Fields.end w₁ (omega arith) (omega arith))
            λ r w' c. Looped-Converted w w₁ w' rest _ r p q c)
      | gave false w₁ e (p, r, s) ↦
          rw e (returns (ground arith, ground arith, ground arith, ground arith, inr s))
    ]
    layout-Converted (sequence xs) (suc fuel) rest w lt = elim (new_object_lem env w) [
      | gave true w₁ e (p, q) ↦ rw e (
          mono (items-Converted xs fuel _ rest Items.nil w₁ (omega arith) (omega arith))
            λ r w' c. Looped-Converted w w₁ w' rest _ r p q c)
      | gave false w₁ e (p, r, s) ↦
          rw e (returns (ground arith, ground arith, ground arith, ground arith, inr s))
    ]

    fields-Converted :
        (fs : DataFields) (fuel : ℕ) (x : EntryData) (rest : EntryDataList) (d : Fields) (w : World)
        → length (layout_fields fs rest) < fuel
        → 0 < w.refs
        → Ensures (Looped w rest (value_fields env fs d >>= λ d'. some (dict d'))) (
            map_loop env
              (from_entry_data_list env fuel)
              (count_fields fs)
              (x ∷ layout_fields fs rest)
              d
              w)
    fields-Converted end fuel x rest d w lt h = returns (ground arith, (x, refl), inl (refl, refl))
    fields-Converted (field k v fs) fuel x rest d w lt h = elim (unicode_lem env k w) [
      | gave none w₁ e (p, q, inl bad) ↦
          rw (e, bad) (returns (ground arith, ground arith, ground arith, q, inl refl))
      | gave none w₁ e (p, q, inr s) ↦
          rw e (returns (ground arith, ground arith, ground arith, q, inr s))
      | gave (some k') w₁ e (p, q, dec) ↦
          elim (given (layout-Converted v fuel (layout_fields fs rest) w₁ (omega arith))) [
            | gave (none, l) w₂ e' (a, b, c, n, inl bad) ↦
                rw
                  (
                    e,
                    e',
                    decref_lem {w = w₂} (omega arith),
                    decref_lem {w = drop_ref w₂} (omega arith),
                    dec,
                    bad,
                  )
                  (returns (ground arith, ground arith, ground arith, n, inl refl))
            | gave (none, l) w₂ e' (a, b, c, n, inr s) ↦
                rw
                  (
                    e,
                    e',
                    decref_lem {w = w₂} (omega arith),
                    decref_lem {w = drop_ref w₂} (omega arith),
                  )
                  (returns (ground arith, ground arith, ground arith, n, inr s))
            | gave (some v', l) w₂ e' (o, (x', le), i) ↦ elim (set_item_lem env k' v' d w₂) [
              | gave d' w₃ e'' (o', i') ↦
                  rw
                    (
                      e,
                      e',
                      le,
                      e'',
                      decref_lem {w = w₃} (omega arith),
                      decref_lem {w = drop_ref w₃} (omega arith),
                    )
                    (mono
                      (fields-Converted fs fuel x' rest d' (drop_ref (drop_ref w₃))
                        (omega (arith, length-layout v (layout_fields fs rest))) (omega arith))
                      λ r w' c.
                        Looped-step w (drop_ref (drop_ref w₃)) w' rest r (ground arith)
                          (Intact-then w w₁ w₃ (inl (q, tt))
                            (Intact-then w₁ w₂ w₃ i i' λ val ins. rw (dec, val, ins))
                            λ _ same. same)
                          c)
            ]
          ]
    ]

    items-Converted :
        (xs : DataItems) (fuel : ℕ) (x : EntryData) (rest : EntryDataList) (a : Items) (w : World)
        → length (layout_items xs rest) < fuel
        → 0 < w.refs
        → Ensures (Looped w rest (value_items env xs a >>= λ a'. some (list a' 0))) (
            array_loop env
              (from_entry_data_list env fuel)
              (count_items xs)
              (x ∷ layout_items xs rest)
              a
              w)
    items-Converted nil fuel x rest a w lt h = returns (ground arith, (x, refl), inl (refl, refl))
    items-Converted (cons y xs) fuel x rest a w lt h =
        elim (given (layout-Converted y fuel (layout_items xs rest) w (omega arith))) [
          | gave (none, l) w₁ e (p, b, c, n, inl bad) ↦
              rw (e, decref_lem {w = w₁} (omega arith), bad)
                (returns (ground arith, ground arith, ground arith, n, inl refl))
          | gave (none, l) w₁ e (p, b, c, n, inr s) ↦
              rw (e, decref_lem {w = w₁} (omega arith))
                (returns (ground arith, ground arith, ground arith, n, inr s))
          | gave (some y', l) w₁ e (o, (x', le), i) ↦
              rw (e, le, decref_lem {w = w₁} (omega arith))
                (mono
                  (items-Converted xs fuel x' rest (snoc a y') (drop_ref w₁)
                    (omega (arith, length-layout y (layout_items xs rest))) (omega arith))
                  λ r w' c.
                    Looped-step w (drop_ref w₁) w' rest r (ground arith)
                      (Intact-then w w w₁ (inl (refl, tt)) i λ _ val. rw val) c)
        ]

  -- The list that libmaxminddb makes of a value, with anything behind it, is read back as the
  -- object of the value, with the list pointer left at the last entry of the value; only a string
  -- that is not UTF-8 or a failed allocation prevents it, there is no fault and the fuel is
  -- enough.
  pub from_entry_data_list-layout :
      (t : Data) (rest : EntryDataList) (w : World)
      → Ensures
          (Converted env w rest (value env t))
          (from_entry_data_list env (suc (length (layout t rest))) (layout t rest) w)
  from_entry_data_list-layout t rest w =
      layout-Converted t (suc (length (layout t rest))) rest w (omega arith)
