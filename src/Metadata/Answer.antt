-- ===== src/Metadata/Answer.antt =====
-- What `Reader_metadata` returns for an open database: extension/maxminddb.c, lines 607-660.
use max_mind_db_reader_pytho.Base.{
  ℕ, ◌+◌, ◌-◌, ◌≡◌, ◌≢◌, refl, ◌∙◌, ◌⊎◌, inl, inr, true, false, Option, none, some, [], arith, ◌==◌,
  Bool-cases,
}
use max_mind_db_reader_pytho.Env.{Env, Mmdb, EntryDataList}
use max_mind_db_reader_pytho.Runtime.{World, Fault}
use max_mind_db_reader_pytho.Runtime.Outcome.{
  Outcome, returns, faults, gave, given, cases, Owns, Starved, new_object_lem, decref_lem,
  own_list_lem, free_entry_data_list_lem, lists_of,
}
use max_mind_db_reader_pytho.Value.{Value, Fields, dict, list, str, bytearray, float, int, bool}
use max_mind_db_reader_pytho.Lock.Read.{
  IsReady, Inside, Inside-Owns, acquire_read_lem, release_inside,
}
use max_mind_db_reader_pytho.Entry.Layout.{Data, layout, value, Intact, Intact-from, converted}
use max_mind_db_reader_pytho.Reader.State.{get_state_cases}
use max_mind_db_reader_pytho.Metadata.{
  Metadata, metadata_of_value, metadata_of_list, metadata_if_open, reader_metadata,
}
use max_mind_db_reader_pytho.Metadata.Keywords.{
  Fails, IsComplete, fields, given_by, metadata_call-Builds,
}

module _ (env : Env) (mmdb : Mmdb) (t : Data) where
  -- The faults: of the construction from the dict that the metadata stands for. After a failed
  -- allocation the dict can lack a field.
  abbrev pub Breaks : Fault → Type 0
  Breaks f = Starved env ⊎ ((d : Fields) × (value env t ≡ some (dict d)) × Fails d f)

  -- NULL comes with an exception and leaves the reader as it was, the lock included. An object has
  -- the nine values of the dict, and is all that is owned with them.
  abbrev pub Tells : World → Option Metadata → World → Type 0
  Tells w none u =
      (u.lock ≡ w.lock)
      × (u.mmdb ≡ w.mmdb)
      × (u.closed ≡ w.closed)
      × (u.warnings ≡ w.warnings)
      × (u.blocks ≡ w.blocks)
      × (u.error ≢ none)
  Tells w (some m) u =
      Owns w u w.blocks (w.refs + 10) w.lists
      × (Starved env
          ⊎ ((d : Fields) × (value env t ≡ some (dict d))
              × IsComplete d
              × (fields m ≡ given_by d)
              × (u.error ≡ w.error)))

  module _ (v : World) where
    metadata_of_dict-Tells :
        (d : Fields) (w : World)
        → Inside env v w v.blocks (v.refs + 1) v.lists
        → Intact env v w (value env t ≡ some (dict d))
        → Outcome Breaks (Tells v) (metadata_of_value env (some (dict d)) w)
    unfolding metadata_of_value
    metadata_of_dict-Tells d w i intact =
        rw (release_inside env w i.held refl)
          (elim (new_object_lem env (record w { lock = v.lock })) [
            | gave false w₁ e (o, k, s) ↦
                rw (e, decref_lem {w = w₁} (omega arith)) (returns (ground arith))
            | gave true w₁ e (o, k) ↦ elim (cases (metadata_call-Builds env d w₁)) [
              | inr (f, e', bad) ↦
                  rw (e, e')
                    (faults (elim intact [ inl (_, p) ↦ inr (d, p, bad) | inr (_, s) ↦ inl s ]))
              | inl (none, w₂, e', (o', k', s)) ↦
                  rw
                    (
                      e,
                      e',
                      decref_lem {w = w₂} (omega arith),
                      decref_lem {w = record w₂ { refs = w₂.refs - 1 }} (omega arith),
                    )
                    (returns (ground arith))
              | inl (some m, w₂, e', (known, complete, same, o', k')) ↦
                  rw
                    (
                      e,
                      e',
                      decref_lem {w = w₂} (omega arith),
                      decref_lem {w = record w₂ { refs = w₂.refs - 1 }} (omega arith),
                    )
                    (returns (
                      ground arith,
                      elim intact [
                        | inl (same_error, p) ↦ inr (d, p, complete, same, k' ∙ k ∙ same_error)
                        | inr (_, s) ↦ inl s
                      ],
                    ))
            ]
          ])

    -- The objects that are no dict, and NULL.
    metadata_of_other-Tells :
        (x : Option Value) (w : World)
        → ((d : Fields) → x ≢ some (dict d))
        → (r : ℕ) → Inside env v w v.blocks r v.lists
        → Outcome Breaks (Tells v) (metadata_of_value env x w)
    unfolding metadata_of_value
    metadata_of_other-Tells none w other r i =
        rw (release_inside env w i.held refl) (returns (ground arith))
    metadata_of_other-Tells (some (dict d)) w other r i = absurd (other d refl)
    metadata_of_other-Tells (some (list _ _)) w other r i =
        rw (release_inside env w i.held refl) (returns (ground arith))
    metadata_of_other-Tells (some (str _)) w other r i =
        rw (release_inside env w i.held refl) (returns (ground arith))
    metadata_of_other-Tells (some (bytearray _)) w other r i =
        rw (release_inside env w i.held refl) (returns (ground arith))
    metadata_of_other-Tells (some (float _)) w other r i =
        rw (release_inside env w i.held refl) (returns (ground arith))
    metadata_of_other-Tells (some (int _)) w other r i =
        rw (release_inside env w i.held refl) (returns (ground arith))
    metadata_of_other-Tells (some (bool _)) w other r i =
        rw (release_inside env w i.held refl) (returns (ground arith))

    metadata_of_object-Tells :
        (x : Value) (w : World)
        → Inside env v w v.blocks (v.refs + 1) v.lists
        → Intact env v w (value env t ≡ some x)
        → Outcome Breaks (Tells v) (metadata_of_value env (some x) w)
    metadata_of_object-Tells (dict d) w i intact = metadata_of_dict-Tells d w i intact
    metadata_of_object-Tells (list _ _) w i intact = metadata_of_other-Tells _ w (λ d e. cc) _ i
    metadata_of_object-Tells (str _) w i intact = metadata_of_other-Tells _ w (λ d e. cc) _ i
    metadata_of_object-Tells (bytearray _) w i intact = metadata_of_other-Tells _ w (λ d e. cc) _ i
    metadata_of_object-Tells (float _) w i intact = metadata_of_other-Tells _ w (λ d e. cc) _ i
    metadata_of_object-Tells (int _) w i intact = metadata_of_other-Tells _ w (λ d e. cc) _ i
    metadata_of_object-Tells (bool _) w i intact = metadata_of_other-Tells _ w (λ d e. cc) _ i

    metadata_of_list-Tells :
        (status : ℕ) (l : EntryDataList) (w : World)
        → (status ≡ 0 → l ≡ layout t [])
        → Inside env v w v.blocks v.refs v.lists
        → w.error ≡ v.error
        → Outcome Breaks (Tells v) (metadata_of_list env status l w)
    unfolding metadata_of_list
    metadata_of_list-Tells status l w lays i same = elim (Bool-cases (status == 0)) [
      | inr failed ↦
          rw (own_list_lem l w, failed, release_inside env owned i.held refl)
            (returns (ground arith))
      | inl done ↦ elim (given (converted env l t (lays (ground arith)) owned)) [
        | gave (none, l') w₁ q (p, ge, le, bad, why) ↦
            rw
              (own_list_lem l w, done, q, free_entry_data_list_lem l {w = w₁} v.lists (omega arith))
              (metadata_of_other-Tells none (record w₁ { lists = v.lists }) (λ d e. cc) w₁.refs
                (Inside-Owns i (ground arith)))
        | gave (some x, l') w₁ q (p, _, c) ↦
            rw
              (own_list_lem l w, done, q, free_entry_data_list_lem l {w = w₁} v.lists (omega arith))
              (metadata_of_object-Tells x (record w₁ { lists = v.lists })
                (Inside-Owns i (ground arith)) (Intact-from env owned v w₁ same c))
      ]
    ]
      where
        owned : World
        owned = record w { lists = w.lists + lists_of l }

    metadata_if_open-Tells :
        (m : Option Mmdb) (w : World)
        → m ≡ some mmdb
        → ((env.mmdb_get_metadata_as_entry_data_list mmdb).0 ≡ 0
            → (env.mmdb_get_metadata_as_entry_data_list mmdb).1 ≡ layout t [])
        → Inside env v w v.blocks v.refs v.lists
        → w.error ≡ v.error
        → Outcome Breaks (Tells v) (metadata_if_open env m w)
    unfolding metadata_if_open
    metadata_if_open-Tells m w e lays i same = rw e (metadata_of_list-Tells _ _ w lays i same)

  -- In an open database with a ready lock, where libmaxminddb lays the metadata out as a value, an
  -- object of Reader_metadata has the nine fields of that value and is all that is owned with
  -- their references; NULL comes with an exception and gives the lock back; a fault is met only in
  -- the construction of the object, from a dict that lacks a name or has another; a failed
  -- allocation can change the dict unseen.
  pub reader_metadata-Tells :
      (w : World)
      → IsReady env.strategy w.lock
      → w.mmdb ≡ some mmdb
      → ((env.mmdb_get_metadata_as_entry_data_list mmdb).0 ≡ 0
          → (env.mmdb_get_metadata_as_entry_data_list mmdb).1 ≡ layout t [])
      → Outcome Breaks (Tells w) (reader_metadata env w)
  unfolding reader_metadata
  reader_metadata-Tells w ready open_now lays = elim (get_state_cases env w) [
    | inr (x, lost, why) ↦ rw lost (returns (ground arith))
    | inl known ↦ rw known (
        acquire_read_lem env w _ ready
          (λ l t' held.
            metadata_if_open-Tells w w.mmdb (record w { lock = l; time = t' }) open_now lays
              (record {
                held = held;
                mmdb = refl;
                closed = refl;
                warnings = refl;
                blocks = refl;
                refs = refl;
                lists = refl;
              })
              refl)
          (λ e t' n. returns (ground arith)))
  ]
