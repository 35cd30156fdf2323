-- ===== src/Lookup/Resources.antt =====
-- What a lookup does to the world, on every path: extension/maxminddb.c, lines 393-508.
use mathlib.Core.Path.{subst}
use max_mind_db_reader_pytho.Base.{
  ℕ, suc, ◌+◌, ◌≤◌, ◌≡◌, ◌≢◌, refl, sym, inl, inr, String, true, false, Option, none, some, arith,
  ◌==◌, length, Bool-cases, Option-cases,
}
use max_mind_db_reader_pytho.Env.{Env, SockAddr, Mmdb, Entry, EntryDataList}
use max_mind_db_reader_pytho.Runtime.{World, ExnKind, invalid_database_error}
use max_mind_db_reader_pytho.Runtime.Outcome.{
  Outcome, returns, faults, cases, given, gave, Given, mono, new_object_lem, decref_lem, Same, Owns,
  own_list_lem, free_entry_data_list_lem, lists_of,
}
use max_mind_db_reader_pytho.Lock.Read.{IsReady, Inside, acquire_read_lem, release_inside}
use max_mind_db_reader_pytho.Entry.Resources.{Corrupt, from_entry_data_list-Post}
use max_mind_db_reader_pytho.Address.{Object, format_sockaddr}
use max_mind_db_reader_pytho.Address.Convert.{ip_converter-Answers}
use max_mind_db_reader_pytho.Reader.State.{get_state_cases}
use max_mind_db_reader_pytho.Lookup.{
  Found, lookup_exception, report, read_entry, lookup, lookup_if_open, lookup_address, get_record,
  reader_get_with_prefix_len,
}

-- A result owns one reference more. The -1 of the C function comes with an exception, and with at
-- most one leaked reference.
abbrev pub Delivered : World → Found → World → Type 0
Delivered w none w' = Same w w' × (w.refs ≤ w'.refs) × (w'.refs ≤ w.refs + 1) × (w'.error ≢ none)
Delivered w (some r) w' = Same w w' × (w'.refs ≡ w.refs + 1)

module _ (env : Env) where
  pub report_lem :
      (ip : SockAddr) (kind : ExnKind) (format : String) (status : ℕ) (w : World)
      → Given
          (λ _ w'. Owns w w' w.blocks w.refs w.lists × (w'.error ≢ none))
          (report env ip kind format status w)
  unfolding report format_sockaddr
  report_lem ip kind format status w = elim (Option-cases (env.inet_ntop ip)) [
    | inl bad ↦ given (rw (bad, format_sockaddr) (returns (ground arith)))
    | inr (s, good) ↦ given (rw (good, format_sockaddr) (returns (ground arith)))
  ]

  module _ (v : World) where
    read_entry-Delivered :
        (ip : SockAddr) (entry : Entry) (n : ℕ) (w : World)
        → Inside env v w v.blocks v.refs v.lists
        → Outcome Corrupt (Delivered v) (read_entry env ip entry n w)
    unfolding read_entry
    read_entry-Delivered ip entry n w i = elim (Bool-cases (status == 0)) [
      | inl done ↦
          elim (cases (from_entry_data_list-Post env (suc (length l)) l owned (omega arith))) [
            | inr (f, e, bad) ↦ rw (own_list_lem l w, done, e) (faults bad)
            | inl ((some x, l'), w₁, e, p) ↦
                rw
                  (
                    own_list_lem l w,
                    done,
                    e,
                    free_entry_data_list_lem l {w = w₁} v.lists (omega arith),
                    release_inside env (record w₁ { lists = v.lists }) i.held (p.same.lock),
                  )
                  (returns (ground arith))
            | inl ((none, l'), w₁, e, p) ↦
                rw
                  (
                    own_list_lem l w,
                    done,
                    e,
                    free_entry_data_list_lem l {w = w₁} v.lists (omega arith),
                    release_inside env (record w₁ { lists = v.lists }) i.held (p.same.lock),
                  )
                  (returns (ground arith))
          ]
      | inr failed ↦
          elim (report_lem ip invalid_database_error "Error while looking up data for %s. %s" status
            (record owned { lock = v.lock })) [
              | gave _ w₁ e p ↦
                  rw
                    (
                      own_list_lem l w,
                      failed,
                      release_inside env owned i.held refl,
                      e,
                      free_entry_data_list_lem l {w = w₁} v.lists (omega arith),
                    )
                    (returns (ground arith))
            ]
    ]
      where
        status : ℕ
        status = (env.mmdb_get_entry_data_list entry).0

        l : EntryDataList
        l = (env.mmdb_get_entry_data_list entry).1

        owned : World
        owned = record w { lists = w.lists + lists_of l }

    lookup-Delivered :
        (ip : SockAddr) (mmdb : Mmdb) (w : World)
        → Inside env v w v.blocks v.refs v.lists
        → Outcome Corrupt (Delivered v) (lookup env ip mmdb w)
    unfolding lookup
    lookup-Delivered ip mmdb w i = elim (Bool-cases (status == 0)) [
      | inl done ↦ elim (Bool-cases (env.mmdb_lookup_sockaddr mmdb ip).1.found_entry) [
        | inl found ↦ rw (done, found) (read_entry-Delivered ip _ _ w i)
        | inr missing ↦
            rw (done, missing, release_inside env w i.held refl) (returns (ground arith))
      ]
      | inr failed ↦
          elim (report_lem ip (lookup_exception status) "Error looking up %s. %s" status
            (record w { lock = v.lock })) [
              | gave _ w₁ e p ↦
                  rw (failed, release_inside env w i.held refl, e) (returns (ground arith))
            ]
    ]
      where
        status : ℕ
        status = (env.mmdb_lookup_sockaddr mmdb ip).0

    pub lookup_if_open-Delivered :
        (ip : SockAddr) (mmdb : Option Mmdb) (w : World)
        → Inside env v w v.blocks v.refs v.lists
        → Outcome Corrupt (Delivered v) (lookup_if_open env ip mmdb w)
    unfolding lookup_if_open
    lookup_if_open-Delivered ip none w i =
        rw (release_inside env w i.held refl) (returns (ground arith))
    lookup_if_open-Delivered ip (some mmdb) w i = lookup-Delivered ip mmdb w i

  lookup_address-Delivered :
      (ip : SockAddr) (w : World)
      → IsReady env.strategy w.lock
      → Outcome Corrupt (Delivered w) (lookup_address env ip w)
  unfolding lookup_address
  lookup_address-Delivered ip w h = elim (Bool-cases (ip.family == 0)) [
    | inl unset ↦ rw unset (returns (ground arith))
    | inr set ↦ rw set (
        acquire_read_lem env w _ h
          (λ l t held.
            lookup_if_open-Delivered w ip w.mmdb (record w { lock = l; time = t })
              (record {
                held = held;
                mmdb = refl;
                closed = refl;
                warnings = refl;
                blocks = refl;
                refs = refl;
                lists = refl;
              }))
          (λ e t n. returns (ground arith)))
  ]

  -- With a ready lock, get_record gives the reader back as it was, the lock included, on every
  -- path; a result is one new reference, -1 comes with an exception and at most one leaked
  -- reference, and the only faults are those of a corrupt list.
  pub get_record-Delivered :
      (parsed : Option Object) (w : World)
      → IsReady env.strategy w.lock
      → Outcome Corrupt (Delivered w) (get_record env parsed w)
  unfolding get_record
  get_record-Delivered none w h = elim (get_state_cases env w) [
    | inr (x, lost, _) ↦ rw lost (returns (ground arith))
    | inl known ↦ rw known (returns (ground arith))
  ]
  get_record-Delivered (some obj) w h = elim (get_state_cases env w) [
    | inr (x, lost, _) ↦ rw lost (returns (ground arith))
    | inl known ↦ elim (given (ip_converter-Answers env obj w)) [
      | gave none w₁ e p ↦ rw (known, e) (returns (ground arith))
      | gave (some ip) w₁ e (o, q, a) ↦
          rw (known, e)
            (mono (lookup_address-Delivered ip w₁ (subst (IsReady env.strategy) (sym o.lock) h))
              (carry w w₁ o))
    ]
  ]
    where
      carry :
          (v w : World)
          → Owns v w v.blocks v.refs v.lists
          → (r : Found) (u : World) → Delivered w r u
          → Delivered v r u
      carry v w o none u d = ground arith
      carry v w o (some r) u d = ground arith

  -- With a ready lock, get_with_prefix_len gives the reader back as it was, the lock included, on
  -- every path on which it returns; the tuple that it returns is then its only new reference, and NULL
  -- comes with an exception and at most one leaked reference. It does not return only where it meets
  -- one of the faults of a corrupt list.
  pub get_with_prefix_len-Delivered :
      (parsed : Option Object) (w : World)
      → IsReady env.strategy w.lock
      → Outcome Corrupt (Delivered w) (reader_get_with_prefix_len env parsed w)
  unfolding reader_get_with_prefix_len
  get_with_prefix_len-Delivered parsed w h = elim (cases (get_record-Delivered parsed w h)) [
    | inr (f, e, bad) ↦ rw e (faults bad)
    | inl (none, w₁, e, p) ↦ rw e (returns p)
    | inl (some r, w₁, e, p) ↦ elim (new_object_lem env w₁) [
      | gave true w₂ e' q ↦ rw (e, e', decref_lem {w = w₂} (omega arith)) (returns (ground arith))
      | gave false w₂ e' q ↦ rw (e, e', decref_lem {w = w₂} (omega arith)) (returns (ground arith))
    ]
  ]
