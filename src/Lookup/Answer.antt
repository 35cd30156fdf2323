-- ===== src/Lookup/Answer.antt =====
-- What a lookup answers in an open database: extension/maxminddb.c, lines 414-508.
use max_mind_db_reader_pytho.Base.{
  ℕ, ◌+◌, ◌<◌, ◌≡◌, ◌≢◌, refl, ◌⊎◌, leb, inl, inr, true, false, Option, none, some, [], arith, ◌==◌,
  Bool-cases,
}
use max_mind_db_reader_pytho.Env.{af_inet, Env, SockAddr, Mmdb, Entry, EntryDataList}
use max_mind_db_reader_pytho.Runtime.{World, invalid_database_error}
use max_mind_db_reader_pytho.Runtime.Outcome.{
  Ensures, returns, given, gave, Starved, own_list_lem, free_entry_data_list_lem, lists_of,
}
use max_mind_db_reader_pytho.Lock.Read.{IsReady, Inside, acquire_read_lem, release_inside}
use max_mind_db_reader_pytho.Entry.Layout.{
  Data, layout, value, Intact, Intact-from, LaysOut, converted,
}
use max_mind_db_reader_pytho.Lookup.{
  Found, prefix_length, lookup_exception, read_entry, lookup, lookup_if_open, lookup_address,
}
use max_mind_db_reader_pytho.Lookup.Resources.{report_lem}

-- The prefix length for an address that was found with a netmask: an IPv4 address in a database of
-- IPv6 stands under 96 bits that do not count, and has the length 0 where the walk ended among them.
pub data PrefixOf (family ip_version netmask : ℕ) : ℕ → Type 0 where
  under_96_bits :
      {n : ℕ}
      → family ≡ af_inet
      → ip_version ≡ 6
      → netmask ≡ 96 + n
      → PrefixOf family ip_version netmask n
  among_96_bits :
      {n : ℕ}
      → family ≡ af_inet
      → ip_version ≡ 6
      → netmask < 96
      → n ≡ 0
      → PrefixOf family ip_version netmask n
  of_its_own :
      {n : ℕ}
      → (family ≢ af_inet) ⊎ (ip_version ≢ 6)
      → n ≡ netmask
      → PrefixOf family ip_version netmask n

prefix_length-PrefixOf :
    (family ip_version netmask : ℕ)
    → PrefixOf family ip_version netmask (prefix_length family ip_version netmask)
unfolding prefix_length
prefix_length-PrefixOf family ip_version netmask = elim (Bool-cases (family == af_inet)) [
  | inr other ↦ of_its_own (inl (λ e. ground arith)) (ground arith)
  | inl v4 ↦ elim (Bool-cases (ip_version == 6)) [
    | inr other ↦ of_its_own (inr (λ e. ground arith)) (ground arith)
    | inl v6 ↦ elim (Bool-cases (leb 96 netmask)) [
      | inl le ↦ under_96_bits (ground arith) (ground arith) (ground arith)
      | inr lt ↦ among_96_bits (ground arith) (ground arith) (ground arith) (ground arith)
    ]
  ]
]

module _ (env : Env) (mmdb : Mmdb) (ip : SockAddr) where
  abbrev pub Status : ℕ → Type 0
  Status n = (env.mmdb_lookup_sockaddr mmdb ip).0 ≡ n

  abbrev pub the_entry : Entry
  the_entry = (env.mmdb_lookup_sockaddr mmdb ip).1.entry

  abbrev pub the_netmask : ℕ
  the_netmask = (env.mmdb_lookup_sockaddr mmdb ip).1.netmask

  abbrev the_prefix : ℕ
  the_prefix = prefix_length ip.family mmdb.ip_version the_netmask

  -- Why a lookup can fail.
  pub data Cause : Type 0 where
    no_lock : (t : ℕ) → env.lock_result t ≢ 0 → Cause
    no_lookup : (env.mmdb_lookup_sockaddr mmdb ip).0 ≢ 0 → Cause
    no_entry : (env.mmdb_get_entry_data_list the_entry).0 ≢ 0 → Cause
    no_text :
        (t : Data)
        → (env.mmdb_get_entry_data_list the_entry).1 ≡ layout t []
        → value env t ≡ none
        → Cause
    no_memory : Starved env → Cause

  -- `None` where the tree has no record, the object of the record where it has one, each with the
  -- prefix length; an exception only for one of the causes.
  abbrev pub Answer : World → Found → World → Type 0
  Answer w none w' = (w'.error ≢ none) × Cause
  Answer w (some (none, n)) w' =
      Status 0
      × ((env.mmdb_lookup_sockaddr mmdb ip).1.found_entry ≡ false)
      × PrefixOf ip.family mmdb.ip_version the_netmask n
      × (w'.error ≡ w.error)
  Answer w (some (some v, n)) w' =
      Status 0
      × ((env.mmdb_lookup_sockaddr mmdb ip).1.found_entry ≡ true)
      × PrefixOf ip.family mmdb.ip_version the_netmask n
      × ((t : Data) × ((env.mmdb_get_entry_data_list the_entry).1 ≡ layout t [])
          × Intact env w w' (value env t ≡ some v))

  module _ (lays : LaysOut env) (v : World) where
    read_entry-Answer :
        (w : World)
        → Inside env v w v.blocks v.refs v.lists
        → w.error ≡ v.error
        → Status 0
        → (env.mmdb_lookup_sockaddr mmdb ip).1.found_entry ≡ true
        → Ensures (Answer v) (read_entry env ip the_entry the_prefix w)
    unfolding read_entry
    read_entry-Answer w i same st found = elim (Bool-cases (status == 0)) [
      | inl done ↦
          let (t, e) = lays the_entry (ground arith) in
          elim (given (converted env l t e owned)) [
            | gave (none, l') w₁ q (p, _, _, n, inl bad) ↦
                rw
                  (
                    own_list_lem l w,
                    done,
                    q,
                    free_entry_data_list_lem l {w = w₁} v.lists (omega arith),
                    release_inside env (record w₁ { lists = v.lists }) i.held (p.lock),
                  )
                  (returns (n, no_text t e bad))
            | gave (none, l') w₁ q (p, _, _, n, inr s) ↦
                rw
                  (
                    own_list_lem l w,
                    done,
                    q,
                    free_entry_data_list_lem l {w = w₁} v.lists (omega arith),
                    release_inside env (record w₁ { lists = v.lists }) i.held (p.lock),
                  )
                  (returns (n, no_memory s))
            | gave (some x, l') w₁ q (p, _, c) ↦
                rw
                  (
                    own_list_lem l w,
                    done,
                    q,
                    free_entry_data_list_lem l {w = w₁} v.lists (omega arith),
                    release_inside env (record w₁ { lists = v.lists }) i.held (p.lock),
                  )
                  (returns (
                    st,
                    found,
                    prefix_length-PrefixOf ip.family mmdb.ip_version the_netmask,
                    (t, e, Intact-from env owned v w₁ same c),
                  ))
          ]
      | inr failed ↦
          elim (report_lem env ip invalid_database_error "Error while looking up data for %s. %s"
            status (record owned { lock = v.lock })) [
              | gave _ w₁ e p ↦
                  rw
                    (
                      own_list_lem l w,
                      failed,
                      release_inside env owned i.held refl,
                      e,
                      free_entry_data_list_lem l {w = w₁} v.lists (omega arith),
                    )
                    (returns (ground arith, no_entry (ground arith)))
            ]
    ]
      where
        status : ℕ
        status = (env.mmdb_get_entry_data_list the_entry).0

        l : EntryDataList
        l = (env.mmdb_get_entry_data_list the_entry).1

        owned : World
        owned = record w { lists = w.lists + lists_of l }

    lookup-Answer :
        (w : World)
        → Inside env v w v.blocks v.refs v.lists
        → w.error ≡ v.error
        → Ensures (Answer v) (lookup env ip mmdb w)
    unfolding lookup
    lookup-Answer w i same = elim (Bool-cases ((env.mmdb_lookup_sockaddr mmdb ip).0 == 0)) [
      | inl done ↦ elim (Bool-cases (env.mmdb_lookup_sockaddr mmdb ip).1.found_entry) [
        | inl found ↦ rw (done, found) (read_entry-Answer w i same (ground arith) found)
        | inr missing ↦
            rw (done, missing, release_inside env w i.held refl)
              (returns (
                ground arith,
                missing,
                prefix_length-PrefixOf ip.family mmdb.ip_version the_netmask,
                same,
              ))
      ]
      | inr failed ↦
          elim (report_lem env ip (lookup_exception (env.mmdb_lookup_sockaddr mmdb ip).0)
            "Error looking up %s. %s" (env.mmdb_lookup_sockaddr mmdb ip).0
            (record w { lock = v.lock })) [
              | gave _ w₁ e p ↦
                  rw (failed, release_inside env w i.held refl, e)
                    (returns (ground arith, no_lookup (ground arith)))
            ]
    ]

    pub open_Answer :
        (w : World)
        → Inside env v w v.blocks v.refs v.lists
        → w.error ≡ v.error
        → (m : Option Mmdb) → m ≡ some mmdb
        → Ensures (Answer v) (lookup_if_open env ip m w)
    unfolding lookup_if_open
    open_Answer w i same m e = rw e (lookup-Answer w i same)

  -- With an open database, a ready lock, an address that is set and a library that lays its values
  -- out, a lookup meets no fault and returns: None and the prefix length where the tree has no
  -- record, the object of the record and the prefix length where it has one, or an exception for
  -- one of the listed causes. The prefix length is the netmask, but for an IPv4 address in a
  -- database of IPv6 96 less, and 0 where the netmask is below 96.
  pub lookup_address-Answer :
      (w : World)
      → LaysOut env
      → IsReady env.strategy w.lock
      → w.mmdb ≡ some mmdb
      → ip.family ≢ 0
      → Ensures (Answer w) (lookup_address env ip w)
  unfolding lookup_address
  lookup_address-Answer w lays h opened family =
      let set : (ip.family == 0) ≡ false = ground arith in
      rw set (
        acquire_read_lem env w _ h
          (λ l t held.
            open_Answer lays w (record w { lock = l; time = t })
              (record {
                held = held;
                mmdb = refl;
                closed = refl;
                warnings = refl;
                blocks = refl;
                refs = refl;
                lists = refl;
              })
              refl w.mmdb opened)
          (λ e t n. returns (ground arith, no_lock w.time n)))
