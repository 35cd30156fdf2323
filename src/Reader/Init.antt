-- ===== src/Reader/Init.antt =====
-- `Reader_init`, and `Reader_dealloc` behind it: extension/maxminddb.c, lines 311-391 and 707-716.
use mathlib.Core.Path.{subst}
use max_mind_db_reader_pytho.Base.{
  ℤ, ◌+◌, ◌-◌, ◌≡◌, ◌≢◌, refl, ◌∙◌, ◌⊎◌, inl, inr, String, Bool, true, false, Option, none, some,
  [], ◌∷◌, arith, ◌==◌, Bool-cases,
}
use max_mind_db_reader_pytho.Env.{Env, Mmdb, pthread_locks}
use max_mind_db_reader_pytho.Runtime.{
  uninit, destroyed, World, Exn, bad_lock, fault, invalid_database_error, os_error, text, and_then,
  py_false,
}
use max_mind_db_reader_pytho.Runtime.Outcome.{
  Ensures, returns, gave, Owns, free_lem, decref_lem, malloc_lem, mono,
}
use max_mind_db_reader_pytho.Lock.{reader_lock_destroy}
use max_mind_db_reader_pytho.Lock.Life.{
  Fresh, Spent, reader_lock_init_cases, reader_lock_destroy_lem, reader_lock_destroy-unusable,
}
use max_mind_db_reader_pytho.Reader.{
  is_supported, can_read, open_database, allocate_database, reader_init, reader_dealloc,
  dealloc_database,
}
use max_mind_db_reader_pytho.Reader.State.{get_state_cases}

-- The arguments name a file that can be read, in a mode that the extension has.
abbrev pub Accepted : Env → Option (String × ℤ) → Type 0
Accepted env none = ⊥
Accepted env (some (filename, mode)) =
    (is_supported mode ≡ true) × (can_read env filename ≡ true) × ((env.mmdb_open filename).0 ≡ 0)

abbrev pub opened : Env → Option (String × ℤ) → Option Mmdb
opened env none = none
opened env (some (filename, mode)) = some (env.mmdb_open filename).1

-- Everything but the lock, the error indicator and the time is as before.
abbrev pub Untouched : World → World → Type 0
Untouched w u =
    (u.mmdb ≡ w.mmdb)
    × (u.closed ≡ w.closed)
    × (u.warnings ≡ w.warnings)
    × (u.blocks ≡ w.blocks)
    × (u.refs ≡ w.refs)
    × (u.lists ≡ w.lists)

-- A successful initialisation stores the open database, which owns one block, and leaves a fresh
-- lock. A failed one sets an exception, gives everything back, and leaves the lock as it was or
-- destroyed.
abbrev pub Inits : Env → Option (String × ℤ) → World → Bool → World → Type 0
Inits env parsed w true u =
    Accepted env parsed
    × (u.mmdb ≡ opened env parsed)
    × (u.closed ≡ py_false)
    × Fresh env.strategy w.lock u.lock
    × (u.warnings ≡ w.warnings)
    × (u.blocks ≡ w.blocks + 1)
    × (u.refs ≡ w.refs)
    × (u.lists ≡ w.lists)
    × (u.error ≡ w.error)
Inits env parsed w false u =
    Untouched w u × (u.error ≢ none) × ((u.lock ≡ w.lock) ⊎ Spent env.strategy w.lock u.lock)

module _ (env : Env) (v : World) (filename : String) (mode : ℤ) (fine : is_supported mode ≡ true)
    (readable : can_read env filename ≡ true) where
  open_database-Inits :
      (w : World)
      → (w.mmdb ≡ v.mmdb)
        × (w.closed ≡ v.closed)
        × (w.warnings ≡ v.warnings)
        × (w.blocks ≡ v.blocks + 1)
        × (w.refs ≡ v.refs + 1)
        × (w.lists ≡ v.lists)
      → w.error ≡ v.error
      → Fresh env.strategy v.lock w.lock
      → Ensures (Inits env (some (filename, mode)) v) (open_database env filename w)
  unfolding open_database
  open_database-Inits w i same fresh = elim (Bool-cases ((env.mmdb_open filename).0 == 0)) [
    | inl done ↦
        rw (done, decref_lem {w = w} (omega arith))
          (returns (
            (fine, readable, ground arith),
            refl,
            refl,
            fresh,
            ground arith,
            omega arith,
            omega arith,
            omega arith,
            same,
          ))
    | inr failed ↦
        let (l, e, spent) = reader_lock_destroy_lem env w v.lock fresh in
        rw
          (
            failed,
            e,
            free_lem {w = record w { lock = l }} (omega arith),
            decref_lem {w = record w { lock = l; blocks = w.blocks - 1; error = bad_file }}
                (omega arith),
          )
          (returns (ground arith, (λ q. cc), inr spent))
  ]
    where
      bad_file : Option Exn
      bad_file = some (record {
        kind = invalid_database_error;
        format = "Error opening database file (%s). Is this a valid MaxMind DB file?";
        args = text filename ∷ [];
      })

  allocate_database-Inits :
      (w : World)
      → Owns v w v.blocks (v.refs + 1) v.lists
      → w.error ≡ v.error
      → Ensures (Inits env (some (filename, mode)) v) (allocate_database env filename w)
  unfolding allocate_database
  allocate_database-Inits w o same = elim (malloc_lem env w) [
    | gave false w₁ e (o₁, k, s) ↦
        rw (e, decref_lem {w = w₁} (omega arith))
          (returns (ground arith, (λ q. cc), inl (o₁.lock ∙ o.lock)))
    | gave true w₁ e (o₁, k) ↦ elim (reader_lock_init_cases env w₁) [
      | inl (l, t, e', fresh) ↦
          rw (e, e')
            (open_database-Inits (record w₁ { lock = l; time = t }) (ground arith) (k ∙ same)
              (subst (λ b. Fresh env.strategy b l) (o₁.lock ∙ o.lock) fresh))
      | inr (x, t, e') ↦
          rw
            (
              e,
              e',
              free_lem {w = record w₁ { error = some x; time = t }} (omega arith),
              decref_lem {w = record w₁ { error = some x; time = t; blocks = w₁.blocks - 1 }}
                  (omega arith),
            )
            (returns (ground arith, (λ q. cc), inl (o₁.lock ∙ o.lock)))
    ]
  ]

pub reader_init-Inits :
    (env : Env) (parsed : Option (String × ℤ)) (w : World)
    → Ensures (Inits env parsed w) (reader_init env parsed w)
unfolding reader_init
reader_init-Inits env none w = elim (get_state_cases env w) [
  | inr (x, lost, why) ↦ rw lost (returns (ground arith, (λ q. cc), inl refl))
  | inl known ↦ rw known (returns (ground arith, (λ q. cc), inl refl))
]
reader_init-Inits env (some (filename, mode)) w = elim (get_state_cases env w) [
  | inr (x, lost, why) ↦ rw lost (returns (ground arith, (λ q. cc), inl refl))
  | inl known ↦ elim (Bool-cases (is_supported mode)) [
    | inr bad ↦
        rw (known, bad, decref_lem {w = record w { refs = w.refs + 1 }} (omega arith))
          (returns (ground arith, (λ q. cc), inl refl))
    | inl fine ↦ elim (Bool-cases (can_read env filename)) [
      | inr missing ↦
          rw
            (
              known,
              fine,
              missing,
              decref_lem {w = record w { refs = w.refs + 1; error = no_file }} (omega arith),
            )
            (returns (ground arith, (λ q. cc), inl refl))
      | inl readable ↦
          rw (known, fine, readable)
            (allocate_database-Inits env w filename mode fine readable
              (record w { refs = w.refs + 1 }) (ground arith) refl)
    ]
  ]
]
  where
    no_file : Option Exn
    no_file = some (record { kind = os_error; format = ""; args = text filename ∷ [] })

-- Under pthreads, a failed Reader_init of a newly allocated object is followed by undefined
-- behaviour in its deallocation, which destroys a lock that has not been initialised or has been
-- destroyed already.
pub reader_init-reader_dealloc :
    (env : Env) (parsed : Option (String × ℤ)) (w : World)
    → env.strategy ≡ pthread_locks
    → w.lock ≡ uninit
    → w.mmdb ≡ none
    → Ensures
        (λ done u. done ≡ false → reader_dealloc env u ≡ fault bad_lock)
        (reader_init env parsed w)
unfolding reader_dealloc dealloc_database
reader_init-reader_dealloc env parsed w pthreads new closed =
    mono (reader_init-Inits env parsed w) after
  where
    unusable :
        (u : World)
        → (u.lock ≡ w.lock) ⊎ Spent env.strategy w.lock u.lock
        → (u.lock ≡ uninit) ⊎ (u.lock ≡ destroyed)
    unusable u (inl e) = inl (e ∙ new)
    unusable u (inr s) = inr (subst (λ s'. Spent s' w.lock u.lock) pthreads s)

    destroys :
        (u : World) (m : Option Mmdb)
        → m ≡ none
        → (u.lock ≡ uninit) ⊎ (u.lock ≡ destroyed)
        → and_then (dealloc_database env m u) (λ _. reader_lock_destroy env) ≡ fault bad_lock
    destroys u m e h = rw e (reader_lock_destroy-unusable env u pthreads h)

    after :
        (done : Bool) (u : World)
        → Inits env parsed w done u
        → done ≡ false
        → reader_dealloc env u ≡ fault bad_lock
    after true u p q = absurd (ground arith)
    after false u (same, bad, l) q = destroys u u.mmdb (same.0 ∙ closed) (unusable u l)
