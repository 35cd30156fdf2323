-- ===== src/Lock/Life.antt =====
-- Rules for `reader_lock_init` and `reader_lock_destroy` under every strategy:
-- extension/maxminddb.c, lines 152-193.
use max_mind_db_reader_pytho.Base.{
  ℕ, ◌+◌, ◌≡◌, refl, ◌⊎◌, inl, inr, true, false, some, [], ◌∷◌, ◌==◌, Bool-cases, arith,
}
use max_mind_db_reader_pytho.Env.{Env, Strategy, gil_only, windows_locks, pthread_locks}
use max_mind_db_reader_pytho.Runtime.{
  RwLock, uninit, destroyed, ready, World, Exn, text, runtime_error, bad_lock, ok, fault,
}
use max_mind_db_reader_pytho.Lock.{
  reader_lock_init, reader_lock_destroy, init_under, destroy_under, pthread_result, destroy,
  warn_unless_zero,
}
use max_mind_db_reader_pytho.Lock.Write.{IsFree}

-- The lock after its initialisation, and after its destruction.
abbrev pub Fresh : Strategy → RwLock → RwLock → Type 0
Fresh gil_only before l = l ≡ before
Fresh windows_locks before l = l ≡ ready 0 0
Fresh pthread_locks before l = l ≡ ready 0 0

abbrev pub Spent : Strategy → RwLock → RwLock → Type 0
Spent gil_only before l = l ≡ before
Spent windows_locks before l = l ≡ ready 0 0
Spent pthread_locks before l = l ≡ destroyed

pub Fresh-IsFree : (s : Strategy) (before l : RwLock) → Fresh s before l → IsFree s l
Fresh-IsFree gil_only before l h = tt
Fresh-IsFree windows_locks before l h = h
Fresh-IsFree pthread_locks before l h = h

module _ (env : Env) (w : World) where
  init_cases :
      (s : Strategy)
      → ((l : RwLock) × (t : ℕ) × (init_under env s w ≡ ok true (record w { lock = l; time = t }))
          × Fresh s w.lock l)
        ⊎ ((x : Exn) × (t : ℕ) × (init_under env s w
              ≡ ok false (record w { error = some x; time = t })))
  unfolding init_under pthread_result
  init_cases gil_only = inl (w.lock, w.time, refl, refl)
  init_cases windows_locks = inl (ready 0 0, w.time, refl, refl)
  init_cases pthread_locks = elim (Bool-cases (env.lock_result w.time == 0)) [
    | inl granted ↦ inl (ready 0 0, w.time + 1, rw granted refl, refl)
    | inr refused ↦ inr (
      record {
        kind = runtime_error;
        format = "Failed to initialize read-write lock: %s";
        args = text (env.strerror (env.lock_result w.time)) ∷ [];
      },
      w.time + 1,
      rw refused refl,
    )
  ]

  -- `reader_lock_init` makes a fresh lock, or sets an exception and leaves the lock as it was.
  pub reader_lock_init_cases :
      ((l : RwLock) × (t : ℕ) × (reader_lock_init env w ≡ ok true (record w { lock = l; time = t }))
        × Fresh env.strategy w.lock l)
      ⊎ ((x : Exn) × (t : ℕ) × (reader_lock_init env w
            ≡ ok false (record w { error = some x; time = t })))
  unfolding reader_lock_init
  reader_lock_init_cases = init_cases env.strategy

  destroy_cases :
      (s : Strategy) (before : RwLock)
      → Fresh s before w.lock
      → (l : RwLock) × (destroy_under env s w ≡ ok tt (record w { lock = l })) × Spent s before l
  unfolding destroy_under destroy warn_unless_zero
  destroy_cases gil_only before h = (w.lock, refl, h)
  destroy_cases windows_locks before h = (w.lock, refl, h)
  destroy_cases pthread_locks before h = (destroyed, rw h refl, refl)

  -- `reader_lock_destroy` of a lock that nobody holds gives no warning.
  pub reader_lock_destroy_lem :
      (before : RwLock)
      → Fresh env.strategy before w.lock
      → (l : RwLock) × (reader_lock_destroy env w ≡ ok tt (record w { lock = l }))
        × Spent env.strategy before l
  unfolding reader_lock_destroy
  reader_lock_destroy_lem before h = destroy_cases env.strategy before h

  -- Under pthreads the destruction of a lock that is not initialised is undefined.
  destroy_unusable :
      (s : Strategy)
      → s ≡ pthread_locks
      → (w.lock ≡ uninit) ⊎ (w.lock ≡ destroyed)
      → destroy_under env s w ≡ fault bad_lock
  unfolding destroy_under destroy
  destroy_unusable gil_only e h = absurd (ground arith)
  destroy_unusable windows_locks e h = absurd (ground arith)
  destroy_unusable pthread_locks e (inl h) = rw h refl
  destroy_unusable pthread_locks e (inr h) = rw h refl

  pub reader_lock_destroy-unusable :
      env.strategy ≡ pthread_locks
      → (w.lock ≡ uninit) ⊎ (w.lock ≡ destroyed)
      → reader_lock_destroy env w ≡ fault bad_lock
  unfolding reader_lock_destroy
  reader_lock_destroy-unusable e h = destroy_unusable env.strategy e h
