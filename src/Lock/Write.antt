-- ===== src/Lock/Write.antt =====
-- Rules for `reader_acquire_write_lock` and `reader_release_write_lock` under every strategy:
-- extension/maxminddb.c, lines 251-305.
use mathlib.Core.Path.{subst}
use max_mind_db_reader_pytho.Base.{
  ℕ, ◌+◌, ◌≡◌, refl, sym, ap, ◌⊎◌, inl, inr, Bool, true, false, some, [], ◌∷◌, ◌==◌, Bool-cases,
  ◌≢◌, arith,
}
use max_mind_db_reader_pytho.Env.{Env, Strategy, gil_only, windows_locks, pthread_locks}
use max_mind_db_reader_pytho.Runtime.{
  RwLock, ready, World, Fault, Cmd, ok, and_then, Exn, text, runtime_error,
}
use max_mind_db_reader_pytho.Runtime.Outcome.{Outcome}
use max_mind_db_reader_pytho.Lock.{
  lock_message, reader_acquire_write_lock, reader_release_write_lock, acquire_write_under,
  release_write_under, pthread_result, enter_exclusive, leave_exclusive, unlock, warn_unless_zero,
}

-- The lock has been initialised, and nobody holds it. There is no lock under the GIL.
abbrev pub IsFree : Strategy → RwLock → Type 0
IsFree gil_only l = Unit
IsFree windows_locks l = l ≡ ready 0 0
IsFree pthread_locks l = l ≡ ready 0 0

-- `before` was free, and `l` is held exclusively.
abbrev pub Owned : Strategy → RwLock → RwLock → Type 0
Owned gil_only before l = l ≡ before
Owned windows_locks before l = (before ≡ ready 0 0) × (l ≡ ready 0 1)
Owned pthread_locks before l = (before ≡ ready 0 0) × (l ≡ ready 0 1)

-- The exception of a call that returned `err`.
abbrev refusal : Env → ℕ → Exn
refusal env err = record {
  kind = runtime_error;
  format = "Failed to acquire write lock: %s";
  args = text (lock_message env "Maximum number of write locks exceeded" err) ∷ [];
}

-- What `reader_acquire_write_lock` returns in a world with such a lock.
abbrev AcquiredUnder : Env → World → Strategy → Type 0
AcquiredUnder env w s =
    ((l : RwLock) × (t : ℕ) × (acquire_write_under env s w
        ≡ ok true (record w { lock = l; time = t }))
      × Owned s w.lock l)
    ⊎ ((e : Exn) × (t : ℕ) × (acquire_write_under env s w
          ≡ ok false (record w { error = some e; time = t }))
        × (env.lock_result w.time ≢ 0))

module _ (env : Env) (w : World) where
  acquire_under : (s : Strategy) → IsFree s w.lock → AcquiredUnder env w s
  unfolding acquire_write_under pthread_result enter_exclusive
  acquire_under gil_only h = inl (w.lock, w.time, refl, refl)
  acquire_under windows_locks e = inl (ready 0 1, w.time, rw e, (e, refl))
  acquire_under pthread_locks e = elim (Bool-cases (env.lock_result w.time == 0)) [
    | inl granted ↦ inl (ready 0 1, w.time + 1, rw (granted, e), (e, refl))
    | inr refused ↦ inr (refusal env (env.lock_result w.time), w.time + 1, rw refused, ground arith)
  ]

  -- Run on after `reader_acquire_write_lock`: either the lock is held exclusively, or the call
  -- failed with an exception set; in both cases nothing else changed but the time.
  pub acquire_write_lem :
      {B : Type 0} {F : Fault → Type 0} {P : B → World → Type 0} (k : Bool → Cmd B)
      → IsFree env.strategy w.lock
      → ((l : RwLock) (t : ℕ)
          → Owned env.strategy w.lock l
          → Outcome F P (k true (record w { lock = l; time = t })))
      → ((e : Exn) (t : ℕ)
          → env.lock_result w.time ≢ 0
          → Outcome F P (k false (record w { error = some e; time = t })))
      → Outcome F P (and_then (reader_acquire_write_lock env w) k)
  unfolding reader_acquire_write_lock
  acquire_write_lem k h granted refused = elim (acquire_under env.strategy h) [
    | inl (l, t, e, held) ↦ rw e (granted l t held)
    | inr (x, t, e, n) ↦ rw e (refused x t n)
  ]

  release_under :
      (s : Strategy) (before : RwLock)
      → Owned s before w.lock
      → release_write_under env s w ≡ ok tt (record w { lock = before })
  unfolding release_write_under leave_exclusive unlock warn_unless_zero
  release_under gil_only before e = ap (λ l. ok tt (record w { lock = l })) e
  release_under windows_locks before (e, f) = rw (f, e)
  release_under pthread_locks before (e, f) = rw (f, e)

  -- `reader_release_write_lock` of a lock held so gives the lock back as it was, with no warning.
  pub release_write_lem :
      {before : RwLock}
      → Owned env.strategy before w.lock
      → reader_release_write_lock env w ≡ ok tt (record w { lock = before })
  unfolding reader_release_write_lock
  release_write_lem held = release_under env.strategy _ held

pub release-Owned :
    (env : Env) (w : World) {before held : RwLock}
    → Owned env.strategy before held
    → w.lock ≡ held
    → reader_release_write_lock env w ≡ ok tt (record w { lock = before })
release-Owned env w {before} h e =
    release_write_lem env w (subst (λ l. Owned env.strategy before l) (sym e) h)
