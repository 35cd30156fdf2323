-- ===== src/Lock/Read.antt =====
-- Rules for `reader_acquire_read_lock` and `reader_release_read_lock` under every strategy:
-- extension/maxminddb.c, lines 195-249.
use mathlib.Core.Path.{subst}
use max_mind_db_reader_pytho.Base.{
  ℕ, suc, ◌+◌, ◌≡◌, refl, sym, ap, ◌∙◌, ◌⊎◌, inl, inr, Bool, true, false, some, [], ◌∷◌, ◌==◌,
  Bool-cases, ◌≢◌, arith,
}
use max_mind_db_reader_pytho.Env.{Env, Strategy, gil_only, windows_locks, pthread_locks}
use max_mind_db_reader_pytho.Runtime.{
  RwLock, ready, World, Fault, Cmd, ok, and_then, Exn, text, runtime_error,
}
use max_mind_db_reader_pytho.Runtime.Outcome.{Outcome, Owns}
use max_mind_db_reader_pytho.Lock.{
  lock_message, reader_acquire_read_lock, reader_release_read_lock, acquire_read_under,
  release_read_under, pthread_result, enter_shared, leave_shared, unlock, warn_unless_zero,
}

-- The lock can be entered: it has been initialised, and nobody holds its exclusive side. There is no
-- lock under the GIL.
abbrev pub IsReady : Strategy → RwLock → Type 0
IsReady gil_only l = Unit
IsReady windows_locks l = (r : ℕ) × (l ≡ ready r 0)
IsReady pthread_locks l = (r : ℕ) × (l ≡ ready r 0)

-- `l` is `before` with one more holder of the shared side.
abbrev pub Held : Strategy → RwLock → RwLock → Type 0
Held gil_only before l = l ≡ before
Held windows_locks before l = (r : ℕ) × (before ≡ ready r 0) × (l ≡ ready (suc r) 0)
Held pthread_locks before l = (r : ℕ) × (before ≡ ready r 0) × (l ≡ ready (suc r) 0)

-- The exception of a call that returned `err`.
abbrev refusal : Env → ℕ → Exn
refusal env err = record {
  kind = runtime_error;
  format = "Failed to acquire read lock: %s";
  args = text (lock_message env "Maximum number of read locks exceeded" err) ∷ [];
}

-- What `reader_acquire_read_lock` returns in a world with such a lock.
abbrev AcquiredUnder : Env → World → Strategy → Type 0
AcquiredUnder env w s =
    ((l : RwLock) × (t : ℕ) × (acquire_read_under env s w
        ≡ ok true (record w { lock = l; time = t }))
      × Held s w.lock l)
    ⊎ ((e : Exn) × (t : ℕ) × (acquire_read_under env s w
          ≡ ok false (record w { error = some e; time = t }))
        × (env.lock_result w.time ≢ 0))

module _ (env : Env) (w : World) where
  acquire_under : (s : Strategy) → IsReady s w.lock → AcquiredUnder env w s
  unfolding acquire_read_under pthread_result enter_shared
  acquire_under gil_only h = inl (w.lock, w.time, refl, refl)
  acquire_under windows_locks (r, e) = inl (ready (suc r) 0, w.time, rw e, (r, e, refl))
  acquire_under pthread_locks (r, e) = elim (Bool-cases (env.lock_result w.time == 0)) [
    | inl granted ↦ inl (ready (suc r) 0, w.time + 1, rw (granted, e), (r, e, refl))
    | inr refused ↦ inr (refusal env (env.lock_result w.time), w.time + 1, rw refused, ground arith)
  ]

  -- Run on after `reader_acquire_read_lock`: either the lock has one more shared holder, or the call
  -- failed with an exception set; in both cases nothing else changed but the time.
  pub acquire_read_lem :
      {B : Type 0} {F : Fault → Type 0} {P : B → World → Type 0} (k : Bool → Cmd B)
      → IsReady env.strategy w.lock
      → ((l : RwLock) (t : ℕ)
          → Held env.strategy w.lock l
          → Outcome F P (k true (record w { lock = l; time = t })))
      → ((e : Exn) (t : ℕ)
          → env.lock_result w.time ≢ 0
          → Outcome F P (k false (record w { error = some e; time = t })))
      → Outcome F P (and_then (reader_acquire_read_lock env w) k)
  unfolding reader_acquire_read_lock
  acquire_read_lem k h granted refused = elim (acquire_under env.strategy h) [
    | inl (l, t, e, held) ↦ rw e (granted l t held)
    | inr (x, t, e, n) ↦ rw e (refused x t n)
  ]

  release_under :
      (s : Strategy) (before : RwLock)
      → Held s before w.lock
      → release_read_under env s w ≡ ok tt (record w { lock = before })
  unfolding release_read_under leave_shared unlock warn_unless_zero
  release_under gil_only before e = ap (λ l. ok tt (record w { lock = l })) e
  release_under windows_locks before (r, e, f) = rw (f, e)
  release_under pthread_locks before (r, e, f) = rw (f, e)

  -- `reader_release_read_lock` of a lock held so gives the lock back as it was, with no warning.
  pub release_read_lem :
      {before : RwLock}
      → Held env.strategy before w.lock
      → reader_release_read_lock env w ≡ ok tt (record w { lock = before })
  unfolding reader_release_read_lock
  release_read_lem held = release_under env.strategy _ held

-- Against the world `v` before the lock was entered, `w` differs in the lock and in what the code has
-- come to own.
pub record Inside (env : Env) (v w : World) (b r l : ℕ) : Type 0 where
  pub held : Held env.strategy v.lock w.lock
  pub mmdb : w.mmdb ≡ v.mmdb
  pub closed : w.closed ≡ v.closed
  pub warnings : w.warnings ≡ v.warnings
  pub blocks : w.blocks ≡ b
  pub refs : w.refs ≡ r
  pub lists : w.lists ≡ l

-- Commands inside that keep the reader.
pub Inside-Owns :
    {env : Env} {v w u : World} {b r l b' r' l' : ℕ}
    → Inside env v w b r l
    → Owns w u b' r' l'
    → Inside env v u b' r' l'
Inside-Owns {env} {v} i o = record {
  held = subst (λ l. Held env.strategy v.lock l) (sym o.lock) i.held;
  mmdb = o.mmdb ∙ i.mmdb;
  closed = o.closed ∙ i.closed;
  warnings = o.warnings ∙ i.warnings;
  blocks = o.blocks;
  refs = o.refs;
  lists = o.lists;
}

pub release_inside :
    (env : Env) (w : World) {before held : RwLock}
    → Held env.strategy before held
    → w.lock ≡ held
    → reader_release_read_lock env w ≡ ok tt (record w { lock = before })
release_inside env w {before} h e =
    release_read_lem env w (subst (λ l. Held env.strategy before l) (sym e) h)
