-- ===== src/Lock/Returns.antt =====
-- What `reader_acquire_read_lock` and `reader_acquire_write_lock` of extension/maxminddb.c, lines
-- 195-285, do to the lock where they return, without the GIL.
use mathlib.Core.Path.{subst}
use max_mind_db_reader_pytho.Base.{
  ℕ, zero, suc, ◌+◌, ◌≡◌, ◌≢◌, refl, inl, inr, Bool, true, false, ◌==◌, Bool-cases,
}
use max_mind_db_reader_pytho.Env.{Env, Strategy, gil_only, windows_locks, pthread_locks}
use max_mind_db_reader_pytho.Runtime.{
  World, RwLock, ready, uninit, destroyed, Fault, Run, Cmd, ok, fault, blocked, out_of_fuel,
  and_then,
}
use max_mind_db_reader_pytho.Runtime.Outcome.{Outcome, returns, faults}
use max_mind_db_reader_pytho.Lock.{
  enter_shared, enter_exclusive, pthread_result, acquire_read_under, acquire_write_under,
  reader_acquire_read_lock, reader_acquire_write_lock,
}

-- What holds where the run returns.
abbrev pub Returns {ℓ} : {A : Type ℓ} → (A → World → Type 0) → Run A → Type 0
Returns P (ok a w) = P a w
Returns P (fault f) = Unit
Returns P blocked = Unit
Returns P out_of_fuel = Unit

pub returned {ℓ} :
    {A : Type ℓ} (P : A → World → Type 0) (r : Run A) (a : A) (w : World)
    → Returns P r
    → r ≡ ok a w
    → P a w
returned P r a w h e = subst (Returns P) e h

pub Returns-bind {ℓ κ} :
    {A : Type ℓ} {B : Type κ} (P : A → World → Type 0) (Q : B → World → Type 0) (r : Run A)
    (k : A → Cmd B)
    → Returns P r
    → ((a : A) (w : World) → P a w → Returns Q (k a w))
    → Returns Q (and_then r k)
Returns-bind P Q (ok a w) k h next = next a w h
Returns-bind P Q (fault f) k h next = tt
Returns-bind P Q blocked k h next = tt
Returns-bind P Q out_of_fuel k h next = tt

pub Outcome-Returns {ℓ} :
    {A : Type ℓ} {F : Fault → Type 0} (P : A → World → Type 0) (Q : A → World → Type 0) {r : Run A}
    → Outcome F P r
    → ((a : A) (w : World) → P a w → Q a w)
    → Returns Q r
Outcome-Returns P Q (returns p) weaken = weaken _ _ p
Outcome-Returns P Q (faults f) weaken = tt

pub Returns-mono {ℓ} :
    {A : Type ℓ} (P : A → World → Type 0) (Q : A → World → Type 0) (r : Run A)
    → Returns P r
    → ((a : A) (w : World) → P a w → Q a w)
    → Returns Q r
Returns-mono P Q (ok a w) h weaken = weaken a w h
Returns-mono P Q (fault f) h weaken = tt
Returns-mono P Q blocked h weaken = tt
Returns-mono P Q out_of_fuel h weaken = tt

abbrev pub Kept : World → World → Type 0
Kept w u = (u.mmdb ≡ w.mmdb) × (u.blocks ≡ w.blocks)

-- An entry to the shared and to the exclusive side, or a refusal.
abbrev pub Shares : World → Bool → World → Type 0
Shares w true u = (r : ℕ) × (w.lock ≡ ready r 0) × (u.lock ≡ ready (suc r) 0) × Kept w u
Shares w false u = (u.lock ≡ w.lock) × Kept w u

abbrev pub Excludes : World → Bool → World → Type 0
Excludes w true u = (w.lock ≡ ready 0 0) × (u.lock ≡ ready 0 1) × Kept w u
Excludes w false u = (u.lock ≡ w.lock) × Kept w u

enter_shared-Shares :
    (l : RwLock) (w : World) → w.lock ≡ l → Returns (λ _ u. Shares w true u) (enter_shared l w)
unfolding enter_shared
enter_shared-Shares (ready r zero) w e = (r, e, refl, (refl, refl))
enter_shared-Shares (ready r (suc x)) w e = tt
enter_shared-Shares uninit w e = tt
enter_shared-Shares destroyed w e = tt

enter_exclusive-Excludes :
    (l : RwLock) (w : World) → w.lock ≡ l → Returns (λ _ u. Excludes w true u) (enter_exclusive l w)
unfolding enter_exclusive
enter_exclusive-Excludes (ready zero zero) w e = (e, refl, (refl, refl))
enter_exclusive-Excludes (ready zero (suc x)) w e = tt
enter_exclusive-Excludes (ready (suc r) x) w e = tt
enter_exclusive-Excludes uninit w e = tt
enter_exclusive-Excludes destroyed w e = tt

module _ (env : Env) (w : World) where
  abbrev later : World
  later = record w { time = w.time + 1 }

  read_under : (s : Strategy) → s ≢ gil_only → Returns (Shares w) (acquire_read_under env s w)
  unfolding acquire_read_under pthread_result
  read_under gil_only not = absurd (not refl)
  read_under windows_locks not =
      Returns-bind (λ _ u. Shares w true u) (Shares w) (enter_shared w.lock w) (λ _. ok true)
        (enter_shared-Shares w.lock w refl) (λ _ u p. p)
  read_under pthread_locks not = elim (Bool-cases (env.lock_result w.time == 0)) [
    | inl granted ↦ rw granted (
        Returns-bind (λ _ u. Shares later true u) (Shares w) (enter_shared w.lock later)
          (λ _. ok true) (enter_shared-Shares w.lock later refl) (λ _ u p. p))
    | inr refused ↦ rw refused (refl, (refl, refl))
  ]

  write_under : (s : Strategy) → s ≢ gil_only → Returns (Excludes w) (acquire_write_under env s w)
  unfolding acquire_write_under pthread_result
  write_under gil_only not = absurd (not refl)
  write_under windows_locks not =
      Returns-bind (λ _ u. Excludes w true u) (Excludes w) (enter_exclusive w.lock w) (λ _. ok true)
        (enter_exclusive-Excludes w.lock w refl) (λ _ u p. p)
  write_under pthread_locks not = elim (Bool-cases (env.lock_result w.time == 0)) [
    | inl granted ↦ rw granted (
        Returns-bind (λ _ u. Excludes later true u) (Excludes w) (enter_exclusive w.lock later)
          (λ _. ok true) (enter_exclusive-Excludes w.lock later refl) (λ _ u p. p))
    | inr refused ↦ rw refused (refl, (refl, refl))
  ]

  pub acquire_read-Shares :
      env.strategy ≢ gil_only → Returns (Shares w) (reader_acquire_read_lock env w)
  unfolding reader_acquire_read_lock
  acquire_read-Shares not = read_under env.strategy not

  pub acquire_write-Excludes :
      env.strategy ≢ gil_only → Returns (Excludes w) (reader_acquire_write_lock env w)
  unfolding reader_acquire_write_lock
  acquire_write-Excludes not = write_under env.strategy not
