-- ===== src/Lock/Exclusion.antt =====
-- A lock that is held is not given out again: `reader_acquire_read_lock` and
-- `reader_acquire_write_lock` of extension/maxminddb.c, lines 195-285, without the GIL.
use max_mind_db_reader_pytho.Base.{
  ℕ, zero, suc, ◌+◌, ◌<◌, ◌≡◌, ◌≢◌, refl, ◌∙◌, Bool, true, false, ◌==◌, Bool-cases, inl, inr, arith,
}
use max_mind_db_reader_pytho.Env.{Env, Strategy, gil_only, windows_locks, pthread_locks}
use max_mind_db_reader_pytho.Runtime.{World, RwLock, ready, Run, ok, fault, blocked, out_of_fuel}
use max_mind_db_reader_pytho.Lock.{
  reader_acquire_write_lock, reader_acquire_read_lock, enter_exclusive, enter_shared,
  acquire_write_under, acquire_read_under, pthread_result,
}

-- The call does not return 0.
abbrev pub Withheld : Run Bool → Type 0
Withheld (ok true w) = ⊥
Withheld (ok false w) = Unit
Withheld (fault f) = Unit
Withheld blocked = Unit
Withheld out_of_fuel = Unit

-- The entry of the lock waits.
enter_exclusive_waits :
    (l : RwLock) (w : World) (r x : ℕ) → l ≡ ready r x → 0 < r + x → enter_exclusive l w ≡ blocked
unfolding enter_exclusive
enter_exclusive_waits l w zero zero e held = absurd (omega arith)
enter_exclusive_waits l w zero (suc x) e held = rw e refl
enter_exclusive_waits l w (suc r) x e held = rw e refl

enter_shared_waits :
    (l : RwLock) (w : World) (r x : ℕ) → l ≡ ready r x → 0 < x → enter_shared l w ≡ blocked
unfolding enter_shared
enter_shared_waits l w r zero e held = absurd (omega arith)
enter_shared_waits l w r (suc x) e held = rw e refl

module _ (env : Env) (w : World) where
  write_under :
      (s : Strategy)
      → s ≢ gil_only
      → ((v : World) → v.lock ≡ w.lock → enter_exclusive v.lock v ≡ blocked)
      → Withheld (acquire_write_under env s w)
  unfolding acquire_write_under pthread_result
  write_under gil_only not waits = absurd (not refl)
  write_under windows_locks not waits = rw (waits w refl) tt
  write_under pthread_locks not waits = elim (Bool-cases (env.lock_result w.time == 0)) [
    | inl granted ↦ rw (granted, waits (record w { time = w.time + 1 }) refl) tt
    | inr refused ↦ rw refused tt
  ]

  read_under :
      (s : Strategy)
      → s ≢ gil_only
      → ((v : World) → v.lock ≡ w.lock → enter_shared v.lock v ≡ blocked)
      → Withheld (acquire_read_under env s w)
  unfolding acquire_read_under pthread_result
  read_under gil_only not waits = absurd (not refl)
  read_under windows_locks not waits = rw (waits w refl) tt
  read_under pthread_locks not waits = elim (Bool-cases (env.lock_result w.time == 0)) [
    | inl granted ↦ rw (granted, waits (record w { time = w.time + 1 }) refl) tt
    | inr refused ↦ rw refused tt
  ]

  -- Under a lock, the exclusive side is withheld while anybody holds it, and the shared side while
  -- somebody holds the exclusive one.
  pub acquire-Withheld :
      (r x : ℕ)
      → env.strategy ≢ gil_only
      → w.lock ≡ ready r x
      → (0 < r + x → Withheld (reader_acquire_write_lock env w))
        × (0 < x → Withheld (reader_acquire_read_lock env w))
  unfolding reader_acquire_write_lock reader_acquire_read_lock
  acquire-Withheld r x s e = (
    (λ held. write_under env.strategy s (λ v k. enter_exclusive_waits v.lock v r x (k ∙ e) held)),
    (λ held. read_under env.strategy s (λ v k. enter_shared_waits v.lock v r x (k ∙ e) held)),
  )
