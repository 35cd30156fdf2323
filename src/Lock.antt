-- ===== src/Lock.antt =====
-- The locks of extension/maxminddb.c, lines 148-305: the reader's lock under the three strategies
-- that the preprocessor chooses between.
pub mod Read
pub mod Write
pub mod Life
pub mod Exclusion
pub mod Returns
use max_mind_db_reader_pytho.Base.{
  ℕ, zero, suc, ◌+◌, String, Bool, true, false, ◌∷◌, [], ◌==◌, if◌then◌else◌,
}
use max_mind_db_reader_pytho.Env.{Env, Strategy, gil_only, windows_locks, pthread_locks}
use max_mind_db_reader_pytho.Runtime.{
  RwLock, uninit, destroyed, ready, Cmd, ok, fault, blocked, pure, ◌>>=◌, ◌>>◌, get_world, raise,
  warn, text, runtime_error, bad_lock,
}

abbrev pub eagain : ℕ
eagain = 11

abbrev pub ebusy : ℕ
ebusy = 16

abbrev pub einval : ℕ
einval = 22

abbrev pub edeadlk : ℕ
edeadlk = 35

abbrev eperm : ℕ
eperm = 1

abbrev set_lock : RwLock → Cmd (Unit {0})
set_lock l w = ok tt (record w { lock = l })

-- Shared and exclusive entry, once the platform's call does not refuse: it waits for a holder of
-- the other kind.
unfoldable pub enter_shared : RwLock → Cmd (Unit {0})
enter_shared (ready r zero) w = ok tt (record w { lock = ready (suc r) zero })
enter_shared (ready r (suc x)) w = blocked
enter_shared uninit w = fault bad_lock
enter_shared destroyed w = fault bad_lock

unfoldable pub enter_exclusive : RwLock → Cmd (Unit {0})
enter_exclusive (ready zero zero) w = ok tt (record w { lock = ready 0 1 })
enter_exclusive (ready zero (suc x)) w = blocked
enter_exclusive (ready (suc r) x) w = blocked
enter_exclusive uninit w = fault bad_lock
enter_exclusive destroyed w = fault bad_lock

-- `pthread_rwlock_unlock` gives back what is held, of either kind.
unlock : RwLock → Cmd ℕ
unlock (ready (suc r) x) w = ok 0 (record w { lock = ready r x })
unlock (ready zero (suc x)) w = ok 0 (record w { lock = ready 0 x })
unlock (ready zero zero) w = ok eperm w
unlock uninit w = fault bad_lock
unlock destroyed w = fault bad_lock

-- `pthread_rwlock_destroy`
destroy : RwLock → Cmd ℕ
destroy (ready zero zero) w = ok 0 (record w { lock = destroyed })
destroy (ready zero (suc x)) w = ok ebusy w
destroy (ready (suc r) x) w = ok ebusy w
destroy uninit w = fault bad_lock
destroy destroyed w = fault bad_lock

-- `ReleaseSRWLockShared` and `ReleaseSRWLockExclusive` of a lock that is held so.
unfoldable pub leave_shared : RwLock → Cmd (Unit {0})
leave_shared (ready (suc r) x) w = ok tt (record w { lock = ready r x })
leave_shared (ready zero x) w = fault bad_lock
leave_shared uninit w = fault bad_lock
leave_shared destroyed w = fault bad_lock

unfoldable pub leave_exclusive : RwLock → Cmd (Unit {0})
leave_exclusive (ready r (suc x)) w = ok tt (record w { lock = ready r x })
leave_exclusive (ready r zero) w = fault bad_lock
leave_exclusive uninit w = fault bad_lock
leave_exclusive destroyed w = fault bad_lock

-- Warnings of a call that returned `err`; `msg` is the text in front of the error's.
warn_unless_zero : (err : ℕ) → Cmd (Unit {0}) → Cmd (Unit {0})
warn_unless_zero err report = if err == 0 then pure tt else report

module _ (env : Env) where
  -- What the pthread call made now returns.
  pthread_result : Cmd ℕ
  pthread_result w = ok (env.lock_result w.time) (record w { time = w.time + 1 })

  -- The text of the error of `pthread_rwlock_rdlock` and `pthread_rwlock_wrlock`.
  unfoldable pub lock_message : (too_many : String) → ℕ → String
  lock_message too_many err =
      if err == eagain
      then too_many
      else if err == edeadlk
      then "Deadlock detected"
      else if err == einval
      then "Invalid lock state"
      else env.strerror err

  -- Each returns `true` for the 0 of the C function, `false` for its -1.
  init_under : Strategy → Cmd Bool
  init_under windows_locks = do set_lock (ready 0 0); pure true
  init_under pthread_locks = do
    err ← pthread_result
    if err == 0 then (do set_lock (ready 0 0); pure true) else do
      raise runtime_error "Failed to initialize read-write lock: %s" (text (env.strerror err) ∷ [])
      pure false
  init_under gil_only = pure true

  unfoldable pub reader_lock_init : Cmd Bool
  unfolding init_under pthread_result
  reader_lock_init = init_under env.strategy

  destroy_under : Strategy → Cmd (Unit {0})
  destroy_under pthread_locks = do
    w ← get_world
    err ← destroy w.lock
    if err == ebusy
        then warn
            "Destroying MaxMind Reader lock while still in use (bug: lock not properly released)" []
        else warn_unless_zero err
            (warn "pthread_rwlock_destroy failed: %s" (text (env.strerror err) ∷ []))
  destroy_under windows_locks = pure tt
  destroy_under gil_only = pure tt

  unfoldable pub reader_lock_destroy : Cmd (Unit {0})
  unfolding destroy_under destroy warn_unless_zero
  reader_lock_destroy = destroy_under env.strategy

  acquire_read_under : Strategy → Cmd Bool
  acquire_read_under windows_locks = do w ← get_world; enter_shared w.lock; pure true
  acquire_read_under pthread_locks = do
    err ← pthread_result
    w ← get_world
    if err == 0 then (do enter_shared w.lock; pure true) else do
      raise runtime_error "Failed to acquire read lock: %s"
          (text (lock_message "Maximum number of read locks exceeded" err) ∷ [])
      pure false
  acquire_read_under gil_only = pure true

  unfoldable pub reader_acquire_read_lock : Cmd Bool
  unfolding acquire_read_under pthread_result enter_shared lock_message
  reader_acquire_read_lock = acquire_read_under env.strategy

  release_read_under : Strategy → Cmd (Unit {0})
  release_read_under windows_locks = do w ← get_world; leave_shared w.lock
  release_read_under pthread_locks = do
    w ← get_world
    err ← unlock w.lock
    warn_unless_zero err (
        warn "pthread_rwlock_unlock failed: %s (unbalanced lock/unlock?)"
          (text (env.strerror err) ∷ []))
  release_read_under gil_only = pure tt

  unfoldable pub reader_release_read_lock : Cmd (Unit {0})
  unfolding release_read_under leave_shared unlock warn_unless_zero
  reader_release_read_lock = release_read_under env.strategy

  acquire_write_under : Strategy → Cmd Bool
  acquire_write_under windows_locks = do w ← get_world; enter_exclusive w.lock; pure true
  acquire_write_under pthread_locks = do
    err ← pthread_result
    w ← get_world
    if err == 0 then (do enter_exclusive w.lock; pure true) else do
      raise runtime_error "Failed to acquire write lock: %s"
          (text (lock_message "Maximum number of write locks exceeded" err) ∷ [])
      pure false
  acquire_write_under gil_only = pure true

  unfoldable pub reader_acquire_write_lock : Cmd Bool
  unfolding acquire_write_under pthread_result enter_exclusive lock_message
  reader_acquire_write_lock = acquire_write_under env.strategy

  release_write_under : Strategy → Cmd (Unit {0})
  release_write_under windows_locks = do w ← get_world; leave_exclusive w.lock
  release_write_under pthread_locks = do
    w ← get_world
    err ← unlock w.lock
    warn_unless_zero err (
        warn "pthread_rwlock_unlock failed: %s (unbalanced lock/unlock?)"
          (text (env.strerror err) ∷ []))
  release_write_under gil_only = pure tt

  unfoldable pub reader_release_write_lock : Cmd (Unit {0})
  unfolding release_write_under leave_exclusive unlock warn_unless_zero
  reader_release_write_lock = release_write_under env.strategy
