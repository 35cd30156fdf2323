-- ===== src/Threads/Moves.antt =====
-- What lookups and closes of extension/maxminddb.c, lines 195-305, 440-508 and 662-680, do to the
-- lock and the database where they return, without the GIL.
use max_mind_db_reader_pytho.Base.{
  ℕ, suc, ◌≤◌, ◌≡◌, ◌≢◌, refl, sym, ◌∙◌, ◌⊎◌, inl, inr, Bool, true, false, none, some, ◌==◌,
  if◌then◌else◌, Bool-cases, arith,
}
use max_mind_db_reader_pytho.Env.{Env, SockAddr, Strategy, gil_only, windows_locks, pthread_locks}
use max_mind_db_reader_pytho.Runtime.{World, RwLock, ready, get_world, pure, ◌>>=◌}
use max_mind_db_reader_pytho.Runtime.Outcome.{Ensures}
use max_mind_db_reader_pytho.Lock.{reader_acquire_read_lock, reader_acquire_write_lock}
use max_mind_db_reader_pytho.Lock.Returns.{
  Returns, Returns-bind, Returns-mono, Outcome-Returns, Kept, Shares, Excludes, acquire_read-Shares,
  acquire_write-Excludes,
}
use max_mind_db_reader_pytho.Lock.Read.{Held, Inside}
use max_mind_db_reader_pytho.Lock.Write.{Owned, IsFree}
use max_mind_db_reader_pytho.Lookup.{Found, lookup_if_open, lookup_address}
use max_mind_db_reader_pytho.Lookup.Resources.{Delivered, lookup_if_open-Delivered}
use max_mind_db_reader_pytho.Reader.{close_locked, reader_close}
use max_mind_db_reader_pytho.Reader.Close.{open_blocks, Closes, close_locked-Closes}

-- The sides of the lock in a world whose lock is known.
pub Held-ready :
    (s : Strategy) (r : ℕ) (l : RwLock) → s ≢ gil_only → l ≡ ready (suc r) 0 → Held s (ready r 0) l
Held-ready gil_only r l not e = absurd (not refl)
Held-ready windows_locks r l not e = (r, refl, e)
Held-ready pthread_locks r l not e = (r, refl, e)

pub Owned-ready : (s : Strategy) (l : RwLock) → s ≢ gil_only → l ≡ ready 0 1 → Owned s (ready 0 0) l
Owned-ready gil_only l not e = absurd (not refl)
Owned-ready windows_locks l not e = (refl, e)
Owned-ready pthread_locks l not e = (refl, e)

pub IsFree-ready : (s : Strategy) (l : RwLock) → l ≡ ready 0 0 → IsFree s l
IsFree-ready gil_only l e = tt
IsFree-ready windows_locks l e = e
IsFree-ready pthread_locks l e = e

-- Before the lock was entered.
abbrev pub unheld : ℕ → World → World
unheld r w = record w { lock = ready r 0 }

module _ (env : Env) (no_gil : env.strategy ≢ gil_only) (w : World) where
  pub Inside-unheld :
      (r : ℕ)
      → w.lock ≡ ready (suc r) 0
      → Inside env (unheld r w) w (unheld r w).blocks (unheld r w).refs (unheld r w).lists
  Inside-unheld r e = record {
    held = Held-ready env.strategy r w.lock no_gil e;
    mmdb = refl;
    closed = refl;
    warnings = refl;
    blocks = refl;
    refs = refl;
    lists = refl;
  }

  -- A lookup that holds the lock gives it back.
  pub lookup_if_open-Returns :
      (ip : SockAddr) (r : ℕ)
      → w.lock ≡ ready (suc r) 0
      → Returns (λ _ u. (u.lock ≡ ready r 0) × Kept w u) (lookup_if_open env ip w.mmdb w)
  lookup_if_open-Returns ip r e =
      Outcome-Returns (Delivered (unheld r w)) (λ _ u. (u.lock ≡ ready r 0) × Kept w u)
        (lookup_if_open-Delivered env (unheld r w) ip w.mmdb w (Inside-unheld r e)) kept
    where
      kept : (f : Found) (u : World) → Delivered (unheld r w) f u → (u.lock ≡ ready r 0) × Kept w u
      kept none u d = (d.0.lock, (d.0.mmdb, d.0.blocks))
      kept (some f) u d = (d.0.lock, (d.0.mmdb, d.0.blocks))

  -- A close that holds the lock gives it back, and the database is closed.
  pub close_locked-Ensures :
      w.lock ≡ ready 0 1
      → open_blocks w.mmdb ≤ w.blocks
      → Ensures (Closes (unheld 0 w)) (close_locked env w.mmdb w)
  close_locked-Ensures e owned =
      close_locked-Closes env (unheld 0 w) w.lock w.time w.mmdb
        (Owned-ready env.strategy w.lock no_gil e) refl owned

-- The lock is free and there is no database, or nothing has changed.
abbrev pub Closed : Bool → World → Type 0
Closed b u = (u.lock ≡ ready 0 0) × (open_blocks u.mmdb ≤ u.blocks)

pub Closes-Closed :
    (w : World)
    → open_blocks w.mmdb ≤ w.blocks
    → (b : Bool) (u : World) → Closes (unheld 0 w) b u
    → Closed b u
Closes-Closed w owned true u c = (c.lock, rw c.mmdb (omega arith))
Closes-Closed w owned false u (o, bad) = (o.lock, rw (o.mmdb, o.blocks) owned)

module _ (env : Env) (no_gil : env.strategy ≢ gil_only) (w : World) where
  -- A whole lookup keeps the lock and the database.
  pub lookup_address-Returns :
      (ip : SockAddr) → Returns (λ _ u. (u.lock ≡ w.lock) × Kept w u) (lookup_address env ip w)
  unfolding lookup_address
  lookup_address-Returns ip = elim (Bool-cases (ip.family == 0)) [
    | inl unset ↦ rw unset (refl, (refl, refl))
    | inr set ↦ rw set (
        Returns-bind (Shares w) (λ _ u. (u.lock ≡ w.lock) × Kept w u)
          (reader_acquire_read_lock env w) _ (acquire_read-Shares env w no_gil) go)
  ]
    where
      go :
          (locked : Bool) (v : World)
          → Shares w locked v
          → Returns
              (λ _ u. (u.lock ≡ w.lock) × Kept w u)
              ((if locked then (get_world >>= λ x. lookup_if_open env ip x.mmdb) else pure none) v)
      go true v (r, before, e, k) =
          Returns-mono (λ _ u. (u.lock ≡ ready r 0) × Kept v u)
            (λ _ u. (u.lock ≡ w.lock) × Kept w u) (lookup_if_open env ip v.mmdb v)
            (lookup_if_open-Returns env no_gil v ip r e)
            (λ _ u d. (d.0 ∙ sym before, (d.1.0 ∙ k.0, d.1.1 ∙ k.1)))
      go false v k = k

  -- A whole close closes the database only where nobody holds the lock.
  pub reader_close-Returns :
      open_blocks w.mmdb ≤ w.blocks
      → Returns
          (λ b u. ((u.lock ≡ w.lock) × Kept w u) ⊎ ((w.lock ≡ ready 0 0) × Closed b u))
          (reader_close env w)
  unfolding reader_close
  reader_close-Returns owned =
      Returns-bind (Excludes w)
        (λ b u. ((u.lock ≡ w.lock) × Kept w u) ⊎ ((w.lock ≡ ready 0 0) × Closed b u))
        (reader_acquire_write_lock env w) _ (acquire_write-Excludes env w no_gil) go
    where
      go :
          (locked : Bool) (v : World)
          → Excludes w locked v
          → Returns
              (λ b u. ((u.lock ≡ w.lock) × Kept w u) ⊎ ((w.lock ≡ ready 0 0) × Closed b u))
              ((if locked then (get_world >>= λ x. close_locked env x.mmdb) else pure false) v)
      go true v (before, e, k) =
          let owned' : open_blocks v.mmdb ≤ v.blocks = rw (k.0, k.1) owned in
          Outcome-Returns (Closes (unheld 0 v))
            (λ b u. ((u.lock ≡ w.lock) × Kept w u) ⊎ ((w.lock ≡ ready 0 0) × Closed b u))
            (close_locked-Ensures env no_gil v e owned')
            (λ b u c. inr (before, Closes-Closed v owned' b u c))
      go false v k = inl k
