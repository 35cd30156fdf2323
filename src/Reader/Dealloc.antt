-- ===== src/Reader/Dealloc.antt =====
-- `Reader_dealloc` of a reader that was initialised: extension/maxminddb.c, lines 662-680 and
-- 707-716.
use mathlib.Core.Path.{subst}
use max_mind_db_reader_pytho.Base.{
  ◌+◌, ◌≤◌, ◌≡◌, ◌≢◌, refl, sym, ◌⊎◌, inl, inr, true, false, Option, none, some, arith,
}
use max_mind_db_reader_pytho.Env.{Env, Mmdb}
use max_mind_db_reader_pytho.Runtime.{World, RwLock, and_then}
use max_mind_db_reader_pytho.Runtime.Outcome.{Ensures, returns, given, gave}
use max_mind_db_reader_pytho.Lock.{reader_lock_destroy}
use max_mind_db_reader_pytho.Lock.Life.{Fresh, Spent, Fresh-IsFree, reader_lock_destroy_lem}
use max_mind_db_reader_pytho.Reader.{reader_dealloc, dealloc_database}
use max_mind_db_reader_pytho.Reader.Close.{open_blocks, reader_close-Closes}

-- The lock is destroyed without a warning, and what is owned is as before, less the block of the
-- database; that block is lost if there was one and its lock was refused.
abbrev pub Ends : Env → RwLock → World → World → Type 0
Ends env before w u =
    Spent env.strategy before u.lock
    × (u.warnings ≡ w.warnings)
    × (u.refs ≡ w.refs)
    × (u.lists ≡ w.lists)
    × (((u.mmdb ≡ none) × (u.blocks + open_blocks w.mmdb ≡ w.blocks) × (u.error ≡ w.error))
        ⊎ ((w.mmdb ≢ none) × (u.mmdb ≡ w.mmdb) × (u.blocks ≡ w.blocks) × (u.error ≢ none)))

module _ (env : Env) (before : RwLock) (w : World) (fresh : Fresh env.strategy before w.lock) where
  destroyed_after :
      (u : World)
      → u.lock ≡ w.lock
      → (u.warnings ≡ w.warnings) × (u.refs ≡ w.refs) × (u.lists ≡ w.lists)
      → ((u.mmdb ≡ none) × (u.blocks + open_blocks w.mmdb ≡ w.blocks) × (u.error ≡ w.error))
        ⊎ ((w.mmdb ≢ none) × (u.mmdb ≡ w.mmdb) × (u.blocks ≡ w.blocks) × (u.error ≢ none))
      → Ensures (λ _ z. Ends env before w z) (reader_lock_destroy env u)
  destroyed_after u e (warned, refs, lists) last =
      let (l, q, spent) =
        reader_lock_destroy_lem env u before (subst (Fresh env.strategy before) (sym e) fresh) in
      rw q (returns (spent, warned, refs, lists, last))

  dealloc-Ends :
      (m : Option Mmdb)
      → m ≡ w.mmdb
      → open_blocks m ≤ w.blocks
      → Ensures
          (λ _ z. Ends env before w z)
          (and_then (dealloc_database env m w) (λ _. reader_lock_destroy env))
  unfolding dealloc_database
  dealloc-Ends none e le =
      destroyed_after w refl (refl, refl, refl) (inl (sym e, rw (← e) (omega arith), refl))
  dealloc-Ends (some mmdb) e le =
      elim (given
        (reader_close-Closes env w (Fresh-IsFree env.strategy before w.lock fresh) (rw (← e) le))) [
          | gave true u q c ↦ rw q (
              destroyed_after u c.lock (c.warnings, c.refs, c.lists)
                (inl (c.mmdb, c.blocks, c.error)))
          | gave false u q (o, bad) ↦ rw q (
              destroyed_after u o.lock (o.warnings, o.refs, o.lists)
                (inr ((λ z. ground arith), o.mmdb, o.blocks, bad)))
        ]

  -- The deallocation of a reader whose lock is as Reader_init leaves it, and whose open database
  -- owns a block, destroys the lock without a warning and gives the block of the database back;
  -- that is missed only where the write lock is refused, and then an exception is set.
  pub reader_dealloc-Ends :
      open_blocks w.mmdb ≤ w.blocks → Ensures (λ _ z. Ends env before w z) (reader_dealloc env w)
  unfolding reader_dealloc
  reader_dealloc-Ends le = dealloc-Ends w.mmdb refl le
