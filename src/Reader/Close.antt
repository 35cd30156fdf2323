-- ===== src/Reader/Close.antt =====
-- `Reader_close` and `Reader__exit__`: extension/maxminddb.c, lines 662-705.
use max_mind_db_reader_pytho.Base.{
  ℕ, ◌+◌, ◌-◌, ◌≤◌, ◌≡◌, ◌≢◌, refl, sym, Bool, true, false, Option, none, some, arith,
}
use max_mind_db_reader_pytho.Env.{Env, Mmdb}
use max_mind_db_reader_pytho.Runtime.{RwLock, World, py_true}
use max_mind_db_reader_pytho.Runtime.Outcome.{Ensures, returns, Owns, free_lem, mono}
use max_mind_db_reader_pytho.Lock.Write.{IsFree, Owned, acquire_write_lem, release-Owned}
use max_mind_db_reader_pytho.Reader.{close_locked, reader_close}

-- The block of the open database, if there is one.
abbrev pub open_blocks : Option Mmdb → ℕ
open_blocks none = 0
open_blocks (some m) = 1

-- A close that returns leaves no database and the reader marked closed, gives the database's block
-- back and keeps the lock, the warnings and the references. One that the lock refuses changes
-- nothing and sets an exception.
abbrev pub Closes : World → Bool → World → Type 0
Closes w true w' = record {
  lock : w'.lock ≡ w.lock;
  mmdb : w'.mmdb ≡ none;
  closed : w'.closed ≡ py_true;
  warnings : w'.warnings ≡ w.warnings;
  blocks : w'.blocks + open_blocks w.mmdb ≡ w.blocks;
  refs : w'.refs ≡ w.refs;
  lists : w'.lists ≡ w.lists;
  error : w'.error ≡ w.error;
}
Closes w false w' = Owns w w' w.blocks w.refs w.lists × (w'.error ≢ none)

module _ (env : Env) (v : World) where
  pub close_locked-Closes :
      (l : RwLock) (t : ℕ) (m : Option Mmdb)
      → Owned env.strategy v.lock l
      → m ≡ v.mmdb
      → open_blocks m ≤ v.blocks
      → Ensures (Closes v) (close_locked env m (record v { lock = l; time = t }))
  unfolding close_locked
  close_locked-Closes l t none h e le =
      rw (release-Owned env (record v { lock = l; time = t; closed = py_true }) h refl) (
        returns (record {
          lock = refl;
          mmdb = sym e;
          closed = refl;
          warnings = refl;
          blocks = rw (← e) (omega arith);
          refs = refl;
          lists = refl;
          error = refl;
        }))
  close_locked-Closes l t (some m) h e le =
      rw
        (
          free_lem {w = record v { lock = l; time = t }} le,
          release-Owned env
              (record v {
                lock = l;
                time = t;
                mmdb = none;
                closed = py_true;
                blocks = v.blocks - 1;
              })
              h refl,
        )
        (returns (record {
          lock = refl;
          mmdb = refl;
          closed = refl;
          warnings = refl;
          blocks = rw (← e) (omega arith);
          refs = refl;
          lists = refl;
          error = refl;
        }))

  -- With a free lock and the block of an open database owned, a close leaves no database and the
  -- reader marked closed, gives the block back, and keeps the lock, warnings, references and
  -- lists; a close that the lock refuses changes nothing and sets an exception.
  pub reader_close-Closes :
      IsFree env.strategy v.lock
      → open_blocks v.mmdb ≤ v.blocks
      → Ensures (Closes v) (reader_close env v)
  unfolding reader_close
  reader_close-Closes h le =
      acquire_write_lem env v _ h (λ l t held. close_locked-Closes l t v.mmdb held refl le)
        (λ e t n. returns (ground arith))

-- A close of a closed reader with a free lock keeps the whole reader and all that is owned, and
-- sets no exception where it returns None.
pub close-close :
    (env : Env) (v : World)
    → IsFree env.strategy v.lock
    → v.mmdb ≡ none
    → v.closed ≡ py_true
    → Ensures
        (λ done w. Owns v w v.blocks v.refs v.lists × (done ≡ true → w.error ≡ v.error))
        (reader_close env v)
close-close env v h gone shut = mono (reader_close-Closes env v h (rw gone (omega arith))) weaken
  where
    weaken :
        (done : Bool) (w : World)
        → Closes v done w
        → Owns v w v.blocks v.refs v.lists × (done ≡ true → w.error ≡ v.error)
    weaken true w c = let same : w.blocks + 0 ≡ v.blocks = rw gone at c.blocks in ground arith
    weaken false w c = (c.0, λ e. cc)
