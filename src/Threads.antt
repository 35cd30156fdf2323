-- ===== src/Threads.antt =====
-- Several threads that use one reader of extension/maxminddb.c: their lookups (lines 440-508) and
-- closes (lines 662-680), run as whole calls, or up to the point where they hold the reader's lock
-- and from there on to the end.
mod Moves
pub mod Counted
pub mod Safety
pub mod Progress
use max_mind_db_reader_pytho.Base.{
  ℕ, Bool, true, false, List, get_elem?, set, some, Option, ◌≡◌, if◌then◌else◌,
}
use max_mind_db_reader_pytho.Env.{Env, SockAddr}
use max_mind_db_reader_pytho.Runtime.{World, ok}
use max_mind_db_reader_pytho.Lock.{reader_acquire_read_lock, reader_acquire_write_lock}
use max_mind_db_reader_pytho.Reader.{close_locked, reader_close}
use max_mind_db_reader_pytho.Lookup.{Found, lookup_if_open, lookup_address}

-- Where a thread is: outside, in a lookup behind `reader_acquire_read_lock`, or in a close behind
-- `reader_acquire_write_lock`.
pub data Phase : Type 0 where
  outside closing : Phase
  looking : SockAddr → Phase

pub record System : Type 0 where
  pub world : World
  pub threads : List Phase

-- One step of one thread: code of the extension that returns. A thread that would have to wait takes
-- no step. Where the lock is refused, the call is over.
pub data Step (env : Env) (s : System) : System → Type 0 where
  begin_lookup :
      (i : ℕ) (ip : SockAddr) (locked : Bool) (w : World)
      → get_elem? s.threads i ≡ some outside
      → reader_acquire_read_lock env s.world ≡ ok locked w
      → Step env s
          (record { world = w; threads = set s.threads i (if locked then looking ip else outside) })
  end_lookup :
      (i : ℕ) (ip : SockAddr) (found : Found) (w : World)
      → get_elem? s.threads i ≡ some (looking ip)
      → lookup_if_open env ip s.world.mmdb s.world ≡ ok found w
      → Step env s (record { world = w; threads = set s.threads i outside })
  begin_close :
      (i : ℕ) (locked : Bool) (w : World)
      → get_elem? s.threads i ≡ some outside
      → reader_acquire_write_lock env s.world ≡ ok locked w
      → Step env s
          (record { world = w; threads = set s.threads i (if locked then closing else outside) })
  end_close :
      (i : ℕ) (closed : Bool) (w : World)
      → get_elem? s.threads i ≡ some closing
      → close_locked env s.world.mmdb s.world ≡ ok closed w
      → Step env s (record { world = w; threads = set s.threads i outside })
  whole_lookup :
      (i : ℕ) (ip : SockAddr) (found : Found) (w : World)
      → get_elem? s.threads i ≡ some outside
      → lookup_address env ip s.world ≡ ok found w
      → Step env s (record { world = w; threads = s.threads })
  whole_close :
      (i : ℕ) (closed : Bool) (w : World)
      → get_elem? s.threads i ≡ some outside
      → reader_close env s.world ≡ ok closed w
      → Step env s (record { world = w; threads = s.threads })

pub data Reaches (env : Env) (s : System) : System → Type 0 where
  here : Reaches env s s
  then_step : {t u : System} → Reaches env s t → Step env t u → Reaches env s u
