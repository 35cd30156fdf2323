-- ===== src/Threads/Safety.antt =====
-- No lookup reads the database while a close runs: extension/maxminddb.c, lines 195-305, 440-508 and
-- 662-680.
use max_mind_db_reader_pytho.Base.{
  ℕ, suc, ◌≡◌, ◌≢◌, sym, ◌∙◌, ◌⊎◌, inl, inr, some, arith, get_elem?, Bool, true, false,
}
use max_mind_db_reader_pytho.Env.{Env, SockAddr, gil_only}
use max_mind_db_reader_pytho.Runtime.{World, ready}
use max_mind_db_reader_pytho.Lock.{reader_acquire_read_lock, reader_acquire_write_lock}
use max_mind_db_reader_pytho.Lock.Returns.{
  returned, Kept, Shares, Excludes, acquire_read-Shares, acquire_write-Excludes,
}
use max_mind_db_reader_pytho.Reader.{reader_close}
use max_mind_db_reader_pytho.Lookup.{lookup_if_open, lookup_address}
use max_mind_db_reader_pytho.Threads.Moves.{
  Closed, lookup_if_open-Returns, lookup_address-Returns, reader_close-Returns,
}
use max_mind_db_reader_pytho.Threads.{
  looking, closing, System, Step, begin_lookup, end_lookup, begin_close, end_close, whole_lookup,
  whole_close, Reaches,
}
use max_mind_db_reader_pytho.Threads.Counted.{
  IsCounted, IsInitial, IsInitial-IsCounted, Reaches-IsCounted, count-at, is_closing, while_looking,
  ready_numbers,
}

-- Without the GIL, from a lock that nobody holds, threads that are all outside, and a reader whose
-- open database owns its block, in every reachable state: while a thread is in a lookup that holds
-- the lock, no thread is in a close that does, and no step of any thread, a whole call of
-- Reader_close included, changes the pointer of the reader to the database, so it is not freed
-- under the lookup.
pub reads-undisturbed :
    (env : Env) (start s t : System) (i : ℕ) (ip : SockAddr)
    → env.strategy ≢ gil_only
    → IsInitial start
    → Reaches env start s
    → get_elem? s.threads i ≡ some (looking ip)
    → Step env s t
    → ((j : ℕ) → get_elem? s.threads j ≢ some closing) × (t.world.mmdb ≡ s.world.mmdb)
reads-undisturbed env start s t i ip no_gil initial path at next = (no_close, unchanged t next)
  where
    counted : IsCounted s
    counted = Reaches-IsCounted env no_gil start s (IsInitial-IsCounted start initial) path

    lock :
        (r : ℕ) × (counted.readers ≡ suc r)
        × (counted.writers ≡ 0)
        × (s.world.lock ≡ ready (suc r) 0)
    lock = while_looking env no_gil s counted i ip at

    no_close : (j : ℕ) → get_elem? s.threads j ≢ some closing
    no_close j e =
        absurd (omega (arith, count-at is_closing s.threads j closing e, counted.closes, lock.2))

    begun : (locked : Bool) (w : World) → Excludes s.world locked w → w.mmdb ≡ s.world.mmdb
    begun true w (was, is, k) = k.0
    begun false w (e, k) = k.0

    entered : (locked : Bool) (w : World) → Shares s.world locked w → w.mmdb ≡ s.world.mmdb
    entered true w (r, was, is, k) = k.0
    entered false w (e, k) = k.0

    left_open :
        (b : Bool) (w : World)
        → ((w.lock ≡ s.world.lock) × Kept s.world w) ⊎ ((s.world.lock ≡ ready 0 0) × Closed b w)
        → w.mmdb ≡ s.world.mmdb
    left_open b w (inl (e, k)) = k.0
    left_open b w (inr (was, c)) =
        let (none_looking, _) = ready_numbers (suc lock.0) 0 0 0 (sym lock.3 ∙ was) in
        absurd (omega (arith, none_looking))

    unchanged : (u : System) → Step env s u → u.world.mmdb ≡ s.world.mmdb
    unchanged u (begin_lookup j ip' locked w e q) = entered locked w (
        returned (Shares s.world) (reader_acquire_read_lock env s.world) locked w
          (acquire_read-Shares env s.world no_gil) q)
    unchanged u (end_lookup j ip' found w e q) =
        let (r, _, _, held) = while_looking env no_gil s counted j ip' e in
        (returned (λ _ v. (v.lock ≡ ready r 0) × Kept s.world v)
          (lookup_if_open env ip' s.world.mmdb s.world) found w
          (lookup_if_open-Returns env no_gil s.world ip' r held) q).1.0
    unchanged u (begin_close j locked w e q) = begun locked w (
        returned (Excludes s.world) (reader_acquire_write_lock env s.world) locked w
          (acquire_write-Excludes env s.world no_gil) q)
    unchanged u (end_close j closed w e q) = absurd (no_close j e)
    unchanged u (whole_lookup j ip' found w e q) =
        (returned (λ _ v. (v.lock ≡ s.world.lock) × Kept s.world v) (lookup_address env ip' s.world)
          found w (lookup_address-Returns env no_gil s.world ip') q).1.0
    unchanged u (whole_close j closed w e q) = left_open closed w (
        returned
          (λ b v.
            ((v.lock ≡ s.world.lock) × Kept s.world v) ⊎ ((s.world.lock ≡ ready 0 0) × Closed b v))
          (reader_close env s.world) closed w
          (reader_close-Returns env no_gil s.world counted.owned) q)
