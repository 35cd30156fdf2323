-- ===== src/Threads/Progress.antt =====
-- Threads that are inside a lookup or a close can always finish, and a close comes to its turn:
-- extension/maxminddb.c, lines 195-305, 440-508 and 662-680.
use max_mind_db_reader_pytho.Base.{
  ℕ, zero, suc, ◌+◌, ◌<◌, ◌≡◌, ◌≢◌, refl, ap, ◌∙◌, ◌⊎◌, inl, inr, Option, none, some, List, [], ◌∷◌,
  arith, get_elem?,
}
use max_mind_db_reader_pytho.Env.{Env, SockAddr, Mmdb, gil_only}
use max_mind_db_reader_pytho.Runtime.{World, Run, ready, ok}
use max_mind_db_reader_pytho.Runtime.Outcome.{Ensures, given, gave}
use max_mind_db_reader_pytho.Lock.Read.{release_inside}
use max_mind_db_reader_pytho.Entry.Layout.{LaysOut}
use max_mind_db_reader_pytho.Reader.{reader_close}
use max_mind_db_reader_pytho.Reader.Close.{Closes, reader_close-Closes}
use max_mind_db_reader_pytho.Lookup.{lookup_if_open}
use max_mind_db_reader_pytho.Lookup.Answer.{open_Answer}
use max_mind_db_reader_pytho.Threads.Moves.{
  unheld, Inside-unheld, IsFree-ready, close_locked-Ensures,
}
use max_mind_db_reader_pytho.Threads.Counted.{
  IsCounted, IsInitial, IsInitial-IsCounted, Step-IsCounted, Reaches-IsCounted, count, count-set,
  is_looking, is_closing, while_looking, while_closing,
}
use max_mind_db_reader_pytho.Threads.{
  Phase, outside, looking, closing, System, Step, end_lookup, end_close, Reaches,
}

-- How many threads are inside.
abbrev pub inside : List Phase → ℕ
inside ps = count is_looking ps + count is_closing ps

-- A run of that many steps.
pub data Runs (env : Env) : ℕ → System → System → Type 0 where
  stop : {s : System} → Runs env 0 s s
  next : {n : ℕ} {s t u : System} → Step env s t → Runs env n t u → Runs env (suc n) s u

find_inside :
    (ps : List Phase)
    → 0 < inside ps
    → (i : ℕ) × (((ip : SockAddr) × (get_elem? ps i ≡ some (looking ip)))
        ⊎ (get_elem? ps i ≡ some closing))
find_inside [] h = absurd (omega arith)
find_inside (looking ip ∷ ps) h = (0, inl (ip, refl))
find_inside (closing ∷ ps) h = (0, inr refl)
find_inside (outside ∷ ps) h = let (i, at) = find_inside ps (omega (arith, h)) in (suc i, at)

-- That the run returns.
abbrev Ok {ℓ} : {A : Type ℓ} → Run A → Type ℓ
Ok {A = A} r = (a : A) × (w : World) × (r ≡ ok a w)

Ensures-Ok {ℓ} : {A : Type ℓ} {P : A → World → Type 0} {r : Run A} → Ensures P r → Ok r
Ensures-Ok h = elim (given h) [ gave a w e p ↦ (a, w, e) ]

module _ (env : Env) (no_gil : env.strategy ≢ gil_only) (lays : LaysOut env) where
  -- A lookup that holds the lock returns, with a database and without.
  lookup_if_open-Ok :
      (ip : SockAddr) (w : World) (r : ℕ) (m : Option Mmdb)
      → w.lock ≡ ready (suc r) 0
      → Ok (lookup_if_open env ip m w)
  unfolding lookup_if_open
  lookup_if_open-Ok ip w r none e =
      rw (release_inside env w (Inside-unheld env no_gil w r e).held refl) (_, _, refl)
  lookup_if_open-Ok ip w r (some mmdb) e = Ensures-Ok (
      open_Answer env mmdb ip lays (unheld r w) w (Inside-unheld env no_gil w r e) refl (some mmdb)
        refl)

  -- A thread that is inside can finish its call, and then one less is inside.
  leaves :
      (s : System)
      → IsCounted s
      → 0 < inside s.threads
      → (t : System) × Step env s t × (inside t.threads + 1 ≡ inside s.threads)
  leaves s c h =
      let (i, found) = find_inside s.threads h in
      elim found [
        | inl (ip, at) ↦
            let (r, _, _, held) = while_looking env no_gil s c i ip at in
            let (answer, w, e) = lookup_if_open-Ok ip s.world r s.world.mmdb held in
            (
              _,
              end_lookup i ip answer w at e,
              omega (
                arith,
                count-set is_looking s.threads i (looking ip) outside at,
                count-set is_closing s.threads i (looking ip) outside at,
              ),
            )
        | inr at ↦
            let (_, _, held) = while_closing env no_gil s c i at in
            let (closed, w, e) =
              Ensures-Ok (close_locked-Ensures env no_gil s.world held c.owned) in
            (
              _,
              end_close i closed w at e,
              omega (
                arith,
                count-set is_looking s.threads i closing outside at,
                count-set is_closing s.threads i closing outside at,
              ),
            )
      ]

  -- All of the threads that are inside leave, one after the other.
  drains :
      (n : ℕ) (s : System)
      → IsCounted s
      → inside s.threads ≡ n
      → (t : System) × Runs env n s t × IsCounted t × (inside t.threads ≡ 0)
  drains zero s c e = (s, stop, c, e)
  drains (suc n) s c e =
      let (t, step, one_less) = leaves s c (omega (arith, e)) in
      let (u, run, counted, empty) =
        drains n t (Step-IsCounted env no_gil s c t step) (omega (arith, e, one_less)) in
      (u, next step run, counted, empty)

-- Without the GIL, over a library that lays its values out, from a lock that nobody holds, threads
-- that are all outside and a reader whose open database owns its block, there is no deadlock: in
-- every reachable state, the lookups and closes that hold the lock can run to their ends, in as
-- many steps as there are such threads; then nobody holds the lock, and a call of Reader_close
-- returns at once, with the database closed, or with an exception where the lock is refused.
pub close-Proceeds :
    (env : Env) (start s : System)
    → env.strategy ≢ gil_only
    → LaysOut env
    → IsInitial start
    → Reaches env start s
    → (t : System) × Runs env (inside s.threads) s t
      × (t.world.lock ≡ ready 0 0)
      × Ensures (Closes t.world) (reader_close env t.world)
close-Proceeds env start s no_gil lays initial path =
    let (t, run, c, empty) =
      drains env no_gil lays (inside s.threads) s
        (Reaches-IsCounted env no_gil start s (IsInitial-IsCounted start initial) path) refl in
    let free : t.world.lock ≡ ready 0 0 =
      c.lock
      ∙ ap (λ n. ready n c.writers) (omega (arith, c.looks, empty))
      ∙ ap (λ n. ready 0 n) (omega (arith, c.closes, empty)) in
    (
      t,
      run,
      free,
      reader_close-Closes env t.world (IsFree-ready env.strategy t.world.lock free) c.owned,
    )
