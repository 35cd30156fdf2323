-- ===== src/Closed.antt =====
-- A reader that has been closed: the tests of `closed` and `mmdb` in extension/maxminddb.c, lines
-- 446-452, 618-630, 682-700, 725-732 and 775-785.
use max_mind_db_reader_pytho.Base.{
  ℕ, String, some, [], arith, ◌==◌, if◌then◌else◌, Bool-cases, ◌≡◌, ◌≢◌, refl, ap, inl, inr, true,
  false, Option, none, List,
}
use max_mind_db_reader_pytho.Env.{Env, SockAddr, Mmdb}
use max_mind_db_reader_pytho.Runtime.{
  World, Cmd, RwLock, Exn, ExnKind, py_true, ok, pure, raise, and_then, ◌>>◌,
}
use max_mind_db_reader_pytho.Runtime.Outcome.{Ensures, returns, Owns}
use max_mind_db_reader_pytho.Lock.Read.{Held, IsReady, acquire_read_lem, release_inside}
use max_mind_db_reader_pytho.Lock.{reader_release_read_lock}
use max_mind_db_reader_pytho.Reader.{get_state, reader_enter, is_py_true}
use max_mind_db_reader_pytho.Reader.State.{get_state_cases}
use max_mind_db_reader_pytho.Lookup.{lookup_address, lookup_if_open}
use max_mind_db_reader_pytho.Metadata.{reader_metadata, metadata_if_open}
use max_mind_db_reader_pytho.Iter.{Node, reader_iter, reader_iter_next}

-- The call returns NULL with an exception, and everything else is as before.
abbrev pub Refuses : {A : Type 0} → A → World → A → World → Type 0
Refuses null w a u = (a ≡ null) × Owns w u w.blocks w.refs w.lists × (u.error ≢ none)

module _ (env : Env) (w : World) (ready : IsReady env.strategy w.lock) where
  -- The return that finds the reader closed, with the lock held, and the ones before it.
  shut_lem :
      {A : Type 0} (null : A) (kind : ExnKind) (format : String) (l : RwLock) (t : ℕ)
      → Held env.strategy w.lock l
      → Ensures (Refuses null w) (
          and_then
            (reader_release_read_lock env (record w { lock = l; time = t }))
            (λ _. (do raise kind format []; pure null)))
  shut_lem null kind format l t held =
      rw (release_inside env (record w { lock = l; time = t }) held refl)
        (returns (refl, ground arith, λ e. cc))

  early :
      {A : Type 0} (null : A) (x : Exn) (t : ℕ)
      → Ensures (Refuses null w) (ok null (record w { error = some x; time = t }))
  early null x t = returns (refl, ground arith, λ e. cc)

  -- The calls that get the module's state first.
  after_state :
      {A : Type 0} (null : A) (body : Cmd A)
      → Ensures (Refuses null w) (body w)
      → Ensures
          (Refuses null w)
          (and_then (get_state env w) (λ known. if known then body else pure null))
  after_state null body h = elim (get_state_cases env w) [
    | inr (x, lost, why) ↦ rw lost (early null x w.time)
    | inl known ↦ rw known h
  ]

  enter_closed : w.closed ≡ py_true → Ensures (Refuses false w) (reader_enter env w)
  unfolding reader_enter is_py_true
  enter_closed shut =
      acquire_read_lem env w _ ready
        (λ l t held.
          let closed : is_py_true w.closed ≡ true = ap is_py_true shut in
          rw closed (shut_lem false _ _ l t held))
        (λ e t n. early false e t)

  iter_closed : w.closed ≡ py_true → Ensures (Refuses none w) (reader_iter env w)
  unfolding reader_iter is_py_true
  iter_closed shut = after_state none _ (
      acquire_read_lem env w _ ready
        (λ l t held.
          let closed : is_py_true w.closed ≡ true = ap is_py_true shut in
          rw closed (shut_lem none _ _ l t held))
        (λ e t n. early none e t))

  next_closed :
      w.closed ≡ py_true
      → (fuel : ℕ) (chain : List Node)
      → Ensures (Refuses (none, chain) w) (reader_iter_next env fuel chain w)
  unfolding reader_iter_next is_py_true
  next_closed shut fuel chain =
      after_state (none, chain) _
        (acquire_read_lem env w _ ready
          (λ l t held.
            let closed : is_py_true w.closed ≡ true = ap is_py_true shut in
            rw closed (shut_lem (none, chain) _ _ l t held))
          (λ e t n. early (none, chain) e t))

  lookup_closed :
      w.mmdb ≡ none → (ip : SockAddr) → Ensures (Refuses none w) (lookup_address env ip w)
  unfolding lookup_address lookup_if_open
  lookup_closed gone ip = elim (Bool-cases (ip.family == 0)) [
    | inl unset ↦ rw unset (early none _ w.time)
    | inr set ↦ rw set (
        acquire_read_lem env w _ ready (λ l t held. no_lookup l t held w.mmdb gone)
          (λ e t n. early none e t))
  ]
    where
      no_lookup :
          (l : RwLock) (t : ℕ)
          → Held env.strategy w.lock l
          → (m : Option Mmdb) → m ≡ none
          → Ensures (Refuses none w) (lookup_if_open env ip m (record w { lock = l; time = t }))
      no_lookup l t held m e = rw e (shut_lem none _ _ l t held)

  metadata_closed : w.mmdb ≡ none → Ensures (Refuses none w) (reader_metadata env w)
  unfolding reader_metadata metadata_if_open
  metadata_closed gone = after_state none _ (
      acquire_read_lem env w _ ready (λ l t held. no_metadata l t held w.mmdb gone)
        (λ e t n. early none e t))
    where
      no_metadata :
          (l : RwLock) (t : ℕ)
          → Held env.strategy w.lock l
          → (m : Option Mmdb) → m ≡ none
          → Ensures (Refuses none w) (metadata_if_open env m (record w { lock = l; time = t }))
      no_metadata l t held m e = rw e (shut_lem none _ _ l t held)

  -- On a closed reader with a lock that can be entered, entering its context, a lookup, the
  -- metadata, a new iterator and the next item of an old one each return NULL with an exception
  -- and meet no fault; the reader, its lock, the chain of the iterator and what is owned are as
  -- before.
  pub closed-Refuses :
      w.closed ≡ py_true
      → w.mmdb ≡ none
      → (ip : SockAddr) (fuel : ℕ) (chain : List Node)
      → Ensures (Refuses false w) (reader_enter env w)
        × Ensures (Refuses none w) (lookup_address env ip w)
        × Ensures (Refuses none w) (reader_metadata env w)
        × Ensures (Refuses none w) (reader_iter env w)
        × Ensures (Refuses (none, chain) w) (reader_iter_next env fuel chain w)
  closed-Refuses shut gone ip fuel chain = (
    enter_closed shut,
    lookup_closed gone ip,
    metadata_closed gone,
    iter_closed shut,
    next_closed shut fuel chain,
  )
