-- ===== src/Threads/Counted.antt =====
-- The lock counts the threads in lookups and closes: extension/maxminddb.c, lines 195-305, 440-508 and
-- 662-680.
use max_mind_db_reader_pytho.Base.{
  ℕ, zero, suc, ◌+◌, ◌-◌, ◌≤◌, ◌≡◌, ◌≢◌, refl, sym, ap, ◌∙◌, ◌⊎◌, inl, inr, some, List, [], ◌∷◌,
  arith, get_elem?, set, Bool, true, false, if◌then◌else◌,
}
use max_mind_db_reader_pytho.Env.{Env, SockAddr, gil_only}
use max_mind_db_reader_pytho.Runtime.{World, ready}
use max_mind_db_reader_pytho.Lock.{reader_acquire_read_lock, reader_acquire_write_lock}
use max_mind_db_reader_pytho.Lock.Returns.{
  returned, Outcome-Returns, Kept, Shares, Excludes, acquire_read-Shares, acquire_write-Excludes,
}
use max_mind_db_reader_pytho.Reader.{close_locked, reader_close}
use max_mind_db_reader_pytho.Reader.Close.{open_blocks, Closes}
use max_mind_db_reader_pytho.Lookup.{lookup_if_open, lookup_address}
use max_mind_db_reader_pytho.Threads.Moves.{
  unheld, Closed, lookup_if_open-Returns, close_locked-Ensures, Closes-Closed,
  lookup_address-Returns, reader_close-Returns,
}
use max_mind_db_reader_pytho.Threads.{
  Phase, outside, looking, closing, System, Step, begin_lookup, end_lookup, begin_close, end_close,
  whole_lookup, whole_close, Reaches, here, then_step,
}

abbrev pub is_looking : Phase → ℕ
is_looking (looking ip) = 1
is_looking _ = 0

abbrev pub is_closing : Phase → ℕ
is_closing closing = 1
is_closing _ = 0

abbrev pub count : (Phase → ℕ) → List Phase → ℕ
count f [] = 0
count f (p ∷ ps) = f p + count f ps

pub count-set :
    (f : Phase → ℕ) (ps : List Phase) (i : ℕ) (old new : Phase)
    → get_elem? ps i ≡ some old
    → count f (set ps i new) + f old ≡ count f ps + f new
count-set f [] i old new e = absurd (ground arith)
count-set f (p ∷ ps) zero old new e = let q : p ≡ old = cc in rw q (omega arith)
count-set f (p ∷ ps) (suc i) old new e = omega (arith, count-set f ps i old new e)

pub count-at :
    (f : Phase → ℕ) (ps : List Phase) (i : ℕ) (p : Phase)
    → get_elem? ps i ≡ some p
    → f p ≤ count f ps
count-at f [] i p e = absurd (ground arith)
count-at f (q ∷ ps) zero p e = let same : q ≡ p = cc in rw same (omega arith)
count-at f (q ∷ ps) (suc i) p e = omega (arith, count-at f ps i p e)

-- The lock counts the threads inside, and lets a close be alone; an open database has its block.
pub record IsCounted (s : System) : Type 0 where
  pub readers : ℕ
  pub writers : ℕ
  pub lock : s.world.lock ≡ ready readers writers
  pub looks : count is_looking s.threads ≡ readers
  pub closes : count is_closing s.threads ≡ writers
  pub apart : (writers ≡ 0) ⊎ ((readers ≡ 0) × (writers ≡ 1))
  pub owned : open_blocks s.world.mmdb ≤ s.world.blocks

-- The two numbers of a lock.
pub ready_numbers : (r x r' x' : ℕ) → ready r x ≡ ready r' x' → (r ≡ r') × (x ≡ x')
ready_numbers r x r' x' e = (cc, cc)

-- A world with the same lock and database.
same_lock :
    (s : System) (w : World)
    → IsCounted s
    → w.lock ≡ s.world.lock
    → Kept s.world w
    → IsCounted (record { world = w; threads = s.threads })
same_lock s w c e k = record {
  readers = c.readers;
  writers = c.writers;
  lock = e ∙ c.lock;
  looks = c.looks;
  closes = c.closes;
  apart = c.apart;
  owned = rw (k.0, k.1) c.owned;
}

module _ (env : Env) (no_gil : env.strategy ≢ gil_only) (s : System) (c : IsCounted s) where
  -- A lookup inside is alone with other lookups.
  pub while_looking :
      (i : ℕ) (ip : SockAddr)
      → get_elem? s.threads i ≡ some (looking ip)
      → (r : ℕ) × (c.readers ≡ suc r) × (c.writers ≡ 0) × (s.world.lock ≡ ready (suc r) 0)
  while_looking i ip at =
      let here = count-at is_looking s.threads i (looking ip) at in
      let some_reader : c.readers ≡ suc (c.readers - 1) = omega (arith, here, c.looks) in
      let no_writer : c.writers ≡ 0 = elim c.apart [
        | inl z ↦ z
        | inr (z, o) ↦ absurd (omega (arith, here, c.looks))
      ] in
      (
        c.readers - 1,
        some_reader,
        no_writer,
        c.lock
            ∙ ap (λ n. ready n c.writers) some_reader
            ∙ ap (λ n. ready (suc (c.readers - 1)) n) no_writer,
      )

  -- A close inside is alone.
  pub while_closing :
      (i : ℕ)
      → get_elem? s.threads i ≡ some closing
      → (c.readers ≡ 0) × (c.writers ≡ 1) × (s.world.lock ≡ ready 0 1)
  while_closing i at =
      let here = count-at is_closing s.threads i closing at in
      elim c.apart [
        | inl z ↦ absurd (omega (arith, here, c.closes))
        | inr (z, o) ↦ (z, o, c.lock ∙ ap (λ n. ready n c.writers) z ∙ ap (λ n. ready 0 n) o)
      ]

  begin_lookup-IsCounted :
      (i : ℕ) (ip : SockAddr) (locked : Bool) (w : World)
      → get_elem? s.threads i ≡ some outside
      → Shares s.world locked w
      → IsCounted
          (record { world = w; threads = set s.threads i (if locked then looking ip else outside) })
  begin_lookup-IsCounted i ip true w at (r, was, is, k) =
      let (same, none_closing) = ready_numbers c.readers c.writers r 0 (sym c.lock ∙ was) in
      record {
        readers = suc r;
        writers = 0;
        lock = is;
        looks =
            omega (arith, count-set is_looking s.threads i outside (looking ip) at, c.looks, same);
        closes = omega (
          arith,
          count-set is_closing s.threads i outside (looking ip) at,
          c.closes,
          none_closing,
        );
        apart = inl refl;
        owned = rw (k.0, k.1) c.owned;
      }
  begin_lookup-IsCounted i ip false w at (e, k) = record {
    readers = c.readers;
    writers = c.writers;
    lock = e ∙ c.lock;
    looks = omega (arith, count-set is_looking s.threads i outside outside at, c.looks);
    closes = omega (arith, count-set is_closing s.threads i outside outside at, c.closes);
    apart = c.apart;
    owned = rw (k.0, k.1) c.owned;
  }

  begin_close-IsCounted :
      (i : ℕ) (locked : Bool) (w : World)
      → get_elem? s.threads i ≡ some outside
      → Excludes s.world locked w
      → IsCounted
          (record { world = w; threads = set s.threads i (if locked then closing else outside) })
  begin_close-IsCounted i true w at (was, is, k) =
      let (same, same') = ready_numbers c.readers c.writers 0 0 (sym c.lock ∙ was) in
      record {
        readers = 0;
        writers = 1;
        lock = is;
        looks = omega (arith, count-set is_looking s.threads i outside closing at, c.looks, same);
        closes =
            omega (arith, count-set is_closing s.threads i outside closing at, c.closes, same');
        apart = inr (refl, refl);
        owned = rw (k.0, k.1) c.owned;
      }
  begin_close-IsCounted i false w at (e, k) = record {
    readers = c.readers;
    writers = c.writers;
    lock = e ∙ c.lock;
    looks = omega (arith, count-set is_looking s.threads i outside outside at, c.looks);
    closes = omega (arith, count-set is_closing s.threads i outside outside at, c.closes);
    apart = c.apart;
    owned = rw (k.0, k.1) c.owned;
  }

  pub end_lookup-IsCounted :
      (i : ℕ) (ip : SockAddr) (w : World)
      → (at : get_elem? s.threads i ≡ some (looking ip))
      → (w.lock ≡ ready (while_looking i ip at).0 0) × Kept s.world w
      → IsCounted (record { world = w; threads = set s.threads i outside })
  end_lookup-IsCounted i ip w at (e, k) =
      let (r, one_more, no_writer, _) = while_looking i ip at in
      record {
        readers = r;
        writers = 0;
        lock = e;
        looks =
            omega
              (arith, count-set is_looking s.threads i (looking ip) outside at, c.looks, one_more);
        closes =
            omega (
              arith,
              count-set is_closing s.threads i (looking ip) outside at,
              c.closes,
              no_writer,
            );
        apart = inl refl;
        owned = rw (k.0, k.1) c.owned;
      }

  pub end_close-IsCounted :
      (i : ℕ) (closed : Bool) (w : World)
      → get_elem? s.threads i ≡ some closing
      → Closed closed w
      → IsCounted (record { world = w; threads = set s.threads i outside })
  end_close-IsCounted i closed w at (e, owned) =
      let (none_looking, one_closing, _) = while_closing i at in
      record {
        readers = 0;
        writers = 0;
        lock = e;
        looks =
            omega
              (arith, count-set is_looking s.threads i closing outside at, c.looks, none_looking);
        closes =
            omega
              (arith, count-set is_closing s.threads i closing outside at, c.closes, one_closing);
        apart = inl refl;
        owned = owned;
      }

  whole_close-IsCounted :
      (closed : Bool) (w : World)
      → ((w.lock ≡ s.world.lock) × Kept s.world w) ⊎ ((s.world.lock ≡ ready 0 0) × Closed closed w)
      → IsCounted (record { world = w; threads = s.threads })
  whole_close-IsCounted closed w (inl (e, k)) = same_lock s w c e k
  whole_close-IsCounted closed w (inr (was, (e, owned))) = record {
    readers = c.readers;
    writers = c.writers;
    lock = e ∙ sym was ∙ c.lock;
    looks = c.looks;
    closes = c.closes;
    apart = c.apart;
    owned = owned;
  }

  pub Step-IsCounted : (t : System) → Step env s t → IsCounted t
  Step-IsCounted t (begin_lookup i ip locked w at e) = begin_lookup-IsCounted i ip locked w at (
      returned (Shares s.world) (reader_acquire_read_lock env s.world) locked w
        (acquire_read-Shares env s.world no_gil) e)
  Step-IsCounted t (end_lookup i ip found w at e) =
      let (r, one_more, no_writer, lock) = while_looking i ip at in
      end_lookup-IsCounted i ip w at (
        returned (λ _ u. (u.lock ≡ ready r 0) × Kept s.world u)
          (lookup_if_open env ip s.world.mmdb s.world) found w
          (lookup_if_open-Returns env no_gil s.world ip r lock) e)
  Step-IsCounted t (begin_close i locked w at e) = begin_close-IsCounted i locked w at (
      returned (Excludes s.world) (reader_acquire_write_lock env s.world) locked w
        (acquire_write-Excludes env s.world no_gil) e)
  Step-IsCounted t (end_close i closed w at e) = end_close-IsCounted i closed w at (
      returned Closed (close_locked env s.world.mmdb s.world) closed w
        (Outcome-Returns (Closes (unheld 0 s.world)) Closed
          (close_locked-Ensures env no_gil s.world (while_closing i at).2 c.owned)
          (Closes-Closed s.world c.owned))
        e)
  Step-IsCounted t (whole_lookup i ip found w at e) =
      let (l, k) =
        returned (λ _ u. (u.lock ≡ s.world.lock) × Kept s.world u) (lookup_address env ip s.world)
          found w (lookup_address-Returns env no_gil s.world ip) e in
      same_lock s w c l k
  Step-IsCounted t (whole_close i closed w at e) = whole_close-IsCounted closed w (
      returned
        (λ b u.
          ((u.lock ≡ s.world.lock) × Kept s.world u) ⊎ ((s.world.lock ≡ ready 0 0) × Closed b u))
        (reader_close env s.world) closed w (reader_close-Returns env no_gil s.world c.owned) e)

pub Reaches-IsCounted :
    (env : Env) (no_gil : env.strategy ≢ gil_only) (s t : System)
    → IsCounted s
    → Reaches env s t
    → IsCounted t
Reaches-IsCounted env no_gil s t c here = c
Reaches-IsCounted env no_gil s t c (then_step {t = u} path next) =
    Step-IsCounted env no_gil u (Reaches-IsCounted env no_gil s u c path) t next

-- A lock that nobody holds, threads that are all outside, and an open database that has its block.
pub record IsInitial (s : System) : Type 0 where
  pub lock : s.world.lock ≡ ready 0 0
  pub looks : count is_looking s.threads ≡ 0
  pub closes : count is_closing s.threads ≡ 0
  pub owned : open_blocks s.world.mmdb ≤ s.world.blocks

pub IsInitial-IsCounted : (s : System) → IsInitial s → IsCounted s
IsInitial-IsCounted s initial = record {
  readers = 0;
  writers = 0;
  lock = initial.lock;
  looks = initial.looks;
  closes = initial.closes;
  apart = inl refl;
  owned = initial.owned;
}
