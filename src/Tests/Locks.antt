-- ===== src/Tests/Locks.antt =====
-- Three threads on one reader of extension/maxminddb.c: two look addresses up.
use max_mind_db_reader_pytho.Base.{ℕ, ◌≡◌, ◌≢◌, refl, true, some, [], ◌∷◌, get_elem?, arith}
use max_mind_db_reader_pytho.Env.{gil_only}
use max_mind_db_reader_pytho.Runtime.{World, ready}
use max_mind_db_reader_pytho.Runtime.Outcome.{Ensures}
use max_mind_db_reader_pytho.Lock.{reader_acquire_read_lock}
use max_mind_db_reader_pytho.Reader.{reader_close}
use max_mind_db_reader_pytho.Reader.Close.{Closes}
use max_mind_db_reader_pytho.Threads.{
  System, outside, looking, closing, Step, begin_lookup, here, then_step,
}
use max_mind_db_reader_pytho.Threads.Counted.{IsInitial}
use max_mind_db_reader_pytho.Threads.Safety.{reads-undisturbed}
use max_mind_db_reader_pytho.Threads.Progress.{Runs, close-Proceeds}
use max_mind_db_reader_pytho.Tests.Data.{demo, open_reader, address, city}

-- The reader after as many calls of the lock.
abbrev entered : ℕ → World
entered n = record open_reader { lock = ready n 0; time = n }

abbrev none_inside : System
none_inside = record { world = open_reader; threads = outside ∷ outside ∷ outside ∷ [] }

abbrev one_inside : System
one_inside = record { world = entered 1; threads = looking address ∷ outside ∷ outside ∷ [] }

abbrev two_inside : System
two_inside = record {
  world = entered 2;
  threads = looking address ∷ looking address ∷ outside ∷ [];
}

first_begins : Step demo none_inside one_inside
unfolding reader_acquire_read_lock
first_begins = begin_lookup 0 address true (entered 1) refl refl

second_begins : Step demo one_inside two_inside
unfolding reader_acquire_read_lock
second_begins = begin_lookup 1 address true (entered 2) refl refl

none_inside-IsInitial : IsInitial none_inside
none_inside-IsInitial = record { lock = refl; looks = refl; closes = refl; owned = omega arith }

demo-no_gil : demo.strategy ≢ gil_only
demo-no_gil e = ground arith

undisturbed_example :
    ((j : ℕ) → get_elem? one_inside.threads j ≢ some closing)
    × (two_inside.world.mmdb ≡ one_inside.world.mmdb)
undisturbed_example =
    reads-undisturbed demo none_inside one_inside two_inside 0 address demo-no_gil
      none_inside-IsInitial (then_step here first_begins) refl second_begins

proceeds_example :
    (t : System) × Runs demo 2 two_inside t
    × (t.world.lock ≡ ready 0 0)
    × Ensures (Closes t.world) (reader_close demo t.world)
proceeds_example =
    close-Proceeds demo none_inside two_inside demo-no_gil (λ e h. (city, refl))
      none_inside-IsInitial (then_step (then_step here first_begins) second_begins)
