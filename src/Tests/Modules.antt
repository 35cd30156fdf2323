-- ===== src/Tests/Modules.antt =====
-- The module object of extension/maxminddb.c: executed, cleared, and declared for a platform; a close
-- that waits for two calls.
use max_mind_db_reader_pytho.Base.{ℕ, ◌+◌, ◌<◌, ◌≡◌, refl, pos, ℤ, true, false, some, arith, []}
use max_mind_db_reader_pytho.Env.{Env, pthread_locks}
use max_mind_db_reader_pytho.Runtime.{ready}
use max_mind_db_reader_pytho.Runtime.Outcome.{Outcome}
use max_mind_db_reader_pytho.Lock.{reader_acquire_write_lock, reader_acquire_read_lock}
use max_mind_db_reader_pytho.Lock.Exclusion.{Withheld}
use max_mind_db_reader_pytho.Metadata.{metadata_call}
use max_mind_db_reader_pytho.Metadata.Keywords.{Fails}
use max_mind_db_reader_pytho.Extension.{
  State, null_state, Loader, World, Pointer, maxminddb_exec, maxminddb_clear, maxminddb_free,
}
use max_mind_db_reader_pytho.Extension.Exec.{
  new_module, Ends, Loads, IsLost, in_names, in_slot, in_state, maxminddb_exec-Loads,
}
use max_mind_db_reader_pytho.Extension.Clear.{
  Empties, visited, occurrences, maxminddb_clear-visited, maxminddb_exec-maxminddb_clear,
}
use max_mind_db_reader_pytho.Extension.Members.{Shows, metadata_call-Shows}
use max_mind_db_reader_pytho.Extension.Slots.{Platform, lock_strategy, py_init_extension}
use max_mind_db_reader_pytho.Extension.Slots.Gil.{py_init_extension-Withheld}
use max_mind_db_reader_pytho.Tests.Data.{demo, open_reader}
use max_mind_db_reader_pytho.Tests.Objects.{nine_fields}

-- Everything is found, at one address for each type, module and attribute.
abbrev finds_all : Loader
finds_all = record {
  type_from_spec = λ spec. some 1;
  import_module = λ name. some 2;
  get_attr = λ m name. some 3;
  add_object = λ name. true;
}

-- The first name cannot be set.
abbrev refuses_names : Loader
refuses_names = record {
  type_from_spec = λ spec. some 1;
  import_module = λ name. some 2;
  get_attr = λ m name. some 3;
  add_object = λ name. false;
}

abbrev no_refs : ℕ → ℕ
no_refs q = 0

exec_example :
    Ends (Loads finds_all no_refs false) (maxminddb_exec finds_all (new_module no_refs false))
exec_example = maxminddb_exec-Loads finds_all no_refs false

exec_clear_example :
    (x : ℤ) × (v : World) × (maxminddb_exec refuses_names (new_module no_refs false) ≡ some (x, v))
    × (lost : Pointer) × IsLost refuses_names lost
    × (u : World) × (maxminddb_clear v ≡ some (pos 0, u))
    × (u.state ≡ null_state)
    × ((q : ℕ) → u.refs q ≡ no_refs q + in_names u.names q + in_slot lost q)
exec_clear_example = maxminddb_exec-maxminddb_clear refuses_names no_refs false

-- A module with two of its slots filled, and the references of its state only.
abbrev half_loaded : State
half_loaded = record null_state { reader_type = some 1; metadata_type = some 1 }

abbrev half_loaded_module : World
half_loaded_module = record {
  state = half_loaded;
  names = [];
  refs = in_state half_loaded;
  error = true;
}

clear_example :
    (u : World) × (maxminddb_clear half_loaded_module ≡ some (pos 0, u))
    × Empties half_loaded_module no_refs u
    × ((q : ℕ) → in_state half_loaded q ≡ u.refs q + occurrences (visited half_loaded) q)
    × (maxminddb_free u ≡ some (tt, u))
clear_example = maxminddb_clear-visited half_loaded_module no_refs (λ q. omega arith)

members_example :
    Outcome (Fails nine_fields) (Shows nine_fields) (metadata_call demo [] nine_fields open_reader)
members_example = metadata_call-Shows demo nine_fields open_reader

-- Free-threaded Python on Linux.
abbrev free_threaded : Platform
free_threaded = record { py_gil_disabled = true; win32 = false; pthread = true; python_3_12 = true }

abbrev with_pthread : Env
with_pthread = record demo { strategy = pthread_locks }

gil_example :
    (0 < 1 + 0
      → Withheld (reader_acquire_write_lock with_pthread (record open_reader { lock = ready 1 0 })))
    × (0 < 0
        → Withheld
            (reader_acquire_read_lock with_pthread (record open_reader { lock = ready 1 0 })))
unfolding lock_strategy py_init_extension
gil_example =
    py_init_extension-Withheld free_threaded with_pthread (record open_reader { lock = ready 1 0 })
      1 0 refl refl refl
