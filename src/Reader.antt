-- ===== src/Reader.antt =====
-- The Reader object of extension/maxminddb.c: `Reader_init`, `Reader_close`, `Reader__enter__`,
-- `Reader__exit__`, `Reader_dealloc` and `can_read`, lines 121-128, 311-391, 662-716 and 1173-1181.
pub mod State
pub mod Close
pub mod Init
pub mod Dealloc
use max_mind_db_reader_pytho.Base.{
  ℤ, pos, negsuc, zero, suc, String, Bool, true, false, Option, none, some, [], ◌∷◌, ◌==◌,
  if◌then◌else◌,
}
use max_mind_db_reader_pytho.Env.{Env, Mmdb, mmdb_success}
use max_mind_db_reader_pytho.Runtime.{
  Closed, null, py_false, py_true, Cmd, ok, pure, ◌>>=◌, ◌>>◌, get_world, raise, no_memory, free,
  new_ref, decref, malloc, value_error, os_error, invalid_database_error, by_callee, text, number,
}
use max_mind_db_reader_pytho.Lock.{
  reader_lock_init, reader_lock_destroy, reader_acquire_read_lock, reader_release_read_lock,
  reader_acquire_write_lock, reader_release_write_lock,
}

abbrev set_mmdb : Option Mmdb → Cmd (Unit {0})
set_mmdb m w = ok tt (record w { mmdb = m })

abbrev set_closed : Closed → Cmd (Unit {0})
set_closed c w = ok tt (record w { closed = c })

unfoldable pub is_py_true : Closed → Bool
is_py_true py_true = true
is_py_true py_false = false
is_py_true null = false

-- `mode != 0 && mode != 1` is the refusal.
unfoldable pub is_supported : ℤ → Bool
is_supported (pos zero) = true
is_supported (pos (suc zero)) = true
is_supported (pos (suc (suc n))) = false
is_supported (negsuc n) = false

module _ (env : Env) where
  -- `get_maxminddb_state_from_self`, with `false` for NULL.
  unfoldable pub get_state : Cmd Bool
  get_state =
      if env.has_module then pure true else (do raise by_callee "PyType_GetModule" []; pure false)

  pub can_read : String → Bool
  can_read path = elim (env.access path) [ pos n ↦ n == 0 | negsuc n ↦ false ]

  -- From `MMDB_open` on: the lock is ready, and `mmdb` and `filepath` are owned.
  open_database : String → Cmd Bool
  open_database filename =
      let (status, mmdb) = env.mmdb_open filename in
      if status == mmdb_success
      then (do decref; set_mmdb (some mmdb); set_closed py_false; pure true)
      else do
        reader_lock_destroy env
        free
        raise invalid_database_error
            "Error opening database file (%s). Is this a valid MaxMind DB file?"
            (text filename ∷ [])
        decref
        pure false

  -- From the allocation of the `MMDB_s` on.
  allocate_database : String → Cmd Bool
  unfolding malloc open_database
  allocate_database filename = do
    mmdb ← malloc env
    if mmdb
        then (do
          locked ← reader_lock_init env
          if locked then open_database filename else (do free; decref; pure false))
        else do decref; no_memory; pure false

  -- `Reader_init`, with the arguments as they parse (`none`: they do not), and `true` for 0.
  unfoldable pub reader_init : Option (String × ℤ) → Cmd Bool
  unfolding get_state is_supported can_read allocate_database
  reader_init parsed = do
    state ← get_state
    if state
        then elim parsed [
          | none ↦ (do raise by_callee "PyArg_ParseTupleAndKeywords" []; pure false)
          | some (filename, mode) ↦ do
            new_ref
            if is_supported mode
                then (if can_read filename
                    then allocate_database filename
                    else do raise os_error "" (text filename ∷ []); decref; pure false)
                else do
                  decref
                  raise value_error
                      "Unsupported open mode (%i). Only MODE_AUTO and MODE_MMAP_EXT are supported by this extension."
                      (number mode ∷ [])
                  pure false
        ]
        else pure false

  -- `MMDB_close` and `free`, if the pointer is not NULL. What `MMDB_close` gives back is the library's
  -- own: it returns nothing and changes no state of the extension.
  unfoldable pub close_database : Option Mmdb → Cmd (Unit {0})
  close_database none = pure tt
  close_database (some mmdb) = do free; set_mmdb none

  -- From the test of the pointer to the release, with the write lock held.
  unfoldable pub close_locked : Option Mmdb → Cmd Bool
  unfolding close_database
  close_locked mmdb = do
    close_database mmdb
    set_closed py_true
    reader_release_write_lock env
    pure true

  -- `true` for the `None` that it returns, `false` for NULL.
  unfoldable pub reader_close : Cmd Bool
  unfolding close_locked
  reader_close = do
    locked ← reader_acquire_write_lock env
    if locked then (do w ← get_world; close_locked w.mmdb) else pure false

  -- `true` for the reader itself, with a new reference.
  unfoldable pub reader_enter : Cmd Bool
  unfolding is_py_true
  reader_enter = do
    locked ← reader_acquire_read_lock env
    if locked
        then (do
          w ← get_world
          if is_py_true w.closed
              then (do
                reader_release_read_lock env
                raise value_error "Attempt to reopen a closed MaxMind DB." []
                pure false)
              else do reader_release_read_lock env; new_ref; pure true)
        else pure false

  -- The result of `Reader_close` is not looked at.
  unfoldable pub reader_exit : Cmd Bool
  reader_exit = do closed ← reader_close; pure true

  dealloc_database : Option Mmdb → Cmd (Unit {0})
  dealloc_database none = pure tt
  dealloc_database (some mmdb) = do closed ← reader_close; pure tt

  unfoldable pub reader_dealloc : Cmd (Unit {0})
  unfolding dealloc_database
  reader_dealloc = do w ← get_world; dealloc_database w.mmdb; reader_lock_destroy env
