-- ===== src/Lookup.antt =====
-- `Reader_get`, `Reader_get_with_prefix_len` and `get_record` of extension/maxminddb.c, lines
-- 393-508.
pub mod Resources
pub mod Answer
pub mod Get
use max_mind_db_reader_pytho.Base.{
  ℕ, suc, ◌-◌, String, Option, none, some, [], ◌∷◌, leb, ◌==◌, ◌&&◌, if◌then◌else◌, length,
}
use max_mind_db_reader_pytho.Env.{
  Env, SockAddr, af_inet, Mmdb, Entry, mmdb_success, ipv6_lookup_in_ipv4,
}
use max_mind_db_reader_pytho.Runtime.{
  Cmd, ExnKind, pure, ◌>>=◌, ◌>>◌, get_world, raise, free_entry_data_list, own_list, decref,
  new_ref, new_object, value_error, invalid_database_error, by_callee, text,
}
use max_mind_db_reader_pytho.Value.{Value}
use max_mind_db_reader_pytho.Lock.{reader_acquire_read_lock, reader_release_read_lock}
use max_mind_db_reader_pytho.Entry.{from_entry_data_list}
use max_mind_db_reader_pytho.Address.{Object, ip_converter, format_sockaddr}
use max_mind_db_reader_pytho.Reader.{get_state}

-- The record, `none` for `None`, and the prefix length; `none` for a C result of -1.
abbrev pub Found : Type 0
Found = Option (Option Value × ℕ)

-- The prefix length for the address that was asked for, from the netmask in the tree.
unfoldable pub prefix_length : (family ip_version netmask : ℕ) → ℕ
prefix_length family ip_version netmask =
    if family == af_inet && ip_version == 6
    then (if leb 96 netmask then netmask - 96 else 0)
    else netmask

-- The exception class of a failed lookup.
lookup_exception : ℕ → ExnKind
lookup_exception mmdb_error =
    if mmdb_error == ipv6_lookup_in_ipv4 then value_error else invalid_database_error

module _ (env : Env) where
  -- `if (format_sockaddr(...)) PyErr_Format(...)`
  pub report : SockAddr → ExnKind → String → ℕ → Cmd (Unit {0})
  report ip kind format status = do
    ipstr ← format_sockaddr env ip
    elim ipstr [
      | none ↦ pure tt
      | some s ↦ raise kind format (text s ∷ text (env.mmdb_strerror status) ∷ [])
    ]

  -- The record at an entry, with the read lock held.
  read_entry : SockAddr → Entry → ℕ → Cmd Found
  unfolding report
  read_entry ip entry prefix_len = do
    let (status, entry_data_list) = env.mmdb_get_entry_data_list entry
    own_list entry_data_list
    if status == mmdb_success
        then (do
          (value, left) ← from_entry_data_list env (suc (length entry_data_list)) entry_data_list
          free_entry_data_list entry_data_list
          reader_release_read_lock env
          elim value [ none ↦ pure none | some v ↦ pure (some (some v, prefix_len)) ])
        else do
          reader_release_read_lock env
          report ip invalid_database_error "Error while looking up data for %s. %s" status
          free_entry_data_list entry_data_list
          pure none

  -- The lookup in an open database, with the read lock held.
  lookup : SockAddr → Mmdb → Cmd Found
  unfolding read_entry prefix_length lookup_exception
  lookup ip mmdb = do
    let (mmdb_error, result) = env.mmdb_lookup_sockaddr mmdb ip
    if mmdb_error == mmdb_success
        then (let prefix_len = prefix_length ip.family mmdb.ip_version result.netmask in
            if result.found_entry
            then read_entry ip result.entry prefix_len
            else do reader_release_read_lock env; new_ref; pure (some (none, prefix_len)))
        else do
          reader_release_read_lock env
          report ip (lookup_exception mmdb_error) "Error looking up %s. %s" mmdb_error
          pure none

  unfoldable pub lookup_if_open : SockAddr → Option Mmdb → Cmd Found
  unfolding lookup
  lookup_if_open ip none = do
    reader_release_read_lock env
    raise value_error "Attempt to read from a closed MaxMind DB." []
    pure none
  lookup_if_open ip (some mmdb) = lookup ip mmdb

  unfoldable pub lookup_address : SockAddr → Cmd Found
  unfolding lookup_if_open
  lookup_address ip =
      if ip.family == 0 then (do raise value_error "Error parsing argument" []; pure none) else do
        locked ← reader_acquire_read_lock env
        if locked then (do w ← get_world; lookup_if_open ip w.mmdb) else pure none

  -- The arguments are one object, or `none` where `PyArg_ParseTuple` finds another number of them.
  unfoldable pub get_record : Option Object → Cmd Found
  unfolding get_state lookup_address
  get_record parsed = do
    state ← get_state env
    if state
        then elim parsed [
          | none ↦ (do raise by_callee "PyArg_ParseTuple" []; pure none)
          | some obj ↦ do
            ip_address ← ip_converter env obj
            elim ip_address [ none ↦ pure none | some ip ↦ lookup_address ip ]
        ]
        else pure none

  -- `Reader_get`: the record, with `some none` for `None` and `none` for NULL.
  unfoldable pub reader_get : Option Object → Cmd (Option (Option Value))
  reader_get parsed = do
    found ← get_record parsed
    elim found [ none ↦ pure none | some (value, prefix_len) ↦ pure (some value) ]

  -- `Py_BuildValue("(Oi)", ...)` takes a reference of its own, so the tuple is all that stays.
  unfoldable pub reader_get_with_prefix_len : Option Object → Cmd Found
  unfolding new_object
  reader_get_with_prefix_len parsed = do
    found ← get_record parsed
    elim found [
      | none ↦ pure none
      | some r ↦ do tuple ← new_object env; decref; pure (if tuple then some r else none)
    ]
