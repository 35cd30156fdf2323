-- ===== src/Metadata.antt =====
-- The Metadata object of extension/maxminddb.c: `Metadata_init`, `Metadata_dealloc` and
-- `Reader_metadata`, lines 88-99, 607-660 and 956-1026.
pub mod Keywords
pub mod Answer
use max_mind_db_reader_pytho.Base.{
  ℕ, suc, String, Bool, true, false, Option, none, some, List, [], ◌∷◌, map, ◌==◌, ◌&&◌, ltb,
  if◌then◌else◌, length, drop,
}
use max_mind_db_reader_pytho.Env.{Env, EntryDataList, Mmdb, mmdb_success}
use max_mind_db_reader_pytho.Runtime.{
  Cmd, pure, crash, ◌>>=◌, ◌>>◌, get_world, raise, free_entry_data_list, own_list, decref, new_ref,
  new_object, os_error, invalid_database_error, by_callee, text, null_pointer, uninitialised,
}
use max_mind_db_reader_pytho.Value.{Value, Fields, dict, end, field, same_key}
use max_mind_db_reader_pytho.Lock.{reader_acquire_read_lock, reader_release_read_lock}
use max_mind_db_reader_pytho.Entry.{from_entry_data_list}
use max_mind_db_reader_pytho.Reader.{get_state}
use Prim.Native.Char.{code}

-- A `PyObject *` of the struct or a local variable: NULL, or not yet assigned, is `none`.
abbrev pub Slot : Type 0
Slot = Option Value

pub record Metadata : Type 0 where
  pub binary_format_major_version : Slot
  pub binary_format_minor_version : Slot
  pub build_epoch : Slot
  pub database_type : Slot
  pub description : Slot
  pub ip_version : Slot
  pub languages : Slot
  pub node_count : Slot
  pub record_size : Slot

-- The object as it is allocated.
abbrev pub blank : Metadata
blank = record {
  binary_format_major_version = none;
  binary_format_minor_version = none;
  build_epoch = none;
  database_type = none;
  description = none;
  ip_version = none;
  languages = none;
  node_count = none;
  record_size = none;
}

-- The code points of a text.
abbrev pub codes : String → List ℕ
codes String.[] = []
codes (String.◌∷◌ c s) = code c ∷ codes s

abbrev pub kwlist : List (List ℕ)
kwlist = map codes (
    "binary_format_major_version" ∷ "binary_format_minor_version" ∷ "build_epoch" ∷ "database_type"
    ∷ "description" ∷ "ip_version" ∷ "languages" ∷ "node_count" ∷ "record_size" ∷ [])

unfoldable pub lookup : List ℕ → Fields → Option Value
unfolding same_key
lookup k end = none
lookup k (field j v d) = if same_key j k then some v else lookup k d

unfoldable pub is_keyword : List ℕ → List (List ℕ) → Bool
unfolding same_key
is_keyword k [] = false
is_keyword k (j ∷ names) = if same_key j k then true else is_keyword k names

-- Every key of the dict is one of the names.
unfoldable pub only_keywords : Fields → List (List ℕ) → Bool
unfolding is_keyword
only_keywords end names = true
only_keywords (field k v d) names = is_keyword k names && only_keywords d names

-- `PyArg_ParseTupleAndKeywords` with "|OOOOOOOOO" and one name for each place: positional arguments
-- first, then keywords. It refuses too many of the former, and a keyword that is no name or that
-- names a place already filled. What is not given is left as it was.
unfoldable pub parsed_slots : List Value → Fields → List (List ℕ) → List Slot
unfolding lookup
parsed_slots xs kwds [] = []
parsed_slots [] kwds (k ∷ names) = lookup k kwds ∷ parsed_slots [] kwds names
parsed_slots (x ∷ xs) kwds (k ∷ names) = some x ∷ parsed_slots xs kwds names

unfoldable pub parse_arguments : List Value → Fields → Option (List Slot)
unfolding only_keywords parsed_slots
parse_arguments args kwds =
    if ltb (length kwlist) (length args)
    then none
    else if only_keywords kwds (drop (length args) kwlist)
    then some (parsed_slots args kwds kwlist)
    else none

-- The assignments to the fields, in the order of `kwlist`.
assign : List Slot → Metadata
assign (a ∷ b ∷ c ∷ d ∷ e ∷ f ∷ g ∷ h ∷ i ∷ _) = record {
  binary_format_major_version = a;
  binary_format_minor_version = b;
  build_epoch = c;
  database_type = d;
  description = e;
  ip_version = f;
  languages = g;
  node_count = h;
  record_size = i;
}
assign _ = blank

-- `Py_INCREF` of an unassigned local variable, and `Py_DECREF` of a field that is NULL.
incref_slot : Slot → Cmd (Unit {0})
incref_slot none = crash uninitialised
incref_slot (some v) = new_ref

decref_slot : Slot → Cmd (Unit {0})
decref_slot none = crash null_pointer
decref_slot (some v) = decref

-- `Metadata_init`: the object after it, and `true` for 0.
unfoldable pub metadata_init : List Value → Fields → Metadata → Cmd (Metadata × Bool)
unfolding parse_arguments assign incref_slot
metadata_init args kwds self = elim (parse_arguments args kwds) [
  | none ↦ (do raise by_callee "PyArg_ParseTupleAndKeywords" []; pure (self, false))
  | some slots ↦ do
    let obj = assign slots
    incref_slot obj.binary_format_major_version
    incref_slot obj.binary_format_minor_version
    incref_slot obj.build_epoch
    incref_slot obj.database_type
    incref_slot obj.description
    incref_slot obj.ip_version
    incref_slot obj.languages
    incref_slot obj.node_count
    incref_slot obj.record_size
    pure (obj, true)
]

-- `Metadata_dealloc`; the object itself goes last.
unfoldable pub metadata_dealloc : Metadata → Cmd (Unit {0})
unfolding decref_slot
metadata_dealloc obj = do
  decref_slot obj.binary_format_major_version
  decref_slot obj.binary_format_minor_version
  decref_slot obj.build_epoch
  decref_slot obj.database_type
  decref_slot obj.description
  decref_slot obj.ip_version
  decref_slot obj.languages
  decref_slot obj.node_count
  decref_slot obj.record_size
  decref

module _ (env : Env) where
  -- The call of the type: an object is allocated with NULL in its fields and initialised, and it is
  -- given up if that fails.
  unfoldable pub metadata_call : List Value → Fields → Cmd (Option Metadata)
  unfolding new_object metadata_init metadata_dealloc
  metadata_call args kwds = do
    got ← new_object env
    if got
        then (do
          (obj, done) ← metadata_init args kwds blank
          if done then pure (some obj) else (do metadata_dealloc obj; pure none))
        else pure none

  -- From the conversion of the list on, with the read lock held.
  metadata_of_value : Option Value → Cmd (Option Metadata)
  unfolding new_object metadata_call
  metadata_of_value (some (dict metadata_dict)) = do
    reader_release_read_lock env
    args ← new_object env
    if args
        then (do metadata ← metadata_call [] metadata_dict; decref; decref; pure metadata)
        else (do decref; pure none)
  metadata_of_value _ = do
    reader_release_read_lock env
    raise invalid_database_error "Error decoding metadata." []
    pure none

  metadata_of_list : ℕ → EntryDataList → Cmd (Option Metadata)
  unfolding metadata_of_value
  metadata_of_list status entry_data_list = do
    own_list entry_data_list
    if status == mmdb_success
        then (do
          (metadata_dict, left) ←
              from_entry_data_list env (suc (length entry_data_list)) entry_data_list
          free_entry_data_list entry_data_list
          metadata_of_value metadata_dict)
        else do
          reader_release_read_lock env
          raise invalid_database_error "Error decoding metadata. %s"
              (text (env.mmdb_strerror status) ∷ [])
          pure none

  unfoldable pub metadata_if_open : Option Mmdb → Cmd (Option Metadata)
  unfolding metadata_of_list
  metadata_if_open none = do
    reader_release_read_lock env
    raise os_error "Attempt to read from a closed MaxMind DB." []
    pure none
  metadata_if_open (some mmdb) =
      let (status, entry_data_list) = env.mmdb_get_metadata_as_entry_data_list mmdb in
      metadata_of_list status entry_data_list

  -- `Reader_metadata`, with `none` for NULL.
  unfoldable pub reader_metadata : Cmd (Option Metadata)
  unfolding get_state metadata_if_open
  reader_metadata = do
    state ← get_state env
    if state
        then (do
          locked ← reader_acquire_read_lock env
          if locked then (do w ← get_world; metadata_if_open w.mmdb) else pure none)
        else pure none
