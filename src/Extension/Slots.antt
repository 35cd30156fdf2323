-- ===== src/Extension/Slots.antt =====
-- The definition of the module and its slots, and the choice of the lock that decides on one of
-- them: extension/maxminddb.c, lines 23-45 and 1407-1431.
pub mod Gil
use max_mind_db_reader_pytho.Base.{Bool, true, false, List, [], ◌∷◌, ◌++◌, if◌then◌else◌, String}
use max_mind_db_reader_pytho.Env.{Strategy, gil_only, windows_locks, pthread_locks}
use max_mind_db_reader_pytho.Extension.Tables.{MethodDef}

-- What the preprocessor knows: `pthread` is the condition of lines 33-35, `python_3_12` the one of
-- line 1409.
pub record Platform : Type 0 where
  pub py_gil_disabled : Bool
  pub win32 : Bool
  pub pthread : Bool
  pub python_3_12 : Bool

-- The macro that the first `#if` defines.
unfoldable pub lock_strategy : Platform → Strategy
lock_strategy p =
    if p.py_gil_disabled
    then if p.win32 then windows_locks else if p.pthread then pthread_locks else gil_only
    else gil_only

-- `PyModuleDef_Slot`
pub data ModuleSlot : Type 0 where
  mod_exec : ModuleSlot
  mod_multiple_interpreters_supported : ModuleSlot
  mod_gil_not_used : ModuleSlot

-- `#ifndef MAXMINDDB_USE_GIL_ONLY`
abbrev gil_slot : Strategy → List ModuleSlot
gil_slot gil_only = []
gil_slot windows_locks = mod_gil_not_used ∷ []
gil_slot pthread_locks = mod_gil_not_used ∷ []

unfoldable pub maxminddb_slots : Platform → List ModuleSlot
unfolding lock_strategy
maxminddb_slots p =
    mod_exec
    ∷ ((if p.python_3_12 then mod_multiple_interpreters_supported ∷ [] else [])
        ++ gil_slot (lock_strategy p))

-- `PyModuleDef`; its size is that of `maxminddb_state`, and its three functions are those of the
-- parent module.
pub record ModuleDef : Type 0 where
  pub m_name : String
  pub m_doc : String
  pub m_methods : List MethodDef
  pub m_slots : List ModuleSlot

-- `MaxMindDB_module`, which `PyInit_extension` returns.
unfoldable pub py_init_extension : Platform → ModuleDef
unfolding maxminddb_slots
py_init_extension p = record {
  m_name = "extension";
  m_doc = "This is a C extension to read MaxMind DB file format";
  m_methods = [];
  m_slots = maxminddb_slots p;
}
