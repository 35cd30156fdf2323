-- ===== src/Runtime.antt =====
-- The run time under `extension/maxminddb.c`: commands on one Reader object and the resources that
-- the running C code owns, Python's error indicator, allocation and reference counts.
pub mod Outcome
use max_mind_db_reader_pytho.Base.{
  ℕ, ℤ, ◌+◌, ◌-◌, String, Bool, true, false, Option, some, List, ◌∷◌, ◌==◌, if◌then◌else◌,
}
use max_mind_db_reader_pytho.Env.{Env, Mmdb}

-- The exception classes that the code names, and those that CPython sets itself.
pub data ExnKind : Type 0 where
  value_error type_error runtime_error os_error memory_error invalid_database_error : ExnKind
  runtime_warning : ExnKind
  -- set by the CPython function that failed
  by_callee : ExnKind

-- The arguments of a `PyErr_Format`.
pub data Arg : Type 0 where
  text : String → Arg
  octets : List ℕ → Arg
  number : ℤ → Arg

pub record Exn : Type 0 where
  pub kind : ExnKind
  pub format : String
  pub args : List Arg

-- The state of `reader->rwlock`: the holders of the shared and of the exclusive side.
pub data RwLock : Type 0 where
  uninit destroyed : RwLock
  ready : (readers writers : ℕ) → RwLock

-- `reader->closed`: the object is allocated with a NULL, before `Reader_init`.
pub data Closed : Type 0 where
  null py_false py_true : Closed

-- A Reader object, Python's error indicator, and what the running code owns: blocks of `malloc`,
-- references, and lists of entry data. `time` counts the calls whose outcome the platform chooses.
pub record World : Type 0 where
  pub lock : RwLock
  pub mmdb : Option Mmdb
  pub closed : Closed
  pub error : Option Exn
  pub warnings : List Exn
  pub blocks : ℕ
  pub refs : ℕ
  pub lists : ℕ
  pub time : ℕ

-- Undefined behaviour of C.
pub data Fault : Type 0 where
  null_pointer out_of_bounds bad_free over_release uninitialised wrong_member bad_lock : Fault

-- How a command ends. `blocked`: it waits for a lock that another thread holds; `out_of_fuel` is no
-- outcome of the C code, and the theorems exclude it.
pub data Run {ℓ} (A : Type ℓ) : Type ℓ where
  ok : A → World → Run A
  fault : Fault → Run A
  blocked : Run A
  out_of_fuel : Run A

abbrev pub Cmd {ℓ} : Type ℓ → Type ℓ
Cmd A = World → Run A

abbrev pub pure {ℓ} : {A : Type ℓ} → A → Cmd A
pure = ok

abbrev pub crash {ℓ} : {A : Type ℓ} → Fault → Cmd A
crash f w = fault f

module _ {ℓ κ} {A : Type ℓ} {B : Type κ} where
  abbrev pub and_then : Run A → (A → Cmd B) → Run B
  and_then (ok a w) k = k a w
  and_then (fault f) k = fault f
  and_then blocked k = blocked
  and_then out_of_fuel k = out_of_fuel

  infixl 5 ◌>>=◌ ◌>>◌
  abbrev pub ◌>>=◌ : Cmd A → (A → Cmd B) → Cmd B
  m >>= k = λ w. and_then (m w) k

  abbrev pub ◌>>◌ : Cmd A → Cmd B → Cmd B
  m >> n = m >>= λ _. n

abbrev pub get_world : Cmd World
get_world w = ok w w

abbrev pub put_world : World → Cmd (Unit {0})
put_world w _ = ok tt w

-- `PyErr_SetString` and `PyErr_Format`: a later exception replaces an earlier one.
abbrev pub raise : ExnKind → String → List Arg → Cmd (Unit {0})
raise k f xs w = ok tt (record w { error = some (record { kind = k; format = f; args = xs }) })

abbrev pub no_memory : Cmd (Unit {0})
no_memory = raise ExnKind.memory_error "" List.[]

-- `PyErr_WarnEx` and `PyErr_WarnFormat`
abbrev pub warn : String → List Arg → Cmd (Unit {0})
warn f xs w = ok tt (record w {
  warnings = record { kind = ExnKind.runtime_warning; format = f; args = xs } ∷ w.warnings;
})

-- `free` of a block that the code owns.
unfoldable pub free : Cmd (Unit {0})
free w = if w.blocks == 0 then fault bad_free else ok tt (record w { blocks = w.blocks - 1 })

abbrev pub new_ref : Cmd (Unit {0})
new_ref w = ok tt (record w { refs = w.refs + 1 })

-- `Py_DECREF` of an object that the code owns.
unfoldable pub decref : Cmd (Unit {0})
decref w = if w.refs == 0 then fault over_release else ok tt (record w { refs = w.refs - 1 })

-- `MMDB_free_entry_data_list`, which ignores NULL; `own_list` takes what a call stored.
unfoldable pub free_entry_data_list {ℓ} : {A : Type ℓ} → List A → Cmd (Unit {0})
free_entry_data_list List.[] w = ok tt w
free_entry_data_list (x ∷ l) w =
    if w.lists == 0 then fault bad_free else ok tt (record w { lists = w.lists - 1 })

unfoldable pub own_list {ℓ} : {A : Type ℓ} → List A → Cmd (Unit {0})
own_list List.[] w = ok tt w
own_list (x ∷ l) w = ok tt (record w { lists = w.lists + 1 })

module _ (env : Env) where
  -- Whether the allocation made now succeeds.
  unfoldable pub allocate : Cmd Bool
  allocate w = ok (env.memory w.time) (record w { time = w.time + 1 })

  -- `malloc` and `calloc`
  unfoldable pub malloc : Cmd Bool
  unfolding allocate
  malloc = do
    got ← allocate
    w ← get_world
    if got then (do put_world (record w { blocks = w.blocks + 1 }); pure true) else pure false

  -- A CPython constructor that can fail for want of memory only; it then sets `MemoryError`.
  unfoldable pub new_object : Cmd Bool
  unfolding allocate
  new_object = do
    got ← allocate
    if got then (do new_ref; pure true) else (do no_memory; pure false)
