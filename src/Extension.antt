-- ===== src/Extension.antt =====
-- The module object of extension/maxminddb.c: its state, the tables of its types, and the functions
-- that CPython calls to fill, visit and empty the state, lines 105-120 and 1183-1431.
pub mod Tables
pub mod Slots
pub mod Members
pub mod Exec
pub mod Clear
use max_mind_db_reader_pytho.Base.{
  ℕ, ◌+◌, ◌-◌, ℤ, pos, negsuc, String, Bool, true, false, Option, none, some, List, [], ◌∷◌, ◌==◌,
  if◌then◌else◌,
}
use max_mind_db_reader_pytho.Extension.Tables.{
  TypeSpec, reader_type_spec, metadata_type_spec, reader_iter_type_spec,
}

-- A `PyObject *`: NULL, or the address of an object.
abbrev pub Pointer : Type 0
Pointer = Option ℕ

-- `maxminddb_state`
pub record State : Type 0 where
  pub reader_type : Pointer
  pub reader_iter_type : Pointer
  pub metadata_type : Pointer
  pub maxmind_db_error : Pointer
  pub ipaddress_ip_network : Pointer

-- Assignments to the fields.
abbrev pub set_reader_type : Pointer → State → State
set_reader_type p s = record s { reader_type = p }

abbrev pub set_reader_iter_type : Pointer → State → State
set_reader_iter_type p s = record s { reader_iter_type = p }

abbrev pub set_metadata_type : Pointer → State → State
set_metadata_type p s = record s { metadata_type = p }

abbrev pub set_maxmind_db_error : Pointer → State → State
set_maxmind_db_error p s = record s { maxmind_db_error = p }

abbrev pub set_ipaddress_ip_network : Pointer → State → State
set_ipaddress_ip_network p s = record s { ipaddress_ip_network = p }

-- The state as CPython allocates it.
abbrev pub null_state : State
null_state = record {
  reader_type = none;
  reader_iter_type = none;
  metadata_type = none;
  maxmind_db_error = none;
  ipaddress_ip_network = none;
}

-- What CPython answers to the calls of `maxminddb_exec`: NULL, or an object; `add_object` is whether
-- a name can be set in the dict of the module.
pub record Loader : Type 0 where
  pub type_from_spec : TypeSpec → Pointer
  pub import_module : String → Pointer
  pub get_attr : ℕ → String → Pointer
  pub add_object : String → Bool

-- The module: its state and the names that the code has set in its dict. `refs` counts the
-- references that exist to an object, and `error` is Python's error indicator.
pub record World : Type 0 where
  pub state : State
  pub names : List (String × ℕ)
  pub refs : ℕ → ℕ
  pub error : Bool

-- `none` is undefined behaviour: a reference that is given up and does not exist.
abbrev pub Cmd {ℓ} : Type ℓ → Type ℓ
Cmd A = World → Option (A × World)

abbrev pub pure {ℓ} : {A : Type ℓ} → A → Cmd A
pure a w = some (a, w)

module _ {ℓ κ} {A : Type ℓ} {B : Type κ} where
  abbrev pub and_then : Option (A × World) → (A → Cmd B) → Option (B × World)
  and_then none k = none
  and_then (some (a, w)) k = k a w

  infixl 5 ◌>>=◌ ◌>>◌
  abbrev pub ◌>>=◌ : Cmd A → (A → Cmd B) → Cmd B
  m >>= k = λ w. and_then (m w) k

  abbrev pub ◌>>◌ : Cmd A → Cmd B → Cmd B
  m >> n = m >>= λ _. n

-- One, for the object itself.
abbrev pub one : ℕ → ℕ → ℕ
one p q = if q == p then 1 else 0

abbrev pub set_state : (State → State) → Cmd (Unit {0})
set_state f w = some (tt, record w { state = f w.state })

abbrev pub fail : Cmd ℤ
fail = pure (negsuc 0)

abbrev pub set_error : Cmd (Unit {0})
set_error w = some (tt, record w { error = true })

-- `Py_NewRef`
unfoldable pub new_ref : ℕ → Cmd (Unit {0})
new_ref p w = some (tt, record w { refs = λ q. w.refs q + one p q })

-- `Py_DECREF`
unfoldable pub decref : ℕ → Cmd (Unit {0})
decref p w = if w.refs p == 0 then none else some (tt, record w { refs = λ q. w.refs q - one p q })

-- The result of a call that returns a new reference, or NULL with an exception.
unfoldable pub returned : Pointer → Cmd Pointer
unfolding new_ref
returned none = do set_error; pure none
returned (some p) = do new_ref p; pure (some p)

-- `Py_CLEAR`: the slot is NULL before the reference is given up.
unfoldable pub clear_slot : (State → Pointer) → (State → State) → Cmd (Unit {0})
unfolding decref
clear_slot slot reset w = elim (slot w.state) [
  | none ↦ some (tt, w)
  | some p ↦ decref p (record w { state = reset w.state })
]

-- `maxminddb_clear`
unfoldable pub maxminddb_clear : Cmd ℤ
unfolding clear_slot
maxminddb_clear = do
  clear_slot (λ s. s.reader_type) (set_reader_type none)
  clear_slot (λ s. s.reader_iter_type) (set_reader_iter_type none)
  clear_slot (λ s. s.metadata_type) (set_metadata_type none)
  clear_slot (λ s. s.maxmind_db_error) (set_maxmind_db_error none)
  clear_slot (λ s. s.ipaddress_ip_network) (set_ipaddress_ip_network none)
  pure (pos 0)

-- `maxminddb_free`
unfoldable pub maxminddb_free : Cmd (Unit {0})
unfolding maxminddb_clear
maxminddb_free = do cleared ← maxminddb_clear; pure tt

module _ {ℓ} {A : Type ℓ} (visit : ℕ → A → ℤ × A) where
  -- `Py_VISIT`: the caller returns what the visitor returns, if that is not zero.
  abbrev py_visit : Pointer → (A → ℤ × A) → A → ℤ × A
  py_visit none rest arg = rest arg
  py_visit (some p) rest arg =
      let (result, arg') = visit p arg in
      elim result [
        | pos n ↦ if n == 0 then rest arg' else (pos n, arg')
        | negsuc n ↦ (negsuc n, arg')
      ]

  -- `maxminddb_traverse`
  unfoldable pub maxminddb_traverse : State → A → ℤ × A
  maxminddb_traverse state = py_visit state.reader_type (
      py_visit state.reader_iter_type (
        py_visit state.metadata_type (
          py_visit state.maxmind_db_error
            (py_visit state.ipaddress_ip_network (λ arg. (pos 0, arg))))))

module _ (loader : Loader) where
  -- `PyModule_AddObject` of a new reference: it is the module's if the name can be set.
  unfoldable pub add_object : String → ℕ → Cmd Bool
  unfolding new_ref
  add_object name p = do
    new_ref p
    λ w.
        if loader.add_object name
        then some (true, record w { names = (name, p) ∷ w.names })
        else some (false, record w { error = true })

  -- `PyObject_GetAttrString` of an imported module, which is given up then.
  unfoldable pub imported : String → String → Cmd Pointer
  unfolding returned decref
  imported name attribute = do
    module' ← returned (loader.import_module name)
    elim module' [
      | none ↦ pure none
      | some m ↦ (do value ← returned (loader.get_attr m attribute); decref m; pure value)
    ]

  -- The parts of `maxminddb_exec`, each with the rest of the function behind it: -1 where a call
  -- fails.
  unfoldable pub exec_add : String → ℕ → Cmd ℤ → Cmd ℤ
  unfolding add_object
  exec_add name p rest = do added ← add_object name p; if added then rest else fail

  unfoldable pub exec_store : Cmd Pointer → (Pointer → State → State) → (ℕ → Cmd ℤ) → Cmd ℤ
  exec_store make store rest = do
    made ← make
    set_state (store made)
    elim made [ none ↦ fail | some p ↦ rest p ]

  -- `maxminddb_exec`, from its last statements to the first.
  unfoldable pub exec_network : ℕ → Cmd ℤ
  unfolding exec_store exec_add imported
  exec_network error =
      exec_store (imported "ipaddress" "ip_network") set_ipaddress_ip_network
        (λ network. exec_add "InvalidDatabaseError" error (pure (pos 0)))

  unfoldable pub exec_error : Cmd ℤ
  unfolding exec_store imported exec_network
  exec_error =
      exec_store (imported "maxminddb.errors" "InvalidDatabaseError") set_maxmind_db_error
        exec_network

  unfoldable pub exec_reader_iter : Cmd ℤ
  unfolding exec_store returned exec_error
  exec_reader_iter =
      exec_store (returned (loader.type_from_spec reader_iter_type_spec)) set_reader_iter_type
        (λ reader_iter. exec_error)

  unfoldable pub exec_metadata : Cmd ℤ
  unfolding exec_store exec_add returned exec_reader_iter
  exec_metadata =
      exec_store (returned (loader.type_from_spec metadata_type_spec)) set_metadata_type
        (λ metadata. exec_add "Metadata" metadata exec_reader_iter)

  unfoldable pub maxminddb_exec : Cmd ℤ
  unfolding exec_store exec_add returned exec_metadata
  maxminddb_exec =
      exec_store (returned (loader.type_from_spec reader_type_spec)) set_reader_type
        (λ reader. exec_add "Reader" reader exec_metadata)
