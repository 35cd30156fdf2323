-- ===== src/Extension/Exec.antt =====
-- What `maxminddb_exec` makes of a new module on each of its paths: extension/maxminddb.c, lines
-- 1342-1405.
use max_mind_db_reader_pytho.Base.{
  ℕ, ◌+◌, ◌-◌, ◌<◌, ℤ, pos, negsuc, String, Bool, true, false, Option, none, some, List, [], ◌∷◌,
  ◌==◌, ◌≡◌, refl, ◌⊎◌, inl, inr, arith, Bool-cases,
}
use max_mind_db_reader_pytho.Extension.{
  Pointer, State, null_state, Loader, World, Cmd, one, new_ref, decref, returned, add_object,
  imported, exec_add, exec_store, maxminddb_exec, pure, exec_network, exec_error, exec_reader_iter,
  exec_metadata, fail, set_reader_type, set_metadata_type, set_reader_iter_type,
  set_maxmind_db_error, set_ipaddress_ip_network,
}
use max_mind_db_reader_pytho.Extension.Tables.{
  reader_type_spec, metadata_type_spec, reader_iter_type_spec,
}

-- The references of a slot, of the state and of the module's dict to an object.
abbrev pub in_slot : Pointer → ℕ → ℕ
in_slot none q = 0
in_slot (some p) q = one p q

abbrev pub in_state : State → ℕ → ℕ
in_state s q =
    in_slot s.reader_type q
    + in_slot s.reader_iter_type q
    + in_slot s.metadata_type q
    + in_slot s.maxmind_db_error q
    + in_slot s.ipaddress_ip_network q

abbrev pub in_names : List (String × ℕ) → ℕ → ℕ
in_names [] q = 0
in_names ((name, p) ∷ names) q = one p q + in_names names q

-- Every reference beyond those of before is the state's, the dict's or the lost one.
abbrev pub Accounts : (ℕ → ℕ) → Pointer → World → Type 0
Accounts before lost v =
    (q : ℕ) → v.refs q ≡ before q + in_state v.state q + in_names v.names q + in_slot lost q

-- A module before its execution.
abbrev pub new_module : (ℕ → ℕ) → Bool → World
new_module refs error = record { state = null_state; names = []; refs = refs; error = error }

-- The object is the attribute of an imported module.
abbrev pub IsAttribute : Loader → (name attribute : String) → ℕ → Type 0
IsAttribute loader name attribute p =
    (m : ℕ) × (loader.import_module name ≡ some m) × (loader.get_attr m attribute ≡ some p)

-- All of the five slots are set, with the types of the three specs and the two imported classes, and
-- three of them have a name.
abbrev pub IsLoaded : Loader → World → Type 0
IsLoaded loader v =
    (reader : ℕ) × (metadata : ℕ) × (reader_iter : ℕ) × (error : ℕ) × (network : ℕ)
    × (loader.type_from_spec reader_type_spec ≡ some reader)
    × (loader.type_from_spec metadata_type_spec ≡ some metadata)
    × (loader.type_from_spec reader_iter_type_spec ≡ some reader_iter)
    × IsAttribute loader "maxminddb.errors" "InvalidDatabaseError" error
    × IsAttribute loader "ipaddress" "ip_network" network
    × (v.state ≡ record {
      reader_type = some reader;
      reader_iter_type = some reader_iter;
      metadata_type = some metadata;
      maxmind_db_error = some error;
      ipaddress_ip_network = some network;
    })
    × (v.names ≡ ("InvalidDatabaseError", error) ∷ ("Metadata", metadata) ∷ ("Reader", reader) ∷ [])

-- What is lost: a reference for a name that could not be set.
abbrev pub IsLost : Loader → Pointer → Type 0
IsLost loader none = Unit
IsLost loader (some p) = (name : String) × (loader.add_object name ≡ false)

abbrev pub Loads : Loader → (ℕ → ℕ) → Bool → ℤ → World → Type 0
Loads loader before error (pos n) v =
    (n ≡ 0) × IsLoaded loader v × Accounts before none v × (v.error ≡ error)
Loads loader before error (negsuc n) v =
    (n ≡ 0) × (v.error ≡ true) × (lost : Pointer) × IsLost loader lost × Accounts before lost v

-- A call that makes an object from the world, or NULL with an exception.
abbrev Makes : (ℕ → Type 0) → World → Cmd Pointer → Type 0
Makes P v make =
    ((refs : ℕ → ℕ) × (make v ≡ some (none, record v { refs = refs; error = true }))
      × ((q : ℕ) → refs q ≡ v.refs q))
    ⊎ ((p : ℕ) × (refs : ℕ → ℕ) × (make v ≡ some (some p, record v { refs = refs }))
        × ((q : ℕ) → refs q ≡ v.refs q + one p q)
        × P p)

returned_lem : (o : Pointer) (v : World) → Makes (λ p. o ≡ some p) v (returned o)
unfolding returned new_ref
returned_lem none v = inl (v.refs, refl, λ q. refl)
returned_lem (some p) v = inr (p, _, refl, (λ q. refl), refl)

-- The object of the module dict is one more than none.
pub decref_lem :
    (p : ℕ) (v : World)
    → 0 < v.refs p
    → decref p v ≡ some (tt, record v { refs = λ q. v.refs q - one p q })
unfolding decref
decref_lem p v h = elim (Bool-cases (v.refs p == 0)) [
  | inl e ↦ absurd (ground arith)
  | inr e ↦ rw e refl
]

pub one_self : (p : ℕ) → one p p ≡ 1
one_self p = ground arith

imported_lem :
    (loader : Loader) (name attribute : String) (v : World)
    → Makes (IsAttribute loader name attribute) v (imported loader name attribute)
unfolding imported
imported_lem loader name attribute v = elim (returned_lem (loader.import_module name) v) [
  | inl (f, e, h) ↦ inl (f, rw e refl, h)
  | inr (m, f, e, h, known) ↦
      elim (returned_lem (loader.get_attr m attribute) (record v { refs = f })) [
        | inl (g, e', h') ↦
            let held : 0 < g m = omega (arith, h m, h' m, one_self m) in
            inl (
              (λ q. g q - one m q),
              rw (e, e', decref_lem m (record v { refs = g; error = true }) held) refl,
              λ q. omega (arith, h q, h' q),
            )
        | inr (p, g, e', h', found) ↦
            let held : 0 < g m = omega (arith, h m, h' m, one_self m) in
            inr (
              p,
              (λ q. g q - one m q),
              rw (e, e', decref_lem m (record v { refs = g }) held) refl,
              (λ q. omega (arith, h q, h' q)),
              (m, known, found),
            )
      ]
]

-- The run is defined, and its result has the property.
abbrev pub Ends : (ℤ → World → Type 0) → Option (ℤ × World) → Type 0
Ends P r = (x : ℤ) × (v : World) × (r ≡ some (x, v)) × P x v

module _ (loader : Loader) (before : ℕ → ℕ) (error : Bool) where
  abbrev Loaded : Option (ℤ × World) → Type 0
  Loaded r = Ends (Loads loader before error) r

  abbrev at : State → List (String × ℕ) → (ℕ → ℕ) → World
  at s names refs = record { state = s; names = names; refs = refs; error = error }

  abbrev with_reader : ℕ → State
  with_reader p = set_reader_type (some p) null_state

  abbrev with_metadata : ℕ → State → State
  with_metadata p = set_metadata_type (some p)

  abbrev with_iter : ℕ → State → State
  with_iter p = set_reader_iter_type (some p)

  abbrev with_error : ℕ → State → State
  with_error p = set_maxmind_db_error (some p)

  -- A call that returned NULL, with an exception.
  no_object : (v : World) → v.error ≡ true → Accounts before none v → Loaded (fail v)
  no_object v e h = (negsuc 0, v, refl, (refl, e, none, tt, h))

  exec_add_lem :
      (name : String) (p : ℕ) (rest : Cmd ℤ) (v : World)
      → Accounts before none v
      → ((refs : ℕ → ℕ)
          → Accounts before none (record v { refs = refs; names = (name, p) ∷ v.names })
          → Loaded (rest (record v { refs = refs; names = (name, p) ∷ v.names })))
      → Loaded (exec_add loader name p rest v)
  unfolding exec_add add_object new_ref
  exec_add_lem name p rest v h next = elim (Bool-cases (loader.add_object name)) [
    | inl set ↦ rw set (next _ (λ q. omega (arith, h q)))
    | inr refused ↦
        rw refused
          (negsuc 0, _, refl, (refl, refl, some p, (name, refused), λ q. omega (arith, h q)))
  ]

  exec_store_lem :
      {P : ℕ → Type 0} (make : Cmd Pointer) (store : Pointer → State → State) (rest : ℕ → Cmd ℤ)
      (v : World)
      → Accounts before none v
      → Makes P v make
      → ((o : Pointer) (q : ℕ) → in_state (store o v.state) q ≡ in_state v.state q + in_slot o q)
      → ((p : ℕ) (refs : ℕ → ℕ)
          → P p
          → Accounts before none (record v { refs = refs; state = store (some p) v.state })
          → Loaded (rest p (record v { refs = refs; state = store (some p) v.state })))
      → Loaded (exec_store loader make store rest v)
  unfolding exec_store
  exec_store_lem make store rest v h (inl (f, e, unchanged)) slot next =
      rw e (no_object _ refl (λ q. omega (arith, h q, unchanged q, slot none q)))
  exec_store_lem make store rest v h (inr (p, f, e, made, known)) slot next =
      rw e (next p _ known (λ q. omega (arith, h q, made q, slot (some p) q)))

  -- The functions from the last statements to the first, each in the world that it starts with.
  exec_network_lem :
      {reader metadata iter : ℕ}
      → loader.type_from_spec reader_type_spec ≡ some reader
      → loader.type_from_spec metadata_type_spec ≡ some metadata
      → loader.type_from_spec reader_iter_type_spec ≡ some iter
      → (err : ℕ) (refs : ℕ → ℕ) → IsAttribute loader "maxminddb.errors" "InvalidDatabaseError" err
      → Accounts before none (
          at
            (with_error err (with_iter iter (with_metadata metadata (with_reader reader))))
            (("Metadata", metadata) ∷ ("Reader", reader) ∷ [])
            refs)
      → Loaded (
          exec_network loader err (
            at
              (with_error err (with_iter iter (with_metadata metadata (with_reader reader))))
              (("Metadata", metadata) ∷ ("Reader", reader) ∷ [])
              refs))
  unfolding exec_network
  exec_network_lem r m i err refs raised h =
      exec_store_lem (imported loader "ipaddress" "ip_network") set_ipaddress_ip_network
        (λ network. exec_add loader "InvalidDatabaseError" err (pure (pos 0))) _ h
        (imported_lem loader _ _ _) (λ o q. omega arith)
        (λ network f known h'. exec_add_lem "InvalidDatabaseError" err (pure (pos 0)) _ h' (λ g h''.
          (pos 0, _, refl, (refl, (_, _, _, _, _, r, m, i, raised, known, refl, refl), h'', refl))))

  exec_error_lem :
      {reader metadata iter : ℕ}
      → loader.type_from_spec reader_type_spec ≡ some reader
      → loader.type_from_spec metadata_type_spec ≡ some metadata
      → loader.type_from_spec reader_iter_type_spec ≡ some iter
      → (refs : ℕ → ℕ)
      → Accounts before none (
          at
            (with_iter iter (with_metadata metadata (with_reader reader)))
            (("Metadata", metadata) ∷ ("Reader", reader) ∷ [])
            refs)
      → Loaded (
          exec_error loader (
            at
              (with_iter iter (with_metadata metadata (with_reader reader)))
              (("Metadata", metadata) ∷ ("Reader", reader) ∷ [])
              refs))
  unfolding exec_error
  exec_error_lem r m i refs h =
      exec_store_lem (imported loader "maxminddb.errors" "InvalidDatabaseError")
        set_maxmind_db_error (exec_network loader) _ h (imported_lem loader _ _ _)
        (λ o q. omega arith) (λ err f known h'. exec_network_lem r m i err f known h')

  exec_reader_iter_lem :
      {reader metadata : ℕ}
      → loader.type_from_spec reader_type_spec ≡ some reader
      → loader.type_from_spec metadata_type_spec ≡ some metadata
      → (refs : ℕ → ℕ)
      → Accounts before none (
          at
            (with_metadata metadata (with_reader reader))
            (("Metadata", metadata) ∷ ("Reader", reader) ∷ [])
            refs)
      → Loaded (
          exec_reader_iter loader (
            at
              (with_metadata metadata (with_reader reader))
              (("Metadata", metadata) ∷ ("Reader", reader) ∷ [])
              refs))
  unfolding exec_reader_iter
  exec_reader_iter_lem r m refs h =
      exec_store_lem (returned (loader.type_from_spec reader_iter_type_spec)) set_reader_iter_type
        (λ iter. exec_error loader) _ h (returned_lem _ _) (λ o q. omega arith)
        (λ iter f i h'. exec_error_lem r m i f h')

  exec_metadata_lem :
      {reader : ℕ}
      → loader.type_from_spec reader_type_spec ≡ some reader
      → (refs : ℕ → ℕ)
      → Accounts before none (at (with_reader reader) (("Reader", reader) ∷ []) refs)
      → Loaded (exec_metadata loader (at (with_reader reader) (("Reader", reader) ∷ []) refs))
  unfolding exec_metadata
  exec_metadata_lem r refs h =
      exec_store_lem (returned (loader.type_from_spec metadata_type_spec)) set_metadata_type
        (λ metadata. exec_add loader "Metadata" metadata (exec_reader_iter loader)) _ h
        (returned_lem _ _) (λ o q. omega arith)
        (λ metadata f m h'.
          exec_add_lem "Metadata" metadata (exec_reader_iter loader) _ h'
            (λ g h''. exec_reader_iter_lem r m g h''))

  -- The execution of a new module returns in every case. With 0, the state has the three types
  -- made of their specs, the attribute InvalidDatabaseError of maxminddb.errors and the attribute
  -- ip_network of ipaddress, the module has the names Reader, Metadata and
  -- InvalidDatabaseError for the right ones of them, and the error indicator is as before; with
  -- -1, an exception is set. On every path each reference that was made is held by the state or by
  -- the module's dict, but for one where a name could not be set.
  pub maxminddb_exec-Loads :
      Ends (Loads loader before error) (maxminddb_exec loader (new_module before error))
  unfolding maxminddb_exec
  maxminddb_exec-Loads =
      exec_store_lem (returned (loader.type_from_spec reader_type_spec)) set_reader_type
        (λ reader. exec_add loader "Reader" reader (exec_metadata loader)) (new_module before error)
        (λ q. omega arith) (returned_lem _ _) (λ o q. omega arith)
        (λ reader f r h.
          exec_add_lem "Reader" reader (exec_metadata loader) _ h
            (λ g h'. exec_metadata_lem r g h'))
