-- ===== src/Metadata/Keywords.antt =====
-- Which dicts make a Metadata object: extension/maxminddb.c, lines 641-660 and 956-1026.
use max_mind_db_reader_pytho.Base.{
  ℕ, Bool, ◌+◌, ◌≡◌, ◌≢◌, refl, ap, ◌∙◌, ◌⊎◌, inl, inr, true, false, Option, none, some, List, [],
  ◌∷◌, map, arith, All, length, Bool-cases,
}
use max_mind_db_reader_pytho.Env.{Env}
use max_mind_db_reader_pytho.Runtime.{
  World, Fault, Cmd, pure, fault, ◌>>◌, null_pointer, uninitialised,
}
use max_mind_db_reader_pytho.Runtime.Outcome.{
  Outcome, returns, faults, gave, Owns, Starved, new_object_lem,
}
use max_mind_db_reader_pytho.Value.{Fields}
use max_mind_db_reader_pytho.Metadata.{
  Slot, Metadata, kwlist, lookup, only_keywords, parse_arguments, parsed_slots, assign, incref_slot,
  decref_slot, metadata_init, metadata_dealloc, metadata_call, blank,
}

-- What a dict gives for the nine names, and the nine fields of an object.
abbrev pub given_by : Fields → List Slot
given_by d = map (λ k. lookup k d) kwlist

abbrev pub fields : Metadata → List Slot
fields m =
    m.binary_format_major_version ∷ m.binary_format_minor_version ∷ m.build_epoch ∷ m.database_type
    ∷ m.description ∷ m.ip_version ∷ m.languages ∷ m.node_count ∷ m.record_size ∷ []

abbrev pub IsComplete : Fields → Type 0
IsComplete d = All (λ s. s ≢ none) (given_by d)

-- The faults of a construction: an argument that is no name, or a name without an argument.
abbrev pub Fails : Fields → Fault → Type 0
Fails d f =
    ((f ≡ null_pointer) × (only_keywords d kwlist ≡ false))
    ⊎ ((f ≡ uninitialised) × (only_keywords d kwlist ≡ true) × ¬ IsComplete d)

-- The object that is made: it has the nine values of the dict and owns a reference to each.
abbrev pub Builds : Env → Fields → World → Option Metadata → World → Type 0
Builds env d w none u = Owns w u w.blocks w.refs w.lists × (u.error ≢ none) × Starved env
Builds env d w (some m) u =
    (only_keywords d kwlist ≡ true)
    × IsComplete d
    × (fields m ≡ given_by d)
    × Owns w u w.blocks (w.refs + 10) w.lists
    × (u.error ≡ w.error)

-- The references to some slots, one after the other, and a command behind them.
abbrev incref_then {ℓ} : {A : Type ℓ} → List Slot → Cmd A → Cmd A
incref_then [] k = k
incref_then (s ∷ ss) k = incref_slot s >> incref_then ss k

incref_then_lem {ℓ} :
    {A : Type ℓ} (ss : List Slot) (k : Cmd A) (w : World)
    → (All (λ s. s ≢ none) ss × (incref_then ss k w ≡ k (record w { refs = w.refs + length ss })))
      ⊎ ((¬ All (λ s. s ≢ none) ss) × (incref_then ss k w ≡ fault uninitialised))
unfolding incref_slot
incref_then_lem [] k w = inl (tt, ap (λ n. k (record w { refs = n })) (omega arith))
incref_then_lem (none ∷ ss) k w = inr ((λ h. h.0 refl), refl)
incref_then_lem (some v ∷ ss) k w = elim (incref_then_lem ss k (record w { refs = w.refs + 1 })) [
  | inl (all, e) ↦ inl (((λ q. cc), all), e ∙ ap (λ n. k (record w { refs = n })) (omega arith))
  | inr (lacks, e) ↦ inr ((λ h. lacks h.1), e)
]

parsed_slots_lem :
    (d : Fields) (names : List (List ℕ)) → parsed_slots [] d names ≡ map (λ k. lookup k d) names
unfolding parsed_slots
parsed_slots_lem d [] = refl
parsed_slots_lem d (k ∷ names) = ap (λ ss. lookup k d ∷ ss) (parsed_slots_lem d names)

parse_known :
    (d : Fields) → only_keywords d kwlist ≡ true → parse_arguments [] d ≡ some (given_by d)
unfolding parse_arguments
parse_known d known = rw (known, parsed_slots_lem d kwlist) refl

parse_unknown : (d : Fields) → only_keywords d kwlist ≡ false → parse_arguments [] d ≡ none
unfolding parse_arguments
parse_unknown d unknown = rw unknown refl

init_known :
    (d : Fields) (self : Metadata) (w : World)
    → only_keywords d kwlist ≡ true
    → metadata_init [] d self w ≡ incref_then (given_by d) (pure (assign (given_by d), true)) w
unfolding metadata_init assign
init_known d self w known = rw (metadata_init, parse_known d known) refl

-- The call of the Metadata type on a dict makes an object exactly if the dict has all of the nine
-- names and no other, and the object holds the values with a reference to each; for want of memory
-- there is an exception and nothing is owned; an unknown name makes the deallocation follow a null
-- pointer, and a missing one makes the initialisation use an unassigned variable.
pub metadata_call-Builds :
    (env : Env) (d : Fields) (w : World)
    → Outcome (Fails d) (Builds env d w) (metadata_call env [] d w)
unfolding metadata_call metadata_dealloc decref_slot assign
metadata_call-Builds env d w = elim (new_object_lem env w) [
  | gave false w₁ e p ↦ rw e (returns p)
  | gave true w₁ e (o, k) ↦ elim (Bool-cases (only_keywords d kwlist)) [
    | inl known ↦
        elim (incref_then_lem {A = Metadata × Bool} (given_by d) (pure (assign (given_by d), true))
          w₁) [
            | inl (complete, q) ↦
                rw (e, init_known d blank w₁ known, q)
                  (returns (known, complete, refl, ground arith, k))
            | inr (lacks, q) ↦
                rw (e, init_known d blank w₁ known, q) (faults (inr (refl, known, lacks)))
          ]
    | inr unknown ↦ rw (e, metadata_init, parse_unknown d unknown) (faults (inl (refl, unknown)))
  ]
]
