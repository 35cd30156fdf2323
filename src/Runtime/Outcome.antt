-- ===== src/Runtime/Outcome.antt =====
-- Postconditions of commands: what holds of the result and the world after it.
use max_mind_db_reader_pytho.Base.{
  ℕ, ◌+◌, ◌-◌, ◌<◌, ◌≡◌, ◌≢◌, refl, ap, ◌⊎◌, inl, inr, Bool, true, false, Option, none, some, List,
  [], ◌∷◌, arith, Bool-cases,
}
use max_mind_db_reader_pytho.Env.{Env}
use max_mind_db_reader_pytho.Runtime.{
  World, Fault, Run, ok, fault, and_then, Cmd, decref, free, malloc, new_object, own_list,
  free_entry_data_list,
}

-- The command returns and `P` holds, or it meets a fault that `F` allows: it is never blocked, and
-- has fuel enough.
pub data Outcome {ℓ} {A : Type ℓ} (F : Fault → Type 0) (P : A → World → Type 0)
    : Run A → Type ℓ where
  returns : {a : A} {w : World} → P a w → Outcome F P (ok a w)
  faults : {f : Fault} → F f → Outcome F P (fault f)

abbrev pub Never : Fault → Type 0
Never f = ⊥

abbrev pub Ensures {ℓ} : {A : Type ℓ} → (A → World → Type 0) → Run A → Type ℓ
Ensures P r = Outcome Never P r

module _ {ℓ} {A : Type ℓ} {F : Fault → Type 0} {P : A → World → Type 0} where
  pub bind {κ} :
      {B : Type κ} {Q : B → World → Type 0} {r : Run A} {k : A → Cmd B}
      → Outcome F P r
      → ((a : A) (w : World) → P a w → Outcome F Q (k a w))
      → Outcome F Q (and_then r k)
  bind (returns p) next = next _ _ p
  bind (faults f) next = faults f

  pub mono :
      {Q : A → World → Type 0} {r : Run A}
      → Outcome F P r
      → ((a : A) (w : World) → P a w → Q a w)
      → Outcome F Q r
  mono (returns p) weaken = returns (weaken _ _ p)
  mono (faults f) weaken = faults f

-- The worlds hold the same reader, warnings, blocks and lists: they differ in the error indicator,
-- the references and the time.
pub record Same (v w : World) : Type 0 where
  pub lock : w.lock ≡ v.lock
  pub mmdb : w.mmdb ≡ v.mmdb
  pub closed : w.closed ≡ v.closed
  pub warnings : w.warnings ≡ v.warnings
  pub blocks : w.blocks ≡ v.blocks
  pub lists : w.lists ≡ v.lists

-- A run that returned, with its equation.
pub data Given {ℓ} {A : Type ℓ} (P : A → World → Type 0) (r : Run A) : Type ℓ where
  gave : (a : A) (w : World) → r ≡ ok a w → P a w → Given P r

pub given {ℓ} : {A : Type ℓ} {P : A → World → Type 0} {r : Run A} → Ensures P r → Given P r
given (returns p) = gave _ _ refl p
given (faults f) = elim f [ ]

module _ {ℓ} {A : Type ℓ} {F : Fault → Type 0} {P : A → World → Type 0} where
  -- To run on after a command by rewriting.
  pub cases :
      {r : Run A}
      → Outcome F P r
      → ((a : A) × (w : World) × (r ≡ ok a w) × P a w) ⊎ ((f : Fault) × (r ≡ fault f) × F f)
  cases (returns p) = inl (_, _, refl, p)
  cases (faults f) = inr (_, refl, f)

pub Same-trans : {u v w : World} → Same u v → Same v w → Same u w
Same-trans p q = ground arith

-- How many lists a pointer stands for.
abbrev pub lists_of {ℓ} : {A : Type ℓ} → List A → ℕ
lists_of [] = 0
lists_of (x ∷ l) = 1

-- What the running code owns, against a world before.
pub record Owns (v w : World) (b r l : ℕ) : Type 0 where
  pub lock : w.lock ≡ v.lock
  pub mmdb : w.mmdb ≡ v.mmdb
  pub closed : w.closed ≡ v.closed
  pub warnings : w.warnings ≡ v.warnings
  pub blocks : w.blocks ≡ b
  pub refs : w.refs ≡ r
  pub lists : w.lists ≡ l

-- An object that a call made, if it did: the one new reference is owned by the caller. A call that
-- makes none has set an exception.
abbrev pub New : {A : Type 0} → World → Option A → World → Type 0
New w none w' = Same w w' × (w'.refs ≡ w.refs) × (w'.error ≢ none)
New w (some a) w' = Same w w' × (w'.refs ≡ w.refs + 1) × (w'.error ≡ w.error)

-- Some allocation fails.
abbrev pub Starved : Env → Type 0
Starved env = (t : ℕ) × (env.memory t ≡ false)

abbrev pub NewObject : Env → World → Bool → World → Type 0
NewObject env w false w' = Owns w w' w.blocks w.refs w.lists × (w'.error ≢ none) × Starved env
NewObject env w true w' = Owns w w' w.blocks (w.refs + 1) w.lists × (w'.error ≡ w.error)

abbrev pub NewBlock : Env → World → Bool → World → Type 0
NewBlock env w false w' = Owns w w' w.blocks w.refs w.lists × (w'.error ≡ w.error) × Starved env
NewBlock env w true w' = Owns w w' (w.blocks + 1) w.refs w.lists × (w'.error ≡ w.error)

module _ (env : Env) (w : World) where
  pub new_object_lem : Given (NewObject env w) (new_object env w)
  unfolding new_object
  new_object_lem = elim (Bool-cases (env.memory w.time)) [
    | inl got ↦ given (rw got (returns (ground arith)))
    | inr lost ↦ given (rw lost (returns (ground arith, ground arith, (w.time, lost))))
  ]

  pub malloc_lem : Given (NewBlock env w) (malloc env w)
  unfolding malloc
  malloc_lem = elim (Bool-cases (env.memory w.time)) [
    | inl got ↦ given (rw got (returns (ground arith)))
    | inr lost ↦ given (rw lost (returns (ground arith, ground arith, (w.time, lost))))
  ]

pub decref_lem : {w : World} → 0 < w.refs → decref w ≡ ok tt (record w { refs = w.refs - 1 })
unfolding decref
decref_lem h = ground arith

pub free_lem : {w : World} → 0 < w.blocks → free w ≡ ok tt (record w { blocks = w.blocks - 1 })
unfolding free
free_lem h = ground arith

pub own_list_lem {ℓ} :
    {A : Type ℓ} (l : List A) (w : World)
    → own_list l w ≡ ok tt (record w { lists = w.lists + lists_of l })
unfolding own_list
own_list_lem [] w = ap (λ n. ok tt (record w { lists = n })) (omega arith)
own_list_lem (x ∷ l) w = refl

pub free_entry_data_list_lem {ℓ} :
    {A : Type ℓ} (l : List A) {w : World} (n : ℕ)
    → w.lists ≡ n + lists_of l
    → free_entry_data_list l w ≡ ok tt (record w { lists = n })
unfolding free_entry_data_list
free_entry_data_list_lem [] {w} n e = ap (λ (k : ℕ). ok tt (record w { lists = k })) (omega arith)
free_entry_data_list_lem (x ∷ l) n e = ground arith
