-- ===== src/Extension/Clear.antt =====
-- What `maxminddb_clear`, `maxminddb_free` and `maxminddb_traverse` do to a module, and to one that
-- `maxminddb_exec` left: extension/maxminddb.c, lines 1318-1340.
use max_mind_db_reader_pytho.Base.{
  ℕ, ◌+◌, ◌-◌, ℤ, pos, negsuc, Bool, Option, none, some, List, [], ◌∷◌, ◌≡◌, refl, ap, sym, ◌∙◌,
  arith,
}
use max_mind_db_reader_pytho.Extension.{
  Cmd, pure, and_then, py_visit, ◌>>◌, Pointer, State, null_state, Loader, World, one, clear_slot,
  maxminddb_clear, maxminddb_free, maxminddb_traverse, maxminddb_exec, set_reader_type,
  set_reader_iter_type, set_metadata_type, set_maxmind_db_error, set_ipaddress_ip_network,
}
use max_mind_db_reader_pytho.Extension.Exec.{
  in_slot, in_state, in_names, Accounts, new_module, IsLost, maxminddb_exec-Loads, Loads,
  decref_lem, one_self,
}

-- A slot that is cleared is NULL, and gives up its reference if it had one.
clear_slot_lem :
    (slot : State → Pointer) (put : Pointer → State → State) (v : World)
    → put (slot v.state) v.state ≡ v.state
    → (rest : ℕ → ℕ) → ((q : ℕ) → v.refs q ≡ rest q + in_slot (slot v.state) q)
    → (refs : ℕ → ℕ) × (clear_slot slot (put none) v
        ≡ some (tt, record v { state = put none v.state; refs = refs }))
      × ((q : ℕ) → refs q ≡ rest q)
unfolding clear_slot
clear_slot_lem slot put v same rest h = go (slot v.state) refl same h
  where
    go :
        (o : Pointer)
        → slot v.state ≡ o
        → put o v.state ≡ v.state
        → ((q : ℕ) → v.refs q ≡ rest q + in_slot o q)
        → (refs : ℕ → ℕ) × (clear_slot slot (put none) v
            ≡ some (tt, record v { state = put none v.state; refs = refs }))
          × ((q : ℕ) → refs q ≡ rest q)
    go none e back k = (v.refs, rw (clear_slot, e, back) refl, λ q. omega (arith, k q))
    go (some p) e back k = (
      (λ q. v.refs q - one p q),
      rw
          (
            clear_slot,
            e,
            decref_lem p (record v { state = put none v.state }) (omega (arith, k p, one_self p)),
          )
          refl,
      λ q. omega (arith, k q),
    )

-- The state is empty, and the references that it had are given up.
abbrev pub Empties : World → (ℕ → ℕ) → World → Type 0
Empties v rest u =
    (u.state ≡ null_state)
    × (u.names ≡ v.names)
    × (u.error ≡ v.error)
    × ((q : ℕ) → u.refs q ≡ rest q)

abbrev pub Emptied : World → (ℕ → ℕ) → Option (ℤ × World) → Type 0
Emptied v rest r = (u : World) × (r ≡ some (pos 0, u)) × Empties v rest u

-- The clearing of one slot and of those behind it.
clear_then :
    (slot : State → Pointer) (put : Pointer → State → State) (k : Cmd ℤ) (v : World)
    → put (slot v.state) v.state ≡ v.state
    → (rest left : ℕ → ℕ) → ((q : ℕ) → v.refs q ≡ left q + in_slot (slot v.state) q)
    → ((refs : ℕ → ℕ)
        → ((q : ℕ) → refs q ≡ left q)
        → Emptied v rest (k (record v { state = put none v.state; refs = refs })))
    → Emptied v rest (and_then (clear_slot slot (put none) v) (λ _. k))
clear_then slot put k v same rest left h next =
    let (f, e, h') = clear_slot_lem slot put v same left h in rw e (next f h')

-- The parts of `maxminddb_clear`, from the last.
abbrev last_two : Cmd ℤ
last_two = do
  clear_slot (λ s. s.maxmind_db_error) (set_maxmind_db_error none)
  clear_slot (λ s. s.ipaddress_ip_network) (set_ipaddress_ip_network none)
  pure (pos 0)

abbrev last_three : Cmd ℤ
last_three = do clear_slot (λ s. s.metadata_type) (set_metadata_type none); last_two

abbrev last_four : Cmd ℤ
last_four = do clear_slot (λ s. s.reader_iter_type) (set_reader_iter_type none); last_three

maxminddb_clear-Emptied :
    (v : World) (rest : ℕ → ℕ)
    → ((q : ℕ) → v.refs q ≡ rest q + in_state v.state q)
    → Emptied v rest (maxminddb_clear v)
unfolding maxminddb_clear
maxminddb_clear-Emptied v rest h =
    let s₁ = set_reader_type none v.state in
    let s₂ = set_reader_iter_type none s₁ in
    let s₃ = set_metadata_type none s₂ in
    let s₄ = set_maxmind_db_error none s₃ in
    clear_then (λ s. s.reader_type) set_reader_type last_four v refl rest
      (λ q. rest q + in_state s₁ q) (λ q. omega (arith, h q))
      (λ f₁ h₁.
        clear_then (λ s. s.reader_iter_type) set_reader_iter_type last_three
          (record v { state = s₁; refs = f₁ }) refl rest (λ q. rest q + in_state s₂ q)
          (λ q. omega (arith, h₁ q))
          (λ f₂ h₂.
            clear_then (λ s. s.metadata_type) set_metadata_type last_two
              (record v { state = s₂; refs = f₂ }) refl rest (λ q. rest q + in_state s₃ q)
              (λ q. omega (arith, h₂ q))
              (λ f₃ h₃.
                clear_then (λ s. s.maxmind_db_error) set_maxmind_db_error
                  (do
                    clear_slot (λ s. s.ipaddress_ip_network) (set_ipaddress_ip_network none)
                    pure (pos 0))
                  (record v { state = s₃; refs = f₃ }) refl rest (λ q. rest q + in_state s₄ q)
                  (λ q. omega (arith, h₃ q))
                  (λ f₄ h₄.
                    clear_then (λ s. s.ipaddress_ip_network) set_ipaddress_ip_network (pure (pos 0))
                      (record v { state = s₄; refs = f₄ }) refl rest rest (λ q. omega (arith, h₄ q))
                      (λ f₅ h₅. (_, refl, (refl, refl, refl, h₅)))))))

-- A visitor that never stops, and what it is shown.
abbrev pub show : ℕ → List ℕ → ℤ × List ℕ
show p seen = (pos 0, p ∷ seen)

abbrev pub visited : State → List ℕ
visited s = (maxminddb_traverse show s []).1

abbrev pub occurrences : List ℕ → ℕ → ℕ
occurrences [] q = 0
occurrences (p ∷ ps) q = one p q + occurrences ps q

-- The visit of a slot, with what is visited behind it.
visit_then :
    (o : Pointer) (rest : List ℕ → ℤ × List ℕ) (n : ℕ) (q : ℕ)
    → ((seen : List ℕ) → occurrences (rest seen).1 q ≡ occurrences seen q + n)
    → (seen : List ℕ)
    → occurrences (py_visit show o rest seen).1 q ≡ occurrences seen q + (in_slot o q + n)
visit_then none rest n q h seen = omega (arith, h seen)
visit_then (some p) rest n q h seen = omega (arith, h (p ∷ seen))

visited_lem : (s : State) (q : ℕ) → occurrences (visited s) q ≡ in_state s q
unfolding maxminddb_traverse
visited_lem s q =
    let done : List ℕ → ℤ × List ℕ = λ seen. (pos 0, seen) in
    let network = py_visit show s.ipaddress_ip_network done in
    let error = py_visit show s.maxmind_db_error network in
    let metadata = py_visit show s.metadata_type error in
    let iter = py_visit show s.reader_iter_type metadata in
    let h =
      visit_then s.reader_type iter _ q
        (visit_then s.reader_iter_type metadata _ q (
          visit_then s.metadata_type error _ q (
            visit_then s.maxmind_db_error network _ q
              (visit_then s.ipaddress_ip_network done 0 q (λ seen. omega arith)))))
        [] in
    omega (arith, h)

free_again : (u : World) → u.state ≡ null_state → maxminddb_free u ≡ some (tt, u)
unfolding maxminddb_free maxminddb_clear clear_slot
free_again u null = rw (maxminddb_free, null) refl

-- The world has the references of its state, and `rest`.
abbrev pub Holds : World → (ℕ → ℕ) → Type 0
Holds v rest = (q : ℕ) → v.refs q ≡ rest q + in_state v.state q

-- Clearing a module that owns the references of its state returns 0 and meets no reference that is
-- gone; each slot is NULL then, the names and the error indicator are as before, and exactly the
-- references that maxminddb_traverse shows to a visitor are given up. To free it then changes
-- nothing more.
pub maxminddb_clear-visited :
    (v : World) (rest : ℕ → ℕ)
    → Holds v rest
    → (u : World) × (maxminddb_clear v ≡ some (pos 0, u))
      × Empties v rest u
      × ((q : ℕ) → v.refs q ≡ u.refs q + occurrences (visited v.state) q)
      × (maxminddb_free u ≡ some (tt, u))
unfolding maxminddb_free
maxminddb_clear-visited v rest h =
    let (u, e, (null, names, error, left)) = maxminddb_clear-Emptied v rest h in
    (
      u,
      e,
      (null, names, error, left),
      (λ q. omega (arith, h q, left q, visited_lem v.state q)),
      free_again u null,
    )

Loads-IsLost :
    (loader : Loader) (before : ℕ → ℕ) (error : Bool) (x : ℤ) (v : World)
    → Loads loader before error x v
    → (lost : Pointer) × IsLost loader lost × Accounts before lost v
Loads-IsLost loader before error (pos n) v (result, loaded, accounts, clean) = (none, tt, accounts)
Loads-IsLost loader before error (negsuc n) v (result, failed, lost, why, accounts) =
    (lost, why, accounts)

-- After the execution of a new module, whatever its result, clearing it returns 0, leaves the state
-- empty, and the references that are left are those from before, those of the module's dict, and at
-- most one that was lost where a name could not be set.
pub maxminddb_exec-maxminddb_clear :
    (loader : Loader) (before : ℕ → ℕ) (error : Bool)
    → (x : ℤ) × (v : World) × (maxminddb_exec loader (new_module before error) ≡ some (x, v))
      × (lost : Pointer) × IsLost loader lost
      × (u : World) × (maxminddb_clear v ≡ some (pos 0, u))
      × (u.state ≡ null_state)
      × ((q : ℕ) → u.refs q ≡ before q + in_names u.names q + in_slot lost q)
maxminddb_exec-maxminddb_clear loader before error =
    let (x, v, e, loads) = maxminddb_exec-Loads loader before error in
    let (lost, why, accounts) = Loads-IsLost loader before error x v loads in
    let (u, cleared, null, left) = after v lost accounts in
    (x, v, e, lost, why, u, cleared, null, left)
  where
    after :
        (v : World) (lost : Pointer)
        → Accounts before lost v
        → (u : World) × (maxminddb_clear v ≡ some (pos 0, u))
          × (u.state ≡ null_state)
          × ((q : ℕ) → u.refs q ≡ before q + in_names u.names q + in_slot lost q)
    after v lost accounts =
        let (u, e, (null, names, clean, left)) =
          maxminddb_clear-Emptied v (λ q. before q + in_names v.names q + in_slot lost q)
            (λ q. omega (arith, accounts q)) in
        (u, e, null, λ q. left q ∙ ap (λ ns. before q + in_names ns q + in_slot lost q) (sym names))
