-- ===== src/Reader/State.antt =====
-- The module state: `get_maxminddb_state_from_self` of extension/maxminddb.c, lines 121-128.
use max_mind_db_reader_pytho.Base.{◌≡◌, ◌⊎◌, inl, inr, true, false, some, [], Bool-cases}
use max_mind_db_reader_pytho.Env.{Env}
use max_mind_db_reader_pytho.Runtime.{World, Exn, ok, by_callee}
use max_mind_db_reader_pytho.Reader.{get_state}

pub get_state_cases :
    (env : Env) (w : World)
    → (get_state env w ≡ ok true w)
      ⊎ ((x : Exn) × (get_state env w ≡ ok false (record w { error = some x }))
          × (env.has_module ≡ false))
unfolding get_state
get_state_cases env w = elim (Bool-cases env.has_module) [
  | inl known ↦ inl (rw known)
  | inr lost ↦
      inr (record { kind = by_callee; format = "PyType_GetModule"; args = [] }, rw lost, lost)
]
