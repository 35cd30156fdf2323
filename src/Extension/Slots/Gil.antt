-- ===== src/Extension/Slots/Gil.antt =====
-- The module gives up the GIL only with a lock that excludes: extension/maxminddb.c, lines 23-45,
-- 195-285 and 1407-1416.
use max_mind_db_reader_pytho.Base.{
  ℕ, ◌+◌, ◌<◌, ◌≡◌, ◌≢◌, refl, ◌∙◌, sym, Bool, true, false, List, [], ◌∷◌, Bool-cases, inl, inr,
  arith, ◌||◌,
}
use max_mind_db_reader_pytho.Env.{Env, Strategy, gil_only, windows_locks, pthread_locks}
use max_mind_db_reader_pytho.Runtime.{World, ready}
use max_mind_db_reader_pytho.Lock.{reader_acquire_write_lock, reader_acquire_read_lock}
use max_mind_db_reader_pytho.Lock.Exclusion.{Withheld, acquire-Withheld}
use max_mind_db_reader_pytho.Extension.Slots.{
  Platform, ModuleSlot, mod_gil_not_used, lock_strategy, maxminddb_slots, gil_slot,
  py_init_extension,
}

abbrev is_gil_not_used : ModuleSlot → Bool
is_gil_not_used mod_gil_not_used = true
is_gil_not_used _ = false

abbrev pub runs_without_gil : List ModuleSlot → Bool
runs_without_gil [] = false
runs_without_gil (s ∷ slots) = is_gil_not_used s || runs_without_gil slots

slots_lem :
    (p : Platform)
    → runs_without_gil (maxminddb_slots p) ≡ runs_without_gil (gil_slot (lock_strategy p))
unfolding maxminddb_slots
slots_lem p = elim (Bool-cases p.python_3_12) [ inl e ↦ rw e refl | inr e ↦ rw e refl ]

gil_slot_lem : (s : Strategy) → runs_without_gil (gil_slot s) ≡ true → s ≢ gil_only
gil_slot_lem gil_only h = absurd (ground arith)
gil_slot_lem windows_locks h = λ e. cc
gil_slot_lem pthread_locks h = λ e. cc

-- Where the definition of the module for a platform declares that it runs without the GIL, the
-- locks of that platform exclude: while a reader is held by some call, no close gets it, and while
-- a close holds it, no call that reads does.
pub py_init_extension-Withheld :
    (p : Platform) (env : Env) (w : World) (r x : ℕ)
    → env.strategy ≡ lock_strategy p
    → runs_without_gil (py_init_extension p).m_slots ≡ true
    → w.lock ≡ ready r x
    → (0 < r + x → Withheld (reader_acquire_write_lock env w))
      × (0 < x → Withheld (reader_acquire_read_lock env w))
unfolding py_init_extension
py_init_extension-Withheld p env w r x same without lock =
    acquire-Withheld env w r x
      (λ e. gil_slot_lem (lock_strategy p) (sym (slots_lem p) ∙ without) (sym same ∙ e)) lock
