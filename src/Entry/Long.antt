-- ===== src/Entry/Long.antt =====
-- A uint32 of the database becomes a Python number through a C `long`: extension/maxminddb.c, lines
-- 1028-1060.
use max_mind_db_reader_pytho.Base.{
  ℕ, suc, pos, negsuc, ℤ, ◌+◌, ◌-◌, ◌^◌, ◌≤◌, ◌<◌, ◌≡◌, ◌≢◌, refl, ◌⊎◌, inl, inr, true, false, some,
  none, ◌∷◌, ltb, Bool-cases, arith,
}
use max_mind_db_reader_pytho.Env.{Env, EntryDataList, uint32}
use max_mind_db_reader_pytho.Runtime.{World}
use max_mind_db_reader_pytho.Runtime.Outcome.{Ensures, returns, gave, Owns, Starved, new_object_lem}
use max_mind_db_reader_pytho.Value.{Value}
use max_mind_db_reader_pytho.Entry.{Decoded, new_value, to_long, from_entry_data_list}

-- The number that the Python object has.
pub data LongOf (bits n : ℕ) : ℤ → Type 0 where
  exact : {z : ℤ} → (bits ≡ 64) ⊎ (n < 2 ^ 31) → z ≡ pos n → LongOf bits n z
  negative : {z : ℤ} → bits ≡ 32 → 2 ^ 31 ≤ n → z ≡ negsuc (2 ^ 32 - n - 1) → LongOf bits n z

to_long-LongOf :
    (bits n : ℕ) → (bits ≡ 64) ⊎ (bits ≡ 32) → n < 2 ^ 32 → LongOf bits n (to_long bits n)
unfolding to_long
to_long-LongOf bits n (inl e) h = exact (inl e) (rw e (ground arith))
to_long-LongOf bits n (inr e) h = elim (Bool-cases (ltb n (2 ^ 31))) [
  | inl lt ↦ exact (inr (ground arith)) (rw e (ground arith))
  | inr ge ↦ negative e (ground arith) (rw e (ground arith))
]

-- The object of the entry, and the list pointer where it was; NULL only for want of memory.
abbrev pub Reads : Env → ℕ → EntryDataList → World → Decoded → World → Type 0
Reads env n l w (none, left) u =
    (left ≡ l) × Owns w u w.blocks w.refs w.lists × (u.error ≢ none) × Starved env
Reads env n l w (some v, left) u =
    (left ≡ l)
    × Owns w u w.blocks (w.refs + 1) w.lists
    × (z : ℤ) × (v ≡ Value.int z)
    × LongOf env.long_bits n z

-- An entry of type uint32 is read, where a C long has 64 bits, as the Python int of its number; where
-- it has 32 bits, so below 2^31, but from there on as the negative number that is 2^32 less. The
-- object is the only new reference, and there is none only for want of memory, with an exception.
pub from_entry_data_list-LongOf :
    (env : Env) (fuel n : ℕ) (l : EntryDataList) (w : World)
    → (env.long_bits ≡ 64) ⊎ (env.long_bits ≡ 32)
    → n < 2 ^ 32
    → Ensures (Reads env n (uint32 n ∷ l) w) (from_entry_data_list env (suc fuel) (uint32 n ∷ l) w)
unfolding from_entry_data_list new_value
from_entry_data_list-LongOf env fuel n l w bits h = elim (new_object_lem env w) [
  | gave true u e (owns, same) ↦
      rw e (returns (refl, owns, _, refl, to_long-LongOf env.long_bits n bits h))
  | gave false u e (owns, set, starved) ↦ rw e (returns (refl, owns, set, starved))
]
