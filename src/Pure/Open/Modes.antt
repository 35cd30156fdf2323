-- ===== src/Pure/Open/Modes.antt =====
-- The modes of the two readers fit those of `open_database`: maxminddb/__init__.py, lines 41-88,
-- maxminddb/reader.py, lines 253-290, and extension/maxminddb.c, lines 334-341.
use max_mind_db_reader_pytho.Base.{
  ℕ, ℤ, pos, negsuc, String, Bool, true, false, ◌≡◌, refl, ◌⊎◌, inl, inr, ◌==◌, Bool-cases, arith,
}
use max_mind_db_reader_pytho.Reader.{is_supported}
use max_mind_db_reader_pytho.Pure.{Result, Exn, ok, raises, value_error}
use max_mind_db_reader_pytho.Pure.Open.{
  is_known, Choice, python_reader, extension_reader, open_database, Source, load_buffer,
  mode_mmap_ext,
}

-- The exception is a ValueError.
abbrev pub IsValueError : Exn → Type 0
IsValueError e = (msg : String) × (e ≡ value_error msg)

abbrev pub Refused : Result Source → Type 0
Refused r = (msg : String) × (r ≡ raises (value_error msg))

-- What is chosen for a mode.
abbrev pub Chooses : (has_extension has_mmap : Bool) → ℤ → Result Choice → Type 0
Chooses has_extension has_mmap mode (ok (extension_reader m)) =
    (m ≡ mode) × (has_extension ≡ true) × (is_supported m ≡ true)
Chooses has_extension has_mmap mode (ok (python_reader m)) =
    (m ≡ mode)
    × (¬ Refused (load_buffer has_mmap m))
    × ((is_supported m ≡ false) ⊎ (has_extension ≡ false))
Chooses has_extension has_mmap mode (raises e) =
    IsValueError e
    × ((is_known mode ≡ false) ⊎ ((mode ≡ pos mode_mmap_ext) × (has_extension ≡ false)))

-- Each mode that is known, and those that are not.
Known : ℕ → Type 0
Known n =
    (n ≡ 0)
    ⊎ ((n ≡ 1) ⊎ ((n ≡ 2) ⊎ ((n ≡ 4) ⊎ ((n ≡ 8) ⊎ ((n ≡ 16) ⊎ (is_known (pos n) ≡ false))))))

Known-cases : (n : ℕ) → Known n
unfolding Known is_known
Known-cases n = elim (Bool-cases (n == 0)) [
  | inl a ↦ inl (ground arith)
  | inr a ↦ inr (elim (Bool-cases (n == 1)) [
    | inl b ↦ inl (ground arith)
    | inr b ↦ inr (elim (Bool-cases (n == 2)) [
      | inl c ↦ inl (ground arith)
      | inr c ↦ inr (elim (Bool-cases (n == 4)) [
        | inl d ↦ inl (ground arith)
        | inr d ↦ inr (elim (Bool-cases (n == 8)) [
          | inl e ↦ inl (ground arith)
          | inr e ↦ inr (elim (Bool-cases (n == 16)) [
            | inl f ↦ inl (ground arith)
            | inr f ↦ inr (rw (a, b, c, d, e, f) refl)
          ])
        ])
      ])
    ])
  ])
]

-- `open_database` decides for every mode: the extension only where it is there, and with a mode
-- that its constructor accepts; the reader in Python otherwise, with a mode that its loading does not
-- refuse with a ValueError, and only where the extension is missing or does not accept the mode (for
-- MODE_MMAP without the module mmap, loading is an AttributeError); and a ValueError for the modes
-- that nobody knows and for MODE_MMAP_EXT without the extension.
pub open_database-Chooses :
    (has_extension has_mmap : Bool) (mode : ℤ)
    → Chooses has_extension has_mmap mode (open_database has_extension mode)
unfolding open_database load_buffer is_supported is_known Known
open_database-Chooses has_extension has_mmap (negsuc n) = ((_, refl), inl refl)
open_database-Chooses has_extension has_mmap (pos n) = elim (Known-cases n) [
  | inl e ↦ rw e (auto has_extension has_mmap)
  | inr (inl e) ↦ rw e (mmap_ext has_extension)
  | inr (inr (inl e)) ↦ rw e (refl, mmap has_mmap, inl refl)
  | inr (inr (inr (inl e))) ↦ rw e (refl, (λ (msg, h). ground arith), inl refl)
  | inr (inr (inr (inr (inl e)))) ↦ rw e (refl, (λ (msg, h). ground arith), inl refl)
  | inr (inr (inr (inr (inr (inl e))))) ↦ rw e (refl, (λ (msg, h). ground arith), inl refl)
  | inr (inr (inr (inr (inr (inr e))))) ↦ rw e ((_, refl), inl e)
]
  where
    mmap : (has_mmap : Bool) → ¬ Refused (load_buffer has_mmap (pos 2))
    mmap true (msg, h) = ground arith
    mmap false (msg, h) = ground arith

    auto :
        (has_extension has_mmap : Bool)
        → Chooses has_extension has_mmap (pos 0) (open_database has_extension (pos 0))
    auto true m = (refl, refl, refl)
    auto false true = (refl, (λ (msg, h). ground arith), inr refl)
    auto false false = (refl, (λ (msg, h). ground arith), inr refl)

    mmap_ext :
        (has_extension : Bool)
        → Chooses has_extension has_mmap (pos 1) (open_database has_extension (pos 1))
    mmap_ext true = (refl, refl, refl)
    mmap_ext false = ((_, refl), inr (refl, refl))
