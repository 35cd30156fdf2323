-- ===== src/Pure.antt =====
-- The reader in Python, maxminddb/reader.py and maxminddb/decoder.py: the results of its functions
-- and the buffer that they read.
pub mod Buffer
pub mod Decoder
pub mod Reader
pub mod Open
pub mod Init
pub mod File
pub mod Session
use max_mind_db_reader_pytho.Base.{ℕ, String}

-- The exceptions that the functions raise themselves, or that Python raises in them. A message is the
-- template of the source, without the values that are put in.
pub data Exn : Type 0 where
  invalid_database_error : String → Exn
  value_error : String → Exn
  index_error struct_error unicode_decode_error type_error recursion_error attribute_error
        os_error :
      Exn
  -- no exception of the code: the theorems exclude it
  not_modelled : Exn

pub data Result {ℓ} (A : Type ℓ) : Type ℓ where
  ok : A → Result A
  raises : Exn → Result A

abbrev pub pure {ℓ} : {A : Type ℓ} → A → Result A
pure = ok

module _ {ℓ κ} {A : Type ℓ} {B : Type κ} where
  infixl 5 ◌>>=◌
  abbrev pub ◌>>=◌ : Result A → (A → Result B) → Result B
  ok a >>= k = k a
  raises e >>= k = raises e
