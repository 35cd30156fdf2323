-- ===== src/Pure/Session.antt =====
-- A reader in Python from its opening to its end: `close`, `__exit__` and `__enter__` of
-- maxminddb/reader.py, lines 292-309, and the `with` statement that runs them.
pub mod Answers
use max_mind_db_reader_pytho.Base.{ℕ, Bool, true, false, Option, String, List, if◌then◌else◌}
use max_mind_db_reader_pytho.Pure.{Result, ok, raises, pure, ◌>>=◌, value_error}
use max_mind_db_reader_pytho.Pure.Reader.{Reader}
use max_mind_db_reader_pytho.Pure.Init.{init}
use max_mind_db_reader_pytho.Pure.Open.{Source, mapped, file_buffer, whole_file, read_from_object}
use max_mind_db_reader_pytho.Pure.File.{open_file, init_file}

-- A reader with what its buffer is, whether that can be read, and the attribute `closed`.
pub record Session : Type 0 where
  pub reader : Reader
  pub source : Source
  pub is_readable : Bool
  pub closed : Bool

-- `__init__` on the bytes of a file, by the kind of buffer.
unfoldable pub open_session :
    (decode_utf8 : List ℕ → Option (List ℕ)) (limit : ℕ) → Source → List ℕ → Result Session
unfolding init init_file
open_session decode_utf8 limit source contents = do
  reader ← elim source [
    | file_buffer ↦ init_file decode_utf8 limit (open_file contents)
    | _ ↦ init decode_utf8 limit contents
  ]
  ok (record { reader = reader; source = source; is_readable = true; closed = false })

-- `close`: bytes have no `close`, and the AttributeError is suppressed.
unfoldable pub close_session : Session → Session
close_session self = record {
  reader = self.reader;
  source = self.source;
  is_readable = elim self.source [
    | mapped ↦ false
    | file_buffer ↦ false
    | whole_file ↦ self.is_readable
    | read_from_object ↦ self.is_readable
  ];
  closed = true;
}

-- `__enter__`
unfoldable pub enter : Session → Result Session
enter self =
    if self.closed then raises (value_error "Attempt to reopen a closed MaxMind DB") else ok self

-- `with self as reader`: the answer of the body, and the reader after `__exit__`, which is a close
-- and lets an exception of the body pass.
unfoldable pub with_session {ℓ} :
    {A : Type ℓ} (body : Reader → Result A) → Session → Result A × Session
unfolding enter close_session
with_session body self = elim (enter self) [
  | raises e ↦ (raises e, self)
  | ok entered ↦ (body entered.reader, close_session entered)
]
