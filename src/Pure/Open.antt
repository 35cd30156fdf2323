-- ===== src/Pure/Open.antt =====
-- Which reader `open_database` of maxminddb/__init__.py makes, lines 41-88, and how the one in Python
-- gets its buffer, `_load_buffer` of maxminddb/reader.py, lines 253-290.
pub mod Modes
use max_mind_db_reader_pytho.Base.{
  ℕ, ℤ, pos, negsuc, Bool, true, false, not, ◌&&◌, ◌||◌, String, ◌==◌, if◌then◌else◌,
}
use max_mind_db_reader_pytho.Pure.{Result, ok, raises, pure, ◌>>=◌, value_error, attribute_error}

-- `Mode` of maxminddb/const.py
abbrev pub mode_auto : ℕ
mode_auto = 0

abbrev pub mode_mmap_ext : ℕ
mode_mmap_ext = 1

abbrev pub mode_mmap : ℕ
mode_mmap = 2

abbrev pub mode_file : ℕ
mode_file = 4

abbrev pub mode_memory : ℕ
mode_memory = 8

abbrev pub mode_fd : ℕ
mode_fd = 16

abbrev pub is_mode : ℤ → ℕ → Bool
is_mode (pos n) mode = n == mode
is_mode (negsuc n) mode = false

-- The two readers, with the mode that they are made with.
pub data Choice : Type 0 where
  python_reader : ℤ → Choice
  extension_reader : ℤ → Choice

-- The modes that `open_database` knows.
unfoldable pub is_known : ℤ → Bool
is_known mode =
    is_mode mode mode_auto
    || is_mode mode mode_fd
    || is_mode mode mode_file
    || is_mode mode mode_memory
    || is_mode mode mode_mmap
    || is_mode mode mode_mmap_ext

-- `open_database`; `has_extension` is whether the module can be imported and has a `Reader`.
unfoldable pub open_database : (has_extension : Bool) → ℤ → Result Choice
unfolding is_known
open_database has_extension mode =
    if is_known mode
    then (let use_extension =
          if is_mode mode mode_auto then has_extension else is_mode mode mode_mmap_ext in
        if not use_extension
        then ok (python_reader mode)
        else if not has_extension
        then raises
            (value_error "MODE_MMAP_EXT requires the maxminddb.extension module to be available")
        else ok (extension_reader mode))
    else raises (value_error "Unsupported open mode: {mode}")

-- What `self._buffer` becomes.
pub data Source : Type 0 where
  mapped file_buffer whole_file read_from_object : Source

-- `_load_buffer`; without the module `mmap`, its use is an AttributeError of None.
unfoldable pub load_buffer : (has_mmap : Bool) → ℤ → Result Source
load_buffer has_mmap mode =
    if (is_mode mode mode_auto && has_mmap) || is_mode mode mode_mmap
    then if has_mmap then ok mapped else raises attribute_error
    else if is_mode mode mode_auto || is_mode mode mode_file
    then ok file_buffer
    else if is_mode mode mode_memory
    then ok whole_file
    else if is_mode mode mode_fd
    then ok read_from_object
    else raises (
        value_error
          "Unsupported open mode ({mode}). Only MODE_AUTO, MODE_FILE, MODE_MEMORY and MODE_FD are supported by the pure Python Reader")
