-- ===== src/Tests/Data.antt =====
-- A small database for tests of extension/maxminddb.c: an IPv6 tree whose lookups find a record under
-- an even address and none under an odd one.
use max_mind_db_reader_pytho.Base.{ℕ, pos, ◌^◌, ◌*◌, ◌%◌, true, none, some, List, [], ◌∷◌, ◌==◌}
use max_mind_db_reader_pytho.Env.{
  Env, SockAddr, af_inet, Mmdb, Entry, SearchNode, pthread_locks, uint16,
}
use max_mind_db_reader_pytho.Runtime.{World, py_false, py_true, ready}
use max_mind_db_reader_pytho.Entry.Layout.{
  Data, leaf, object, field, end, sequence, cons, nil, layout,
}
use max_mind_db_reader_pytho.Runtime.{uninit, null}

-- {"en": [1, 2]}
abbrev pub city : Data
city = object (
    field (b'e' ∷ b'n' ∷ []) (sequence (cons (leaf (uint16 1) tt) (cons (leaf (uint16 2) tt) nil)))
      end)

abbrev pub an_entry : Entry
an_entry = record { image = 1; offset = 64 }

abbrev pub db : Mmdb
db = record { depth = 128; ip_version = 6; ipv4_start_node = 96; image = 1 }

abbrev pub address : SockAddr
address = record { family = af_inet; addr = 1 ∷ 2 ∷ 3 ∷ 4 ∷ [] }

abbrev pub last_of : List ℕ → ℕ
last_of [] = 0
last_of (x ∷ []) = x
last_of (x ∷ y ∷ l) = last_of (y ∷ l)

-- Two records below the root: data on the left, nothing on the right.
abbrev pub root_node : SearchNode
root_node = record {
  left_record = 64;
  right_record = 3;
  left_record_type = 2;
  right_record_type = 1;
  left_record_entry = an_entry;
  right_record_entry = an_entry;
}

abbrev pub demo : Env
demo = record {
  memory = λ t. true;
  lock_result = λ t. 0;
  strategy = pthread_locks;
  strerror = λ e. "error";
  access = λ path. pos 0;
  long_bits = 64;
  getaddrinfo = λ s. (0, some (record { family = af_inet; addr = s }));
  inet_ntop = λ a. some "address";
  has_module = true;
  decode_utf8 = λ s. some s;
  double_of_float = λ x. x * 2 % 2 ^ 64;
  ip_network = λ b n. some "network";
  mmdb_open = λ path. (0, db);
  mmdb_lookup_sockaddr =
      λ m a. (0, record { found_entry = last_of a.addr % 2 == 0; entry = an_entry; netmask = 120 });
  mmdb_get_entry_data_list = λ e. (0, layout city []);
  mmdb_get_metadata_as_entry_data_list = λ m. (0, layout city []);
  mmdb_read_node = λ m n. (0, root_node);
  mmdb_strerror = λ e. "error";
}

-- A reader that is open and that nobody is using, and one that is closed.
abbrev pub open_reader : World
open_reader = record {
  lock = ready 0 0;
  mmdb = some db;
  closed = py_false;
  error = none;
  warnings = [];
  blocks = 1;
  refs = 0;
  lists = 0;
  time = 0;
}

abbrev pub closed_reader : World
closed_reader = record open_reader { mmdb = none; closed = py_true; blocks = 0 }

-- A reader that has just been allocated.
abbrev pub new_reader : World
new_reader = record open_reader { lock = uninit; mmdb = none; closed = null; blocks = 0 }
