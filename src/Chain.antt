-- ===== src/Chain.antt =====
-- The nodes that an iterator of extension/maxminddb.c still has to visit, and its functions on
-- addresses: lines 72-80, 760-766, 824-847 and 879-889.
use Prim.Native.Nat.{bit_or}
use max_mind_db_reader_pytho.Base.{
  ℕ, ◌+◌, ◌-◌, ◌/◌, ◌%◌, ◌^◌, Bool, Option, String, List, [], ◌∷◌, ◌==◌, if◌then◌else◌, get_or, set,
  take, replicate,
}
use mathlib.Core.Bool.{not}
use max_mind_db_reader_pytho.Env.{Entry, SearchNode}
use max_mind_db_reader_pytho.Value.{Value}

-- `struct record`, without its `next`: a chain of them is a list.
pub record Node : Type 0 where
  pub ip_packed : List ℕ
  pub depth : ℕ
  pub value : ℕ  -- the field `record`
  pub type : ℕ
  pub entry : Entry

-- `calloc(1, sizeof(record))`
abbrev pub zero_node : Node
zero_node = record {
  ip_packed = replicate 16 0;
  depth = 0;
  value = 0;
  type = 0;
  entry = record { image = 0; offset = 0 };
}

-- `MMDB_RECORD_TYPE_SEARCH_NODE` and so on
abbrev pub search_node : ℕ
search_node = 0

abbrev pub empty : ℕ
empty = 1

abbrev pub data_record : ℕ
data_record = 2

abbrev pub invalid : ℕ
invalid = 3

-- The loop of `is_ipv6`.
unfoldable pub or_all : ℕ → List ℕ → ℕ
or_all z [] = z
or_all z (b ∷ bs) = or_all (bit_or z b) bs

unfoldable pub is_ipv6 : List ℕ → Bool
unfolding or_all
is_ipv6 ip = not (or_all 0 (take 12 ip) == 0)

-- A network and its record.
abbrev pub Item : Type 0
Item = String × Value

-- Where a round of the `while` loop leads: on, or to a return.
pub data Round : Type 0 where
  again : List Node → Round
  stop : Option Item → List Node → Round

-- `ip_packed[depth / 8] |= 1 << (7 - depth % 8)` inside the array.
unfoldable pub set_bit : ℕ → List ℕ → List ℕ
set_bit depth ip = set ip (depth / 8) (bit_or (get_or ip (depth / 8) 0) (2 ^ (7 - depth % 8)) % 256)

unfoldable pub left_node : Node → SearchNode → Node
left_node cur node = record {
  ip_packed = cur.ip_packed;
  depth = cur.depth + 1;
  value = node.left_record;
  type = node.left_record_type;
  entry = node.left_record_entry;
}

unfoldable pub right_node : Node → SearchNode → Node
unfolding set_bit
right_node cur node = record {
  ip_packed = set_bit cur.depth cur.ip_packed;
  depth = cur.depth + 1;
  value = node.right_record;
  type = node.right_record_type;
  entry = node.right_record_entry;
}

-- Where the address begins in `ip_packed`, and how many bytes it has.
unfoldable pub ip_start : (tree_depth : ℕ) → List ℕ → ℕ
ip_start tree_depth ip = if tree_depth == 128 then (if is_ipv6 ip then 0 else 12) else 0

unfoldable pub ip_length : (tree_depth : ℕ) → List ℕ → ℕ
ip_length tree_depth ip = if tree_depth == 128 then (if is_ipv6 ip then 16 else 4) else 4
