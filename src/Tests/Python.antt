-- ===== src/Tests/Python.antt =====
-- The reader of maxminddb/reader.py on a database with one node, whose right record has a string.
use max_mind_db_reader_pytho.Base.{
  ℕ, ◌+◌, String, ℤ, pos, ◌≡◌, refl, Option, some, List, [], ◌∷◌, ◌++◌, map, replicate, arith, true,
  false, length,
}
use max_mind_db_reader_pytho.Env.{Entry}
use max_mind_db_reader_pytho.Entry.BigEndian.{big_endian}
use max_mind_db_reader_pytho.Chain.{set_bit}
use max_mind_db_reader_pytho.Iter.Trie.{Trie, nothing, data_at, branch, networks}
use max_mind_db_reader_pytho.Pure.{Result, ok, raises, type_error, recursion_error}
use max_mind_db_reader_pytho.Pure.Decoder.{Decoder, str, decode}
use max_mind_db_reader_pytho.Pure.Decoder.Format.{control, Stored, leaf, text, one_byte}
use max_mind_db_reader_pytho.Pure.Decoder.Reads.{decode-Stored}
use max_mind_db_reader_pytho.Pure.Decoder.Cycles.{decode-IsTrap}
use max_mind_db_reader_pytho.Pure.Decoder.RoundTrip.{
  Data, plain, array_of, none_left, element, encode, record_of, decode-encode,
}
use max_mind_db_reader_pytho.Pure.Reader.{
  Metadata, Reader, read_node, find_address_in_tree, get_with_prefix_len, object, address_of,
  start_node,
}
use max_mind_db_reader_pytho.Pure.Reader.Nodes.{NodeBytes, small, read_node-NodeBytes}
use max_mind_db_reader_pytho.Pure.Reader.Tree.{Holds, descend, answer}
use max_mind_db_reader_pytho.Pure.Reader.Bits.{bit_of}
use max_mind_db_reader_pytho.Pure.Reader.Lookup.{
  find_address_in_tree-descend, get_with_prefix_len-Leads,
}
use max_mind_db_reader_pytho.Pure.Reader.Children.{iter}
use max_mind_db_reader_pytho.Pure.Reader.Children.Collect.{collect}
use max_mind_db_reader_pytho.Pure.Reader.Children.Networks.{item_of, iter-networks}
use max_mind_db_reader_pytho.Pure.Open.{open_database}
use max_mind_db_reader_pytho.Pure.Open.Modes.{Chooses, open_database-Chooses}

abbrev pub ascii : List ℕ → Option (List ℕ)
ascii bs = some bs

abbrev pub node : List ℕ
node = 0 ∷ 0 ∷ 1 ∷ 0 ∷ 0 ∷ 17 ∷ []

abbrev file : List ℕ
file = node ++ (replicate 16 0 ++ (65 ∷ 97 ∷ []))

abbrev pub metadata : Metadata
metadata = record { ip_version = 6; node_count = 1; record_size = 24 }

abbrev reader : Reader
reader = record { buffer = file; buffer_size = 24; metadata = metadata; ipv4_start = 1 }

abbrev decoder : Decoder
decoder = record { buffer = file; pointer_base = 22; pointer_test = false }

abbrev first_entry : Entry
first_entry = record { image = 0; offset = 0 }

abbrev pub tree : Trie
tree = branch 0 nothing (data_at first_entry)

-- 8000::
abbrev pub address : List ℕ
address = 128 ∷ replicate 15 0

pub node-NodeBytes : NodeBytes 24 1 17 node
node-NodeBytes = small (omega arith) (omega arith)

file-Holds : Holds file metadata 0 tree
file-Holds =
    (refl, omega arith, 1, 17, node, node-NodeBytes, record { rest = _; is = refl }, refl, refl)

letter : Stored ascii decoder 1 22 (str (97 ∷ [])) 24
unfolding control
letter = leaf (text {bs = 97 ∷ []} refl) (omega arith) (record { rest = []; is = refl })

stored_example : decode ascii decoder 1 22 ≡ ok (str (97 ∷ []), 24)
stored_example = decode-Stored ascii decoder refl 1 (omega arith) letter

-- A pointer to itself.
abbrev loop : Decoder
loop = record { buffer = 32 ∷ 0 ∷ []; pointer_base = 0; pointer_test = false }

trap_example : decode ascii loop 5 0 ≡ raises recursion_error
trap_example =
    decode-IsTrap ascii loop (λ o. o ≡ 0) refl
      (λ o e. (_, _, one_byte 0 0 (omega arith), record { rest = []; is = rw e refl }, refl)) 5 0
      refl

-- ["a", "bc"]
abbrev letters : Data
letters = array_of (
    element (plain 2 1 (97 ∷ []) (str (97 ∷ [])))
      (element (plain 2 2 (98 ∷ 99 ∷ []) (str (98 ∷ 99 ∷ []))) none_left))

round_trip_example :
    decode ascii
      (record {
        buffer = (0 ∷ []) ++ (encode letters ++ (7 ∷ []));
        pointer_base = 0;
        pointer_test = false;
      })
      4
      1
    ≡ ok (record_of letters, 1 + length (encode letters))
round_trip_example =
    decode-encode ascii (0 ∷ []) (7 ∷ []) letters 0 4
      (((text refl, omega arith), ((text refl, omega arith), tt)), omega arith) (omega arith)

node_example : (read_node file metadata 0 0 ≡ ok 1) × (read_node file metadata 0 1 ≡ ok 17)
node_example =
    read_node-NodeBytes file metadata 0 1 17 node node-NodeBytes (record { rest = _; is = refl })

find_example :
    find_address_in_tree reader address
    ≡ answer metadata (descend (bit_of 128 (big_endian address)) 128 0 tree)
unfolding start_node
find_example = find_address_in_tree-descend reader address (ground arith) tree file-Holds

abbrev pub no_names : String → Result (List ℕ × ℕ)
no_names s = raises type_error

lookup_example :
    get_with_prefix_len reader ascii 1 no_names (object (some address) 6)
    ≡ ok (some (str (97 ∷ [])), (descend (bit_of 128 (big_endian address)) 128 0 tree).1)
unfolding start_node big_endian address_of
lookup_example =
    get_with_prefix_len-Leads ascii reader 1 no_names (object (some address) 6) address 6 tree
      (some (str (97 ∷ []))) refl (ground arith) refl file-Holds
      (1, 24, omega arith, omega arith, letter)

abbrev network : ℕ → ℤ → Result (ℕ × ℤ)
network n p = ok (n, p)

iter_example :
    iter network reader ascii 1 5
    ≡ collect (map (item_of network reader ascii 1) (networks 1 (replicate 16 0) 0 tree))
unfolding big_endian set_bit
iter_example =
    iter-networks network reader ascii 1 5 tree (omega arith) (omega arith) refl file-Holds
      ((λ e. ground arith), tt, (λ e. ground arith)) ((λ e. ground arith), tt)

open_example : Chooses true false (pos 4) (open_database true (pos 4))
open_example = open_database-Chooses true false (pos 4)
