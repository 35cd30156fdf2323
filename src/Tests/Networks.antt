-- ===== src/Tests/Networks.antt =====
-- Iterations of extension/maxminddb.c over a small tree.
use max_mind_db_reader_pytho.Runtime.{ready, World}
use max_mind_db_reader_pytho.Iter.{reader_iter_dealloc}
use max_mind_db_reader_pytho.Iter.Dealloc.{Frees, reader_iter_dealloc-Frees}
use max_mind_db_reader_pytho.Base.{
  ◌+◌, ◌-◌, ◌^◌, ◌≤◌, ◌<◌, ◌⊎◌, pos, sub_ℕ, length, refl, replicate,
}
use max_mind_db_reader_pytho.Entry.BigEndian.{big_endian}
use max_mind_db_reader_pytho.Iter.Trie.{networks, packed, prefix}
use max_mind_db_reader_pytho.Iter.Order.{IsPrefix, IsOrdered, networks-IsOrdered}
use max_mind_db_reader_pytho.Iter.Family.{packed-big_endian}
use max_mind_db_reader_pytho.Base.{◌≡◌, refl, none, [], ◌∷◌, replicate, arith}
use max_mind_db_reader_pytho.Env.{Env, uint16}
use max_mind_db_reader_pytho.Runtime.Outcome.{Ensures}
use max_mind_db_reader_pytho.Entry.Layout.{Data, leaf, object, sequence, layout, value}
use mathlib.Core.Path.{subst}
use max_mind_db_reader_pytho.Base.{◌≢◌, sym, inl, inr}
use max_mind_db_reader_pytho.Entry.Layout.{leaf_value}
use max_mind_db_reader_pytho.Iter.{reader_iter_next, zero_node}
use max_mind_db_reader_pytho.Iter.Trie.{Trie, branch, data_at, nothing, Network, pending}
use max_mind_db_reader_pytho.Iter.Walk.{Yields, Bad}
use max_mind_db_reader_pytho.Iter.Next.{reader_iter_next-Yields}
use max_mind_db_reader_pytho.Iter.All.{iterate, Healthy, all_networks, Lists, iterate-Lists}
use max_mind_db_reader_pytho.Tests.Data.{city, an_entry, db, demo, open_reader}

-- The tree of two records under the root, over a library that finds the number 7 in every entry.
abbrev sevens : Env
sevens = record demo { mmdb_get_entry_data_list = λ e. (0, uint16 7 ∷ []) }

abbrev tree : Trie
tree = branch 0 (data_at an_entry) nothing

sevens-layout : (t : Data) → layout t [] ≡ uint16 7 ∷ [] → value sevens t ≢ none
sevens-layout (leaf e p) h =
    let same : uint16 7 ≡ e = cc in subst (λ d. leaf_value sevens d ≢ none) same (λ z. cc)
sevens-layout (object fs) h = absurd (ground arith)
sevens-layout (sequence xs) h = absurd (ground arith)

sevens_good : (n : Network) → ¬ Bad sevens db n
sevens_good n (inl unread) = unread refl
sevens_good n (inr (inl (t, l, v))) = sevens-layout t (sym l) v
sevens_good n (inr (inr refused)) = absurd (ground arith)

sevens-Healthy : Healthy sevens
sevens-Healthy = record { memory = λ t. refl; locks = λ t. refl; has_module = refl }

iterate_example :
    Ensures
      (Lists sevens db open_reader (all_networks sevens db tree))
      (iterate sevens 2 4 open_reader)
iterate_example =
    iterate-Lists sevens db (λ e h. (leaf (uint16 7) tt, refl)) sevens-Healthy tree 2 4 open_reader
      (0, refl) refl refl (refl, refl, refl, (refl, refl), refl) (omega arith) (omega arith)
      (omega arith) (sevens_good (record { ip = replicate 16 0; depth = 1; entry = an_entry }), tt)

next_example :
    Ensures
      (Yields demo db open_reader 0 3 (pending demo db (zero_node ∷ []) (tree ∷ [])))
      (reader_iter_next demo 4 (zero_node ∷ []) open_reader)
next_example =
    reader_iter_next-Yields demo db 4 0 (zero_node ∷ []) (tree ∷ []) open_reader
      (λ e h. (city, refl)) (0, refl) refl refl refl
      ((refl, refl, refl, (refl, refl), refl), omega arith, tt) (omega arith)

root-IsPrefix : IsPrefix 0 (replicate 16 0)
root-IsPrefix = record {
  length_lem = refl;
  octets = ground arith;
  below = ((0, refl), ground arith);
}

order_example :
    IsOrdered
      (big_endian (replicate 16 0))
      (big_endian (replicate 16 0) + 2 ^ (128 - 0))
      (networks 96 (replicate 16 0) 0 (branch 0 (data_at an_entry) (data_at an_entry)))
order_example =
    networks-IsOrdered 96 (replicate 16 0) 0 (branch 0 (data_at an_entry) (data_at an_entry))
      root-IsPrefix (omega arith)

-- The network 8000::/1.
abbrev upper_half : Network
upper_half = record { ip = 128 ∷ replicate 15 0; depth = 1; entry = an_entry }

packed_example :
    (big_endian (packed 128 upper_half) ≡ big_endian upper_half.ip)
    × (((2 ^ 32 ≤ big_endian upper_half.ip)
          × (length (packed 128 upper_half) ≡ 16)
          × (prefix 128 upper_half ≡ pos 1))
        ⊎ ((big_endian upper_half.ip < 2 ^ 32)
            × (length (packed 128 upper_half) ≡ 4)
            × (prefix 128 upper_half ≡ sub_ℕ 1 96)))
packed_example = packed-big_endian upper_half refl (ground arith)

-- An open reader with an iterator of two nodes.
abbrev iterating : World
iterating = record open_reader { blocks = 3; refs = 2 }

-- The last reference to the reader is the iterator's.
iter_dealloc_example :
    Ensures
      (λ _ u. Frees demo (ready 0 0) 0 1 0 iterating u)
      (reader_iter_dealloc demo 0 (zero_node ∷ zero_node ∷ []) iterating)
iter_dealloc_example =
    reader_iter_dealloc-Frees demo (ready 0 0) 0 (zero_node ∷ zero_node ∷ []) iterating 1 0 refl
      refl (omega arith) refl
