-- ===== src/Iter/Trie.antt =====
-- The search tree that an iterator walks, as a tree, and the networks in it: what `Reader_iter` and
-- `ReaderIter_next` promise (extension/maxminddb.c, lines 718-940).
use Prim.Native.Nat.{max}
use max_mind_db_reader_pytho.Base.{
  ℕ, suc, ℤ, sub_ℕ, ◌+◌, ◌*◌, ◌%◌, ◌^◌, ◌≤◌, ◌≡◌, List, [], ◌∷◌, ◌++◌, ◌==◌, ◌&&◌, if◌then◌else◌,
  take, drop,
}
use max_mind_db_reader_pytho.Env.{Env, Mmdb, Entry, SearchNode}
use max_mind_db_reader_pytho.Iter.{
  Node, search_node, empty, data_record, is_ipv6, set_bit, ip_start, ip_length,
}

-- A record of the tree: nothing, the entry of some data, or the search node of that number.
pub data Trie : Type 0 where
  nothing : Trie
  data_at : Entry → Trie
  branch : (number : ℕ) → Trie → Trie → Trie

abbrev pub height : Trie → ℕ
height nothing = 0
height (data_at e) = 0
height (branch n l r) = suc (max (height l) (height r))

abbrev pub size : Trie → ℕ
size nothing = 1
size (data_at e) = 1
size (branch n l r) = suc (size l + size r)

pub record Network : Type 0 where
  pub ip : List ℕ
  pub depth : ℕ
  pub entry : Entry

-- The networks below a record in the order of their addresses. Where the tree of IPv4 hangs under an
-- IPv6 address again, it is an alias and left out.
abbrev pub networks : (ipv4_start : ℕ) → (ip : List ℕ) → (depth : ℕ) → Trie → List Network
networks s ip d nothing = []
networks s ip d (data_at e) = record { ip = ip; depth = d; entry = e } ∷ []
networks s ip d (branch n l r) =
    if (n == s) && is_ipv6 ip
    then []
    else networks s ip (d + 1) l ++ networks s (set_bit d ip) (d + 1) r

-- The arguments of `ip_network` for a network: its bytes and its prefix length.
abbrev pub packed : (tree_depth : ℕ) → Network → List ℕ
packed tree_depth n = take (ip_length tree_depth n.ip) (drop (ip_start tree_depth n.ip) n.ip)

abbrev pub prefix : (tree_depth : ℕ) → Network → ℤ
prefix tree_depth n = sub_ℕ n.depth (ip_start tree_depth n.ip * 8)

module _ (env : Env) (mmdb : Mmdb) where
  -- The node that the database holds under a number.
  abbrev pub stored : ℕ → SearchNode
  stored value = (env.mmdb_read_node mmdb (value % 2 ^ 32)).1

  -- The database holds that tree under a record.
  abbrev pub Denotes : (value type : ℕ) → Entry → Trie → Type 0
  Denotes v t e nothing = t ≡ empty
  Denotes v t e (data_at e') = (t ≡ data_record) × (e ≡ e')
  Denotes v t e (branch n l r) =
      (t ≡ search_node)
      × (v ≡ n)
      × ((env.mmdb_read_node mmdb (v % 2 ^ 32)).0 ≡ 0)
      × Denotes ((stored v).left_record) ((stored v).left_record_type)
          ((stored v).left_record_entry) l
      × Denotes ((stored v).right_record) ((stored v).right_record_type)
          ((stored v).right_record_entry) r

  -- The nodes of a chain stand for those trees, none of which reaches below the last bit of an
  -- address.
  abbrev pub Stands : List Node → List Trie → Type 0
  Stands [] [] = Unit {0}
  Stands [] (t ∷ ts) = ⊥
  Stands (c ∷ cs) [] = ⊥
  Stands (c ∷ cs) (t ∷ ts) =
      Denotes c.value c.type c.entry t × (c.depth + height t ≤ 128) × Stands cs ts

  -- The networks that a chain still leads to.
  abbrev pub pending : List Node → List Trie → List Network
  pending [] ts = []
  pending (c ∷ cs) [] = []
  pending (c ∷ cs) (t ∷ ts) = networks mmdb.ipv4_start_node c.ip_packed c.depth t ++ pending cs ts

-- The rounds of the loop that the trees take.
abbrev pub rounds : List Trie → ℕ
rounds [] = 0
rounds (t ∷ ts) = size t + rounds ts
