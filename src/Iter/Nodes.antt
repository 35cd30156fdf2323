-- ===== src/Iter/Nodes.antt =====
-- A search node in the loop of `ReaderIter_next`: extension/maxminddb.c, lines 798-848.
use max_mind_db_reader_pytho.Base.{
  ℕ, suc, ◌+◌, ◌-◌, ◌/◌, ◌%◌, ◌^◌, ◌≤◌, ◌≡◌, refl, sym, ◌∙◌, inl, inr, true, false, Option, some,
  List, ◌∷◌, ◌++◌, arith, length, ltb, ◌==◌, ◌&&◌, Bool-cases, append_assoc,
}
use max_mind_db_reader_pytho.Env.{Env, Mmdb, SearchNode}
use max_mind_db_reader_pytho.Runtime.{World}
use max_mind_db_reader_pytho.Runtime.Outcome.{Ensures, returns, gave, malloc_lem, free_lem}
use max_mind_db_reader_pytho.Lock.Read.{Inside, Inside-Owns, release_inside}
use max_mind_db_reader_pytho.Iter.{
  Node, push_children, read_children, visit_search_node, left_node, right_node, is_ipv6, set_bit,
}
use max_mind_db_reader_pytho.Iter.Trie.{
  Trie, branch, Network, height, size, networks, stored, Denotes, Stands, pending, rounds,
}
use max_mind_db_reader_pytho.Iter.Walk.{Walks}

module _ (env : Env) (mmdb : Mmdb) (v : World) (base : ℕ) (next : List Node) (ts : List Trie)
    (stand : Stands env mmdb next ts) where
  abbrev Start : World → Type 0
  Start w = Inside env v w (suc (base + length next)) v.refs v.lists × (w.error ≡ v.error)

  -- The networks below the children of a search node.
  abbrev on_left : Node → Trie → List Network
  on_left cur l = networks mmdb.ipv4_start_node cur.ip_packed (cur.depth + 1) l

  abbrev on_right : Node → Trie → List Network
  on_right cur r = networks mmdb.ipv4_start_node (set_bit cur.depth cur.ip_packed) (cur.depth + 1) r

  push_children-Walks :
      (cur : Node) (node : SearchNode) (l r : Trie) (w : World)
      → Denotes env mmdb node.left_record node.left_record_type node.left_record_entry l
      → Denotes env mmdb node.right_record node.right_record_type node.right_record_entry r
      → cur.depth + height (branch 0 l r) ≤ 128
      → Start w
      → Ensures
          (Walks env mmdb v base
            ((on_left cur l ++ on_right cur r) ++ pending env mmdb next ts)
            (suc (size l + size r) + rounds ts))
          (push_children env cur next node w)
  unfolding push_children left_node right_node
  push_children-Walks cur node l r w dl dr deep (i, same) = elim (malloc_lem env w) [
    | gave false w₁ e (o, k, s) ↦
        rw
          (
            e,
            release_inside env w₁ i.held o.lock,
            free_lem {w = record w₁ { lock = v.lock }} (omega arith),
          )
          (returns (
            (v.refs, ground arith, omega arith, omega arith),
            inr (ground arith, inl s, (_, _, refl, (ts, stand, refl, omega arith))),
          ))
    | gave true w₁ e (o, k) ↦ elim (malloc_lem env w₁) [
      | gave false w₂ e' (o', k', s) ↦
          rw
            (
              e,
              e',
              release_inside env w₂ i.held (o'.lock ∙ o.lock),
              free_lem {w = record w₂ { lock = v.lock }} (omega arith),
              free_lem {w = record w₂ { lock = v.lock; blocks = w₂.blocks - 1 }} (omega arith),
            )
            (returns (
              (v.refs, ground arith, omega arith, omega arith),
              inr (ground arith, inl s, (_, _, refl, (ts, stand, refl, omega arith))),
            ))
      | gave true w₂ e' (o', k') ↦
          let inside : ltb (cur.depth / 8) 16 ≡ true = ground arith in
          rw (e, e', inside, free_lem {w = w₂} (omega arith))
            (returns (
              Inside-Owns i (ground arith),
              ground arith,
              (
                l ∷ r ∷ ts,
                (dl, omega arith, (dr, omega arith, stand)),
                sym (append_assoc (on_left cur l) (on_right cur r) (pending env mmdb next ts)),
                omega arith,
              ),
            ))
    ]
  ]

  read_children-Walks :
      (cur : Node) (number : ℕ) (l r : Trie) (w : World)
      → Denotes env mmdb cur.value cur.type cur.entry (branch number l r)
      → cur.depth + height (branch 0 l r) ≤ 128
      → Start w
      → Ensures
          (Walks env mmdb v base
            ((on_left cur l ++ on_right cur r) ++ pending env mmdb next ts)
            (suc (size l + size r) + rounds ts))
          (read_children env cur next mmdb w)
  unfolding read_children
  read_children-Walks cur number l r w (_, _, good, dl, dr) deep start =
      let done : ((env.mmdb_read_node mmdb (cur.value % 2 ^ 32)).0 == 0) ≡ true = ground arith in
      rw done (push_children-Walks cur (stored env mmdb cur.value) l r w dl dr deep start)

  pub visit_search_node-Walks :
      (cur : Node) (number : ℕ) (l r : Trie) (m : Option Mmdb) (w : World)
      → m ≡ some mmdb
      → Denotes env mmdb cur.value cur.type cur.entry (branch number l r)
      → cur.depth + height (branch 0 l r) ≤ 128
      → Start w
      → Ensures
          (Walks env mmdb v base
            (pending env mmdb (cur ∷ next) (branch number l r ∷ ts))
            (suc (size l + size r) + rounds ts))
          (visit_search_node env cur next m w)
  unfolding visit_search_node
  visit_search_node-Walks cur number l r m w opened d deep (i, same) =
      elim (Bool-cases ((cur.value == mmdb.ipv4_start_node) && is_ipv6 cur.ip_packed)) [
        | inl alias ↦
            let skip : ((number == mmdb.ipv4_start_node) && is_ipv6 cur.ip_packed) ≡ true =
              rw (← d.1) alias in
            rw (opened, alias, skip, free_lem {w = w} (omega arith))
              (returns (Inside-Owns i (ground arith), same, (ts, stand, refl, omega arith)))
        | inr other ↦
            let keep : ((number == mmdb.ipv4_start_node) && is_ipv6 cur.ip_packed) ≡ false =
              rw (← d.1) other in
            rw (opened, other, keep) (read_children-Walks cur number l r w d deep (i, same))
      ]
