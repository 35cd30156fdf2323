-- ===== src/Iter/All.antt =====
-- A whole iteration over an open reader, as Python runs it: `Reader_iter` once and `ReaderIter_next`
-- until it returns NULL (extension/maxminddb.c, lines 718-940).
use mathlib.Core.Path.{subst}
use max_mind_db_reader_pytho.Base.{
  ℕ, zero, suc, ◌+◌, ◌≤◌, ◌<◌, ◌≡◌, refl, sym, ap, ◌∙◌, inl, inr, true, false, Option, none, some,
  List, [], ◌∷◌, arith, length, replicate, append-nil, All,
}
use max_mind_db_reader_pytho.Env.{Env, Mmdb}
use max_mind_db_reader_pytho.Runtime.{World, Cmd, pure, out_of_fuel, ◌>>=◌, py_false}
use max_mind_db_reader_pytho.Runtime.Outcome.{
  mono, Ensures, returns, gave, given, Owns, new_object_lem, malloc_lem,
}
use max_mind_db_reader_pytho.Lock.Read.{IsReady, acquire_read_lem, release_inside}
use max_mind_db_reader_pytho.Entry.Layout.{Data, LaysOut, layout, value}
use max_mind_db_reader_pytho.Reader.{is_py_true}
use max_mind_db_reader_pytho.Reader.State.{get_state_cases}
use max_mind_db_reader_pytho.Iter.{
  Node, Item, zero_node, new_iterator, reader_iter, reader_iter_next,
}
use max_mind_db_reader_pytho.Iter.Trie.{
  Trie, Network, height, size, networks, packed, prefix, Denotes, Stands, pending, rounds,
}
use max_mind_db_reader_pytho.Iter.Walk.{Bad, Cause}
use max_mind_db_reader_pytho.Iter.Next.{reader_iter_next-Yields}

-- The items of the chain, in order: `calls` bounds the calls, and `fuel` the rounds in each of them.
pub drain : Env → (calls fuel : ℕ) → List Node → Cmd (List Item)
drain env zero fuel chain = λ w. out_of_fuel
drain env (suc calls) fuel chain = do
  (item, chain') ← reader_iter_next env fuel chain
  elim item [ none ↦ pure [] | some x ↦ do xs ← drain env calls fuel chain'; pure (x ∷ xs) ]

pub iterate : Env → (calls fuel : ℕ) → Cmd (Option (List Item))
iterate env calls fuel = do
  chain ← reader_iter env
  elim chain [ none ↦ pure none | some c ↦ do xs ← drain env calls fuel c; pure (some xs) ]

-- Nothing fails around the extension: allocations and locks succeed, and the type has its module.
pub record Healthy (env : Env) : Type 0 where
  pub memory : (t : ℕ) → env.memory t ≡ true
  pub locks : (t : ℕ) → env.lock_result t ≡ 0
  pub has_module : env.has_module ≡ true

module _ (env : Env) (mmdb : Mmdb) where
  -- Each network has its item: what `ip_network` makes of it, and the object of its data.
  abbrev pub Matches : List Network → List Item → Type 0
  Matches [] [] = Unit {0}
  Matches [] (x ∷ xs) = ⊥
  Matches (n ∷ ns) [] = ⊥
  Matches (n ∷ ns) ((s, x) ∷ xs) =
      (env.ip_network (packed mmdb.depth n) (prefix mmdb.depth n) ≡ some s)
      × ((t : Data) × ((env.mmdb_get_entry_data_list n.entry).1 ≡ layout t [])
          × (value env t ≡ some x))
      × Matches ns xs

  -- The networks of a tree that begins at the root.
  abbrev pub all_networks : Trie → List Network
  all_networks t = networks mmdb.ipv4_start_node (replicate 16 0) 0 t

  -- The reader is as in `v`, and one reference is owned for each item.
  abbrev Drained : World → ℕ → List Network → List Item → World → Type 0
  Drained v base todo xs w =
      Matches todo xs × Owns v w base (v.refs + length xs) v.lists × (w.error ≡ v.error)

  -- The same of an iteration, which also owns the iterator and its reference to the reader.
  abbrev pub Lists : World → List Network → Option (List Item) → World → Type 0
  Lists w todo none u = ⊥
  Lists w todo (some xs) u =
      Matches todo xs × Owns w u w.blocks (w.refs + 2 + length xs) w.lists × (u.error ≡ w.error)

  no_cause :
      (todo : List Network)
      → Healthy env
      → All (λ n. ¬ Bad env mmdb n) todo
      → Cause env mmdb todo
      → ⊥
  no_cause todo h good (inl (t, s)) = absurd (ground (arith, h.memory t))
  no_cause todo h good (inr (inl (n, rest, e, bad))) =
      (subst (All (λ m. ¬ Bad env mmdb m)) e good).0 bad
  no_cause todo h good (inr (inr (inl m))) = ground (arith, h.has_module)
  no_cause todo h good (inr (inr (inr (t, n)))) = n (h.locks t)

  module _ (lays : LaysOut env) (healthy : Healthy env) where
    drain-Drained :
        (calls fuel base : ℕ) (chain : List Node) (ts : List Trie) (w : World)
        → IsReady env.strategy w.lock
        → w.mmdb ≡ some mmdb
        → w.closed ≡ py_false
        → w.blocks ≡ base + length chain
        → Stands env mmdb chain ts
        → rounds ts < fuel
        → (todo : List Network) → pending env mmdb chain ts ≡ todo
        → length todo < calls
        → All (λ n. ¬ Bad env mmdb n) todo
        → Ensures (Drained w base todo) (drain env calls fuel chain w)
    unfolding drain
    drain-Drained zero fuel base chain ts w ready opened unclosed owned stand lt todo p few good =
        absurd (omega arith)
    drain-Drained (suc calls) fuel base chain ts w ready opened unclosed owned stand lt todo p few
          good =
        elim (given (
          reader_iter_next-Yields env mmdb fuel base chain ts w lays ready opened unclosed owned
            stand lt)) [
              | gave (none, chain') w₁ e (_, inr (_, cause, _)) ↦
                  absurd (no_cause todo healthy good (subst (Cause env mmdb) p cause))
              | gave (none, chain') w₁ e (o, inl (end, over, same, refs)) ↦
                  rw (e, sym p ∙ over) (returns (tt, ground arith, same))
              | gave (some (s, x), chain') w₁ e
                    (o, (n, rest, q, net, (t, l, inr (_, (m, lost))), _)) ↦
                  absurd (ground (arith, healthy.memory m))
              | gave (some (s, x), chain') w₁ e
                    (o, (n, rest, q, net, (t, l, inl (same, v)), (ts', stand', p', le))) ↦
                  let split : todo ≡ n ∷ rest = sym p ∙ q in
                  rw (e, split)
                    (elim (given (
                      drain-Drained calls fuel base chain' ts' w₁
                        (subst (IsReady env.strategy) (sym o.lock) ready) (o.mmdb ∙ opened)
                        (o.closed ∙ unclosed) o.blocks stand' (omega arith) rest p' (ground arith)
                        (subst (All (λ n. ¬ Bad env mmdb n)) split good).1)) [
                          | gave xs w₂ e' (m, o', same') ↦
                              rw e' (returns ((net, (t, l, v), m), ground arith, same' ∙ same))
                        ])
            ]

    -- A fresh chain: what `Reader_iter` returns in such a reader.
    new_iterator-Starts :
        (w : World)
        → Ensures
            (λ chain u.
              (chain ≡ some (zero_node ∷ []))
              × Owns w u (w.blocks + 1) (w.refs + 2) w.lists
              × (u.error ≡ w.error))
            (new_iterator env w)
    unfolding new_iterator
    new_iterator-Starts w = elim (new_object_lem env w) [
      | gave false w₁ e (_, _, (m, lost)) ↦ absurd (ground (arith, healthy.memory m))
      | gave true w₁ e (o, k) ↦ elim (malloc_lem env (record w₁ { refs = w₁.refs + 1 })) [
        | gave false w₂ e' (_, _, (m, lost)) ↦ absurd (ground (arith, healthy.memory m))
        | gave true w₂ e' (o', k') ↦ rw (e, e') (returns (refl, ground arith, k' ∙ k))
      ]
    ]

    reader_iter-Starts :
        (w : World)
        → IsReady env.strategy w.lock
        → w.closed ≡ py_false
        → Ensures
            (λ chain u.
              (chain ≡ some (zero_node ∷ []))
              × Owns w u (w.blocks + 1) (w.refs + 2) w.lists
              × (u.error ≡ w.error))
            (reader_iter env w)
    unfolding reader_iter is_py_true
    reader_iter-Starts w ready unclosed = elim (get_state_cases env w) [
      | inr (x, lost, why) ↦ ground (arith, healthy.has_module)
      | inl known ↦ rw known (
          acquire_read_lem env w _ ready
            (λ l t held.
              let running : is_py_true w.closed ≡ false = ap is_py_true unclosed in
              rw (running, release_inside env (record w { lock = l; time = t }) held refl)
                (mono (new_iterator-Starts (record w { time = t })) (λ chain u p. ground arith)))
            (λ e t n. absurd (n (healthy.locks w.time))))
    ]

    -- Where nothing fails, an iteration over an open reader with a ready lock, whose database
    -- holds a tree no deeper than an address, lists exactly the networks of the tree in the order
    -- of their addresses, aliases of IPv4 left out, each with the object of its data, provided
    -- that no network is bad, and with one call more than there are networks and one round more
    -- than the tree has records; the lock is as before, no exception is set, and what is owned in
    -- the end is the iterator, its reference to the reader and the items.
    pub iterate-Lists :
        (t : Trie) (calls fuel : ℕ) (w : World)
        → IsReady env.strategy w.lock
        → w.mmdb ≡ some mmdb
        → w.closed ≡ py_false
        → Denotes env mmdb 0 0 zero_node.entry t
        → height t ≤ 128
        → size t < fuel
        → length (all_networks t) < calls
        → All (λ n. ¬ Bad env mmdb n) (all_networks t)
        → Ensures (Lists w (all_networks t)) (iterate env calls fuel w)
    unfolding iterate
    iterate-Lists t calls fuel w ready opened unclosed holds deep long few good =
        elim (given (reader_iter-Starts w ready unclosed)) [
          | gave chain w₁ e (fresh, o, same) ↦
              rw (e, fresh)
                (elim (given (
                  drain-Drained calls fuel w.blocks (zero_node ∷ []) (t ∷ []) w₁
                    (subst (IsReady env.strategy) (sym o.lock) ready) (o.mmdb ∙ opened)
                    (o.closed ∙ unclosed) (ground arith) (holds, omega arith, tt) (omega arith)
                    (all_networks t) (append-nil (all_networks t)) few good)) [
                      | gave xs w₂ e' (m, o', same') ↦
                          rw e' (returns (m, ground arith, same' ∙ same))
                    ])
        ]
