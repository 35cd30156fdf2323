-- ===== src/Iter/Next.antt =====
-- The loop of `ReaderIter_next` against the networks of the tree: extension/maxminddb.c, lines
-- 768-940.
use mathlib.Core.Path.{subst}
use max_mind_db_reader_pytho.Base.{
  ℕ, zero, suc, ◌+◌, ◌<◌, ◌≤◌, ◌≡◌, refl, ap, ◌∙◌, inl, inr, true, false, some, none, Option, List,
  [], ◌∷◌, arith, length, ◌==◌,
}
use max_mind_db_reader_pytho.Env.{Env, Mmdb}
use max_mind_db_reader_pytho.Runtime.{World, py_false}
use max_mind_db_reader_pytho.Runtime.Outcome.{Ensures, returns, gave, given, free_lem}
use max_mind_db_reader_pytho.Lock.Read.{
  IsReady, Inside, Inside-Owns, acquire_read_lem, release_inside,
}
use max_mind_db_reader_pytho.Entry.Layout.{LaysOut}
use max_mind_db_reader_pytho.Reader.{is_py_true}
use max_mind_db_reader_pytho.Reader.State.{get_state_cases}
use max_mind_db_reader_pytho.Iter.{
  Item, Node, again, stop, visit, round, next_loop, reader_iter_next, invalid, search_node, empty,
  data_record,
}
use max_mind_db_reader_pytho.Iter.Trie.{
  Trie, Network, nothing, data_at, branch, Stands, pending, rounds,
}
use max_mind_db_reader_pytho.Iter.Walk.{Yields, Walks}
use max_mind_db_reader_pytho.Iter.Nodes.{visit_search_node-Walks}
use max_mind_db_reader_pytho.Iter.Records.{visit_data-Walks}

Yields-mono :
    (env : Env) (mmdb : Mmdb) (v : World) (base m n : ℕ)
    → m ≤ n
    → (todo : List Network) (item : Option Item) (chain : List Node) (w : World)
    → Yields env mmdb v base m todo (item, chain) w
    → Yields env mmdb v base n todo (item, chain) w
Yields-mono env mmdb v base m n le todo (some (s, x)) chain w
      (o, (a, rest, e, q, d, (ts, stand, p, few))) =
    (o, (a, rest, e, q, d, (ts, stand, p, omega arith)))
Yields-mono env mmdb v base m n le todo none chain w (o, inl end) = (o, inl end)
Yields-mono env mmdb v base m n le todo none chain w
      (o, inr (bad, c, (lost, rest, e, (ts, stand, p, few)))) =
    (o, inr (bad, c, (lost, rest, e, (ts, stand, p, omega arith))))

module _ (env : Env) (mmdb : Mmdb) (lays : LaysOut env) (v : World) (opened : v.mmdb ≡ some mmdb)
    (base : ℕ) where
  visit-Walks :
      (cur : Node) (next : List Node) (t : Trie) (ts : List Trie) (w : World)
      → Stands env mmdb (cur ∷ next) (t ∷ ts)
      → Inside env v w (suc (base + length next)) v.refs v.lists
      → w.error ≡ v.error
      → Ensures
          (Walks env mmdb v base (pending env mmdb (cur ∷ next) (t ∷ ts)) (rounds (t ∷ ts)))
          (visit env cur next w)
  unfolding visit
  visit-Walks cur next nothing ts w (d, _, stand) i same =
      let not_invalid : (cur.type == invalid) ≡ false = ground arith in
      let not_search : (cur.type == search_node) ≡ false = ground arith in
      let is_empty : (cur.type == empty) ≡ true = ground arith in
      rw (not_invalid, not_search, is_empty, free_lem {w = w} (omega arith))
        (returns (Inside-Owns i (ground arith), same, (ts, stand, refl, omega arith)))
  visit-Walks cur next (data_at e) ts w ((d, q), _, stand) i same =
      let not_invalid : (cur.type == invalid) ≡ false = ground arith in
      let not_search : (cur.type == search_node) ≡ false = ground arith in
      let not_empty : (cur.type == empty) ≡ false = ground arith in
      let is_data : (cur.type == data_record) ≡ true = ground arith in
      rw (not_invalid, not_search, not_empty, is_data, ← q)
        (visit_data-Walks env mmdb v base next ts stand cur _ w.mmdb w lays (i.mmdb ∙ opened) i same
          (omega arith))
  visit-Walks cur next (branch n l r) ts w (d, deep, stand) i same =
      let not_invalid : (cur.type == invalid) ≡ false = ground arith in
      let is_search : (cur.type == search_node) ≡ true = ground arith in
      rw (not_invalid, is_search)
        (visit_search_node-Walks env mmdb v base next ts stand cur n l r w.mmdb w (i.mmdb ∙ opened)
          d deep (i, same))

  round-Walks :
      (chain : List Node) (ts : List Trie) (w : World)
      → Stands env mmdb chain ts
      → Inside env v w (base + length chain) v.refs v.lists
      → w.error ≡ v.error
      → Ensures (Walks env mmdb v base (pending env mmdb chain ts) (rounds ts)) (round env chain w)
  unfolding round
  round-Walks [] [] w stand i same =
      rw (release_inside env w i.held refl)
        (returns ((v.refs, ground arith, omega arith, omega arith), inl (refl, refl, same, i.refs)))
  round-Walks [] (t ∷ ts) w stand i same = elim stand [ ]
  round-Walks (cur ∷ next) [] w stand i same = elim stand [ ]
  round-Walks (cur ∷ next) (t ∷ ts) w stand i same =
      visit-Walks cur next t ts w stand (Inside-Owns i (ground arith)) same

  next_loop-Yields :
      (m fuel : ℕ) (chain : List Node) (ts : List Trie) (w : World)
      → rounds ts ≤ m
      → rounds ts < fuel
      → Stands env mmdb chain ts
      → Inside env v w (base + length chain) v.refs v.lists
      → w.error ≡ v.error
      → Ensures (Yields env mmdb v base m (pending env mmdb chain ts)) (next_loop env fuel chain w)
  unfolding next_loop
  next_loop-Yields m zero chain ts w le lt stand i same = absurd (omega arith)
  next_loop-Yields m (suc fuel) chain ts w le lt stand i same =
      elim (given (round-Walks chain ts w stand i same)) [
        | gave (stop item chain') w₁ e yields ↦
            rw e (returns (Yields-mono env mmdb v base (rounds ts) m le _ _ _ w₁ yields))
        | gave (again chain') w₁ e (i', same', (ts', stand', q, less)) ↦ rw e (
            subst (λ todo. Ensures (Yields env mmdb v base m todo) (next_loop env fuel chain' w₁)) q
              (next_loop-Yields m fuel chain' ts' w₁ (omega arith) (omega arith) stand' i' same'))
      ]

-- In an open reader with a ready lock, over a library that lays its values out, a call on a chain
-- that stands for trees no deeper than an address, with fuel for one round more than they take,
-- meets no fault and yields the first network of the trees with the object of its data in front of
-- a chain for the others, or the end where there is none, or an exception for one of the causes in
-- front of a chain for what is not lost; the reader and its lock are as before, and the blocks
-- owned are those of the chain.
pub reader_iter_next-Yields :
    (env : Env) (mmdb : Mmdb) (fuel base : ℕ) (chain : List Node) (ts : List Trie) (w : World)
    → LaysOut env
    → IsReady env.strategy w.lock
    → w.mmdb ≡ some mmdb
    → w.closed ≡ py_false
    → w.blocks ≡ base + length chain
    → Stands env mmdb chain ts
    → rounds ts < fuel
    → Ensures
        (Yields env mmdb w base (rounds ts) (pending env mmdb chain ts))
        (reader_iter_next env fuel chain w)
unfolding reader_iter_next is_py_true
reader_iter_next-Yields env mmdb fuel base chain ts w lays ready opened unclosed owned stand lt =
    elim (get_state_cases env w) [
      | inr (x, lost, why) ↦ rw lost (
          returns (
            (w.refs, ground arith, omega arith, omega arith),
            inr ((λ e. cc), inr (inr (inl why)), ([], _, refl, (ts, stand, refl, omega arith))),
          ))
      | inl known ↦ rw known (
          acquire_read_lem env w _ ready
            (λ l t held.
              let running : is_py_true w.closed ≡ false = ap is_py_true unclosed in
              rw running (
                next_loop-Yields env mmdb lays w opened base (rounds ts) fuel chain ts
                  (record w { lock = l; time = t }) (omega arith) lt stand
                  (record {
                    held = held;
                    mmdb = refl;
                    closed = refl;
                    warnings = refl;
                    blocks = owned;
                    refs = refl;
                    lists = refl;
                  })
                  refl))
            (λ e t n. returns (
              (w.refs, ground arith, omega arith, omega arith),
              inr (
                (λ q. cc),
                inr (inr (inr (w.time, n))),
                ([], _, refl, (ts, stand, refl, omega arith)),
              ),
            )))
    ]
