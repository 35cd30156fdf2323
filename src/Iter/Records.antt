-- ===== src/Iter/Records.antt =====
-- A data record in the loop of `ReaderIter_next`: extension/maxminddb.c, lines 852-929.
use max_mind_db_reader_pytho.Base.{
  ℕ, suc, String, ◌+◌, ◌-◌, ◌≡◌, ◌≢◌, ◌≤◌, refl, ◌∙◌, inl, inr, true, false, Option, none, some,
  List, [], ◌∷◌, arith, length, ◌==◌, Bool-cases,
}
use max_mind_db_reader_pytho.Env.{Env, Mmdb, EntryDataList}
use max_mind_db_reader_pytho.Runtime.{World, ok, Exn, by_callee, invalid_database_error, text}
use max_mind_db_reader_pytho.Runtime.Outcome.{
  Owns, Ensures, returns, gave, given, free_lem, decref_lem, new_object_lem, own_list_lem,
  free_entry_data_list_lem, lists_of,
}
use max_mind_db_reader_pytho.Lock.Read.{Inside, Inside-Owns, release_inside}
use max_mind_db_reader_pytho.Value.{Value}
use max_mind_db_reader_pytho.Entry.Layout.{
  Data, layout, value, Intact, Intact-from, Intact-until, LaysOut, converted,
}
use max_mind_db_reader_pytho.Iter.{Node, stop, visit_data, build_item, finish_item}
use max_mind_db_reader_pytho.Iter.Trie.{Trie, Network, packed, prefix, Stands, pending, rounds}
use max_mind_db_reader_pytho.Iter.Walk.{Walks, Cause}

module _ (env : Env) (mmdb : Mmdb) (v : World) (base : ℕ) (next : List Node) (ts : List Trie)
    (stand : Stands env mmdb next ts) where
  abbrev network_at : Node → Network
  network_at cur = record { ip = cur.ip_packed; depth = cur.depth; entry = cur.entry }

  abbrev todo : Node → List Network
  todo cur = network_at cur ∷ pending env mmdb next ts

  -- A return of NULL that leaves out this network.
  fails :
      (cur : Node) (n r : ℕ) (w : World)
      → Owns v w (base + length next) r v.lists
      → v.refs ≤ r
      → r ≤ v.refs + 1
      → w.error ≢ none
      → Cause env mmdb (todo cur)
      → rounds ts ≤ n
      → Ensures (Walks env mmdb v base (todo cur) n) (ok (stop none next) w)
  fails cur n r w o ge le bad cause few =
      returns
        ((r, o, ge, le), inr (bad, cause, (network_at cur ∷ [], _, refl, (ts, stand, refl, few))))

  finish_item-Walks :
      (cur : Node) (n : ℕ) (t : Data) (x : Value) (r : Option String) (w : World)
      → env.ip_network (packed mmdb.depth (network_at cur)) (prefix mmdb.depth (network_at cur)) ≡ r
      → (env.mmdb_get_entry_data_list cur.entry).1 ≡ layout t []
      → Inside env v w (suc (base + length next)) (v.refs + 2) v.lists
      → Intact env v w (value env t ≡ some x)
      → rounds ts ≤ n
      → Ensures (Walks env mmdb v base (todo cur) n) (finish_item env next x r w)
  unfolding finish_item
  finish_item-Walks cur n t x none w call e i intact le =
      rw
        (
          decref_lem {w = record w { error = failed }} (omega arith),
          release_inside env (record w { error = failed; refs = w.refs - 1 }) i.held refl,
          decref_lem {w = record w { error = failed; lock = v.lock; refs = w.refs - 1 }}
              (omega arith),
          free_lem {w = record w { error = failed; lock = v.lock; refs = w.refs - 1 - 1 }}
              (omega arith),
        )
        (fails cur n v.refs _ (ground arith) (omega arith) (omega arith) (λ q. cc)
          (inr (inl (network_at cur, _, refl, inr (inr call)))) le)
    where
      failed : Option Exn
      failed = some (record { kind = by_callee; format = "ip_network"; args = [] })
  finish_item-Walks cur n t x (some s) w call e i intact le =
      rw (decref_lem {w = record w { refs = w.refs + 1 }} (omega arith))
        (elim (new_object_lem env (record w { refs = w.refs + 1 - 1 })) [
          | gave false w₁ e₁ (o, k, s) ↦
              rw
                (
                  e₁,
                  decref_lem {w = w₁} (omega arith),
                  decref_lem {w = record w₁ { refs = w₁.refs - 1 }} (omega arith),
                  release_inside env (record w₁ { refs = w₁.refs - 1 - 1 }) i.held o.lock,
                  free_lem {w = record w₁ { lock = v.lock; refs = w₁.refs - 1 - 1 }} (omega arith),
                )
                (fails cur n v.refs _ (ground arith) (omega arith) (omega arith) k (inl s) le)
          | gave true w₁ e₁ (o, k) ↦
              rw
                (
                  e₁,
                  decref_lem {w = w₁} (omega arith),
                  decref_lem {w = record w₁ { refs = w₁.refs - 1 }} (omega arith),
                  release_inside env (record w₁ { refs = w₁.refs - 1 - 1 }) i.held o.lock,
                  free_lem {w = record w₁ { lock = v.lock; refs = w₁.refs - 1 - 1 }} (omega arith),
                )
                (returns (
                  ground arith,
                  (
                    network_at cur,
                    _,
                    refl,
                    call,
                    (t, e, Intact-until env v w w₁ k intact),
                    (ts, stand, refl, omega arith),
                  ),
                ))
        ])

  build_item-Walks :
      (cur : Node) (n : ℕ) (t : Data) (x : Value) (w : World)
      → (env.mmdb_get_entry_data_list cur.entry).1 ≡ layout t []
      → Inside env v w (suc (base + length next)) (v.refs + 1) v.lists
      → Intact env v w (value env t ≡ some x)
      → rounds ts ≤ n
      → Ensures (Walks env mmdb v base (todo cur) n) (build_item env cur next mmdb x w)
  unfolding build_item
  build_item-Walks cur n t x w e i intact le = elim (new_object_lem env w) [
    | gave false w₁ e₁ (o, k, s) ↦
        rw
          (
            e₁,
            release_inside env w₁ i.held o.lock,
            decref_lem {w = record w₁ { lock = v.lock }} (omega arith),
            free_lem {w = record w₁ { lock = v.lock; refs = w₁.refs - 1 }} (omega arith),
          )
          (fails cur n v.refs _ (ground arith) (omega arith) (omega arith) k (inl s) le)
    | gave true w₁ e₁ (o, k) ↦ elim (new_object_lem env w₁) [
      | gave false w₂ e₂ (o', k', s) ↦
          rw
            (
              e₁,
              e₂,
              decref_lem {w = w₂} (omega arith),
              release_inside env (record w₂ { refs = w₂.refs - 1 }) i.held (o'.lock ∙ o.lock),
              decref_lem {w = record w₂ { lock = v.lock; refs = w₂.refs - 1 }} (omega arith),
              free_lem {w = record w₂ { lock = v.lock; refs = w₂.refs - 1 - 1 }} (omega arith),
            )
            (fails cur n v.refs _ (ground arith) (omega arith) (omega arith) k' (inl s) le)
      | gave true w₂ e₂ (o', k') ↦
          rw (e₁, e₂, decref_lem {w = w₂} (omega arith))
            (finish_item-Walks cur n t x _ (record w₂ { refs = w₂.refs - 1 }) refl e
              (Inside-Owns i (ground arith)) (Intact-until env v w w₂ (k' ∙ k) intact) le)
    ]
  ]

  pub visit_data-Walks :
      (cur : Node) (n : ℕ) (m : Option Mmdb) (w : World)
      → LaysOut env
      → m ≡ some mmdb
      → Inside env v w (suc (base + length next)) v.refs v.lists
      → w.error ≡ v.error
      → rounds ts ≤ n
      → Ensures (Walks env mmdb v base (todo cur) n) (visit_data env cur next m w)
  unfolding visit_data
  visit_data-Walks cur n m w lays opened i same le = elim (Bool-cases (status == 0)) [
    | inr failed ↦
        rw
          (
            own_list_lem l w,
            failed,
            release_inside env owned i.held refl,
            free_entry_data_list_lem l {w = record owned { lock = v.lock; error = no_data }} v.lists
                (omega arith),
            free_lem {w = record owned { lock = v.lock; error = no_data; lists = v.lists }}
                (omega arith),
          )
          (fails cur n v.refs _ (ground arith) (omega arith) (omega arith) (λ q. cc)
            (inr (inl (network_at cur, _, refl, inl (ground arith)))) le)
    | inl done ↦
        let (t, e) = lays cur.entry (ground arith) in
        elim (given (converted env l t e owned)) [
          | gave (none, l') w₁ q (p, more, most, bad, why) ↦
              rw
                (
                  own_list_lem l w,
                  done,
                  q,
                  free_entry_data_list_lem l {w = w₁} v.lists (omega arith),
                  release_inside env (record w₁ { lists = v.lists }) i.held (p.lock),
                  free_lem {w = record w₁ { lists = v.lists; lock = v.lock }} (omega arith),
                )
                (fails cur n w₁.refs _ (ground arith) (omega arith) (omega arith) bad
                  (elim why [
                    | inl none_here ↦
                        inr (inl (network_at cur, _, refl, inr (inl (t, e, none_here))))
                    | inr s ↦ inl s
                  ])
                  le)
          | gave (some x, l') w₁ q (p, _, c) ↦
              rw
                (
                  own_list_lem l w,
                  done,
                  q,
                  free_entry_data_list_lem l {w = w₁} v.lists (omega arith),
                  opened,
                )
                (build_item-Walks cur n t x (record w₁ { lists = v.lists }) e
                  (Inside-Owns i (ground arith)) (Intact-from env owned v w₁ same c) le)
        ]
  ]
    where
      status : ℕ
      status = (env.mmdb_get_entry_data_list cur.entry).0

      l : EntryDataList
      l = (env.mmdb_get_entry_data_list cur.entry).1

      owned : World
      owned = record w { lists = w.lists + lists_of l }

      no_data : Option Exn
      no_data = some (record {
        kind = invalid_database_error;
        format = "Error looking up data while iterating over tree: %s";
        args = text (env.mmdb_strerror status) ∷ [];
      })
