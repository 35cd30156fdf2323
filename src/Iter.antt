-- ===== src/Iter.antt =====
-- The iterator of extension/maxminddb.c: `Reader_iter`, `ReaderIter_next` and `ReaderIter_dealloc`,
-- lines 82-86, 718-758 and 768-954.
pub mod Trie
pub mod Walk
mod Nodes
mod Records
pub mod Next
pub mod All
pub mod Prefix
pub mod Order
pub mod Family
pub mod Dealloc
use Prim.Native.Nat.{bit_or}
use max_mind_db_reader_pytho.Base.{
  ℕ, zero, suc, pos, sub_ℕ, ◌+◌, ◌-◌, ◌*◌, ◌/◌, ◌%◌, ◌^◌, Bool, Option, none, some, String, List,
  [], ◌∷◌, ltb, ◌==◌, ◌&&◌, if◌then◌else◌, length, get_or, set, take, drop, replicate,
}
use mathlib.Core.Bool.{not}
use max_mind_db_reader_pytho.Env.{Env, Mmdb, Entry, SearchNode, mmdb_success}
use max_mind_db_reader_pytho.Runtime.{
  Cmd, pure, crash, ◌>>=◌, ◌>>◌, get_world, raise, no_memory, free_entry_data_list, own_list,
  decref, new_ref, new_object, malloc, free, out_of_fuel, value_error, invalid_database_error,
  by_callee, text, number, null_pointer, out_of_bounds,
}
use max_mind_db_reader_pytho.Value.{Value}
use max_mind_db_reader_pytho.Lock.{reader_acquire_read_lock, reader_release_read_lock}
use max_mind_db_reader_pytho.Entry.{from_entry_data_list}
use max_mind_db_reader_pytho.Reader.{reader_dealloc, get_state, is_py_true}
pub use max_mind_db_reader_pytho.Chain.{
  Node, zero_node, search_node, empty, data_record, invalid, Item, Round, again, stop,
}
unfoldable pub use max_mind_db_reader_pytho.Chain.{
  or_all, is_ipv6, set_bit, left_node, right_node, ip_start, ip_length,
}

module _ (env : Env) where
  -- `Reader_iter`: the chain of a new iterator, which owns its first node and a reference to the
  -- reader; `none` for NULL.
  new_iterator : Cmd (Option (List Node))
  unfolding new_object malloc
  new_iterator = do
    ri ← new_object env
    if ri
        then (do
          new_ref
          next ← malloc env
          if next then pure (some (zero_node ∷ [])) else do decref; decref; no_memory; pure none)
        else pure none

  unfoldable pub reader_iter : Cmd (Option (List Node))
  unfolding get_state is_py_true new_iterator
  reader_iter = do
    state ← get_state env
    if state
        then (do
          locked ← reader_acquire_read_lock env
          if locked
              then (do
                w ← get_world
                if is_py_true w.closed
                    then (do
                      reader_release_read_lock env
                      raise value_error "Attempt to iterate over a closed MaxMind DB." []
                      pure none)
                    else do reader_release_read_lock env; new_iterator)
              else pure none)
        else pure none

  -- The two new nodes in front of the chain.
  push_children : Node → List Node → SearchNode → Cmd Round
  unfolding malloc left_node right_node
  push_children cur next node = do
    left ← malloc env
    if left
        then (do
          right ← malloc env
          if right
              then (if ltb (cur.depth / 8) 16
                  then (do free; pure (again (left_node cur node ∷ right_node cur node ∷ next)))
                  else crash out_of_bounds)
              else do reader_release_read_lock env; free; free; no_memory; pure (stop none next))
        else do reader_release_read_lock env; free; no_memory; pure (stop none next)

  read_children : Node → List Node → Mmdb → Cmd Round
  unfolding push_children
  read_children cur next mmdb =
      let (status, node) = env.mmdb_read_node mmdb (cur.value % 2 ^ 32) in
      if status == mmdb_success then push_children cur next node else do
        reader_release_read_lock env
        raise invalid_database_error "Error reading node: %s" (text (env.mmdb_strerror status) ∷ [])
        free
        pure (stop none next)

  -- `case MMDB_RECORD_TYPE_SEARCH_NODE`, with the aliased networks left out.
  pub visit_search_node : Node → List Node → Option Mmdb → Cmd Round
  unfolding read_children is_ipv6
  visit_search_node cur next none = crash null_pointer
  visit_search_node cur next (some mmdb) =
      if (cur.value == mmdb.ipv4_start_node) && is_ipv6 cur.ip_packed
      then (do free; pure (again next))
      else read_children cur next mmdb

  -- From the call of `ip_network` on; its arguments and `value` are owned.
  finish_item : List Node → Value → Option String → Cmd Round
  unfolding new_object
  finish_item next value none = do
    raise by_callee "ip_network" []
    decref
    reader_release_read_lock env
    decref
    free
    pure (stop none next)
  finish_item next value (some network) = do
    new_ref
    decref
    rv ← new_object env
    decref
    decref
    reader_release_read_lock env
    free
    pure (stop (if rv then some (network, value) else none) next)

  -- The tuple of network and record, from `Py_BuildValue` on; `value` is owned.
  build_item : Node → List Node → Mmdb → Value → Cmd Round
  unfolding new_object ip_start ip_length finish_item
  build_item cur next mmdb value = do
    let start = ip_start mmdb.depth cur.ip_packed
    let packed = take (ip_length mmdb.depth cur.ip_packed) (drop start cur.ip_packed)
    network_tuple ← new_object env
    if network_tuple
        then (do
          args ← new_object env
          decref
          if args
              then finish_item next value (env.ip_network packed (sub_ℕ cur.depth (start * 8)))
              else do reader_release_read_lock env; decref; free; pure (stop none next))
        else do reader_release_read_lock env; decref; free; pure (stop none next)

  -- `case MMDB_RECORD_TYPE_DATA`
  pub visit_data : Node → List Node → Option Mmdb → Cmd Round
  unfolding build_item
  visit_data cur next open_mmdb = do
    let (status, entry_data_list) = env.mmdb_get_entry_data_list cur.entry
    own_list entry_data_list
    if status == mmdb_success
        then (do
          (value, left) ← from_entry_data_list env (suc (length entry_data_list)) entry_data_list
          free_entry_data_list entry_data_list
          elim value [
            | none ↦ (do reader_release_read_lock env; free; pure (stop none next))
            | some v ↦ elim open_mmdb [
              | none ↦ crash null_pointer
              | some mmdb ↦ build_item cur next mmdb v
            ]
          ])
        else do
          reader_release_read_lock env
          raise invalid_database_error "Error looking up data while iterating over tree: %s"
              (text (env.mmdb_strerror status) ∷ [])
          free_entry_data_list entry_data_list
          free
          pure (stop none next)

  -- The `switch` on the type of the node that was taken off the chain.
  pub visit : Node → List Node → Cmd Round
  unfolding visit_search_node visit_data
  visit cur next = do
    w ← get_world
    if cur.type == invalid
        then (do
          reader_release_read_lock env
          raise invalid_database_error "Invalid record when reading node" []
          free
          pure (stop none next))
        else if cur.type == search_node
        then visit_search_node cur next w.mmdb
        else if cur.type == empty
        then (do free; pure (again next))
        else if cur.type == data_record
        then visit_data cur next w.mmdb
        else do
          reader_release_read_lock env
          raise invalid_database_error "Unknown record type: %u" (number (pos cur.type) ∷ [])
          free
          pure (stop none next)

  -- One round of the `while` loop.
  pub round : List Node → Cmd Round
  unfolding visit
  round [] = do reader_release_read_lock env; pure (stop none [])
  round (cur ∷ next) = visit cur next

  -- The loop, with fuel for its rounds: the result of `ReaderIter_next` and the chain that is left.
  pub next_loop : (fuel : ℕ) → List Node → Cmd (Option Item × List Node)
  unfolding round
  next_loop zero chain = λ w. out_of_fuel
  next_loop (suc fuel) chain = do
    r ← round chain
    elim r [ again chain' ↦ next_loop fuel chain' | stop item chain' ↦ pure (item, chain') ]

  -- `ReaderIter_next`: NULL, with no exception set, is the end of the iteration.
  unfoldable pub reader_iter_next : (fuel : ℕ) → List Node → Cmd (Option Item × List Node)
  unfolding get_state is_py_true next_loop
  reader_iter_next fuel chain = do
    state ← get_state env
    if state
        then (do
          locked ← reader_acquire_read_lock env
          if locked
              then (do
                w ← get_world
                if is_py_true w.closed
                    then (do
                      reader_release_read_lock env
                      raise value_error "Attempt to iterate over a closed MaxMind DB." []
                      pure (none, chain))
                    else next_loop fuel chain)
              else pure (none, chain))
        else pure (none, chain)

-- The loop of `ReaderIter_dealloc`.
free_chain : List Node → Cmd (Unit {0})
free_chain [] = pure tt
free_chain (cur ∷ next) = do free; free_chain next

-- `ReaderIter_dealloc` gives up the reader, the chain and itself. `others` is the number of the
-- references to the reader beside the iterator's: without one, giving it up deallocates the reader.
unfoldable pub reader_iter_dealloc : Env → (others : ℕ) → List Node → Cmd (Unit {0})
unfolding free_chain
reader_iter_dealloc env others chain = do
  decref
  if others == 0 then reader_dealloc env else pure tt
  free_chain chain
  decref
