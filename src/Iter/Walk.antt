-- ===== src/Iter/Walk.antt =====
-- What one call of `ReaderIter_next`, and one round of its loop, promise about the networks of the
-- tree: extension/maxminddb.c, lines 768-940.
use max_mind_db_reader_pytho.Base.{
  ℕ, ◌+◌, ◌≤◌, ◌<◌, ◌≡◌, ◌≢◌, ◌⊎◌, false, Option, none, some, List, [], ◌∷◌, ◌++◌, length,
}
use max_mind_db_reader_pytho.Env.{Env, Mmdb}
use max_mind_db_reader_pytho.Runtime.{World}
use max_mind_db_reader_pytho.Runtime.Outcome.{Owns, Starved}
use max_mind_db_reader_pytho.Lock.Read.{Inside}
use max_mind_db_reader_pytho.Entry.Layout.{Data, layout, value, Intact}
use max_mind_db_reader_pytho.Iter.{Node, Item, Round, again, stop}
use max_mind_db_reader_pytho.Iter.Trie.{Trie, Network, packed, prefix, Stands, pending, rounds}

module _ (env : Env) (mmdb : Mmdb) where
  -- A chain leads to exactly those networks, in no more rounds than that.
  abbrev pub Remains : ℕ → List Node → List Network → Type 0
  Remains m chain todo =
      (ts : List Trie) × Stands env mmdb chain ts
      × (pending env mmdb chain ts ≡ todo)
      × (rounds ts ≤ m)

  -- The network has no item: its data cannot be read or is no text, or Python refuses it.
  abbrev pub Bad : Network → Type 0
  Bad n =
      ((env.mmdb_get_entry_data_list n.entry).0 ≢ 0)
      ⊎ ((t : Data) × ((env.mmdb_get_entry_data_list n.entry).1 ≡ layout t [])
          × (value env t ≡ none))
      ⊎ (env.ip_network (packed mmdb.depth n) (prefix mmdb.depth n) ≡ none)

  -- Why a call fails: for want of memory, because of the next network, or because the type has no
  -- module or a lock was refused.
  abbrev pub Cause : List Network → Type 0
  Cause todo =
      Starved env
      ⊎ ((n : Network) × (rest : List Network) × (todo ≡ n ∷ rest) × Bad n)
      ⊎ (env.has_module ≡ false)
      ⊎ ((t : ℕ) × (env.lock_result t ≢ 0))

  -- What a call yields, in front of the networks `todo`. An item is that of the first of them: its
  -- network, as `ip_network` makes it, and the object of its data; the chain leads to the others. NULL
  -- without an exception says that there are none. NULL with an exception has a cause, and the chain
  -- leads to the networks behind those that are lost. The reader, the warnings and the lists are as
  -- they were in `v`, and the blocks are those of the chain; the chain left takes at most `m` rounds.
  abbrev pub Yields : World → ℕ → ℕ → List Network → Option Item × List Node → World → Type 0
  Yields v base m todo (some (s, x), chain) w =
      Owns v w (base + length chain) (v.refs + 1) v.lists
      × ((n : Network) × (rest : List Network) × (todo ≡ n ∷ rest)
          × (env.ip_network (packed mmdb.depth n) (prefix mmdb.depth n) ≡ some s)
          × ((t : Data) × ((env.mmdb_get_entry_data_list n.entry).1 ≡ layout t [])
              × Intact env v w (value env t ≡ some x))
          × Remains m chain rest)
  Yields v base m todo (none, chain) w =
      ((r : ℕ) × Owns v w (base + length chain) r v.lists × (v.refs ≤ r) × (r ≤ v.refs + 1))
      × (((chain ≡ []) × (todo ≡ []) × (w.error ≡ v.error) × (w.refs ≡ v.refs))
          ⊎ ((w.error ≢ none)
              × Cause todo
              × ((lost rest : List Network) × (todo ≡ lost ++ rest) × Remains m chain rest)))

  -- A round goes on, still with the lock and to the same networks and nearer to the end, or yields.
  abbrev pub Walks : World → ℕ → List Network → ℕ → Round → World → Type 0
  Walks v base todo n (again chain) w =
      Inside env v w (base + length chain) v.refs v.lists
      × (w.error ≡ v.error)
      × ((ts : List Trie) × Stands env mmdb chain ts
          × (pending env mmdb chain ts ≡ todo)
          × (rounds ts < n))
  Walks v base todo n (stop item chain) w = Yields v base n todo (item, chain) w
