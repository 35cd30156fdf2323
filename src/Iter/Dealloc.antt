-- ===== src/Iter/Dealloc.antt =====
-- `ReaderIter_dealloc`: extension/maxminddb.c, lines 942-954.
use max_mind_db_reader_pytho.Base.{
  ℕ, zero, suc, ◌+◌, ◌-◌, ◌<◌, ◌≤◌, ◌≡◌, ◌==◌, refl, ap, ◌∙◌, ◌⊎◌, inl, inr, false, List, [], ◌∷◌,
  arith, length,
}
use max_mind_db_reader_pytho.Env.{Env}
use max_mind_db_reader_pytho.Runtime.{World, RwLock, ok, and_then, decref}
use max_mind_db_reader_pytho.Runtime.Outcome.{
  Ensures, returns, given, gave, mono, decref_lem, free_lem,
}
use max_mind_db_reader_pytho.Lock.Life.{Fresh}
use max_mind_db_reader_pytho.Reader.Close.{open_blocks}
use max_mind_db_reader_pytho.Reader.Dealloc.{Ends, reader_dealloc-Ends}
use max_mind_db_reader_pytho.Iter.{Node, free_chain, reader_iter_dealloc}

free_chain_lem :
    (chain : List Node) (w : World) (base : ℕ)
    → w.blocks ≡ base + length chain
    → free_chain chain w ≡ ok tt (record w { blocks = base })
unfolding free_chain
free_chain_lem [] w base e = ap (λ (n : ℕ). ok tt (record w { blocks = n })) (omega arith)
free_chain_lem (cur ∷ next) w base e =
    rw (free_lem {w = w} (omega arith))
      (free_chain_lem next (record w { blocks = w.blocks - 1 }) base (omega arith))

-- The reader as before, or deallocated where its last reference was the iterator's.
abbrev pub Frees : Env → RwLock → (others base r : ℕ) → World → World → Type 0
Frees env before others base r w u =
    ((0 < others) × (u ≡ record w { blocks = base; refs = r }))
    ⊎ ((others ≡ 0) × Ends env before (record w { blocks = base; refs = r }) u)

-- The chain and the iterator itself, in a world that has their blocks and the reference.
free_rest :
    (chain : List Node) (w : World) (base r : ℕ)
    → w.blocks ≡ base + length chain
    → w.refs ≡ r + 1
    → and_then (free_chain chain w) (λ _. decref) ≡ ok tt (record w { blocks = base; refs = r })
free_rest chain w base r e f =
    rw (free_chain_lem chain w base e, decref_lem {w = record w { blocks = base }} (omega arith))
      (ap (λ (n : ℕ). ok tt (record w { blocks = base; refs = n })) (omega arith))

-- Behind the deallocation of the reader.
free_behind :
    (env : Env) (before : RwLock) (chain : List Node) (w v : World) (base r : ℕ)
    → w.blocks ≡ base + length chain
    → open_blocks w.mmdb ≤ base
    → Ends env before (record w { refs = r + 1 }) v
    → Ensures
        (λ _ u. Ends env before (record w { blocks = base; refs = r }) u)
        (and_then (free_chain chain v) (λ _. decref))
free_behind env before chain w v base r e le
      (spent, warned, refs, lists, inl (closed, blocks, error)) =
    rw (free_rest chain v (base - open_blocks w.mmdb) r (omega (arith, blocks, e, le)) refs)
      (returns (spent, warned, refl, lists, inl (closed, omega (arith, le), error)))
free_behind env before chain w v base r e le
      (spent, warned, refs, lists, inr (opened, kept, blocks, error)) =
    rw (free_rest chain v base r (omega (arith, blocks, e)) refs)
      (returns (spent, warned, refl, lists, inr (opened, kept, refl, error)))

-- The deallocation of an iterator that owns the nodes of its chain, with its references to the reader
-- and to itself still held, of a reader whose lock is as Reader_init leaves it and whose open database
-- owns a block: it gives back the nodes and the two references, wherever the iteration stopped. Where
-- others refer to the reader, nothing else changes; where nobody does, the reader is deallocated: its
-- lock is destroyed without a warning, and the block of its database is given back, or is lost with
-- an exception where the write lock is refused.
pub reader_iter_dealloc-Frees :
    (env : Env) (before : RwLock) (others : ℕ) (chain : List Node) (w : World) (base r : ℕ)
    → Fresh env.strategy before w.lock
    → w.blocks ≡ base + length chain
    → open_blocks w.mmdb ≤ base
    → w.refs ≡ r + 2
    → Ensures (λ _ u. Frees env before others base r w u) (reader_iter_dealloc env others chain w)
unfolding reader_iter_dealloc
reader_iter_dealloc-Frees env before (suc others) chain w base r fresh e le f =
    let two : w.refs - 1 ≡ r + 1 = omega arith in
    let shared : (suc others == 0) ≡ false = ground arith in
    rw
      (
        decref_lem {w = w} (omega arith),
        shared,
        free_rest chain (record w { refs = w.refs - 1 }) base r e two,
      )
      (returns (inl (omega arith, refl)))
reader_iter_dealloc-Frees env before zero chain w base r fresh e le f =
    let two : w.refs - 1 ≡ r + 1 = omega arith in
    elim (given (
      reader_dealloc-Ends env before (record w { refs = w.refs - 1 }) fresh
        (omega (arith, e, le)))) [
          | gave _ v q (spent, warned, refs, lists, last) ↦
              rw (decref_lem {w = w} (omega arith), q)
                (mono
                  (free_behind env before chain w v base r e le
                    (spent, warned, refs ∙ two, lists, last))
                  (λ _ u ends. inr (refl, ends)))
        ]
