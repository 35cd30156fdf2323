-- ===== src/Pure/Decoder/RoundTrip.antt =====
-- A writer of the data section, by the format, and its round trip with maxminddb/decoder.py.
use Prim.Native.Nat.{max}
use mathlib.Core.Path.{subst}
use max_mind_db_reader_pytho.Base.{
  ℕ, zero, suc, ◌+◌, ◌≤◌, ◌<◌, ◌≡◌, refl, sym, ◌∙◌, true, false, Option, List, [], ◌++◌, length,
  length-append, arith,
}
use max_mind_db_reader_pytho.Pure.{ok}
use max_mind_db_reader_pytho.Pure.Buffer.{At, At-first, At-then, At-here}
use max_mind_db_reader_pytho.Pure.Decoder.{
  Decoder, Record, dict, list, Records, nil, cons, Items, end, item, is_hashable, decode,
}
use max_mind_db_reader_pytho.Pure.Decoder.Format.{
  control, size_bound, Leaf, count, entries, Stored, leaf, array, map, StoredAll, no_values, value,
  StoredItems, no_entries, entry,
}
use max_mind_db_reader_pytho.Pure.Decoder.Reads.{decode-Stored}

-- What is written: values without parts, with their type number, size and bytes, arrays and maps.
mutual
  pub data Data : Type 0 where
    plain : (type_num size : ℕ) → List ℕ → Record → Data
    array_of : Elements → Data
    map_of : Pairs → Data

  pub data Elements : Type 0 where
    none_left : Elements
    element : Data → Elements → Elements

  pub data Pairs : Type 0 where
    no_pairs : Pairs
    pair : (key value : Data) → Pairs → Pairs

-- The records that they stand for.
abbrev mutual
  pub record_of : Data → Record
  record_of (plain t n bs v) = v
  record_of (array_of es) = list (records_of es)
  record_of (map_of ps) = dict (items_of ps)

  pub records_of : Elements → Records
  records_of none_left = nil
  records_of (element d es) = cons (record_of d) (records_of es)

  pub items_of : Pairs → Items
  items_of no_pairs = end
  items_of (pair k v ps) = item (record_of k) (record_of v) (items_of ps)

-- Their bytes.
unfoldable mutual
  unfolding control

  pub encode : Data → List ℕ
  encode (plain t n bs v) = control t n ++ bs
  encode (array_of es) = control 11 (count (records_of es)) ++ encode_all es
  encode (map_of ps) = control 7 (entries (items_of ps)) ++ encode_pairs ps

  pub encode_all : Elements → List ℕ
  encode_all none_left = []
  encode_all (element d es) = encode d ++ encode_all es

  pub encode_pairs : Pairs → List ℕ
  encode_pairs no_pairs = []
  encode_pairs (pair k v ps) = encode k ++ (encode v ++ encode_pairs ps)

-- The levels of arrays and maps.
abbrev mutual
  pub levels : Data → ℕ
  levels (plain t n bs v) = 1
  levels (array_of es) = suc (levels_all es)
  levels (map_of ps) = suc (levels_pairs ps)

  pub levels_all : Elements → ℕ
  levels_all none_left = 0
  levels_all (element d es) = max (levels d) (levels_all es)

  pub levels_pairs : Pairs → ℕ
  levels_pairs no_pairs = 0
  levels_pairs (pair k v ps) = max (levels k) (max (levels v) (levels_pairs ps))

module _ (decode_utf8 : List ℕ → Option (List ℕ)) where
  -- The format has bytes for it: values have their bytes, sizes fit, and keys are hashable.
  abbrev mutual
    pub IsWritable : Data → Type 0
    IsWritable (plain t n bs v) = Leaf decode_utf8 t n bs v × (n < size_bound)
    IsWritable (array_of es) = AreWritable es × (count (records_of es) < size_bound)
    IsWritable (map_of ps) = ArePairs ps × (entries (items_of ps) < size_bound)

    pub AreWritable : Elements → Type 0
    AreWritable none_left = Unit
    AreWritable (element d es) = IsWritable d × AreWritable es

    pub ArePairs : Pairs → Type 0
    ArePairs no_pairs = Unit
    ArePairs (pair k v ps) =
        (is_hashable (record_of k) ≡ true) × IsWritable k × IsWritable v × ArePairs ps

  module _ (self : Decoder) where
    mutual
      unfolding encode

      pub encode-Stored :
          (d : Data) (n offset last : ℕ)
          → IsWritable d
          → levels d ≤ n
          → At self.buffer offset (encode d)
          → last ≡ offset + length (encode d)
          → Stored decode_utf8 self n offset (record_of d) last
      encode-Stored (plain t k bs v) zero offset last w h a e = absurd (omega arith)
      encode-Stored (plain t k bs v) (suc n) offset last (l, fits) h a e =
          subst (Stored decode_utf8 self (suc n) offset v)
            (sym (e ∙ omega (arith, length-append (control t k) bs))) (leaf l fits a)
      encode-Stored (array_of es) zero offset last w h a e = absurd (omega arith)
      encode-Stored (array_of es) (suc n) offset last (w, fits) h a e =
          let c = control 11 (count (records_of es)) in
          array fits (At-first c (encode_all es) a) (
            stored_all es n (offset + length c) last w (omega (arith, h))
              (At-then c (encode_all es) (offset + length c) refl a)
              (omega (arith, e, length-append c (encode_all es))))
      encode-Stored (map_of ps) zero offset last w h a e = absurd (omega arith)
      encode-Stored (map_of ps) (suc n) offset last (w, fits) h a e =
          let c = control 7 (entries (items_of ps)) in
          map fits (At-first c (encode_pairs ps) a) (
            stored_pairs ps n (offset + length c) last w (omega (arith, h))
              (At-then c (encode_pairs ps) (offset + length c) refl a)
              (omega (arith, e, length-append c (encode_pairs ps))))

      stored_all :
          (es : Elements) (n offset last : ℕ)
          → AreWritable es
          → levels_all es ≤ n
          → At self.buffer offset (encode_all es)
          → last ≡ offset + length (encode_all es)
          → StoredAll decode_utf8 self n offset (records_of es) last
      stored_all none_left n offset last w h a e =
          subst (StoredAll decode_utf8 self n offset nil) (omega (arith, e)) no_values
      stored_all (element d es) n offset last (w, ws) h a e =
          let next = offset + length (encode d) in
          value
            (encode-Stored d n offset next w (omega (arith, h))
              (At-first (encode d) (encode_all es) a) refl)
            (stored_all es n next last ws (omega (arith, h))
              (At-then (encode d) (encode_all es) next refl a)
              (omega (arith, e, length-append (encode d) (encode_all es))))

      stored_pairs :
          (ps : Pairs) (n offset last : ℕ)
          → ArePairs ps
          → levels_pairs ps ≤ n
          → At self.buffer offset (encode_pairs ps)
          → last ≡ offset + length (encode_pairs ps)
          → StoredItems decode_utf8 self n offset (items_of ps) last
      stored_pairs no_pairs n offset last w h a e =
          subst (StoredItems decode_utf8 self n offset end) (omega (arith, e)) no_entries
      stored_pairs (pair k v ps) n offset last (hashable, wk, wv, ws) h a e =
          let middle = offset + length (encode k) in
          let next = middle + length (encode v) in
          let rest = encode v ++ encode_pairs ps in
          let behind = At-then (encode k) rest middle refl a in
          entry hashable
            (encode-Stored k n offset middle wk (omega (arith, h)) (At-first (encode k) rest a)
              refl)
            (encode-Stored v n middle next wv (omega (arith, h))
              (At-first (encode v) (encode_pairs ps) behind) refl)
            (stored_pairs ps n next last ws (omega (arith, h))
              (At-then (encode v) (encode_pairs ps) next refl behind)
              (omega (
                arith,
                e,
                length-append (encode k) rest,
                length-append (encode v) (encode_pairs ps),
              )))

  -- What is written is read back wherever it stands between other bytes, and the offset that is
  -- returned is the one behind it, for every size that the format has and for arrays and maps as deep
  -- as Python's stack takes.
  pub decode-encode :
      (front behind : List ℕ) (d : Data) (base limit : ℕ)
      → IsWritable d
      → levels d ≤ limit
      → decode decode_utf8
          (record {
            buffer = front ++ (encode d ++ behind);
            pointer_base = base;
            pointer_test = false;
          })
          limit
          (length front)
        ≡ ok (record_of d, length front + length (encode d))
  decode-encode front behind d base limit w h = decode-Stored decode_utf8 _ refl limit h (
      encode-Stored _ d (levels d) (length front) _ w (omega arith)
        (At-here front (encode d) behind) refl)
