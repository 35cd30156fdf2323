-- ===== src/Pure/Decoder/Reads.antt =====
-- The decoder reads the values that stand in its buffer: maxminddb/decoder.py, lines 45-163.
use max_mind_db_reader_pytho.Base.{
  ℕ, zero, suc, ◌+◌, ◌≤◌, ◌<◌, ◌≡◌, refl, ◌∙◌, true, false, Option, List, length, arith,
}
use max_mind_db_reader_pytho.Pure.{ok}
use max_mind_db_reader_pytho.Pure.Buffer.{At, At-first, At-then}
use max_mind_db_reader_pytho.Pure.Decoder.{
  Decoder, Decoded, Record, dict, list, Records, cons, Items, item, is_hashable, type_decoder,
  decode_type, decode, decode_array, decode_map,
}
use max_mind_db_reader_pytho.Pure.Decoder.Format.{
  control, size_bound, count, entries, Stored, leaf, array, map, pointer, StoredAll, no_values,
  value, StoredItems, no_entries, entry,
}
use max_mind_db_reader_pytho.Pure.Decoder.Header.{decode_type-control}
use max_mind_db_reader_pytho.Pure.Decoder.Leaves.{Leaf-Reads}
use max_mind_db_reader_pytho.Pure.Decoder.Pointers.{decode_type-Points}

module _ (decode_utf8 : List ℕ → Option (List ℕ)) (self : Decoder) where
  module _ (decode : ℕ → Decoded) where
    -- The loops of arrays and maps, one round each.
    decode_array-cons :
        {offset next last : ℕ} (n : ℕ) {v : Record} {vs : Records}
        → decode offset ≡ ok (v, next)
        → decode_array decode_utf8 self decode n next ≡ ok (vs, last)
        → decode_array decode_utf8 self decode (suc n) offset ≡ ok (cons v vs, last)
    unfolding decode_array
    decode_array-cons n e e' = rw (decode_array, e, e') refl

    decode_map-item :
        {offset middle next last : ℕ} (n : ℕ) {k v : Record} {d : Items}
        → is_hashable k ≡ true
        → decode offset ≡ ok (k, middle)
        → decode middle ≡ ok (v, next)
        → decode_map decode_utf8 self decode n next ≡ ok (d, last)
        → decode_map decode_utf8 self decode (suc n) offset ≡ ok (item k v d, last)
    unfolding decode_map
    decode_map-item n hashable e e' e'' = rw (decode_map, e, e', hashable, e'') refl

    array_reads :
        {offset last : ℕ} {vs : Records}
        → count vs < size_bound
        → At self.buffer offset (control 11 (count vs))
        → decode_array decode_utf8 self decode (count vs) (offset + length (control 11 (count vs)))
          ≡ ok (vs, last)
        → decode_type decode_utf8 self decode offset ≡ ok (list vs, last)
    unfolding type_decoder
    array_reads bound a e =
        decode_type-control decode_utf8 self decode _ 11 _ _ (omega arith) bound refl a ∙ rw e refl

    map_reads :
        {offset last : ℕ} {d : Items}
        → entries d < size_bound
        → At self.buffer offset (control 7 (entries d))
        → decode_map decode_utf8 self decode (entries d) (offset + length (control 7 (entries d)))
          ≡ ok (d, last)
        → decode_type decode_utf8 self decode offset ≡ ok (dict d, last)
    unfolding type_decoder
    map_reads bound a e =
        decode_type-control decode_utf8 self decode _ 7 _ _ (omega arith) bound refl a ∙ rw e refl

  module _ (plain : self.pointer_test ≡ false) where
    mutual
      unfolding decode decode_array decode_map

      decode_lem :
          {levels offset last : ℕ} {v : Record} (limit : ℕ)
          → levels ≤ limit
          → Stored decode_utf8 self levels offset v last
          → decode decode_utf8 self limit offset ≡ ok (v, last)
      decode_lem zero h (leaf l bound a) = absurd (omega arith)
      decode_lem zero h (array bound a vs) = absurd (omega arith)
      decode_lem zero h (map bound a d) = absurd (omega arith)
      decode_lem zero h (pointer points a target) = absurd (omega arith)
      decode_lem {offset} (suc limit) h (leaf {type_num = t} {size = n} {bs} l bound a) =
          let (decoder, proper, known, reads) =
            Leaf-Reads decode_utf8 self (decode decode_utf8 self limit)
              (offset + length (control t n)) l
              (At-then (control t n) bs (offset + length (control t n)) refl a) in
          decode_type-control decode_utf8 self (decode decode_utf8 self limit) offset t n decoder
            proper bound known (At-first (control t n) bs a)
          ∙ reads
      decode_lem (suc limit) h (array bound a vs) =
          array_reads (decode decode_utf8 self limit) bound a
            (decode_array_lem limit (omega (arith, h)) vs)
      decode_lem (suc limit) h (map bound a d) =
          map_reads (decode decode_utf8 self limit) bound a
            (decode_map_lem limit (omega (arith, h)) d)
      decode_lem {offset} (suc limit) h (pointer points a target) =
          decode_type-Points decode_utf8 self (decode decode_utf8 self limit) offset points a plain
          ∙ rw (decode_lem limit (omega (arith, h)) target) refl

      decode_array_lem :
          {levels offset last : ℕ} {vs : Records} (limit : ℕ)
          → levels ≤ limit
          → StoredAll decode_utf8 self levels offset vs last
          → decode_array decode_utf8 self (decode decode_utf8 self limit) (count vs) offset
            ≡ ok (vs, last)
      decode_array_lem limit h no_values = refl
      decode_array_lem limit h (value v vs) =
          decode_array-cons (decode decode_utf8 self limit) _ (decode_lem limit h v)
            (decode_array_lem limit h vs)

      decode_map_lem :
          {levels offset last : ℕ} {d : Items} (limit : ℕ)
          → levels ≤ limit
          → StoredItems decode_utf8 self levels offset d last
          → decode_map decode_utf8 self (decode decode_utf8 self limit) (entries d) offset
            ≡ ok (d, last)
      decode_map_lem limit h no_entries = refl
      decode_map_lem limit h (entry hashable k v d) =
          decode_map-item (decode decode_utf8 self limit) _ hashable (decode_lem limit h k)
            (decode_lem limit h v) (decode_map_lem limit h d)

    -- A value that stands in the buffer as the format lays it out, in levels of arrays, maps and
    -- pointers for which Python's stack has room, is decoded to that value, with the offset behind
    -- its bytes, also where pointers lead to other places.
    pub decode-Stored :
        {levels offset last : ℕ} {v : Record} (limit : ℕ)
        → levels ≤ limit
        → Stored decode_utf8 self levels offset v last
        → decode decode_utf8 self limit offset ≡ ok (v, last)
    decode-Stored limit h stored = decode_lem limit h stored
