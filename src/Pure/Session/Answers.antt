-- ===== src/Pure/Session/Answers.antt =====
-- A whole use of the reader in Python, from the opening of a file to the end of the `with` statement:
-- maxminddb/reader.py.
use max_mind_db_reader_pytho.Base.{
  ℕ, ◌-◌, ◌*◌, ◌≤◌, ◌<◌, ◌≡◌, refl, ap, ◌∙◌, Bool, true, false, ◌&&◌, Option, String, List, [], ◌∷◌,
  ◌++◌, ◌==◌, if◌then◌else◌, length, length-append, drop, arith, All, IsByte,
}
use max_mind_db_reader_pytho.Entry.BigEndian.{big_endian}
use max_mind_db_reader_pytho.Iter.Trie.{Trie}
use max_mind_db_reader_pytho.Pure.{Result, ok, raises, value_error}
use max_mind_db_reader_pytho.Pure.Decoder.{Record, dict, Items}
use max_mind_db_reader_pytho.Pure.Decoder.Format.{control}
use max_mind_db_reader_pytho.Pure.Decoder.RoundTrip.{
  Data, plain, array_of, map_of, record_of, encode, levels, IsWritable,
}
use max_mind_db_reader_pytho.Pure.Reader.{
  Metadata, Reader, start_node, get_with_prefix_len, Argument, address_of,
}
use max_mind_db_reader_pytho.Pure.Reader.Tree.{Holds, descend}
use max_mind_db_reader_pytho.Pure.Reader.Bits.{bit_of}
use max_mind_db_reader_pytho.Pure.Reader.Lookup.{Leads, get_with_prefix_len-Leads}
use max_mind_db_reader_pytho.Pure.Init.{metadata_start_marker, metadata_of, init}
use max_mind_db_reader_pytho.Pure.Init.Opens.{IsAbsent, database, init-database}
use max_mind_db_reader_pytho.Pure.Open.{Source, mapped, file_buffer, whole_file, read_from_object}
use max_mind_db_reader_pytho.Pure.File.Ends.{ends_with, ends_with-append, ends_with-IsAbsent}
use max_mind_db_reader_pytho.Pure.File.Same.{init_file-init}
use max_mind_db_reader_pytho.Pure.Session.{
  Session, open_session, close_session, enter, with_session,
}

control_some : (t n : ℕ) → 0 < length (control t n)
unfolding control
control_some t n = ground arith

encode_some : (d : Data) → 0 < length (encode d)
unfolding encode
encode_some (plain t n bs v) = omega (arith, length-append (control t n) bs, control_some t n)
encode_some (array_of es) = omega arith
encode_some (map_of ps) = omega arith

-- The part of the tree that the addresses of so many bits are looked up in.
abbrev pub part : Metadata → (bits : ℕ) → Trie → Trie
part m bits t = if (m.ip_version == 6) && (bits == 32) then (descend (λ i. 0) 96 0 t).0 else t

database-ends :
    (front : List ℕ) (d : Data) (behind : List ℕ)
    → IsAbsent metadata_start_marker (drop 1 (metadata_start_marker ++ (encode d ++ behind)))
    → ends_with (database front d behind) metadata_start_marker ≡ false
database-ends front d behind absent =
    let after = drop 1 (metadata_start_marker ++ (encode d ++ behind)) in
    let size = length-append (encode d) behind in
    ends_with-append front (171 ∷ after) metadata_start_marker (omega (arith, size))
    ∙ ends_with-append (171 ∷ []) after metadata_start_marker (omega (arith, size, encode_some d))
    ∙ ends_with-IsAbsent after metadata_start_marker (omega arith) absent

database_some : (front : List ℕ) (d : Data) (behind : List ℕ) → 0 < length (database front d behind)
database_some front d behind =
    omega (arith, length-append front (metadata_start_marker ++ (encode d ++ behind)))

-- The start of IPv4 is needed only where a tree of IPv6 has one.
start_lem :
    (is_six is_short : Bool) (buffer : List ℕ) (m : Metadata) (u : ℕ) (inner t : Trie)
    → Holds buffer m 0 t
    → Holds buffer m u (if is_six then inner else t)
    → Holds buffer m (if is_six && is_short then u else 0) (if is_six && is_short then inner else t)
start_lem true true buffer m u inner t h last = last
start_lem true false buffer m u inner t h last = h
start_lem false is_short buffer m u inner t h last = h

module _ (decode_utf8 : List ℕ → Option (List ℕ)) (limit : ℕ) where
  -- The kind of the buffer makes no difference to what is read.
  open_session-init :
      (source : Source) (contents : List ℕ) (r : Reader)
      → 0 < length contents
      → ends_with contents metadata_start_marker ≡ false
      → init decode_utf8 limit contents ≡ ok r
      → open_session decode_utf8 limit source contents
        ≡ ok (record { reader = r; source = source; is_readable = true; closed = false })
  unfolding open_session
  open_session-init mapped contents r some_byte h e = rw e refl
  open_session-init whole_file contents r some_byte h e = rw e refl
  open_session-init read_from_object contents r some_byte h e = rw e refl
  open_session-init file_buffer contents r some_byte h e =
      let same = (init_file-init decode_utf8 limit contents 0 0 0 some_byte h (omega arith)).0 in
      rw (same ∙ e) refl

  -- A reader with any kind of buffer, on a file whose metadata, written by the format as a map of the
  -- nine fields with numbers where the reader computes, follow the last marker in the last 128 kB,
  -- and whose first bytes hold a search tree, opens. Used in a `with` statement for one lookup with an
  -- argument that stands for an address of a version that the database supports, where the bits of the
  -- address lead to no value or to one that is stored in the file, no deeper than the stack takes, it
  -- returns None or that value, with the depth of the record; bits of IPv4 in a tree of IPv6 begin
  -- under 96 zero bits. Afterwards the reader is closed, and entering it again is a ValueError.
  pub with_session-Leads :
      (source : Source) (front : List ℕ) (d : Data) (behind : List ℕ) (items : Items) (m : Metadata)
      (t : Trie)
      → length (database front d behind) - 131072 ≤ length front
      → IsAbsent metadata_start_marker (drop 1 (metadata_start_marker ++ (encode d ++ behind)))
      → IsWritable decode_utf8 d
      → levels d ≤ limit
      → record_of d ≡ dict items
      → metadata_of items ≡ ok m
      → Holds (database front d behind) m 0 t
      → (ip_address : String → Result (List ℕ × ℕ)) (argument : Argument) (packed : List ℕ)
        (version : ℕ) (v : Option Record)
      → address_of ip_address argument ≡ ok (packed, version)
      → All IsByte packed
      → (version == 6) && (m.ip_version == 4) ≡ false
      → Leads decode_utf8
          (record {
            buffer = database front d behind;
            buffer_size = length (database front d behind);
            metadata = m;
            ipv4_start = 0;
          })
          limit
          (descend
            (bit_of (length packed * 8) (big_endian packed))
            (length packed * 8)
            0
            (part m (length packed * 8) t)).0
          v
      → (s : Session) × (open_session decode_utf8 limit source (database front d behind) ≡ ok s)
        × (with_session (λ r. get_with_prefix_len r decode_utf8 limit ip_address argument) s ≡ (
          ok (
            v,
            (descend
                (bit_of (length packed * 8) (big_endian packed))
                (length packed * 8)
                0
                (part m (length packed * 8) t)).1,
          ),
          close_session s,
        ))
        × (enter (close_session s) ≡ raises (value_error "Attempt to reopen a closed MaxMind DB"))
  unfolding with_session enter close_session start_node
  with_session-Leads source front d behind items m t near absent writable fits is known h ip_address
        argument packed version v found bytes supported leads =
      let file = database front d behind in
      let (u, opened, last) =
        init-database decode_utf8 limit front d behind items m t near absent writable fits is known
          h in
      let r : Reader = record {
        buffer = file;
        buffer_size = length file;
        metadata = m;
        ipv4_start = u;
      } in
      let start =
        start_lem (m.ip_version == 6) (length packed * 8 == 32) file m u (descend (λ i. 0) 96 0 t).0
          t h last in
      (
        record { reader = r; source = source; is_readable = true; closed = false },
        open_session-init source file r (database_some front d behind)
            (database-ends front d behind absent) opened,
        ap
            (λ a. (
              a,
              close_session
                  (record { reader = r; source = source; is_readable = true; closed = false }),
            ))
            (get_with_prefix_len-Leads decode_utf8 r limit ip_address argument packed version
              (part m (length packed * 8) t) v found bytes supported start leads),
        refl,
      )
