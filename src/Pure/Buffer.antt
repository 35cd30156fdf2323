-- ===== src/Pure/Buffer.antt =====
-- Bytes and their slices, and what `struct.unpack` makes of them: the operations on `self._buffer` in
-- maxminddb/decoder.py and maxminddb/reader.py.
use max_mind_db_reader_pytho.Base.{
  ℕ, zero, suc, ◌+◌, ◌-◌, ◌^◌, ◌≡◌, refl, ap, sym, ◌∙◌, ℤ, pos, some, none, List, [], ◌∷◌, ◌++◌,
  ◌==◌, ltb, if◌then◌else◌, length, take, drop, get_elem?, sub_ℕ, arith, append_assoc,
}
use max_mind_db_reader_pytho.Entry.BigEndian.{big_endian}
use max_mind_db_reader_pytho.Pure.{Result, ok, raises, index_error, struct_error}

-- `buffer[offset]`
unfoldable pub at : List ℕ → ℕ → Result ℕ
at buffer offset = elim (get_elem? buffer offset) [ none ↦ raises index_error | some b ↦ ok b ]

-- `buffer[start:stop]`, which ends where the buffer does.
abbrev pub slice : List ℕ → ℕ → ℕ → List ℕ
slice buffer start stop = take (stop - start) (drop start buffer)

-- `struct.unpack` of a big-endian unsigned number: "!H" for a width of 2, "!I" for 4, "!Q" for 8.
unfoldable pub unpack : (width : ℕ) → List ℕ → Result ℕ
unfolding big_endian
unpack width bytes = if length bytes == width then ok (big_endian bytes) else raises struct_error

-- "!i", in two's complement
unfoldable pub unpack_signed : List ℕ → Result ℤ
unfolding big_endian
unpack_signed bytes =
    if length bytes == 4
    then ok (
        if ltb (big_endian bytes) (2 ^ 31)
        then pos (big_endian bytes)
        else sub_ℕ (big_endian bytes) (2 ^ 32))
    else raises struct_error

-- The bytes stand in the buffer from an offset on.
pub record At (buffer : List ℕ) (offset : ℕ) (bytes : List ℕ) : Type 0 where
  pub rest : List ℕ
  pub is : drop offset buffer ≡ bytes ++ rest

drop-nil : (n : ℕ) → drop {A = ℕ} n [] ≡ []
drop-nil zero = refl
drop-nil (suc n) = refl

pub drop-append : (xs ys : List ℕ) → drop (length xs) (xs ++ ys) ≡ ys
drop-append [] ys = refl
drop-append (x ∷ xs) ys = drop-append xs ys

pub take-append : (xs ys : List ℕ) → take (length xs) (xs ++ ys) ≡ xs
take-append [] ys = refl
take-append (x ∷ xs) ys = ap (λ zs. x ∷ zs) (take-append xs ys)

drop-add : (n m : ℕ) (xs : List ℕ) → drop (n + m) xs ≡ drop m (drop n xs)
drop-add zero m xs = ap (λ k. drop k xs) (omega arith)
drop-add (suc n) m [] = drop-nil (suc n + m) ∙ sym (drop-nil m)
drop-add (suc n) m (x ∷ xs) =
    let e : suc n + m ≡ suc (n + m) = omega arith in ap (λ k. drop k (x ∷ xs)) e ∙ drop-add n m xs

get_elem?-drop :
    (buffer : List ℕ) (offset b : ℕ) (rest : List ℕ)
    → drop offset buffer ≡ b ∷ rest
    → get_elem? buffer offset ≡ some b
get_elem?-drop [] zero b rest e = absurd (ground arith)
get_elem?-drop [] (suc offset) b rest e = absurd (ground arith)
get_elem?-drop (x ∷ buffer) zero b rest e = let same : x ≡ b = cc in ap some same
get_elem?-drop (x ∷ buffer) (suc offset) b rest e = get_elem?-drop buffer offset b rest e

module _ {buffer : List ℕ} {offset : ℕ} where
  pub at-At : {b : ℕ} {bs : List ℕ} → At buffer offset (b ∷ bs) → at buffer offset ≡ ok b
  unfolding at
  at-At a = rw (at, get_elem?-drop buffer offset _ _ a.is) refl

  pub slice-At :
      {bs : List ℕ} (stop : ℕ)
      → stop ≡ offset + length bs
      → At buffer offset bs
      → slice buffer offset stop ≡ bs
  slice-At {bs} stop is a =
      let e : stop - offset ≡ length bs = omega (arith, is) in
      ap (λ n. take n (drop offset buffer)) e
      ∙ ap (λ ys. take (length bs) ys) a.is
      ∙ take-append bs a.rest

  pub At-first : (xs ys : List ℕ) → At buffer offset (xs ++ ys) → At buffer offset xs
  At-first xs ys a = record { rest = ys ++ a.rest; is = a.is ∙ append_assoc xs ys a.rest }

  pub At-then :
      (xs ys : List ℕ) (next : ℕ)
      → next ≡ offset + length xs
      → At buffer offset (xs ++ ys)
      → At buffer next ys
  At-then xs ys next is a = record {
    rest = a.rest;
    is =
        ap (λ n. drop n buffer) is
        ∙ drop-add offset (length xs) buffer
        ∙ ap (λ zs. drop (length xs) zs) (a.is ∙ append_assoc xs ys a.rest)
        ∙ drop-append xs (ys ++ a.rest);
  }

pub At-here : (xs ys zs : List ℕ) → At (xs ++ (ys ++ zs)) (length xs) ys
At-here xs ys zs = record { rest = zs; is = drop-append xs (ys ++ zs) }
