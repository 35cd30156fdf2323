-- ===== src/Pure/File/Ends.antt =====
-- Bytes behind which one byte more is read, and the last place of a needle in them: for `rfind` of
-- maxminddb/file.py, lines 40-45.
use max_mind_db_reader_pytho.Base.{
  ℕ, zero, suc, ◌+◌, ◌-◌, ◌≤◌, ◌<◌, ◌≡◌, refl, ap, sym, ◌∙◌, Bool, true, false, ◌&&◌, inl, inr, ◌⊎◌,
  Option, some, none, List, [], ◌∷◌, ◌++◌, ◌==◌, length, length-append, length-drop, drop, arith,
}
use max_mind_db_reader_pytho.Pure.Init.{starts_with, or_here, find_last}
use max_mind_db_reader_pytho.Pure.File.{shifted}
use max_mind_db_reader_pytho.Pure.Init.Opens.{IsAbsent}

-- `endswith` of bytes.
unfoldable pub ends_with : List ℕ → List ℕ → Bool
unfolding starts_with
ends_with bytes needle = starts_with (drop (length bytes - length needle) bytes) needle

order_cases : (m n : ℕ) → (m ≤ n) ⊎ (n < m)
order_cases zero n = inl (omega arith)
order_cases (suc m) zero = inr (omega arith)
order_cases (suc m) (suc n) = elim (order_cases m n) [
  | inl le ↦ inl (omega arith)
  | inr lt ↦ inr (omega arith)
]

starts_with-short :
    (bytes needle : List ℕ) → length bytes < length needle → starts_with bytes needle ≡ false
unfolding starts_with
starts_with-short bytes [] h = absurd (omega arith)
starts_with-short [] (x ∷ needle) h = refl
starts_with-short (b ∷ bytes) (x ∷ needle) h =
    let rest = starts_with-short bytes needle (omega arith) in ground (arith, rest)

starts_with-long :
    (bytes behind needle : List ℕ)
    → length needle ≤ length bytes
    → starts_with (bytes ++ behind) needle ≡ starts_with bytes needle
unfolding starts_with
starts_with-long [] [] [] h = refl
starts_with-long [] (x ∷ behind) [] h = refl
starts_with-long (b ∷ bytes) behind [] h = refl
starts_with-long [] behind (x ∷ needle) h = absurd (omega arith)
starts_with-long (b ∷ bytes) behind (x ∷ needle) h =
    ap (λ t. (b == x) && t) (starts_with-long bytes behind needle (omega arith))

-- A needle that ends no list ends no part behind of it either.
ends_with-tail :
    (b : ℕ) (bytes needle : List ℕ)
    → 0 < length needle
    → ends_with (b ∷ bytes) needle ≡ false
    → ends_with bytes needle ≡ false
unfolding ends_with
ends_with-tail b bytes needle some_needle h = elim (order_cases (length needle) (length bytes)) [
  | inl le ↦
      let same : length (b ∷ bytes) - length needle ≡ suc (length bytes - length needle) =
        omega arith in
      sym (ap (λ n. starts_with (drop n (b ∷ bytes)) needle) same) ∙ h
  | inr lt ↦
      starts_with-short (drop (length bytes - length needle) bytes) needle
        (omega (arith, length-drop (length bytes - length needle) bytes))
]

pub ends_with-drop :
    (n : ℕ) (bytes needle : List ℕ)
    → 0 < length needle
    → ends_with bytes needle ≡ false
    → ends_with (drop n bytes) needle ≡ false
ends_with-drop zero bytes needle some_needle h = h
ends_with-drop (suc n) [] needle some_needle h = h
ends_with-drop (suc n) (b ∷ bytes) needle some_needle h =
    ends_with-drop n bytes needle some_needle (ends_with-tail b bytes needle some_needle h)

-- A byte more behind the bytes ends no needle.
starts_with-last :
    (bytes needle : List ℕ) (b : ℕ)
    → 0 < length needle
    → ends_with (bytes ++ (b ∷ [])) needle ≡ false
    → starts_with (bytes ++ (b ∷ [])) needle ≡ starts_with bytes needle
unfolding ends_with
starts_with-last bytes needle b some_needle h =
    let size = length-append bytes (b ∷ []) in
    elim (order_cases (length needle) (length bytes)) [
      | inl le ↦ starts_with-long bytes (b ∷ []) needle (omega arith)
      | inr lt ↦
          let all : length (bytes ++ (b ∷ [])) - length needle ≡ 0 = omega (arith, size) in
          sym (ap (λ n. starts_with (drop n (bytes ++ (b ∷ []))) needle) all)
          ∙ h
          ∙ sym (starts_with-short bytes needle (omega arith))
    ]

pub find_last-last :
    (bytes needle : List ℕ) (b index : ℕ)
    → 0 < length needle
    → ends_with (bytes ++ (b ∷ [])) needle ≡ false
    → find_last needle index (bytes ++ (b ∷ [])) ≡ find_last needle index bytes
unfolding find_last
find_last-last [] needle b index some_needle h =
    rw
      (
        find_last,
        starts_with-last [] needle b some_needle h,
        starts_with-short [] needle some_needle,
      )
      refl
find_last-last (c ∷ bytes) needle b index some_needle h =
    let rest =
      find_last-last bytes needle b (index + 1) some_needle
        (ends_with-tail c (bytes ++ (b ∷ [])) needle some_needle h) in
    ap (λ r. or_here r (starts_with ((c ∷ bytes) ++ (b ∷ [])) needle) index) rest
    ∙ ap (λ t. or_here (find_last needle (index + 1) bytes) t index)
        (starts_with-last (c ∷ bytes) needle b some_needle h)

shifted-or_here :
    (start index : ℕ) (found : Option ℕ) (here : Bool)
    → or_here (shifted start found) here (start + index) ≡ shifted start (or_here found here index)
shifted-or_here start index (some i) here = refl
shifted-or_here start index none true = refl
shifted-or_here start index none false = refl

pub find_last-shifted :
    (needle bytes : List ℕ) (start index : ℕ)
    → find_last needle (start + index) bytes ≡ shifted start (find_last needle index bytes)
unfolding find_last
find_last-shifted needle [] start index = refl
find_last-shifted needle (b ∷ bytes) start index =
    let e : start + index + 1 ≡ start + (index + 1) = omega arith in
    let rest =
      ap (λ i. find_last needle i bytes) e ∙ find_last-shifted needle bytes start (index + 1) in
    ap (λ r. or_here r (starts_with (b ∷ bytes) needle) (start + index)) rest
    ∙ shifted-or_here start index (find_last needle (index + 1) bytes)
        (starts_with (b ∷ bytes) needle)

-- What stands in front of enough bytes does not change how they end.
pub ends_with-append :
    (front bytes needle : List ℕ)
    → length needle ≤ length bytes
    → ends_with (front ++ bytes) needle ≡ ends_with bytes needle
unfolding ends_with
ends_with-append [] bytes needle h = refl
ends_with-append (f ∷ front) bytes needle h =
    let size = length-append front bytes in
    let e : length ((f ∷ front) ++ bytes) - length needle
        ≡ suc (length (front ++ bytes) - length needle) =
      omega (arith, size) in
    ap (λ n. starts_with (drop n (f ∷ (front ++ bytes))) needle) e
    ∙ ends_with-append front bytes needle h

starts_with-IsAbsent :
    (n : ℕ) (bytes needle : List ℕ)
    → 0 < length needle
    → IsAbsent needle bytes
    → starts_with (drop n bytes) needle ≡ false
starts_with-IsAbsent n [] needle some_needle h =
    starts_with-short (drop n []) needle (omega (arith, length-drop {A = ℕ} n []))
starts_with-IsAbsent zero (b ∷ bytes) needle some_needle h = h.0
starts_with-IsAbsent (suc n) (b ∷ bytes) needle some_needle h =
    starts_with-IsAbsent n bytes needle some_needle h.1

-- Bytes do not end with a needle that they do not have.
pub ends_with-IsAbsent :
    (bytes needle : List ℕ)
    → 0 < length needle
    → IsAbsent needle bytes
    → ends_with bytes needle ≡ false
unfolding ends_with
ends_with-IsAbsent bytes needle some_needle h =
    starts_with-IsAbsent (length bytes - length needle) bytes needle some_needle h
