-- ===== src/Pure/Reader/Children/Collect.antt =====
-- Generators that give the results of a list, one after the other: the `yield from` of
-- `_generate_children`, maxminddb/reader.py, lines 166-192.
use max_mind_db_reader_pytho.Base.{◌≡◌, refl, ap, sym, ◌∙◌, List, [], ◌∷◌, ◌++◌, map, All}
use max_mind_db_reader_pytho.Pure.{Result}
use max_mind_db_reader_pytho.Pure.Reader.Children.{
  Generated, stop, fails, yields, ◌then_from◌, yield_result,
}

-- The results one after the other, up to the first exception.
abbrev pub collect {ℓ} : {A : Type ℓ} → List (Result A) → Generated A
collect [] = stop
collect (x ∷ xs) = yield_result x then_from collect xs

module _ {ℓ} {A : Type ℓ} where
  then_from_assoc :
      (f g h : Generated A) → (f then_from g) then_from h ≡ f then_from (g then_from h)
  then_from_assoc stop g h = refl
  then_from_assoc (fails e) g h = refl
  then_from_assoc (yields a f) g h = ap (λ k. yields a k) (then_from_assoc f g h)

  pub collect-append :
      (xs ys : List (Result A)) → collect (xs ++ ys) ≡ collect xs then_from collect ys
  collect-append [] ys = refl
  collect-append (x ∷ xs) ys =
      ap (λ g. yield_result x then_from g) (collect-append xs ys)
      ∙ sym (then_from_assoc (yield_result x) (collect xs) (collect ys))

  pub then_from_stop : (g : Generated A) → g then_from stop ≡ g
  then_from_stop stop = refl
  then_from_stop (fails e) = refl
  then_from_stop (yields a g) = ap (λ k. yields a k) (then_from_stop g)

pub map-append {ℓ κ} :
    {A : Type ℓ} {B : Type κ} (f : A → B) (xs ys : List A) → map f (xs ++ ys) ≡ map f xs ++ map f ys
map-append f [] ys = refl
map-append f (x ∷ xs) ys = ap (λ zs. f x ∷ zs) (map-append f xs ys)

pub All-append_left {ℓ} :
    {A : Type ℓ} (P : A → Type 0) (xs ys : List A) → All P (xs ++ ys) → All P xs
All-append_left P [] ys h = tt
All-append_left P (x ∷ xs) ys (p, h) = (p, All-append_left P xs ys h)

pub All-append_right {ℓ} :
    {A : Type ℓ} (P : A → Type 0) (xs ys : List A) → All P (xs ++ ys) → All P ys
All-append_right P [] ys h = h
All-append_right P (x ∷ xs) ys (p, h) = All-append_right P xs ys h
