-- ===== src/Address/Convert.antt =====
-- Which arguments `ip_converter` accepts, and as what address: extension/maxminddb.c, lines 510-588.
use max_mind_db_reader_pytho.Base.{
  ℕ, zero, suc, ◌+◌, ◌≤◌, ◌≡◌, ◌≢◌, refl, ◌⊎◌, inl, inr, Option, none, some, List, [], ◌∷◌, arith,
  ◌==◌, length, All, Bool-cases, Option-cases,
}
use max_mind_db_reader_pytho.Env.{Env, SockAddr, af_inet, af_inet6}
use max_mind_db_reader_pytho.Runtime.{World, type_error, value_error}
use max_mind_db_reader_pytho.Runtime.Outcome.{Ensures, returns, Owns, decref_lem}
use max_mind_db_reader_pytho.Address.{
  Object, bytes_value, not_bytes, unicode, object, c_strlen, from_packed, from_getaddrinfo,
  ip_converter,
}

-- The address that an argument stands for: what `getaddrinfo` says of a text with no NUL in it, and
-- the packed bytes of an address object, by their number.
abbrev pub StandsFor : Env → Object → SockAddr → Type 0
StandsFor env (unicode none) a = ⊥
StandsFor env (unicode (some s)) a =
    All (λ c. c ≢ 0) s × ((env.getaddrinfo s).0 ≡ 0) × ((env.getaddrinfo s).1 ≡ some a)
StandsFor env (object none) a = ⊥
StandsFor env (object (some not_bytes)) a = ⊥
StandsFor env (object (some (bytes_value b))) a =
    (a.addr ≡ b)
    × (((length b ≡ 16) × (a.family ≡ af_inet6)) ⊎ ((length b ≡ 4) × (a.family ≡ af_inet)))

-- Nothing is owned after the call that was not before. An address stands for the argument; without
-- one an exception is set, and no address does.
abbrev pub Answers : Env → Object → World → Option SockAddr → World → Type 0
Answers env obj w none w' =
    Owns w w' w.blocks w.refs w.lists × (w'.error ≢ none) × ((a : SockAddr) → ¬ StandsFor env obj a)
Answers env obj w (some a) w' =
    Owns w w' w.blocks w.refs w.lists × (w'.error ≡ w.error) × StandsFor env obj a

c_strlen-le : (s : List ℕ) → c_strlen s ≤ length s
unfolding c_strlen
c_strlen-le [] = omega arith
c_strlen-le (c ∷ s) = ground (arith, c_strlen-le s)

no_nul : (s : List ℕ) → c_strlen s ≡ length s → All (λ c. c ≢ 0) s
unfolding c_strlen
no_nul [] e = tt
no_nul (zero ∷ s) e = absurd (omega arith)
no_nul (suc c ∷ s) e = ((λ z. omega arith), no_nul s (ground arith))

c_strlen-eq : (s : List ℕ) → All (λ c. c ≢ 0) s → c_strlen s ≡ length s
unfolding c_strlen
c_strlen-eq [] h = refl
c_strlen-eq (zero ∷ s) (p, h) = absurd (p refl)
c_strlen-eq (suc c ∷ s) (p, h) = ground (arith, c_strlen-eq s h)

-- The world in which the length of `packed` turns out to be another.
abbrev unexpected : World → World
unexpected w = record w {
  error = some (record {
    kind = value_error;
    format = "argument 1 returned an unexpected packed length for address";
    args = [];
  });
}

-- The world in which `packed` turns out to be no bytes.
abbrev refused : World → World
refused w = record w {
  refs = w.refs + 1;
  error = some (record {
    kind = type_error;
    format = "argument 1 must be a string or ipaddress object";
    args = [];
  });
}

module _ (env : Env) where
  from_packed-Answers :
      (b : List ℕ) (w w₁ : World)
      → Owns w w₁ w.blocks (w.refs + 1) w.lists
      → w₁.error ≡ w.error
      → Ensures (Answers env (object (some (bytes_value b))) w) (from_packed b w₁)
  unfolding from_packed
  from_packed-Answers b w w₁ o e = elim (Bool-cases (length b == 16)) [
    | inl long ↦
        rw (long, decref_lem {w = w₁} (omega arith))
          (returns (ground arith, ground arith, (refl, inl (ground arith, refl))))
    | inr other ↦ elim (Bool-cases (length b == 4)) [
      | inl short ↦
          rw (other, short, decref_lem {w = w₁} (omega arith))
            (returns (ground arith, ground arith, (refl, inr (ground arith, refl))))
      | inr neither ↦
          rw (other, neither, decref_lem {w = unexpected w₁} (omega arith))
            (returns (ground arith, ground arith, λ a h. ground arith))
    ]
  ]

  pub ip_converter-Answers :
      (obj : Object) (w : World) → Ensures (Answers env obj w) (ip_converter env obj w)
  unfolding ip_converter
  ip_converter-Answers (unicode none) w = returns (ground arith, ground arith, λ a h. h)
  ip_converter-Answers (unicode (some s)) w = elim (Bool-cases (c_strlen s == length s)) [
    | inr cut ↦
        rw cut (returns (ground arith, ground arith, λ a h. ground (arith, c_strlen-eq s h.0)))
    | inl full ↦ elim (Bool-cases ((env.getaddrinfo s).0 == 0)) [
      | inr bad ↦ rw (full, bad) (returns (ground arith, ground arith, λ a h. ground arith))
      | inl good ↦ elim (Option-cases (env.getaddrinfo s).1) [
        | inl null ↦
            rw (full, from_getaddrinfo, good, null)
              (returns (ground arith, ground arith, λ a h. ground arith))
        | inr (a, e) ↦
            rw (full, from_getaddrinfo, good, e)
              (returns (ground arith, ground arith, (no_nul s (ground arith), ground arith, e)))
      ]
    ]
  ]
  ip_converter-Answers (object none) w = returns (ground arith, ground arith, λ a h. h)
  ip_converter-Answers (object (some not_bytes)) w =
      rw (decref_lem {w = refused w} (omega arith)) (returns (ground arith, ground arith, λ a h. h))
  ip_converter-Answers (object (some (bytes_value b))) w =
      from_packed-Answers b w (record w { refs = w.refs + 1 }) (ground arith) refl
