-- ===== src/Lookup/Get.antt =====
-- `Reader_get` and `Reader_get_with_prefix_len` on any argument, in an open database:
-- extension/maxminddb.c, lines 393-508.
use mathlib.Core.Path.{subst}
use max_mind_db_reader_pytho.Base.{
  ◌≡◌, ◌≢◌, sym, ◌∙◌, ◌⊎◌, inl, inr, false, none, some, arith, ◌==◌, Bool-cases,
}
use max_mind_db_reader_pytho.Env.{Env, SockAddr, Mmdb}
use max_mind_db_reader_pytho.Runtime.{World}
use max_mind_db_reader_pytho.Runtime.Outcome.{mono, Ensures, returns, gave, given}
use max_mind_db_reader_pytho.Lock.Read.{IsReady}
use max_mind_db_reader_pytho.Entry.Layout.{Intact-from, LaysOut}
use max_mind_db_reader_pytho.Address.{Object}
use max_mind_db_reader_pytho.Address.Convert.{StandsFor, ip_converter-Answers}
use max_mind_db_reader_pytho.Reader.State.{get_state_cases}
use max_mind_db_reader_pytho.Lookup.{Found, lookup_address, get_record}
use max_mind_db_reader_pytho.Lookup.Answer.{Answer, Cause, lookup_address-Answer}

module _ (env : Env) (mmdb : Mmdb) (obj : Object) where
  -- Why there is no answer: the argument is no address, or a cause of the lookup.
  abbrev pub Failure : Type 0
  Failure =
      ((a : SockAddr) → ¬ StandsFor env obj a)
      ⊎ (env.has_module ≡ false)
      ⊎ ((ip : SockAddr) × StandsFor env obj ip × ((ip.family ≡ 0) ⊎ Cause env mmdb ip))

  -- An answer is that of the lookup for an address that the argument stands for.
  abbrev pub Gets : World → Found → World → Type 0
  Gets w none u = (u.error ≢ none) × Failure
  Gets w (some r) u = (ip : SockAddr) × StandsFor env obj ip × Answer env mmdb ip w (some r) u

  lookup_address-Gets :
      (v w : World) (ip : SockAddr)
      → LaysOut env
      → IsReady env.strategy w.lock
      → w.mmdb ≡ some mmdb
      → w.error ≡ v.error
      → StandsFor env obj ip
      → Ensures (Gets v) (lookup_address env ip w)
  unfolding lookup_address
  lookup_address-Gets v w ip lays ready opened same stands = elim (Bool-cases (ip.family == 0)) [
    | inl unset ↦ rw unset (returns ((λ e. cc), inr (inr (ip, stands, inl (ground arith)))))
    | inr set ↦ mono (lookup_address-Answer env mmdb ip w lays ready opened (ground arith)) carry
  ]
    where
      carry : (r : Found) (u : World) → Answer env mmdb ip w r u → Gets v r u
      carry none u (bad, cause) = (bad, inr (inr (ip, stands, inr cause)))
      carry (some (none, n)) u (s, f, p, e) = (ip, stands, (s, f, p, e ∙ same))
      carry (some (some x, n)) u (s, f, p, (t, l, intact)) =
          (ip, stands, (s, f, p, (t, l, Intact-from env w v u same intact)))

  -- In an open database over a library that lays its values out, with a ready lock, a lookup with
  -- any argument meets no fault: its answer is the one for an address that the argument stands
  -- for, and it fails with an exception only where there is none, where the type has no module, or
  -- for a cause of the lookup.
  pub get_record-Gets :
      (w : World)
      → LaysOut env
      → IsReady env.strategy w.lock
      → w.mmdb ≡ some mmdb
      → Ensures (Gets w) (get_record env (some obj) w)
  unfolding get_record
  get_record-Gets w lays ready opened = elim (get_state_cases env w) [
    | inr (x, lost, why) ↦ rw lost (returns ((λ e. cc), inr (inl why)))
    | inl known ↦ elim (given (ip_converter-Answers env obj w)) [
      | gave none w₁ e (o, bad, no_address) ↦ rw (known, e) (returns (bad, inl no_address))
      | gave (some ip) w₁ e (o, same, stands) ↦
          rw (known, e)
            (lookup_address-Gets w w₁ ip lays (subst (IsReady env.strategy) (sym o.lock) ready)
              (o.mmdb ∙ opened) same stands)
    ]
  ]
