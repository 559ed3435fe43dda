-- ===== src/Common/Action.antt =====
-- Stateful code that may throw: the state survives an exception, as in JavaScript.
use mathlib.Core.Path.{◌≡◌, refl}
use mathlib.Core.Logic.{◌⊎◌, inl, inr}
use mathlib.Core.Bool.{Bool, true, false}
use intranet_penetration_clo.Common.Result.{Result, ok, err}
use native.Mathlib.Omega.{arith}

abbrev pub Action : Type 0 → Type 0 → Type 0 → Type 0
Action E S A = S → Result E A × S

module _ {E S : Type 0} where
  abbrev pub pure : {A : Type 0} → A → Action E S A
  pure a s = (ok a, s)

  abbrev pub raise : {A : Type 0} → E → Action E S A
  raise e s = (err e, s)

  abbrev pub chain : {A B : Type 0} → Result E A × S → (A → Action E S B) → Result E B × S
  chain (ok a, s) f = f a s
  chain (err e, s) f = (err e, s)

  infixl 5 ◌>>=◌ ◌>>◌
  abbrev pub ◌>>=◌ : {A B : Type 0} → Action E S A → (A → Action E S B) → Action E S B
  ◌>>=◌ m f s = chain (m s) f

  abbrev pub ◌>>◌ : {B : Type 0} → Action E S (Unit {0}) → Action E S B → Action E S B
  m >> rest = m >>= λ _. rest

  -- `catch (e) { … }`
  abbrev pub rescue : {A : Type 0} → Result E A × S → (E → Action E S A) → Result E A × S
  rescue (ok a, s) handler = (ok a, s)
  rescue (err e, s) handler = handler e s

  abbrev pub catching : {A : Type 0} → Action E S A → (E → Action E S A) → Action E S A
  catching body handler s = rescue (body s) handler

  -- `finally { … }`: an exception of the last block takes the place of an earlier one.
  abbrev pub conclude : Result E (Unit {0}) × S → Action E S (Unit {0}) → Result E (Unit {0}) × S
  conclude (ok a, s) last = last s
  conclude (err e, s) last = chain (last s) (λ _. raise e)

  abbrev pub finally : Action E S (Unit {0}) → Action E S (Unit {0}) → Action E S (Unit {0})
  finally body last s = conclude (body s) last

  abbrev pub update : (S → S) → Action E S (Unit {0})
  update f s = (ok tt, f s)

  abbrev pub when : Bool → Action E S (Unit {0}) → Action E S (Unit {0})
  when true body s = body s
  when false body s = (ok tt, s)

  -- An action that looks at the state first.
  abbrev pub reading : {A B : Type 0} → (S → A) → (A → Action E S B) → Action E S B
  reading look body s = body (look s) s

  pub Action-cases :
      {A : Type 0} (m : Result E A × S)
      → ((a : A) × (s : S) × (m ≡ (ok a, s))) ⊎ ((e : E) × (s : S) × (m ≡ (err e, s)))
  Action-cases (ok a, s) = inl (a, s, refl)
  Action-cases (err e, s) = inr (e, s, refl)

  -- A run of a chain that ends well went well at each step.
  pub chain-ok :
      {A B : Type 0} (r : Result E A × S) (f : A → Action E S B) (b : B) (s : S)
      → Path (Result E B × S) (chain r f) (ok b, s)
      → (a : A) × (t : S) × (r ≡ (ok a, t)) × (f a t ≡ (ok b, s))
  chain-ok (ok a, t) f b s h = (a, t, refl, h)
  chain-ok (err e, t) f b s h = ground arith
