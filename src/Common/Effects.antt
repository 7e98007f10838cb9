-- ===== src/Common/Effects.antt =====
-- Calls that may raise and that change a state: what was written before a raise stays written.
use mathlib.Core.Path.{◌≡◌, refl}
use mathlib.Core.Logic.{◌⊎◌, inl, inr}
use mathlib.Core.Bool.{Bool, true, false}
use native.Mathlib.Omega.{arith}
use recursive_self_improveme.Common.Tests.{if◌then◌else◌}
use recursive_self_improveme.Common.Outcomes.{Outcome, ok, err}

abbrev pub Effect : Type 0 → Type 0 → Type 0 → Type 0
Effect S E A = S → Outcome E A × S

module _ {S E A : Type 0} where
  abbrev pub pure : A → Effect S E A
  pure a s = (ok a, s)

  abbrev pub raise : E → Effect S E A
  raise e s = (err e, s)

  -- A call that touches no state.
  abbrev pub lift : Outcome E A → Effect S E A
  lift outcome s = (outcome, s)

module _ {S E A B : Type 0} where
  abbrev pub continue : Outcome E A × S → (A → Effect S E B) → Outcome E B × S
  continue (ok a, s) f = f a s
  continue (err e, s) f = (err e, s)

  infixl 5 ◌>>=◌ ◌>>◌
  abbrev pub ◌>>=◌ : Effect S E A → (A → Effect S E B) → Effect S E B
  ◌>>=◌ m f s = continue (m s) f

  abbrev pub ◌>>◌ : Effect S E A → Effect S E B → Effect S E B
  m >> k = m >>= λ _. k

-- To split on what a call returned and keep the equation.
pub Returned-cases :
    {S E A : Type 0} (r : Outcome E A × S)
    → ((a : A) × (s : S) × (r ≡ (ok a, s))) ⊎ ((e : E) × (s : S) × (r ≡ (err e, s)))
Returned-cases (ok a, s) = inl (a, s, refl)
Returned-cases (err e, s) = inr (e, s, refl)

module _ {S E A : Type 0} where
  pub ok_injective :
      {a b : A} {s t : S} → ◌≡◌ {A = Outcome E A × S} (ok a, s) (ok b, t) → (a ≡ b) × (s ≡ t)
  ok_injective h = ground arith

  pub err_injective :
      {e f : E} {s t : S} → ◌≡◌ {A = Outcome E A × S} (err e, s) (err f, t) → (e ≡ f) × (s ≡ t)
  err_injective h = ground arith

  pub ok_ne_err : {a : A} {e : E} {s t : S} → ◌≡◌ {A = Outcome E A × S} (ok a, s) (err e, t) → ⊥
  ok_ne_err h = ground arith

-- The call keeps a property of the state, whether it returns or raises.
pub record Keeps {S E A : Type 0} (P : S → Type 0) (m : Effect S E A) : Type 0 where
  pub at : (s : S) → P s → P (m s).1

module _ {S E A B : Type 0} {P : S → Type 0} where
  continue-Keeps :
      (r : Outcome E A × S) (f : A → Effect S E B)
      → P r.1
      → ((a : A) → Keeps P (f a))
      → P (continue r f).1
  continue-Keeps (ok a, s) f h k = (k a).at s h
  continue-Keeps (err e, s) f h k = h

  pub Keeps-bind :
      (m : Effect S E A) (f : A → Effect S E B)
      → Keeps P m
      → ((a : A) → Keeps P (f a))
      → Keeps P (m >>= f)
  Keeps-bind m f h k = record { at = λ s v. continue-Keeps (m s) f (h.at s v) k }

module _ {S E A : Type 0} {P : S → Type 0} where
  pub Keeps-if :
      (b : Bool) (m n : Effect S E A) → Keeps P m → Keeps P n → Keeps P (if b then m else n)
  Keeps-if true m n h k = h
  Keeps-if false m n h k = k

  pub Keeps-pure : (a : A) → Keeps {E = E} P (pure a)
  Keeps-pure a = record { at = λ s h. h }
