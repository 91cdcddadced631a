-- ===== src/Base/Exec.antt =====
-- An `async fn` over shared state that may fail. What was written before a failure stays written,
-- so the state comes back beside the error too.
use mathlib.Core.Bool.{Bool, true, false}
use mathlib.Core.Path.{◌≡◌, refl}
use mathlib.Core.Logic.{◌⊎◌, inl, inr}
use native.Mathlib.Omega.{arith}
use remotekvm.Base.Tests.{if◌then◌else◌}

pub data Result (E A : Type 0) : Type 0 where
  ok : A → Result E A
  err : E → Result E A

-- To split on a computed result and keep the equation.
pub Result-cases :
    {E A : Type 0} (r : Result E A) → ((a : A) × (r ≡ ok a)) ⊎ ((e : E) × (r ≡ err e))
Result-cases (ok a) = inl (a, refl)
Result-cases (err e) = inr (e, refl)

-- A guard that was passed.
pub if_ok :
    {E A : Type 0} (test : Bool) (value result : A) (error : E)
    → ◌≡◌ {A = Result E A} (if test then ok value else err error) (ok result)
    → value ≡ result
if_ok true value result error h = ground arith
if_ok false value result error h = absurd (ground arith)

abbrev pub Exec : Type 0 → Type 0 → Type 0 → Type 0
Exec S E A = S → Result E A × S

module _ {S E A : Type 0} where
  unfoldable pub pure : A → Exec S E A
  pure a s = (ok a, s)

  unfoldable pub raise : E → Exec S E A
  raise e s = (err e, s)

module _ {S E : Type 0} where
  unfoldable pub modify : (S → S) → Exec S E (Unit {0})
  modify f s = (ok tt, f s)

module _ {S E A B : Type 0} where
  abbrev pub continue : Result E A → (A → Exec S E B) → Exec S E B
  continue r f s = elim r [ ok a ↦ f a s | err e ↦ (err e, s) ]

  infixl 10 ◌>>=◌ ◌>>◌
  -- Opening this opens the actions above too.
  unfoldable pub ◌>>=◌ : Exec S E A → (A → Exec S E B) → Exec S E B
  unfolding pure raise modify
  ◌>>=◌ m f s = continue (m s).0 f (m s).1

  abbrev pub ◌>>◌ : Exec S E A → Exec S E B → Exec S E B
  m >> n = m >>= λ _. n

-- `act` leads from a state with `P` to one with `P`, also where it fails.
pub record Keeps {ℓ} {S E A : Type 0} (P : S → Type ℓ) (act : Exec S E A) : Type ℓ where
  pub at : (s : S) → P s → P (act s).1

module _ {ℓ} {S E A : Type 0} {P : S → Type ℓ} where
  pub Keeps-pure : (value : A) → Keeps P (pure {S = S} {E = E} value)
  unfolding pure
  Keeps-pure value = record { at = λ _ fine. fine }

  pub Keeps-raise : (error : E) → Keeps P (raise {S = S} {A = A} error)
  unfolding raise
  Keeps-raise error = record { at = λ _ fine. fine }

  -- The two arms of a test.
  pub Keeps-if :
      (test : Bool) {yes_arm no_arm : Exec S E A}
      → Keeps P yes_arm
      → Keeps P no_arm
      → Keeps P (if test then yes_arm else no_arm)
  Keeps-if true hit miss = hit
  Keeps-if false hit miss = miss

module _ {ℓ} {S E A B : Type 0} {P : S → Type ℓ} where
  Keeps-continue :
      (outcome : Result E A) (next : A → Exec S E B) (s : S)
      → ((value : A) → Keeps P (next value))
      → P s
      → P (continue outcome next s).1
  Keeps-continue (ok value) next s later fine = (later value).at s fine
  Keeps-continue (err error) next s later fine = fine

  pub Keeps-bind :
      (act : Exec S E A) (next : A → Exec S E B)
      → Keeps P act
      → ((value : A) → Keeps P (next value))
      → Keeps P (act >>= next)
  unfolding ◌>>=◌
  Keeps-bind act next first later = record {
    at = λ s fine. Keeps-continue (act s).0 next (act s).1 later (first.at s fine);
  }
