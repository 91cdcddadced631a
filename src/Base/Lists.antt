-- ===== src/Base/Lists.antt =====
-- Lists measured by native numbers under the library's names, Boolean filters, and `All`.
use Prim.Native.Nat.{ℕ, zero, suc, ◌+◌}
use mathlib.Core.Path.{◌≡◌, refl, subst}
use mathlib.Core.Bool.{Bool, true, false, not, ◌||◌}
use mathlib.Core.Logic.{inl, inr}
use mathlib.Core.List.{List, [], ◌∷◌, ◌++◌}
use mathlib.Core.Option.{Option, none, some}
use native.Mathlib.Omega.{arith}
use remotekvm.Base.Tests.{if◌then◌else◌, Bool-cases}

module _ {ℓ} {A : Type ℓ} where
  abbrev pub length : List A → ℕ
  length [] = 0
  length (x ∷ xs) = suc (length xs)

  abbrev pub take : ℕ → List A → List A
  take zero xs = []
  take (suc n) [] = []
  take (suc n) (x ∷ xs) = x ∷ take n xs

  abbrev pub drop : ℕ → List A → List A
  drop zero xs = xs
  drop (suc n) [] = []
  drop (suc n) (x ∷ xs) = drop n xs

  -- `Vec::retain`, and a `WHERE` clause.
  abbrev pub filter : (A → Bool) → List A → List A
  filter p [] = []
  filter p (x ∷ xs) = let rest = filter p xs in if p x then x ∷ rest else rest

  abbrev pub any : (A → Bool) → List A → Bool
  any p [] = false
  any p (x ∷ xs) = p x || any p xs

  -- The first element that passes the test.
  abbrev pub find : (A → Bool) → List A → Option A
  find p [] = none
  find p (x ∷ xs) = let rest = find p xs in if p x then some x else rest

  pub length-append : (xs ys : List A) → length (xs ++ ys) ≡ length xs + length ys
  length-append [] ys = omega arith
  length-append (x ∷ xs) ys = omega (arith, length-append xs ys)

module _ {ℓ} {A : Type ℓ} where
  pub take-length-append : (xs ys : List A) → take (length xs) (xs ++ ys) ≡ xs
  take-length-append [] ys = refl
  take-length-append (x ∷ xs) ys = rw (take-length-append xs ys)

  pub drop-length-append : (xs ys : List A) → drop (length xs) (xs ++ ys) ≡ ys
  drop-length-append [] ys = refl
  drop-length-append (x ∷ xs) ys = drop-length-append xs ys

module _ {ℓ κ} {A : Type ℓ} where
  -- Every element satisfies the predicate; it computes to a tuple.
  abbrev pub All : (A → Type κ) → List A → Type κ
  All P [] = Unit
  All P (x ∷ xs) = P x × All P xs

module _ {ℓ} {A : Type ℓ} where
  -- What is found passes the test.
  pub find_sound :
      (p : A → Bool) (xs : List A) (found : A) → find p xs ≡ some found → p found ≡ true
  find_sound p [] found h = ground arith
  find_sound p (x ∷ xs) found h = elim (Bool-cases (p x)) [
    | inl hit ↦ let same : x ≡ found = ground arith in subst (λ y. p y ≡ true) same hit
    | inr miss ↦ find_sound p xs found (ground arith)
  ]

  pub any-find :
      (p q : A → Bool) (xs : List A) (found : A)
      → ((x : A) → p x ≡ true → q x ≡ true)
      → find p xs ≡ some found
      → any q xs ≡ true
  any-find p q [] found weaker h = ground arith
  any-find p q (x ∷ xs) found weaker h = elim (Bool-cases (p x)) [
    | inl hit ↦ ground (arith, weaker x hit)
    | inr miss ↦ ground (arith, any-find p q xs found weaker (ground arith))
  ]

  pub any-none : (p : A → Bool) (xs : List A) → find p xs ≡ none → any p xs ≡ false
  any-none p [] h = refl
  any-none p (x ∷ xs) h = elim (Bool-cases (p x)) [
    | inl hit ↦ absurd (ground arith)
    | inr miss ↦ ground (arith, any-none p xs (ground arith))
  ]

  -- No element passes the test.
  pub find-none : (p : A → Bool) (xs : List A) → find p xs ≡ none → All (λ x. p x ≡ false) xs
  find-none p [] h = tt
  find-none p (x ∷ xs) h = elim (Bool-cases (p x)) [
    | inl hit ↦ absurd (ground arith)
    | inr miss ↦ (miss, find-none p xs (ground arith))
  ]

module _ {ℓ} {A : Type ℓ} where
  -- `UPDATE … SET f WHERE p`.
  abbrev pub update_where : (A → Bool) → (A → A) → List A → List A
  update_where p f [] = []
  update_where p f (x ∷ xs) = (if p x then f x else x) ∷ update_where p f xs

module _ {ℓ} {A : Type ℓ} where
  pub any-update_where :
      (q p : A → Bool) (f : A → A) (xs : List A)
      → ((x : A) → q (f x) ≡ q x)
      → any q (update_where p f xs) ≡ any q xs
  any-update_where q p f [] same = refl
  any-update_where q p f (x ∷ xs) same = ground (arith, same x, any-update_where q p f xs same)

module _ {ℓ κ} {A : Type ℓ} where
  pub All-update_where :
      (P : A → Type κ) (p : A → Bool) (f : A → A) (xs : List A)
      → ((x : A) → P x → P (f x))
      → All P xs
      → All P (update_where p f xs)
  All-update_where P p f [] keep h = h
  All-update_where P p f (x ∷ xs) keep h =
      (ground (arith, keep x h.0), All-update_where P p f xs keep h.1)

module _ {ℓ} {A : Type ℓ} where
  -- What a deletion leaves.
  pub filter-not :
      (p : A → Bool) (xs : List A) → All (λ x. p x ≡ false) (filter (λ x. not (p x)) xs)
  filter-not p [] = tt
  filter-not p (x ∷ xs) = elim (Bool-cases (p x)) [
    | inl hit ↦ rw hit (filter-not p xs)
    | inr miss ↦ rw miss (miss, filter-not p xs)
  ]

  -- A deletion elsewhere.
  pub find-filter :
      (p q : A → Bool) (xs : List A)
      → ((x : A) → p x ≡ true → q x ≡ true)
      → find p (filter q xs) ≡ find p xs
  find-filter p q [] kept = refl
  find-filter p q (x ∷ xs) kept = elim (Bool-cases (p x)) [
    | inl hit ↦ rw (kept x hit, hit) refl
    | inr miss ↦ elim (Bool-cases (q x)) [
      | inl stays ↦ rw (stays, miss) (find-filter p q xs kept)
      | inr goes ↦ rw (goes, miss) (find-filter p q xs kept)
    ]
  ]
