-- ===== src/Base/Rows.antt =====
-- Slices with their bounds checks, `chunks_exact`, and loops that append one row in each round.
-- `none` stands for the panic of an index out of range.
use Prim.Native.Nat.{ℕ, zero, suc, ◌+◌, ◌-◌, ◌/◌, ◌≤◌, ◌<◌}
use mathlib.Core.Path.{◌≡◌, refl, ap}
use mathlib.Core.List.{List, [], ◌∷◌, ◌++◌}
use mathlib.Core.Option.{Option, none, some}
use native.Mathlib.Omega.{arith}
use remotekvm.Base.Tests.{leb, if◌then◌else◌}
use remotekvm.Base.Lists.{length, take, drop}

module _ {ℓ} {A : Type ℓ} where
  abbrev pub get_elem? : List A → ℕ → Option A
  get_elem? [] i = none
  get_elem? (x ∷ xs) zero = some x
  get_elem? (x ∷ xs) (suc i) = get_elem? xs i

  abbrev pub get_or : List A → ℕ → A → A
  get_or [] i fallback = fallback
  get_or (x ∷ xs) zero fallback = x
  get_or (x ∷ xs) (suc i) fallback = get_or xs i fallback

  -- `&xs[start..start + len]`.
  unfoldable pub get_slice : List A → ℕ → ℕ → Option (List A)
  get_slice xs start len =
      if leb (start + len) (length xs) then some (take len (drop start xs)) else none

  unfoldable pub chunks : ℕ → ℕ → List A → List (List A)
  chunks zero size xs = []
  chunks (suc count) size xs = take size xs ∷ chunks count size (drop size xs)

  -- `chunks_exact`, which leaves a remainder out.
  unfoldable pub chunks_exact : ℕ → List A → List (List A)
  unfolding chunks
  chunks_exact size xs = chunks (length xs / size) size xs

  unfoldable pub concat : List (List A) → List A
  concat [] = []
  concat (xs ∷ xss) = xs ++ concat xss

  abbrev pub append_row : Option (List A) → Option (List A) → Option (List A)
  append_row (some row) (some rest) = some (row ++ rest)
  append_row (some row) none = none
  append_row none rest = none

  -- `for i in from..from + rounds { output.extend(body(i)) }`.
  unfoldable pub collect : ℕ → ℕ → (ℕ → Option (List A)) → Option (List A)
  collect zero i body = some []
  collect (suc rounds) i body = append_row (body i) (collect rounds (suc i) body)

module _ {ℓ} {A : Type ℓ} where
  pub length-take : (n : ℕ) (xs : List A) → n ≤ length xs → length (take n xs) ≡ n
  length-take zero xs h = refl
  length-take (suc n) [] h = absurd (omega arith)
  length-take (suc n) (x ∷ xs) h = ap suc (length-take n xs (omega arith))

  pub length-drop : (n : ℕ) (xs : List A) → length (drop n xs) ≡ length xs - n
  length-drop zero xs = omega arith
  length-drop (suc n) [] = omega arith
  length-drop (suc n) (x ∷ xs) = omega (arith, length-drop n xs)

  pub take-append-drop : (n : ℕ) (xs : List A) → take n xs ++ drop n xs ≡ xs
  take-append-drop zero xs = refl
  take-append-drop (suc n) [] = refl
  take-append-drop (suc n) (x ∷ xs) = ap (◌∷◌ x) (take-append-drop n xs)

  pub get_elem?-get_or :
      (xs : List A) (i : ℕ) (fallback : A)
      → i < length xs
      → get_elem? xs i ≡ some (get_or xs i fallback)
  get_elem?-get_or [] i fallback h = absurd (omega arith)
  get_elem?-get_or (x ∷ xs) zero fallback h = refl
  get_elem?-get_or (x ∷ xs) (suc i) fallback h = get_elem?-get_or xs i fallback (omega arith)

  pub get_elem?-take : (n i : ℕ) (xs : List A) → i < n → get_elem? (take n xs) i ≡ get_elem? xs i
  get_elem?-take zero i xs h = elim h [ ]
  get_elem?-take (suc n) i [] h = refl
  get_elem?-take (suc n) zero (x ∷ xs) h = refl
  get_elem?-take (suc n) (suc i) (x ∷ xs) h = get_elem?-take n i xs (omega arith)

  pub get_elem?-drop : (n i : ℕ) (xs : List A) → get_elem? (drop n xs) i ≡ get_elem? xs (n + i)
  get_elem?-drop zero i xs = ap (get_elem? xs) (omega arith)
  get_elem?-drop (suc n) i [] = refl
  get_elem?-drop (suc n) i (x ∷ xs) =
      let e : suc n + i ≡ suc (n + i) = omega arith in rw e (get_elem?-drop n i xs)

  pub get_elem?-append_left :
      (xs ys : List A) (i : ℕ) → i < length xs → get_elem? (xs ++ ys) i ≡ get_elem? xs i
  get_elem?-append_left [] ys i h = absurd (omega arith)
  get_elem?-append_left (x ∷ xs) ys zero h = refl
  get_elem?-append_left (x ∷ xs) ys (suc i) h = get_elem?-append_left xs ys i (omega arith)

  pub get_elem?-append_right :
      (xs ys : List A) (i : ℕ) → get_elem? (xs ++ ys) (length xs + i) ≡ get_elem? ys i
  get_elem?-append_right [] ys i = ap (get_elem? ys) (omega arith)
  get_elem?-append_right (x ∷ xs) ys i =
      let e : suc (length xs) + i ≡ suc (length xs + i) = omega arith in
      rw e (get_elem?-append_right xs ys i)

  -- A slice in range.
  pub get_slice-in_range :
      (xs : List A) (start len : ℕ)
      → start + len ≤ length xs
      → get_slice xs start len ≡ some (take len (drop start xs))
  unfolding get_slice
  get_slice-in_range xs start len h = ground arith

  pub length-get_slice :
      (xs : List A) (start len : ℕ)
      → start + len ≤ length xs
      → length (take len (drop start xs)) ≡ len
  length-get_slice xs start len h =
      length-take len (drop start xs) (omega (arith, length-drop start xs))

  pub get_elem?-get_slice :
      (xs : List A) (start len i : ℕ)
      → i < len
      → get_elem? (take len (drop start xs)) i ≡ get_elem? xs (start + i)
  get_elem?-get_slice xs start len i h =
      rw (get_elem?-take len i (drop start xs) h) (get_elem?-drop start i xs)
