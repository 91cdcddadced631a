-- ===== src/Base/Chunks.antt =====
-- Laws of `chunks_exact`.
use Prim.Native.Nat.{ℕ, zero, suc, ◌+◌, ◌*◌, ◌/◌, ◌≤◌, ◌<◌}
use mathlib.Core.Path.{◌≡◌, refl, sym, ap, ◌∙◌}
use mathlib.Core.List.{List, [], ◌∷◌, ◌++◌, append_assoc, map}
use native.Mathlib.Omega.{arith}
use native.Mathlib.Nat.{div-mul-le_self, mul-div_cancel}
use remotekvm.Base.Lists.{length, take, drop, All}
use remotekvm.Base.Rows.{concat, chunks, chunks_exact, length-take, length-drop, take-append-drop}

module _ {ℓ} {A : Type ℓ} where
  pub drop-nil : (n : ℕ) → drop {A = A} n [] ≡ []
  drop-nil zero = refl
  drop-nil (suc n) = refl

  drop-drop : (m n : ℕ) (xs : List A) → drop (m + n) xs ≡ drop n (drop m xs)
  drop-drop zero n xs = let e : 0 + n ≡ n = omega arith in ap (λ k. drop k xs) e
  drop-drop (suc m) n [] = let e : suc m + n ≡ suc (m + n) = omega arith in rw (e, drop-nil n) refl
  drop-drop (suc m) n (x ∷ xs) =
      let e : suc m + n ≡ suc (m + n) = omega arith in rw e (drop-drop m n xs)

  concat-chunks :
      (count size : ℕ) (xs : List A)
      → count * size ≤ length xs
      → concat (chunks count size xs) ++ drop (count * size) xs ≡ xs
  unfolding concat chunks
  concat-chunks zero size xs h = let e : 0 * size ≡ 0 = omega arith in rw e refl
  concat-chunks (suc count) size xs h =
      let split : suc count * size ≡ size + count * size = grind arith in
      rw (split, drop-drop size (count * size) xs, append_assoc)
        (ap (λ t. take size xs ++ t)
            (concat-chunks count size (drop size xs) (omega (arith, split, length-drop size xs)))
          ∙ take-append-drop size xs)

  All-chunks :
      (count size : ℕ) (xs : List A)
      → count * size ≤ length xs
      → All (λ chunk. length chunk ≡ size) (chunks count size xs)
  unfolding chunks
  All-chunks zero size xs h = tt
  All-chunks (suc count) size xs h =
      let split : suc count * size ≡ size + count * size = grind arith in
      (
        length-take size xs (omega (arith, split)),
        All-chunks count size (drop size xs) (omega (arith, split, length-drop size xs)),
      )

  -- The chunks and the remainder make up the list.
  pub concat-chunks_exact :
      (size : ℕ) (xs : List A)
      → concat (chunks_exact size xs) ++ drop (length xs / size * size) xs ≡ xs
  unfolding chunks_exact
  concat-chunks_exact size xs =
      concat-chunks (length xs / size) size xs (div-mul-le_self (length xs) size)

  pub All-chunks_exact :
      (size : ℕ) (xs : List A) → All (λ chunk. length chunk ≡ size) (chunks_exact size xs)
  unfolding chunks_exact
  All-chunks_exact size xs =
      All-chunks (length xs / size) size xs (div-mul-le_self (length xs) size)

  pub concat-append : (xss yss : List (List A)) → concat (xss ++ yss) ≡ concat xss ++ concat yss
  unfolding concat
  concat-append [] yss = refl
  concat-append (xs ∷ xss) yss =
      rw (concat-append xss yss) (sym (append_assoc xs (concat xss) (concat yss)))

module _ {ℓ κ} {A : Type ℓ} (P : A → Type κ) where
  pub All-append : (xs ys : List A) → All P xs → All P ys → All P (xs ++ ys)
  All-append [] ys h k = k
  All-append (x ∷ xs) ys h k = (h.0, All-append xs ys h.1 k)

module _ {ℓ κ} {A : Type ℓ} (P : A → Type κ) where
  All-take : (n : ℕ) (xs : List A) → All P xs → All P (take n xs)
  All-take zero xs h = tt
  All-take (suc n) [] h = tt
  All-take (suc n) (x ∷ xs) h = (h.0, All-take n xs h.1)

  All-drop : (n : ℕ) (xs : List A) → All P xs → All P (drop n xs)
  All-drop zero xs h = h
  All-drop (suc n) [] h = tt
  All-drop (suc n) (x ∷ xs) h = All-drop n xs h.1

module _ {ℓ κ} {A : Type ℓ} (P : A → Type κ) where
  -- What holds of each element of a slice, cut into chunks.
  All-All-chunks :
      (count size : ℕ) (xs : List A) → All P xs → All (λ chunk. All P chunk) (chunks count size xs)
  unfolding chunks
  All-All-chunks zero size xs h = tt
  All-All-chunks (suc count) size xs h =
      (All-take P size xs h, All-All-chunks count size (drop size xs) (All-drop P size xs h))

  pub All-get_slice : (start len : ℕ) (xs : List A) → All P xs → All P (take len (drop start xs))
  All-get_slice start len xs h = All-take P len (drop start xs) (All-drop P start xs h)

  pub All-All-chunks_exact :
      (size : ℕ) (xs : List A) → All P xs → All (λ chunk. All P chunk) (chunks_exact size xs)
  unfolding chunks_exact
  All-All-chunks_exact size xs h = All-All-chunks (length xs / size) size xs h

module _ {ℓ κ} {A : Type ℓ} {B : Type κ} where
  pub length-map : (f : A → B) (xs : List A) → length (map f xs) ≡ length xs
  length-map f [] = refl
  length-map f (x ∷ xs) = ap suc (length-map f xs)

module _ {ℓ} {A : Type ℓ} where
  length-chunks : (count size : ℕ) (xs : List A) → length (chunks count size xs) ≡ count
  unfolding chunks
  length-chunks zero size xs = refl
  length-chunks (suc count) size xs = ap suc (length-chunks count size (drop size xs))

  pub length-chunks_exact :
      (count size : ℕ) (xs : List A)
      → 0 < size
      → length xs ≡ count * size
      → length (chunks_exact size xs) ≡ count
  unfolding chunks_exact
  length-chunks_exact count size xs h e =
      length-chunks (length xs / size) size xs ∙ ap (λ n. n / size) e ∙ mul-div_cancel count h

module _ {ℓ} {A : Type ℓ} where
  -- `std::iter::repeat(x).take(n)`.
  unfoldable pub replicate : ℕ → A → List A
  replicate zero x = []
  replicate (suc n) x = x ∷ replicate n x

  pub replicate-append :
      (n : ℕ) (x : A) (xs : List A) → replicate n x ++ (x ∷ xs) ≡ replicate (suc n) x ++ xs
  unfolding replicate
  replicate-append zero x xs = refl
  replicate-append (suc n) x xs = ap (◌∷◌ x) (replicate-append n x xs)
