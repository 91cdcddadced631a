-- ===== src/Server/Signature/Comparison.antt =====
-- The comparison in constant time of apps/server/src/routes/billing.rs.
use Prim.Native.Nat.{bit_or, bit_xor, bit_or-bitwise, bit_xor-bitwise, bitwise, digits, differ}
use remotekvm.Base.{
  ℕ, zero, suc, ◌/◌, ◌%◌, ◌≤◌, max, ◌≡◌, ◌↔◌, refl, sym, subst, ap, ◌∙◌, [], ◌∷◌, true, arith,
  length, ◌==◌, ==→eq, ==_refl, Bool-cases, inl, inr,
}
use remotekvm.Base.Bytes.{Bytes}
use remotekvm.Server.Signature.{ct_eq, differences}

or_digits : (n a b : ℕ) → a ≤ n → digits (λ b. b) max n a b ≡ 0 → (a ≡ 0) × (b ≡ 0)
or_digits zero a b few h = (omega arith, h)
or_digits (suc n) zero b few h = (refl, h)
or_digits (suc n) (suc a) b few h =
    let halves = or_digits n (suc a / 2) (b / 2) (omega arith) (omega arith) in
    absurd (let upper = halves.0 in omega arith)

bit_or_zero : (a b : ℕ) → bit_or a b ≡ 0 → (a ≡ 0) × (b ≡ 0)
bit_or_zero a b h =
    let e : bit_or a b ≡ bitwise (λ b. b) max a b = λ i. bit_or-bitwise a b i in
    or_digits a a b (omega arith) (sym e ∙ h)

differ_lem : (x y : ℕ) → differ x y ≡ 0 → x ≡ y
differ_lem zero y h = sym h
differ_lem (suc x) zero h = absurd (omega arith)
differ_lem (suc x) (suc y) h = ap suc (differ_lem x y h)

differ_same : (x : ℕ) → differ x x ≡ 0
differ_same zero = refl
differ_same (suc x) = differ_same x

xor_digits : (n a b : ℕ) → a ≤ n → digits (λ b. b) differ n a b ≡ 0 → a ≡ b
xor_digits zero a b few h = omega arith
xor_digits (suc n) zero b few h = sym h
xor_digits (suc n) (suc a) b few h =
    let upper = xor_digits n (suc a / 2) (b / 2) (omega arith) (omega arith) in
    let last = differ_lem (suc a % 2) (b % 2) (omega arith) in omega arith

xor_digits_same : (n a : ℕ) → a ≤ n → digits (λ b. b) differ n a a ≡ 0
xor_digits_same zero a few = omega arith
xor_digits_same (suc n) zero few = refl
xor_digits_same (suc n) (suc a) few =
    omega (arith, xor_digits_same n (suc a / 2) (omega arith), differ_same (suc a % 2))

xor_bitwise : (a b : ℕ) → bit_xor a b ≡ bitwise (λ b. b) differ a b
xor_bitwise a b = λ i. bit_xor-bitwise a b i

bit_xor_zero : (a b : ℕ) → bit_xor a b ≡ 0 → a ≡ b
bit_xor_zero a b h = xor_digits a a b (omega arith) (sym (xor_bitwise a b) ∙ h)

bit_xor_same : (a : ℕ) → bit_xor a a ≡ 0
bit_xor_same a = xor_bitwise a a ∙ xor_digits_same a a (omega arith)

differences_zero :
    (xs ys : Bytes) (diff : ℕ)
    → length xs ≡ length ys
    → differences xs ys diff ≡ 0
    → (diff ≡ 0) × (xs ≡ ys)
unfolding differences
differences_zero [] [] diff same h = (h, refl)
differences_zero [] (y ∷ ys) diff same h = absurd (omega arith)
differences_zero (x ∷ xs) [] diff same h = absurd (omega arith)
differences_zero (x ∷ xs) (y ∷ ys) diff same h =
    let (joined, tails) = differences_zero xs ys (bit_or diff (bit_xor x y)) (omega arith) h in
    let (before, here) = bit_or_zero diff (bit_xor x y) joined in
    (before, ap (λ z. z ∷ xs) (bit_xor_zero x y here) ∙ ap (λ zs. y ∷ zs) tails)

differences_same : (xs : Bytes) → differences xs xs 0 ≡ 0
unfolding differences
differences_same [] = refl
differences_same (x ∷ xs) =
    ap (λ d. differences xs xs (bit_or 0 d)) (bit_xor_same x) ∙ differences_same xs

-- The comparison answers whether the two texts are the same.
pub ct_eq_lem : (a b : Bytes) → (ct_eq a b ≡ true) ↔ (a ≡ b)
unfolding ct_eq
ct_eq_lem a b = (one_text a b, λ e. subst (λ x. ct_eq a x ≡ true) e (itself a))
  where
    one_text : (xs ys : Bytes) → ct_eq xs ys ≡ true → xs ≡ ys
    one_text xs ys h = elim (Bool-cases (length xs == length ys)) [
      | inl lengths ↦
          (differences_zero xs ys 0 (==→eq (length xs) (length ys) lengths)
            (==→eq (differences xs ys 0) 0 (ground arith))).1
      | inr differ_in_length ↦ absurd (ground arith)
    ]

    itself : (xs : Bytes) → ct_eq xs xs ≡ true
    itself xs = rw (==_refl (length xs), differences_same xs) refl
