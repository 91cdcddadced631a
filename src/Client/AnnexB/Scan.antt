-- ===== src/Client/AnnexB/Scan.antt =====
-- Where the search for a start code ends, in units that hold none.
use remotekvm.Base.{
  ℕ, suc, ◌+◌, ◌≡◌, refl, List, [], ◌∷◌, ◌++◌, Bool, false, ◌||◌, none, some, arith, length,
}
use remotekvm.Base.Bytes.{is_three, is_four, any_suffix}
use remotekvm.Client.AnnexB.{scan}

-- The encoder's emulation prevention: 0 0 1 does not stand in the unit.
abbrev pub IsClean : List ℕ → Type 0
IsClean nal = any_suffix is_three nal ≡ false

at_start : List ℕ → Bool
at_start xs = is_three xs || is_four xs

not_inside :
    (x : ℕ) (xs tail : List ℕ)
    → IsClean (x ∷ xs)
    → at_start (x ∷ xs ++ 0 ∷ 0 ∷ 0 ∷ 1 ∷ tail) ≡ false
unfolding at_start any_suffix
not_inside x [] tail clean = ground arith
not_inside x (y ∷ []) tail clean = ground arith
not_inside x (y ∷ z ∷ []) tail clean = ground arith
not_inside x (y ∷ z ∷ w ∷ xs) tail clean = ground arith

not_at_end : (x : ℕ) (xs : List ℕ) → IsClean (x ∷ xs) → at_start (x ∷ xs) ≡ false
unfolding at_start any_suffix
not_at_end x [] clean = ground arith
not_at_end x (y ∷ []) clean = ground arith
not_at_end x (y ∷ z ∷ []) clean = ground arith
not_at_end x (y ∷ z ∷ w ∷ xs) clean = ground arith

IsClean-tail : (x : ℕ) (xs : List ℕ) → IsClean (x ∷ xs) → IsClean xs
unfolding any_suffix
IsClean-tail x xs clean = ground arith

-- At the start code behind the unit.
pub scan-unit :
    (nal tail : List ℕ) (i : ℕ)
    → IsClean nal
    → scan (nal ++ 0 ∷ 0 ∷ 0 ∷ 1 ∷ tail) i ≡ some (i + length nal)
unfolding scan at_start
scan-unit [] tail i clean = ground arith
scan-unit (x ∷ xs) tail i clean =
    ground (arith, not_inside x xs tail clean, scan-unit xs tail (suc i) (IsClean-tail x xs clean))

-- Nowhere, in the last unit.
pub scan-last : (nal : List ℕ) (i : ℕ) → IsClean nal → scan nal i ≡ none
unfolding scan at_start
scan-last [] i clean = refl
scan-last (x ∷ xs) i clean =
    ground (arith, not_at_end x xs clean, scan-last xs (suc i) (IsClean-tail x xs clean))
