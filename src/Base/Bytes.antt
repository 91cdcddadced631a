-- ===== src/Base/Bytes.antt =====
-- Bytes as numbers: start codes, and lengths in four bytes.
use remotekvm.Base.Tests.{◌==◌}
use Prim.Native.Nat.{ℕ, ◌+◌, ◌*◌, ◌/◌, ◌%◌, ◌<◌}
use mathlib.Core.Path.{◌≡◌}
use mathlib.Core.Bool.{Bool, false, ◌&&◌, ◌||◌}
use mathlib.Core.List.{List, [], ◌∷◌}
use native.Mathlib.Omega.{arith}

abbrev pub Bytes : Type 0
Bytes = List ℕ

-- `starts_with(&[0, 0, 1])`, or a window of three bytes equal to it.
abbrev pub is_three : List ℕ → Bool
is_three (a ∷ b ∷ c ∷ rest) = a == 0 && b == 0 && c == 1
is_three rest = false

abbrev pub is_four : List ℕ → Bool
is_four (a ∷ b ∷ c ∷ d ∷ rest) = a == 0 && b == 0 && c == 0 && d == 1
is_four rest = false

-- `windows(…).any(…)`.
unfoldable pub any_suffix : (List ℕ → Bool) → List ℕ → Bool
any_suffix p [] = false
any_suffix p (x ∷ xs) = p (x ∷ xs) || any_suffix p xs

-- `u32::from_be_bytes`.
unfoldable pub from_be_bytes : ℕ → ℕ → ℕ → ℕ → ℕ
from_be_bytes a b c d = ((a * 256 + b) * 256 + c) * 256 + d

-- `u32::to_be_bytes`.
abbrev pub to_be_bytes : ℕ → List ℕ
to_be_bytes n = n / 16777216 % 256 ∷ n / 65536 % 256 ∷ n / 256 % 256 ∷ n % 256 ∷ []

pub from-to_be_bytes :
    (n : ℕ)
    → n < 4294967296
    → from_be_bytes (n / 16777216 % 256) (n / 65536 % 256) (n / 256 % 256) (n % 256) ≡ n
unfolding from_be_bytes
from-to_be_bytes n h = omega arith
