-- ===== src/Tests/Floats.antt =====
-- A small arithmetic with the laws of `F64Laws`: exact differences, in which a fraction is 0 or 1.
use remotekvm.Base.{
  ℕ, ◌+◌, ◌-◌, ◌%◌, ◌≤◌, ◌<◌, min, ◌≡◌, arith, ◌==◌, if◌then◌else◌, Bool-cases, inl, inr,
}
use remotekvm.Agent.Floats.{F64, Below, F64Laws}

-- A difference of two numbers.
abbrev pub Difference : Type 0
Difference = ℕ × ℕ

abbrev pub part_of : Difference → ℕ → Difference
part_of d n = if n == 0 then (0, 0) else d

abbrev pub floats : F64 Difference
floats = record {
  from_i16 = λ a. ((a + 32768) % 65536, 0);
  add = λ x y. (x.0 + y.0, x.1 + y.1);
  sub = λ x y. (x.0 + y.1, x.1 + y.0);
  mul = λ d f. part_of d f.0;
  fraction = λ num den. (if num % den == 0 then 0 else 1, 0);
  round_i16 = λ x. (min (x.0 - x.1) 65535 + 32768) % 65536;
}

abbrev AtMost : Difference → Difference → Type 0
AtMost x y = x.0 + y.1 ≤ y.0 + x.1

rounded :
    (p q r s : ℕ)
    → p + s ≤ r + q
    → Below ((min (p - q) 65535 + 32768) % 65536) ((min (r - s) 65535 + 32768) % 65536)
rounded p q r s h =
    order (min (p - q) 65535) (min (r - s) 65535) (omega arith) (omega arith) (omega arith)
  where
    order :
        (x y : ℕ)
        → x ≤ y
        → x < 65536
        → y < 65536
        → Below ((x + 32768) % 65536) ((y + 32768) % 65536)
    order x y h hx hy = omega arith

from_and_back : (a : ℕ) → a < 65536 → (min ((a + 32768) % 65536 - 0) 65535 + 32768) % 65536 ≡ a
from_and_back a h = omega arith

part_up : (p q n : ℕ) → q ≤ p → AtMost (0, 0) (part_of (p, q) n) × AtMost (part_of (p, q) n) (p, q)
part_up p q n h = elim (Bool-cases (n == 0)) [
  | inl none_of_it ↦ rw none_of_it (omega arith, omega arith)
  | inr all_of_it ↦ rw all_of_it (omega arith, omega arith)
]

part_down :
    (p q n : ℕ) → p ≤ q → AtMost (p, q) (part_of (p, q) n) × AtMost (part_of (p, q) n) (0, 0)
part_down p q n h = elim (Bool-cases (n == 0)) [
  | inl none_of_it ↦ rw none_of_it (omega arith, omega arith)
  | inr all_of_it ↦ rw all_of_it (omega arith, omega arith)
]

part_whole :
    (d : Difference) (num den : ℕ)
    → num % den ≡ 0
    → AtMost (0, 0) (part_of d (if num % den == 0 then 0 else 1))
      × AtMost (part_of d (if num % den == 0 then 0 else 1)) (0, 0)
part_whole d num den h = rw h (omega arith, omega arith)

pub float_laws : F64Laws floats
float_laws = record {
  le = AtMost;
  zero = (0, 0);
  le_trans = λ x y z xy yz. omega arith;
  sub_up = λ a b h. omega arith;
  sub_down = λ a b h. omega arith;
  mul_up = λ d num den h. part_up d.0 d.1 _ (omega arith);
  mul_down = λ d num den h. part_down d.0 d.1 _ (omega arith);
  mul_whole = λ d num den h. part_whole d num den h;
  add_mono = λ w x y h. omega arith;
  add_zero = λ w. (omega arith, omega arith);
  add_sub = λ a b. (omega arith, omega arith);
  round_mono = λ x y h. rounded x.0 x.1 y.0 y.1 h;
  round_from = λ a h. from_and_back a h;
  round_small = λ x. small (min (x.0 - x.1) 65535 + 32768);
}
  where
    small : (n : ℕ) → n % 65536 < 65536
    small n = omega arith
