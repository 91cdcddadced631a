-- ===== src/Agent/Floats.antt =====
-- The arithmetic of `f64` that the resampler of apps/agent/src/windows/audio.rs computes with. A sample
-- is the bit pattern of an `i16`.
use remotekvm.Base.{ℕ, ◌+◌, ◌%◌, ◌≤◌, ◌<◌, ◌≡◌}

pub record F64 (F : Type 0) : Type 0 where
  -- `a as f64` for an `i16`.
  pub from_i16 : ℕ → F
  pub add : F → F → F
  pub sub : F → F → F
  pub mul : F → F → F
  -- What `position - left as f64` is for the position `num / den` and its floor.
  pub fraction : ℕ → ℕ → F
  -- `x.round() as i16`.
  pub round_i16 : F → ℕ

-- The order of the numbers that two bit patterns of an `i16` stand for.
abbrev pub Below : ℕ → ℕ → Type 0
Below a b = (a + 32768) % 65536 ≤ (b + 32768) % 65536

-- What IEEE 754 says of these operations, in the order of the floats.
pub record F64Laws {F : Type 0} (f64 : F64 F) : Type 1 where
  pub le : F → F → Type 0
  pub zero : F
  pub le_trans : (x y z : F) → le x y → le y z → le x z
  -- A difference of two samples has the sign of their order.
  pub sub_up : (a b : ℕ) → Below a b → le zero (f64.sub (f64.from_i16 b) (f64.from_i16 a))
  pub sub_down : (a b : ℕ) → Below b a → le (f64.sub (f64.from_i16 b) (f64.from_i16 a)) zero
  -- A fraction is at least 0 and below 1, and is 0 at a whole position.
  pub mul_up :
      (d : F) (num den : ℕ)
      → le zero d
      → le zero (f64.mul d (f64.fraction num den)) × le (f64.mul d (f64.fraction num den)) d
  pub mul_down :
      (d : F) (num den : ℕ)
      → le d zero
      → le d (f64.mul d (f64.fraction num den)) × le (f64.mul d (f64.fraction num den)) zero
  pub mul_whole :
      (d : F) (num den : ℕ)
      → num % den ≡ 0
      → le zero (f64.mul d (f64.fraction num den)) × le (f64.mul d (f64.fraction num den)) zero
  pub add_mono : (w x y : F) → le x y → le (f64.add w x) (f64.add w y)
  pub add_zero : (w : F) → le w (f64.add w zero) × le (f64.add w zero) w
  -- Differences of samples are exact.
  pub add_sub :
      (a b : ℕ)
      → le (f64.add (f64.from_i16 a) (f64.sub (f64.from_i16 b) (f64.from_i16 a))) (f64.from_i16 b)
        × le (f64.from_i16 b) (f64.add (f64.from_i16 a) (f64.sub (f64.from_i16 b) (f64.from_i16 a)))
  pub round_mono : (x y : F) → le x y → Below (f64.round_i16 x) (f64.round_i16 y)
  pub round_from : (a : ℕ) → a < 65536 → f64.round_i16 (f64.from_i16 a) ≡ a
  pub round_small : (x : F) → f64.round_i16 x < 65536
