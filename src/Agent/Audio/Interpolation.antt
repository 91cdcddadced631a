-- ===== src/Agent/Audio/Interpolation.antt =====
-- The interpolated sample of the resampler in apps/agent/src/windows/audio.rs.
use remotekvm.Base.{ℕ, ◌+◌, ◌%◌, ◌≤◌, ◌<◌, ◌≡◌, subst, arith, ◌⊎◌, inl, inr}
use remotekvm.Agent.Floats.{F64, Below, F64Laws}
use remotekvm.Agent.Audio.{interpolate}

-- A sample that lies between two others, in whichever order they stand.
abbrev pub IsBetween : ℕ → ℕ → ℕ → Type 0
IsBetween a b v = (Below a v × Below v b) ⊎ (Below b v × Below v a)

Below-total : (a b : ℕ) → Below a b ⊎ Below b a
Below-total a b = order ((a + 32768) % 65536) ((b + 32768) % 65536)
  where
    order : (x y : ℕ) → (x ≤ y) ⊎ (y ≤ x)
    order x y = ground arith

same_sample : (a b : ℕ) → a < 65536 → b < 65536 → Below a b → Below b a → a ≡ b
same_sample a b ha hb up down = omega arith

module _ {F : Type 0} (f64 : F64 F) (laws : F64Laws f64) (a b : ℕ) (ha : a < 65536) (hb : b < 65536)
    (num den : ℕ) where
  abbrev start : F
  start = f64.from_i16 a

  abbrev difference : F
  difference = f64.sub (f64.from_i16 b) start

  abbrev part : F
  part = f64.mul difference (f64.fraction num den)

  above_start : laws.le laws.zero part → Below a (interpolate f64 a b num den)
  unfolding interpolate
  above_start up =
      subst (λ x. Below x (interpolate f64 a b num den)) (laws.round_from a ha)
        (laws.round_mono _ _
          (laws.le_trans _ _ _ (laws.add_zero start).0 (laws.add_mono start _ _ up)))

  Below-start : laws.le part laws.zero → Below (interpolate f64 a b num den) a
  unfolding interpolate
  Below-start down =
      subst (λ x. Below (interpolate f64 a b num den) x) (laws.round_from a ha)
        (laws.round_mono _ _
          (laws.le_trans _ _ _ (laws.add_mono start _ _ down) (laws.add_zero start).1))

  Below-end : laws.le part difference → Below (interpolate f64 a b num den) b
  unfolding interpolate
  Below-end up =
      subst (λ x. Below (interpolate f64 a b num den) x) (laws.round_from b hb)
        (laws.round_mono _ _
          (laws.le_trans _ _ _ (laws.add_mono start _ _ up) (laws.add_sub a b).0))

  above_end : laws.le difference part → Below b (interpolate f64 a b num den)
  unfolding interpolate
  above_end down =
      subst (λ x. Below x (interpolate f64 a b num den)) (laws.round_from b hb)
        (laws.round_mono _ _
          (laws.le_trans _ _ _ (laws.add_sub a b).1 (laws.add_mono start _ _ down)))

  pub interpolate-IsBetween : IsBetween a b (interpolate f64 a b num den)
  interpolate-IsBetween = elim (Below-total a b) [
    | inl rising ↦
        let bounds = laws.mul_up difference num den (laws.sub_up a b rising) in
        inl (above_start bounds.0, Below-end bounds.1)
    | inr falling ↦
        let bounds = laws.mul_down difference num den (laws.sub_down a b falling) in
        inr (above_end bounds.0, Below-start bounds.1)
  ]

  -- At a whole position it is the first of the two samples.
  pub interpolate-whole : num % den ≡ 0 → interpolate f64 a b num den ≡ a
  unfolding interpolate
  interpolate-whole whole =
      let bounds = laws.mul_whole difference num den whole in
      same_sample (interpolate f64 a b num den) a (laws.round_small _) ha (Below-start bounds.1)
        (above_start bounds.0)
