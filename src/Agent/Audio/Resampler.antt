-- ===== src/Agent/Audio/Resampler.antt =====
-- The linear resampler of apps/agent/src/windows/audio.rs: what it makes of the sound, and that no time
-- is lost.
use remotekvm.Agent.Audio.Interpolation.{IsBetween}
use remotekvm.Base.{ℕ, ◌+◌, ◌-◌, ◌*◌, ◌/◌, ◌%◌, ◌<◌, min, ◌≡◌, List, some, length}
use remotekvm.Base.Rows.{get_elem?, get_or}

-- The output against the input frames, for rates `I` and `O` and `n` input frames.
pub record IsInterpolated (stereo : List ℕ) (I O n rounds : ℕ) (out : List ℕ) : Type 0 where
  pub size : length out ≡ rounds * 2
  -- The position of an output frame lies before the end of the input.
  pub in_range : (k : ℕ) → k < rounds → k * I / O < n
  -- Its samples lie between those of the input frames at and behind the position.
  pub inside :
      (k c : ℕ)
      → k < rounds
      → c < 2
      → (v : ℕ) × (get_elem? out (k * 2 + c) ≡ some v)
        × IsBetween
            (get_or stereo (k * I / O * 2 + c) 0)
            (get_or stereo (min (k * I / O + 1) (n - 1) * 2 + c) 0)
            v
  -- Where the position is that of an input frame, they are the samples of this frame.
  pub at_frame :
      (k c : ℕ)
      → k < rounds
      → c < 2
      → k * I % O ≡ 0
      → get_elem? out (k * 2 + c) ≡ get_elem? stereo (k * I / O * 2 + c)
