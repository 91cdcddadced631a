-- ===== src/Client/Playback/Mixing.antt =====
-- `resample_interleaved` of apps/client/src/media.rs: what each output sample is made of.
use remotekvm.Base.{
  ℕ, ◌+◌, ◌-◌, ◌*◌, ◌/◌, ◌≤◌, ◌<◌, min, max, ◌≡◌, ◌≢◌, refl, inl, inr, List, [], ◌∷◌, some, ◌==◌,
  length, take, drop, if◌then◌else◌, arith, ne→==, Bool-cases,
}
use native.Mathlib.Nat.{mul-le-mul_right, div-mul-le_self, le-div_iff_mul-le}
use remotekvm.Base.Rows.{
  get_elem?, get_or, get_elem?-get_or, get_slice, get_slice-in_range, length-get_slice,
}
use remotekvm.Base.Grids.{IsGrid, collect_lem, collect_ones}
use remotekvm.Client.Playback.{Floats, mixed, mixed_frame, source_frame, resample_interleaved}

module _ (floats : Floats) where
  -- An output sample: the input's only channel, the mean of its channels, or the channel of the
  -- same number, of which the last stands for those that are missing.
  abbrev pub mix : ℕ → ℕ → List ℕ → ℕ → ℕ
  mix ic oc source c =
      if ic == 1
      then get_or source 0 0
      else if oc == 1
      then floats.mean source ic
      else get_or source (min c (ic - 1)) 0

  mixed_lem :
      (ic oc : ℕ) (source : List ℕ) (c : ℕ)
      → ic ≢ 0
      → length source ≡ ic
      → mixed floats ic oc source c ≡ some (mix ic oc source c ∷ [])
  unfolding mixed
  mixed_lem ic oc source c h e =
      let first = get_elem?-get_or source 0 0 (omega arith) in
      let same = get_elem?-get_or source (min c (ic - 1)) 0 (omega arith) in
      elim (Bool-cases (ic == 1)) [
        | inl mono ↦ rw (mono, first) refl
        | inr many ↦ elim (Bool-cases (oc == 1)) [
          | inl down ↦ rw (many, down) refl
          | inr keep ↦ rw (many, keep, same) refl
        ]
      ]

  mixed_frame_lem :
      (ic oc : ℕ) (source : List ℕ)
      → ic ≢ 0
      → length source ≡ ic
      → (out : List ℕ) × (mixed_frame floats ic oc (some source) ≡ some out)
        × (length out ≡ oc)
        × ((c : ℕ) → c < oc → get_elem? out c ≡ some (mix ic oc source c))
  mixed_frame_lem ic oc source h e =
      collect_ones oc (mixed floats ic oc source) (mix ic oc source)
        (λ c hc. mixed_lem ic oc source c h e)

  module _ (input : List ℕ) (I ic O oc : ℕ) where
    abbrev pub frames : ℕ
    frames = length input / ic

    -- The input frame for an output frame.
    abbrev pub source : ℕ → List ℕ
    source f = take ic (drop (source_frame frames I O f * ic) input)

    source_fits :
        (f : ℕ) → ic ≢ 0 → ic ≤ length input → source_frame frames I O f * ic + ic ≤ length input
    unfolding source_frame
    source_fits f h enough =
        let index = min (f * I / O) (frames - 1) in
        let some_frame : 1 ≤ frames =
          (le-div_iff_mul-le {k = ic} {x = 1} {y = length input} (omega arith)).1 (omega arith) in
        let last : index + 1 ≤ frames = ground arith in
        let scaled : (index + 1) * ic ≤ frames * ic = mul-le-mul_right ic last in
        let split : (index + 1) * ic ≡ index * ic + ic = grind arith in
        omega (arith, scaled, split, div-mul-le_self (length input) ic)

    row :
        (f : ℕ)
        → ic ≢ 0
        → ic ≤ length input
        → (out : List ℕ) × (mixed_frame floats ic
              (max oc 1)
              (get_slice input (source_frame frames I O f * ic) ic)
            ≡ some out)
          × (length out ≡ max oc 1)
          × ((c : ℕ) → c < max oc 1 → get_elem? out c ≡ some (mix ic (max oc 1) (source f) c))
    row f h enough =
        let fits = source_fits f h enough in
        rw (get_slice-in_range input (source_frame frames I O f * ic) ic fits) (
          mixed_frame_lem ic (max oc 1) (source f) h
            (length-get_slice input (source_frame frames I O f * ic) ic fits))

    pub resample_interleaved_lem :
        I ≢ 0
        → ic ≢ 0
        → O ≢ 0
        → ic ≤ length input
        → (out : List ℕ) × (resample_interleaved floats input I ic O oc ≡ some out)
          × IsGrid out
              (max (frames * O / I) 1)
              (max oc 1)
              (λ f c. some (mix ic (max oc 1) (source f) c))
    unfolding resample_interleaved
    resample_interleaved_lem hI h hO enough =
        let some_frame : 1 ≤ frames =
          (le-div_iff_mul-le {k = ic} {x = 1} {y = length input} (omega arith)).1 (omega arith) in
        rw
          (
            ne→== (length input) 0 (omega arith),
            ne→== I 0 hI,
            ne→== ic 0 h,
            ne→== O 0 hO,
            ne→== frames 0 (omega arith),
          )
          (collect_lem (max (frames * O / I) 1) (max oc 1) _ (λ f. (row f h enough).0) _
            (λ f hf. (row f h enough).1) (λ f hf. (row f h enough).2)
            (λ f c hf hc. (row f h enough).3 c hc))
