-- ===== src/Agent/Audio/Rounds.antt =====
-- The rounds of the linear resampler of apps/agent/src/windows/audio.rs: where they read.
use remotekvm.Agent.Floats.{F64}
use remotekvm.Base.{
  ℕ, zero, suc, ◌+◌, ◌-◌, ◌*◌, ◌/◌, ◌%◌, ◌≤◌, ◌<◌, min, ◌≡◌, ◌≢◌, refl, ◌∙◌, List, [], ◌∷◌, false,
  some, inl, inr, arith, inl, inr, ◌==◌, leb, length, ne→==, Bool-cases, if◌then◌else◌, Option,
}
use remotekvm.Base.Rows.{get_elem?, get_or, get_elem?-get_or, collect}
use remotekvm.Base.Grids.{collect_lem}
use remotekvm.Agent.Audio.{
  interpolate, with_remainder, is_empty, opus_channels, out_frame,
  resample_stereo_linear_with_remainder,
}
use native.Mathlib.Nat.{div-add-mod', mod-lt, div-lt_iff_lt-mul, div-mul-le_self, mul-le-mul_right}

module _ {F : Type 0} (f64 : F64 F) (stereo : List ℕ) (I O n : ℕ) where
  -- The sample of a channel at a position between two input frames, the second at most the last.
  abbrev pub between : ℕ → ℕ → ℕ → ℕ
  between left position c =
      interpolate f64 (get_or stereo (left * 2 + c) 0)
        (get_or stereo (min (left + 1) (n - 1) * 2 + c) 0) position O

  abbrev row : ℕ → List ℕ
  row k = between (k * I / O) (k * I) 0 ∷ between (k * I / O) (k * I) 1 ∷ []

  pub read :
      (frame : ℕ) (c : ℕ)
      → n * 2 ≤ length stereo
      → frame < n
      → c < 2
      → get_elem? stereo (frame * 2 + c) ≡ some (get_or stereo (frame * 2 + c) 0)
  read frame c h lt hc = get_elem?-get_or stereo (frame * 2 + c) 0 (omega arith)

  out_frame-row :
      (k : ℕ) → n * 2 ≤ length stereo → k * I / O < n → out_frame f64 stereo I O n k ≡ some (row k)
  unfolding out_frame
  out_frame-row k h lt =
      let left = k * I / O in
      let right = min (left + 1) (n - 1) in
      let below : right < n = ground arith in
      rw
        (
          read left 0 h lt (omega arith),
          read right 0 h below (omega arith),
          read left 1 h lt (omega arith),
          read right 1 h below (omega arith),
        )
        refl

  -- What a call makes of the input: `rounds` output frames.
  pub record IsResampled (remainder rounds : ℕ) (out : List ℕ) (remainder' : ℕ) : Type 0 where
    pub balance : rounds * I + remainder' ≡ n * O + remainder
    pub small : remainder' < I
    pub size : length out ≡ rounds * 2
    pub in_range : (k : ℕ) → k < rounds → k * I / O < n
    pub at :
        (k c : ℕ)
        → k < rounds
        → c < 2
        → get_elem? out (k * 2 + c) ≡ some (between (k * I / O) (k * I) c)

  module _ (remainder : ℕ) (rates : 0 < O) (kept : remainder < I) where
    -- No position lies past the last input frame.
    before_end : (k : ℕ) → k < (n * O + remainder) / I → k * I / O < n
    before_end k h = (div-lt_iff_lt-mul {k = O} {x = k * I} {y = n} rates).1 inside
      where
        whole : (k + 1) * I ≤ (n * O + remainder) / I * I
        whole = mul-le-mul_right I (omega arith)

        step : (k + 1) * I ≡ k * I + I
        step = grind arith

        inside : k * I < n * O
        inside = omega (arith, whole, step, div-mul-le_self (n * O + remainder) I)

    collected :
        n * 2 ≤ length stereo
        → (out : List ℕ) × (collect ((n * O + remainder) / I) 0 (out_frame f64 stereo I O n)
            ≡ some out)
          × IsResampled remainder ((n * O + remainder) / I) out ((n * O + remainder) % I)
    collected h =
        let scaled = n * O + remainder in
        let (out, e, g) =
          collect_lem (scaled / I) 2 (out_frame f64 stereo I O n) row
            (λ k c. some (between (k * I / O) (k * I) c))
            (λ k hk. out_frame-row k h (before_end k hk)) (λ k hk. refl) cells in
        (
          out,
          e,
          record {
            balance = div-add-mod' scaled I;
            small = mod-lt scaled (omega arith);
            size = g.size;
            in_range = before_end;
            at = g.at;
          },
        )
      where
        cells :
            (k c : ℕ)
            → k < (n * O + remainder) / I
            → c < 2
            → get_elem? (row k) c ≡ some (between (k * I / O) (k * I) c)
        cells k zero hk hc = refl
        cells k (suc zero) hk hc = refl
        cells k (suc (suc c)) hk hc = absurd (omega arith)

no_round :
    (m kept : ℕ) (body : ℕ → Option (List ℕ))
    → (if m == 0 then some ([], kept) else with_remainder kept (collect m 0 body))
      ≡ with_remainder kept (collect m 0 body)
unfolding collect
no_round zero kept body = refl
no_round (suc m) kept body = ground arith

two_filled : (xs : List ℕ) → 2 ≤ length xs / 2 → is_empty xs ≡ false
two_filled [] h = absurd (omega arith)
two_filled (x ∷ xs) h = refl

runs :
    {F : Type 0} (f64 : F64 F) (stereo : List ℕ) (I O remainder : ℕ)
    → 0 < O
    → 0 < I
    → I ≢ O
    → 2 ≤ length stereo / 2
    → resample_stereo_linear_with_remainder f64 stereo I O remainder
      ≡ with_remainder ((length stereo / 2 * O + remainder) % I) (
          collect
            ((length stereo / 2 * O + remainder) / I)
            0
            (out_frame f64 stereo I O (length stereo / 2)))
unfolding resample_stereo_linear_with_remainder
runs f64 stereo I O remainder hO hI ne two =
    rw (two_filled stereo two, ne→== I 0 (omega arith), ne→== O 0 (omega arith), ne→== I O ne, more)
      (no_round _ _ _)
  where
    more : leb (length stereo / 2) 1 ≡ false
    more = ground arith

-- The run of a call, with every output sample as it is computed.
pub resample_runs :
    {F : Type 0} (f64 : F64 F) (stereo : List ℕ) (I O remainder : ℕ)
    → 0 < O
    → remainder < I
    → I ≢ O
    → 2 ≤ length stereo / opus_channels
    → (rounds : ℕ) × (out : List ℕ) × (remainder' : ℕ) × (resample_stereo_linear_with_remainder f64
          stereo I O remainder
        ≡ some (out, remainder'))
      × IsResampled f64 stereo I O (length stereo / opus_channels) remainder rounds out remainder'
unfolding resample_stereo_linear_with_remainder collect
resample_runs f64 stereo I O remainder hO hr ne two =
    let n = length stereo / 2 in
    let (out, e, p) = collected f64 stereo I O n remainder hO hr (omega arith) in
    (
      (n * O + remainder) / I,
      out,
      (n * O + remainder) % I,
      runs f64 stereo I O remainder hO (omega arith) ne two ∙ rw e,
      p,
    )

-- Whatever the packet, a call returns, and the remainder stays below the input rate.
pub resample_total :
    {F : Type 0} (f64 : F64 F) (stereo : List ℕ) (I O remainder : ℕ)
    → 0 < O
    → remainder < I
    → (out : List ℕ) × (remainder' : ℕ) × (resample_stereo_linear_with_remainder f64 stereo I O
          remainder
        ≡ some (out, remainder'))
      × (remainder' < I)
unfolding resample_stereo_linear_with_remainder
resample_total f64 [] I O remainder hO hr = ([], remainder, refl, hr)
resample_total f64 (x ∷ xs) I O remainder hO hr = elim (Bool-cases (I == O)) [
  | inl same ↦
      (x ∷ xs, remainder, rw (ne→== I 0 (omega arith), ne→== O 0 (omega arith), same) refl, hr)
  | inr differs ↦ elim (Bool-cases (leb (length (x ∷ xs) / 2) 1)) [
    | inl short ↦ (
      x ∷ xs,
      remainder,
      rw (ne→== I 0 (omega arith), ne→== O 0 (omega arith), differs, short) refl,
      hr,
    )
    | inr long ↦
        let (rounds, out, r', e, p) =
          resample_runs f64 (x ∷ xs) I O remainder hO hr (ground arith) (ground arith) in
        (out, r', e, p.small)
  ]
]
