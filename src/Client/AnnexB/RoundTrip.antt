-- ===== src/Client/AnnexB/RoundTrip.antt =====
-- From the agent's samples to the client's and back to the units.
use remotekvm.Base.{
  ℕ, zero, suc, ◌+◌, ◌-◌, ◌<◌, ◌≤◌, ◌≡◌, refl, sym, ap, ◌∙◌, List, [], ◌∷◌, ◌++◌, Bool, true, false,
  not, none, some, arith, length, drop, ltb, lt→ltb, append-nil, append_assoc, length-append,
  drop-length-append, take-length-append, All, filter, Bool-cases, inl, inr,
}
use remotekvm.Base.Bytes.{to_be_bytes}
use remotekvm.Base.Exec.{ok}
use remotekvm.Agent.AnnexB.{annex_b_start_code, append_avcc_as_annex_b}
use remotekvm.Agent.AnnexB.Conversion.{Fits, append_avcc_as_annex_b_lem}
use remotekvm.Agent.AnnexB.Samples.{avcc, annex_b}
use remotekvm.Client.AnnexB.{
  scan, find_start_code, start_code_len, unwrap_or, slice, nalu_at, nalus_from, annex_b_nalus,
  is_parameter_set, to_avcc, some_bytes, annex_b_to_avcc_sample,
}
use remotekvm.Client.AnnexB.Scan.{IsClean, scan-unit, scan-last}

-- A unit as encoders make them: it holds no start code, is not empty, and its length has four bytes.
pub record IsUnit (nal : List ℕ) : Type 0 where
  pub clean : IsClean nal
  pub some_byte : 0 < length nal
  pub fits : length nal < 4294967296

module _ (pre nal : List ℕ) (nals : List (List ℕ)) where
  abbrev sample : List ℕ
  sample = pre ++ (annex_b_start_code ++ (nal ++ annex_b nals))

  abbrev body : ℕ
  body = length pre + 4

  starts_here : find_start_code sample (length pre) ≡ some (length pre)
  unfolding find_start_code scan
  starts_here =
      rw (drop-length-append pre (annex_b_start_code ++ (nal ++ annex_b nals))) (ground arith)

  long_code : start_code_len (drop (length pre) sample) ≡ 4
  unfolding start_code_len
  long_code = rw (drop-length-append pre (annex_b_start_code ++ (nal ++ annex_b nals))) refl

  behind : drop body sample ≡ nal ++ annex_b nals
  behind =
      ap (λ n. drop n sample) (sym (length-append pre annex_b_start_code))
      ∙ ap (λ s. drop (length (pre ++ annex_b_start_code)) s)
          (sym (append_assoc pre annex_b_start_code (nal ++ annex_b nals)))
      ∙ drop-length-append (pre ++ annex_b_start_code) (nal ++ annex_b nals)

  regroup : sample ≡ pre ++ annex_b_start_code ++ nal ++ annex_b nals
  regroup =
      sym (append_assoc pre annex_b_start_code (nal ++ annex_b nals))
      ∙ sym (append_assoc (pre ++ annex_b_start_code) nal (annex_b nals))

  length-regroup : length (pre ++ annex_b_start_code ++ nal) ≡ body + length nal
  length-regroup =
      omega
        (arith, length-append (pre ++ annex_b_start_code) nal, length-append pre annex_b_start_code)

next_is :
    (pre nal : List ℕ) (nals : List (List ℕ))
    → IsClean nal
    → unwrap_or
        (find_start_code (sample pre nal nals) (body pre nal nals))
        (length (sample pre nal nals))
      ≡ length pre + 4 + length nal
unfolding find_start_code
next_is pre nal [] clean =
    rw (behind pre nal [], append-nil nal, scan-last nal (length pre + 4) clean)
      (omega (arith, length-append pre (annex_b_start_code ++ nal)))
next_is pre nal (other ∷ nals) clean =
    rw (behind pre nal (other ∷ nals), scan-unit nal (other ++ annex_b nals) (length pre + 4) clean)
      refl

ends_here : (pre : List ℕ) → find_start_code (pre ++ []) (length pre) ≡ none
unfolding find_start_code scan
ends_here pre = rw (drop-length-append pre []) refl

cut_lem : (a b : ℕ) → a + b - a ≡ b
cut_lem a b = omega arith

-- The turn of the loop at one unit.
nalu_at_lem :
    (pre nal : List ℕ) (nals : List (List ℕ)) (later : ℕ → List (List ℕ))
    → IsUnit nal
    → nalu_at (find_start_code (sample pre nal nals) (length pre)) later (sample pre nal nals)
      ≡ nal ∷ later (length (pre ++ annex_b_start_code ++ nal))
unfolding nalu_at slice
nalu_at_lem pre nal nals later unit =
    let ahead : ltb (length pre + 4) (length pre + 4 + length nal) ≡ true =
      let some_byte = unit.some_byte in ground arith in
    rw
      (
        starts_here pre nal nals,
        long_code pre nal nals,
        next_is pre nal nals unit.clean,
        ahead,
        behind pre nal nals,
        cut_lem (length pre + 4) (length nal),
        take-length-append nal (annex_b nals),
        length-regroup pre nal nals,
      )
      refl

nalus_from_lem :
    (fuel : ℕ) (pre : List ℕ) (nals : List (List ℕ))
    → All IsUnit nals
    → length nals ≤ fuel
    → nalus_from (suc fuel) (pre ++ annex_b nals) (length pre) ≡ nals
unfolding nalus_from
nalus_from_lem fuel pre [] units enough = rw (ends_here pre) refl
nalus_from_lem zero pre (nal ∷ nals) units enough = absurd (omega arith)
nalus_from_lem (suc fuel) pre (nal ∷ nals) units enough =
    nalu_at_lem pre nal nals (nalus_from (suc fuel) (sample pre nal nals)) units.0
    ∙ ap (λ rest. nal ∷ rest)
        (ap (λ s. nalus_from (suc fuel) s (length (pre ++ annex_b_start_code ++ nal)))
            (regroup pre nal nals)
          ∙ nalus_from_lem fuel (pre ++ annex_b_start_code ++ nal) nals units.1 (omega arith))

length-annex_b-ge : (nals : List (List ℕ)) → length nals ≤ length (annex_b nals)
length-annex_b-ge [] = omega arith
length-annex_b-ge (nal ∷ nals) =
    omega (arith, length-append nal (annex_b nals), length-annex_b-ge nals)

-- Not a parameter set.
abbrev pub is_coded : List ℕ → Bool
is_coded [] = false
is_coded (b ∷ bs) = not (is_parameter_set b)

to_avcc_lem :
    (nals : List (List ℕ)) (out : List ℕ)
    → All IsUnit nals
    → to_avcc nals out ≡ ok (out ++ avcc (filter is_coded nals))
unfolding to_avcc
to_avcc_lem [] out units = ap ok (sym (append-nil out))
to_avcc_lem ([] ∷ nals) out units = let some_byte = units.0.some_byte in absurd (omega arith)
to_avcc_lem ((b ∷ bs) ∷ nals) out units = elim (Bool-cases (is_parameter_set b)) [
  | inl skipped ↦ rw skipped (to_avcc_lem nals out units.1)
  | inr coded ↦
      rw (coded, lt→ltb (length (b ∷ bs)) 4294967296 units.0.fits)
        (to_avcc_lem nals (out ++ to_be_bytes (length (b ∷ bs)) ++ (b ∷ bs)) units.1
          ∙ ap ok (
              append_assoc (out ++ to_be_bytes (length (b ∷ bs))) (b ∷ bs)
                (avcc (filter is_coded nals))
              ∙ append_assoc out (to_be_bytes (length (b ∷ bs)))
                  (b ∷ bs ++ avcc (filter is_coded nals))))
]

All-Fits : (nals : List (List ℕ)) → All IsUnit nals → All Fits nals
All-Fits [] units = tt
All-Fits (nal ∷ nals) units = (units.0.fits, All-Fits nals units.1)

-- A sample of units without start codes, as the encoder of the agent makes it: the agent's
-- conversion succeeds, the client finds exactly the units in its result, and the client's own
-- conversion gives back the agent's sample less the parameter sets, or nothing if there is no more.
pub round_trip :
    (nals : List (List ℕ))
    → All IsUnit nals
    → (append_avcc_as_annex_b (avcc nals) [] ≡ ok (annex_b nals))
      × (annex_b_nalus (annex_b nals) ≡ nals)
      × (annex_b_to_avcc_sample (annex_b nals) ≡ some_bytes (ok (avcc (filter is_coded nals))))
unfolding annex_b_nalus annex_b_to_avcc_sample
round_trip nals units =
    let found = nalus_from_lem (length (annex_b nals)) [] nals units (length-annex_b-ge nals) in
    (
      append_avcc_as_annex_b_lem nals [] (All-Fits nals units),
      found,
      rw (found, to_avcc_lem nals [] units) refl,
    )
