-- ===== src/Agent/AnnexB/Conversion.antt =====
-- What the conversions make of a sample.
use remotekvm.Base.{
  ℕ, zero, suc, ◌/◌, ◌%◌, ◌<◌, ◌≤◌, ◌≡◌, refl, sym, ap, ◌∙◌, List, [], ◌∷◌, ◌++◌, false, some,
  arith, ltb, ◌==◌, length, take-length-append, drop-length-append, length-append, append-nil,
  append_assoc, All,
}
use remotekvm.Base.Exec.{ok}
use remotekvm.Base.Bytes.{any_suffix, from-to_be_bytes}
use remotekvm.Agent.AnnexB.{
  annex_b_start_code, has_annex_b_start_code, split_nalus, whole, ensure_annex_b, append_nalus,
  append_avcc_as_annex_b,
}
use remotekvm.Agent.AnnexB.Samples.{avcc, annex_b, length-avcc-ge}

abbrev pub Fits : List ℕ → Type 0
Fits nal = length nal < 4294967296

not_truncated : (nal rest : List ℕ) → ltb (length (nal ++ rest)) (length nal) ≡ false
not_truncated nal rest = ground (arith, length-append nal rest)

-- One unit more on the output.
out_lem :
    (out nal rest : List ℕ)
    → out ++ annex_b_start_code ++ nal ++ rest ≡ out ++ (annex_b_start_code ++ (nal ++ rest))
out_lem out nal rest =
    append_assoc (out ++ annex_b_start_code) nal rest
    ∙ append_assoc out annex_b_start_code (nal ++ rest)

append_nalus_lem :
    (fuel : ℕ) (nals : List (List ℕ)) (out : List ℕ)
    → All Fits nals
    → length nals ≤ fuel
    → append_nalus (suc fuel) (avcc nals) out ≡ ok (out ++ annex_b nals)
unfolding append_nalus
append_nalus_lem fuel [] out fit enough = ap ok (sym (append-nil out))
append_nalus_lem zero (nal ∷ nals) out fit enough = absurd (omega arith)
append_nalus_lem (suc fuel) (nal ∷ nals) out fit enough =
    rw
      (
        from-to_be_bytes (length nal) fit.0,
        drop-length-append nal (avcc nals),
        take-length-append nal (avcc nals),
        not_truncated nal (avcc nals),
      )
      (append_nalus_lem fuel nals (out ++ annex_b_start_code ++ nal) fit.1 (omega arith)
        ∙ ap ok (out_lem out nal (annex_b nals)))

-- On macOS every sample of units below 2^32 bytes, empty units among them, becomes the units each
-- behind a start code, appended to what was written before.
pub append_avcc_as_annex_b_lem :
    (nals : List (List ℕ)) (out : List ℕ)
    → All Fits nals
    → append_avcc_as_annex_b (avcc nals) out ≡ ok (out ++ annex_b nals)
unfolding append_avcc_as_annex_b
append_avcc_as_annex_b_lem nals out fit =
    append_nalus_lem (length (avcc nals)) nals out fit (length-avcc-ge nals)

-- A unit that an encoder makes: not empty, and its length has four bytes.
pub record IsNalu (nal : List ℕ) : Type 0 where
  pub fits : Fits nal
  pub some_byte : 0 < length nal

split_nalus_lem :
    (fuel : ℕ) (nals : List (List ℕ)) (out : List ℕ)
    → All IsNalu nals
    → length nals ≤ fuel
    → split_nalus (suc fuel) (avcc nals) out ≡ some (out ++ annex_b nals, [])
unfolding split_nalus
split_nalus_lem fuel [] out fit enough = ap (λ x. some (x, [])) (sym (append-nil out))
split_nalus_lem zero (nal ∷ nals) out fit enough = absurd (omega arith)
split_nalus_lem (suc fuel) (nal ∷ nals) out fit enough =
    let filled : (length nal == 0) ≡ false = let h = fit.0.some_byte in ground arith in
    rw
      (
        from-to_be_bytes (length nal) fit.0.fits,
        drop-length-append nal (avcc nals),
        take-length-append nal (avcc nals),
        not_truncated nal (avcc nals),
        filled,
      )
      (split_nalus_lem fuel nals (out ++ annex_b_start_code ++ nal) fit.1 (omega arith)
        ∙ ap (λ x. some (x, [])) (out_lem out nal (annex_b nals)))

-- On Windows a sample of at least one unit, each not empty and below 2^32 bytes, with no start code
-- among its bytes, the length prefixes included, becomes its units each behind a start code.
pub ensure_annex_b_lem :
    (nal : List ℕ) (nals : List (List ℕ))
    → All IsNalu (nal ∷ nals)
    → has_annex_b_start_code (avcc (nal ∷ nals)) ≡ false
    → ensure_annex_b (avcc (nal ∷ nals)) ≡ annex_b (nal ∷ nals)
unfolding ensure_annex_b whole
ensure_annex_b_lem nal nals fit plain =
    rw
      (
        plain,
        split_nalus_lem (length (avcc (nal ∷ nals))) (nal ∷ nals) [] fit
            (length-avcc-ge (nal ∷ nals)),
      )
      refl

-- The length prefix of a first unit of 256 to 511 bytes reads as a start code, 0 0 1: on Windows the
-- sample is then left as it is, length-prefixed, whatever its units are.
short_unit_misread :
    (nal : List ℕ) (nals : List (List ℕ))
    → 256 ≤ length nal
    → length nal < 512
    → ensure_annex_b (avcc (nal ∷ nals)) ≡ avcc (nal ∷ nals)
unfolding ensure_annex_b has_annex_b_start_code any_suffix
short_unit_misread nal nals low high =
    let first : length nal / 16777216 % 256 ≡ 0 = omega arith in
    let second : length nal / 65536 % 256 ≡ 0 = omega arith in
    let third : length nal / 256 % 256 ≡ 1 = omega arith in rw (first, second, third) refl
