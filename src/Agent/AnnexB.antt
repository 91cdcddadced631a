-- ===== src/Agent/AnnexB.antt =====
-- How the agent turns the length-prefixed (AVCC) NAL units of an encoder into Annex B:
-- `append_avcc_as_annex_b` of apps/agent/src/macos/annex_b.rs, and `ensure_annex_b` of
-- apps/agent/src/windows/encode.rs. Bytes are numbers; an offset into the sample is its suffix, and
-- each loop has the sample's length as fuel, of which a turn needs at least four.
pub mod Samples
pub mod Conversion
use remotekvm.Base.{
  ℕ, zero, suc, ◌+◌, ◌*◌, List, [], ◌∷◌, ◌++◌, Bool, true, false, ◌&&◌, ◌||◌, Option, none, some,
  ◌==◌, ltb, length, take, drop, if◌then◌else◌,
}
use remotekvm.Base.Bytes.{is_three, is_four, any_suffix, from_be_bytes}
use remotekvm.Base.Exec.{Result, ok, err}

abbrev pub annex_b_start_code : List ℕ
annex_b_start_code = 0 ∷ 0 ∷ 0 ∷ 1 ∷ []

unfoldable pub has_annex_b_start_code : List ℕ → Bool
unfolding any_suffix
has_annex_b_start_code sample = any_suffix is_three sample || any_suffix is_four sample

-- The loop of `ensure_annex_b`: `none` where it returns from within, or else the output and what is
-- left of the sample.
unfoldable pub split_nalus : ℕ → List ℕ → List ℕ → Option (List ℕ × List ℕ)
split_nalus zero sample out = none
split_nalus (suc fuel) (a ∷ b ∷ c ∷ d ∷ rest) out =
    let nalu_len = from_be_bytes a b c d in
    let next =
      split_nalus fuel (drop nalu_len rest) (out ++ annex_b_start_code ++ take nalu_len rest) in
    if nalu_len == 0 || ltb (length rest) nalu_len then none else next
split_nalus (suc fuel) rest out = some (out, rest)

whole : List ℕ → Option (List ℕ × List ℕ) → List ℕ
whole sample none = sample
whole sample (some ([], rest)) = sample
whole sample (some (x ∷ out, [])) = x ∷ out
whole sample (some (x ∷ out, y ∷ rest)) = sample

unfoldable pub ensure_annex_b : List ℕ → List ℕ
unfolding whole
ensure_annex_b sample =
    if has_annex_b_start_code sample
    then sample
    else whole sample (split_nalus (suc (length sample)) sample [])

-- `append_avcc_as_annex_b` after the bytes are copied out of the block buffer. The error carries the
-- length that a truncated unit declares, and the bytes that remain.
unfoldable pub append_nalus : ℕ → List ℕ → List ℕ → Result (ℕ × ℕ) (List ℕ)
append_nalus zero buf out = ok out
append_nalus (suc fuel) (a ∷ b ∷ c ∷ d ∷ rest) out =
    let nal_len = from_be_bytes a b c d in
    let next =
      append_nalus fuel (drop nal_len rest) (out ++ annex_b_start_code ++ take nal_len rest) in
    if ltb (length rest) nal_len then err (nal_len, length rest) else next
append_nalus (suc fuel) rest out = ok out

unfoldable pub append_avcc_as_annex_b : List ℕ → List ℕ → Result (ℕ × ℕ) (List ℕ)
append_avcc_as_annex_b buf out = append_nalus (suc (length buf)) buf out
