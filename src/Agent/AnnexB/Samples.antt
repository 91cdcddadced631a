-- ===== src/Agent/AnnexB/Samples.antt =====
-- The two formats of a sample, as functions of its NAL units.
use remotekvm.Base.{ℕ, ◌≤◌, List, [], ◌∷◌, ◌++◌, arith, length, length-append}
use remotekvm.Base.Bytes.{to_be_bytes}
use remotekvm.Agent.AnnexB.{annex_b_start_code}

abbrev pub avcc : List (List ℕ) → List ℕ
avcc [] = []
avcc (nal ∷ nals) = to_be_bytes (length nal) ++ (nal ++ avcc nals)

abbrev pub annex_b : List (List ℕ) → List ℕ
annex_b [] = []
annex_b (nal ∷ nals) = annex_b_start_code ++ (nal ++ annex_b nals)

pub length-avcc-ge : (nals : List (List ℕ)) → length nals ≤ length (avcc nals)
length-avcc-ge [] = omega arith
length-avcc-ge (nal ∷ nals) = omega (arith, length-append nal (avcc nals), length-avcc-ge nals)
