-- ===== src/Client/AnnexB.antt =====
-- The parsing of Annex B in apps/client/src/media.rs, on offsets into the sample as in the source.
-- The loop over the units has the sample's length as fuel, and a turn passes a start code.
pub mod Scan
pub mod RoundTrip
use remotekvm.Base.{
  ℕ, zero, suc, ◌+◌, ◌-◌, ◌%◌, ◌^◌, List, [], ◌∷◌, ◌++◌, Bool, true, false, ◌&&◌, ◌||◌, Option,
  none, some, ◌==◌, ltb, leb, length, take, drop, if◌then◌else◌,
}
use remotekvm.Base.Bytes.{is_three, is_four, to_be_bytes}
use remotekvm.Base.Exec.{Result, ok, err}

unfoldable pub scan : List ℕ → ℕ → Option ℕ
scan [] i = none
scan (x ∷ xs) i =
    let rest = scan xs (suc i) in
    if leb 3 (length (x ∷ xs)) && (is_three (x ∷ xs) || is_four (x ∷ xs)) then some i else rest

unfoldable pub find_start_code : List ℕ → ℕ → Option ℕ
find_start_code bytes from = scan (drop from bytes) from

unfoldable pub start_code_len : List ℕ → ℕ
start_code_len bytes = if is_four bytes then 4 else 3

abbrev unwrap_or : Option ℕ → ℕ → ℕ
unwrap_or none n = n
unwrap_or (some i) n = i

unfoldable pub slice : List ℕ → ℕ → ℕ → List ℕ
slice sample from to = take (to - from) (drop from sample)

-- One turn of the loop, at what the search for a start code gives; `later` is the turns after it.
unfoldable pub nalu_at : Option ℕ → (ℕ → List (List ℕ)) → List ℕ → List (List ℕ)
nalu_at none later sample = []
nalu_at (some start) later sample =
    let nalu_start = start + start_code_len (drop start sample) in
    let next = unwrap_or (find_start_code sample nalu_start) (length sample) in
    if ltb nalu_start next then slice sample nalu_start next ∷ later next else later next

unfoldable pub nalus_from : ℕ → List ℕ → ℕ → List (List ℕ)
unfolding nalu_at
nalus_from zero sample cursor = []
nalus_from (suc fuel) sample cursor =
    nalu_at (find_start_code sample cursor) (nalus_from fuel sample) sample

unfoldable pub annex_b_nalus : List ℕ → List (List ℕ)
annex_b_nalus sample = nalus_from (suc (length sample)) sample 0

-- `nalu[0] & 0x1f` is 7 or 8.
abbrev pub is_parameter_set : ℕ → Bool
is_parameter_set b = b % 32 == 7 || b % 32 == 8

unfoldable pub to_avcc : List (List ℕ) → List ℕ → Result ℕ (List ℕ)
to_avcc [] out = ok out
to_avcc ([] ∷ nalus) out = to_avcc nalus out
to_avcc ((b ∷ bs) ∷ nalus) out =
    let skipped = to_avcc nalus out in
    let joined = to_avcc nalus (out ++ to_be_bytes (length (b ∷ bs)) ++ (b ∷ bs)) in
    if is_parameter_set b
    then skipped
    else if ltb (length (b ∷ bs)) (2 ^ 32)
    then joined
    else err (length (b ∷ bs))

abbrev pub some_bytes : Result ℕ (List ℕ) → Result ℕ (Option (List ℕ))
some_bytes (err e) = err e
some_bytes (ok []) = ok none
some_bytes (ok (b ∷ bs)) = ok (some (b ∷ bs))

unfoldable pub annex_b_to_avcc_sample : List ℕ → Result ℕ (Option (List ℕ))
annex_b_to_avcc_sample sample = some_bytes (to_avcc (annex_b_nalus sample) [])
