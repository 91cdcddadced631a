-- ===== src/Server/RateLimiter/Window.antt =====
-- What a key is granted within its window.
use remotekvm.Base.{
  ℕ, ◌+◌, ◌-◌, ◌<◌, min, ◌≡◌, refl, List, [], ◌∷◌, Bool, true, false, some, String, leb, ltb,
  lt→ltb, str_eq, if◌then◌else◌, arith, All, Bool-cases, inl, inr, subst, sym, ◌∙◌, str_eq→eq,
  eq_refl,
}
use remotekvm.Base.Maps.{Map, lookup, lookup-insert}
use remotekvm.Server.RateLimiter.{Bucket, RateLimiter, retain, or_insert, current, admit, check}

-- The requests, each with its key and its instant.
abbrev pub Request : Type 0
Request = String × ℕ

unfoldable pub granted : String → List Request → RateLimiter → ℕ
granted key [] limiter = 0
granted key ((k, now) ∷ rest) limiter =
    let (passed, after) = check k now limiter in
    let later = granted key rest after in
    if passed then (if str_eq k key then 1 + later else later) else later

abbrev pub asked : String → List Request → ℕ
asked key [] = 0
asked key ((k, now) ∷ rest) = if str_eq k key then 1 + asked key rest else asked key rest

lookup-retain :
    (keep : Bucket → Bool) (key : String) (bucket : Bucket) (m : Map Bucket)
    → lookup key m ≡ some bucket
    → keep bucket ≡ true
    → lookup key (retain keep m) ≡ some bucket
unfolding lookup retain
lookup-retain keep key bucket [] held kept = ground arith
lookup-retain keep key bucket ((k, b) ∷ m) held kept = elim (Bool-cases (str_eq k key)) [
  | inl same ↦ let is : b ≡ bucket = ground arith in rw (is, kept, same) refl
  | inr other ↦ elim (Bool-cases (keep b)) [
    | inl stays ↦ rw (stays, other) (lookup-retain keep key bucket m (ground arith) kept)
    | inr goes ↦ rw goes (lookup-retain keep key bucket m (ground arith) kept)
  ]
]

module _ (key : String) (limiter : RateLimiter) (b : Bucket) (now : ℕ) where
  check-mine :
      lookup key limiter.inner ≡ some b
      → now < b.reset_at
      → ((check key now limiter).0 ≡ (admit limiter.max_requests b).0)
        × (lookup key (check key now limiter).1.inner ≡ some (admit limiter.max_requests b).1)
  unfolding check or_insert current
  check-mine held early =
      let kept =
        lookup-retain (λ b. ltb now b.reset_at) key b limiter.inner held
          (lt→ltb now b.reset_at early) in
      let on_time : leb b.reset_at now ≡ false = ground arith in
      rw (kept, on_time)
        (
          refl,
          rw
              (
                lookup-insert key key (admit limiter.max_requests b).1
                    (retain (λ b. ltb now b.reset_at) limiter.inner),
                eq_refl key,
              )
              refl,
        )

  check-other :
      (k : String)
      → str_eq k key ≡ false
      → lookup key limiter.inner ≡ some b
      → now < b.reset_at
      → lookup key (check k now limiter).1.inner ≡ some b
  unfolding check
  check-other k other held early =
      let kept =
        lookup-retain (λ b. ltb now b.reset_at) key b limiter.inner held
          (lt→ltb now b.reset_at early) in
      lookup-insert k key _ (retain (λ b. ltb now b.reset_at) limiter.inner) ∙ rw (other) kept

  mine_full :
      lookup key limiter.inner ≡ some b
      → now < b.reset_at
      → leb limiter.max_requests b.count ≡ true
      → ((check key now limiter).0 ≡ false) × (lookup key (check key now limiter).1.inner ≡ some b)
  unfolding admit
  mine_full held early full =
      let mine = check-mine held early in (ground arith, mine.1 ∙ rw full refl)

  mine_room :
      lookup key limiter.inner ≡ some b
      → now < b.reset_at
      → leb limiter.max_requests b.count ≡ false
      → ((check key now limiter).0 ≡ true)
        × (lookup key (check key now limiter).1.inner ≡ some (record b { count = b.count + 1 }))
  unfolding admit
  mine_room held early room =
      let mine = check-mine held early in (ground arith, mine.1 ∙ rw room refl)

max-check :
    (key : String) (now : ℕ) (limiter : RateLimiter)
    → (check key now limiter).1.max_requests ≡ limiter.max_requests
unfolding check
max-check key now limiter = refl

-- Within the window of its bucket a key is granted exactly the requests that the bucket has room
-- for, the first of those that it makes, whatever other keys ask for in between.
pub granted_lem :
    (key : String) (run : List Request) (limiter : RateLimiter) (b : Bucket)
    → lookup key limiter.inner ≡ some b
    → All (λ r. r.1 < b.reset_at) run
    → granted key run limiter ≡ min (asked key run) (limiter.max_requests - b.count)
unfolding granted
granted_lem key [] limiter b held early = omega arith
granted_lem key ((k, now) ∷ run) limiter b held early = elim (Bool-cases (str_eq k key)) [
  | inl same ↦
      subst
        (λ x.
          granted key ((x, now) ∷ run) limiter
          ≡ min (asked key ((x, now) ∷ run)) (limiter.max_requests - b.count))
        (sym (str_eq→eq k key same))
        (elim (Bool-cases (leb limiter.max_requests b.count)) [
          | inl full ↦
              let step = mine_full key limiter b now held early.0 full in
              let rest = granted_lem key run (check key now limiter).1 b step.1 early.1 in
              rw (step.0, rest, max-check key now limiter) (ground (arith))
          | inr room ↦
              let step = mine_room key limiter b now held early.0 room in
              let rest =
                granted_lem key run (check key now limiter).1 (record b { count = b.count + 1 })
                  step.1 early.1 in
              rw (step.0, eq_refl key, rest, max-check key now limiter) (ground arith)
        ])
  | inr other ↦
      let rest =
        granted_lem key run (check k now limiter).1 b
          (check-other key limiter b now k other held early.0) early.1 in
      rw (other, rest, max-check k now limiter) (ground arith)
]
