-- ===== src/Server/RateLimiter.antt =====
-- `RateLimiter` of apps/server/src/util.rs. Its mutex makes a check one step, at an instant that the
-- clock gives.
pub mod Window
use remotekvm.Base.{
  ℕ, ◌+◌, List, [], ◌∷◌, Bool, true, false, Option, none, some, String, leb, ltb, if◌then◌else◌,
}
use remotekvm.Base.Maps.{Map, lookup, insert}

pub record Bucket : Type 0 where
  pub count : ℕ
  pub reset_at : ℕ

pub record RateLimiter : Type 0 where
  pub inner : Map Bucket
  pub max_requests : ℕ
  pub window : ℕ

abbrev pub new : ℕ → ℕ → RateLimiter
new max_requests window = record { inner = []; max_requests = max_requests; window = window }

-- `RateLimiter::auth_defaults`, in seconds.
abbrev pub auth_defaults : RateLimiter
auth_defaults = new 30 60

-- `HashMap::retain`.
unfoldable pub retain : (Bucket → Bool) → Map Bucket → Map Bucket
retain keep [] = []
retain keep ((key, bucket) ∷ rest) =
    let kept = retain keep rest in if keep bucket then (key, bucket) ∷ kept else kept

-- `entry(key).or_insert(…)`.
unfoldable pub or_insert : Option Bucket → Bucket → Bucket
or_insert none fresh = fresh
or_insert (some bucket) fresh = bucket

-- The bucket that a request counts in: a new one, if the window is over.
unfoldable pub current : ℕ → Bucket → Bucket → Bucket
current now fresh entry = if leb entry.reset_at now then fresh else entry

-- Whether the request passes, and the bucket after it.
unfoldable pub admit : ℕ → Bucket → Bool × Bucket
admit max_requests bucket =
    if leb max_requests bucket.count
    then (false, bucket)
    else (true, record bucket { count = bucket.count + 1 })

unfoldable pub check : String → ℕ → RateLimiter → Bool × RateLimiter
check key now limiter =
    let fresh : Bucket = record { count = 0; reset_at = now + limiter.window } in
    let buckets = retain (λ b. ltb now b.reset_at) limiter.inner in
    let (passed, bucket) =
      admit limiter.max_requests (current now fresh (or_insert (lookup key buckets) fresh)) in
    (passed, record limiter { inner = insert key bucket buckets })
