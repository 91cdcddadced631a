-- ===== src/Server/Signature.antt =====
-- The signature of a webhook call in apps/server/src/routes/billing.rs. Texts are their bytes. The
-- HMAC is of another crate: `sign` gives the hex digits of the signature over `{t}.{body}`.
pub mod Header
pub mod Acceptance
pub mod Comparison
use Prim.Native.Nat.{bit_or, bit_xor}
use remotekvm.Base.{
  ℕ, zero, suc, ◌+◌, ◌-◌, ◌*◌, ◌^◌, max, min, List, [], ◌∷◌, ◌++◌, Bool, true, false, not, ◌&&◌,
  ◌||◌, Option, none, some, String, str_eq, ◌==◌, leb, ltb, length, any, if◌then◌else◌,
  update_where,
}
use remotekvm.Base.Bytes.{Bytes}
use remotekvm.Base.Exec.{Result, ok, err, pure, ◌>>=◌, ◌>>◌}
use remotekvm.Server.Schema.{Uuid, User, Member, Organization, Database}
use remotekvm.Server.App.{ApiError, bad_request, internal, select, update}
use remotekvm.Server.Routes.{Handler, query, ensure, ok_or}

-- An `i64`.
pub data ℤ : Type 0 where
  pos negsuc : ℕ → ℤ

abbrev cons_head : ℕ → List Bytes → List Bytes
cons_head c [] = (c ∷ []) ∷ []
cons_head c (part ∷ parts) = (c ∷ part) ∷ parts

-- `str::split` and `str::split_once` at one byte.
unfoldable pub split : ℕ → Bytes → List Bytes
split sep [] = [] ∷ []
split sep (c ∷ text) =
    let parts = split sep text in if c == sep then [] ∷ parts else cons_head c parts

abbrev behind : ℕ → Option (Bytes × Bytes) → Option (Bytes × Bytes)
behind c none = none
behind c (some (key, value)) = some (c ∷ key, value)

unfoldable pub split_once : ℕ → Bytes → Option (Bytes × Bytes)
split_once sep [] = none
split_once sep (c ∷ text) =
    let later = split_once sep text in if c == sep then some ([], text) else behind c later

digits : ℕ → Bytes → Option ℕ
digits acc [] = some acc
digits acc (c ∷ text) =
    let later = digits (acc * 10 + (c - b'0')) text in
    if leb b'0' c && leb c b'9' then later else none

abbrev up_to : ℕ → (ℕ → ℤ) → Option ℕ → Option ℤ
up_to bound f none = none
up_to bound f (some n) = if ltb n bound then some (f n) else none

abbrev negated : ℕ → ℤ
negated zero = pos 0
negated (suc m) = negsuc m

unsigned : Bytes → Option ℕ
unfolding digits
unsigned [] = none
unsigned (c ∷ text) = digits 0 (c ∷ text)

-- `str::parse::<i64>`.
unfoldable pub parse_i64 : Bytes → Option ℤ
unfolding unsigned
parse_i64 [] = none
parse_i64 (c ∷ text) =
    if c == b'-'
    then up_to (2 ^ 63 + 1) negated (unsigned text)
    else if c == b'+'
    then up_to (2 ^ 63) pos (unsigned text)
    else up_to (2 ^ 63) pos (unsigned (c ∷ text))

pub record Signatures : Type 0 where
  pub timestamp : Option ℤ
  pub v1_sigs : List Bytes

-- `constant_eq`: lengths first, then the differences of all bytes joined.
differences : Bytes → Bytes → ℕ → ℕ
differences [] right diff = diff
differences (a ∷ left) [] diff = diff
differences (a ∷ left) (b ∷ right) diff = differences left right (bit_or diff (bit_xor a b))

unfoldable pub ct_eq : Bytes → Bytes → Bool
unfolding differences
ct_eq a b = if length a == length b then differences a b 0 == 0 else false

abbrev is_t : Bytes → Bool
is_t (c ∷ []) = c == b't'
is_t key = false

abbrev is_v1 : Bytes → Bool
is_v1 (c ∷ d ∷ []) = c == b'v' && d == b'1'
is_v1 key = false

read_pair : Option (Bytes × Bytes) → Signatures → Signatures
read_pair none sigs = sigs
read_pair (some (key, value)) sigs =
    if is_t key
    then record sigs { timestamp = parse_i64 value }
    else if is_v1 key
    then record sigs { v1_sigs = sigs.v1_sigs ++ value ∷ [] }
    else sigs

read_parts : List Bytes → Signatures → Signatures
unfolding read_pair
read_parts [] sigs = sigs
read_parts (part ∷ parts) sigs = read_parts parts (read_pair (split_once b'=' part) sigs)

unfoldable pub read_header : Bytes → Signatures
unfolding read_parts
read_header header = read_parts (split b',' header) (record { timestamp = none; v1_sigs = [] })

-- `now.saturating_sub(timestamp).saturating_abs()`, at a time after 1970.
unfoldable pub distance : ℕ → ℤ → ℕ
distance now (pos t) = max (now - t) (t - now)
distance now (negsuc t) = min (now + t + 1) (2 ^ 63 - 1)

abbrev pub webhook_tolerance_secs : ℕ
webhook_tolerance_secs = 300

module _ (sign : Bytes → ℤ → Bytes → Option Bytes) where
  against : Option Bytes → List Bytes → Result ApiError (Unit {0})
  against none sigs = err (internal "invalid webhook secret")
  against (some expected) sigs =
      if any (ct_eq expected) sigs then ok tt else err (bad_request "signature mismatch")

  abbrev is_empty : List Bytes → Bool
  is_empty [] = true
  is_empty (sig ∷ sigs) = false

  verify_at : Option ℤ → List Bytes → Bytes → Bytes → ℕ → Result ApiError (Unit {0})
  unfolding against
  verify_at none sigs body secret now = err (bad_request "bad signature")
  verify_at (some t) sigs body secret now =
      if is_empty sigs
      then err (bad_request "bad signature")
      else if ltb webhook_tolerance_secs (distance now t)
      then err (bad_request "signature timestamp too old")
      else against (sign secret t body) sigs

  unfoldable pub verify_signature : Bytes → Bytes → Bytes → ℕ → Result ApiError (Unit {0})
  unfolding verify_at
  verify_signature body header secret now =
      let sigs = read_header header in verify_at sigs.timestamp sigs.v1_sigs body secret now
