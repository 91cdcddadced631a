-- ===== src/Server/Login.antt =====
-- The check of a login's redirect target in apps/server/src/auth/routes.rs. Texts are their bytes.
pub mod Upserts
pub mod Callback
pub mod Conflicts
pub mod Loopback
use remotekvm.Base.{
  ℕ, List, [], ◌∷◌, Bool, true, false, ◌&&◌, ◌||◌, Option, none, some, ◌==◌, if◌then◌else◌,
}
use remotekvm.Base.Bytes.{Bytes}

-- `str::strip_prefix`.
unfoldable pub strip_prefix : Bytes → Bytes → Option Bytes
strip_prefix [] text = some text
strip_prefix (p ∷ ps) [] = none
strip_prefix (p ∷ ps) (c ∷ text) = let rest = strip_prefix ps text in if p == c then rest else none

abbrev pub ends_authority : ℕ → Bool
ends_authority c = c == b'/' || c == b'?' || c == b'#'

-- `split(['/', '?', '#']).next()`.
unfoldable pub authority_of : Bytes → Bytes
authority_of [] = []
authority_of (c ∷ text) = let rest = authority_of text in if ends_authority c then [] else c ∷ rest

abbrev later_or : ℕ → ℕ → Bytes → Option (Bytes × Bytes) → Option (Bytes × Bytes)
later_or sep c text (some (before, after)) = some (c ∷ before, after)
later_or sep c text none = if c == sep then some ([], text) else none

-- `str::rsplit_once`.
unfoldable pub rsplit_once : ℕ → Bytes → Option (Bytes × Bytes)
rsplit_once sep [] = none
rsplit_once sep (c ∷ text) = later_or sep c text (rsplit_once sep text)

abbrev host_of : Bytes → Option (Bytes × Bytes) → Bytes
host_of authority none = authority
host_of authority (some (host, port)) = host

abbrev pub same : Bytes → Bytes → Bool
same [] [] = true
same [] (y ∷ ys) = false
same (x ∷ xs) [] = false
same (x ∷ xs) (y ∷ ys) = x == y && same xs ys

abbrev pub http : Bytes
http = b'h' ∷ b't' ∷ b't' ∷ b'p' ∷ b':' ∷ b'/' ∷ b'/' ∷ []

-- `127.0.0.1`.
abbrev pub loopback_v4 : Bytes
loopback_v4 = b'1' ∷ b'2' ∷ b'7' ∷ b'.' ∷ b'0' ∷ b'.' ∷ b'0' ∷ b'.' ∷ b'1' ∷ []

-- `[::1]`.
abbrev pub loopback_v6 : Bytes
loopback_v6 = b'[' ∷ b':' ∷ b':' ∷ b'1' ∷ b']' ∷ []

unfoldable pub is_loopback : Bytes → Bool
is_loopback authority =
    let host = host_of authority (rsplit_once b':' authority) in
    same host loopback_v4 || same host loopback_v6

after_scheme : Option Bytes → Bool
after_scheme none = false
after_scheme (some rest) = is_loopback (authority_of rest)

unfoldable pub is_loopback_redirect : Bytes → Bool
unfolding after_scheme
is_loopback_redirect uri = after_scheme (strip_prefix http uri)
