-- ===== src/Tests/Login.antt =====
-- Redirect targets of a login.
use remotekvm.Base.{◌≡◌, refl, [], ◌∷◌, ◌++◌, true}
use remotekvm.Base.Bytes.{Bytes}
use remotekvm.Server.Login.{
  http, loopback_v4, is_loopback_redirect, strip_prefix, authority_of, rsplit_once, is_loopback,
}
use remotekvm.Server.Login.Loopback.{IsLoopback, userinfo_lem, is_loopback_redirect_lem}

-- `http://127.0.0.1:x@evil/`.
abbrev evil : Bytes
evil = b'e' ∷ b'v' ∷ b'i' ∷ b'l' ∷ []

userinfo_lem_example :
    is_loopback_redirect
      (http ++ (loopback_v4 ++ b':' ∷ b'x' ∷ b'@' ∷ b'e' ∷ b'v' ∷ b'i' ∷ b'l' ∷ b'/' ∷ []))
    ≡ true
userinfo_lem_example =
    userinfo_lem (b'x' ∷ []) evil [] (refl, (refl, (refl, (refl, (refl, (refl, tt))))))

-- `http://127.0.0.1/`.
abbrev local : Bytes
local = http ++ (loopback_v4 ++ b'/' ∷ [])

is_loopback_redirect_lem_example :
    (rest : Bytes) × (local ≡ http ++ rest) × IsLoopback (authority_of rest)
unfolding is_loopback_redirect strip_prefix authority_of rsplit_once is_loopback
is_loopback_redirect_lem_example = is_loopback_redirect_lem local refl
