-- ===== src/Server/Login/Loopback.antt =====
-- Which targets the check lets through.
use remotekvm.Base.{
  ℕ, ◌≡◌, refl, sym, ap, ◌∙◌, subst, [], ◌∷◌, ◌++◌, Bool, true, false, ◌||◌, none, some, arith,
  ◌==◌, ==→eq, All, Bool-cases, Option-cases, inl, inr, ◌⊎◌,
}
use remotekvm.Base.Bytes.{Bytes}
use remotekvm.Server.Login.{
  strip_prefix, ends_authority, authority_of, rsplit_once, host_of, same, http, loopback_v4,
  loopback_v6, is_loopback, after_scheme, is_loopback_redirect,
}

-- A byte that ends neither the host nor the authority.
abbrev pub IsPlain : ℕ → Type 0
IsPlain c = (c == b':' || ends_authority c) ≡ false

authority-plain : (text rest : Bytes) → All IsPlain text → authority_of (text ++ b'/' ∷ rest) ≡ text
unfolding authority_of
authority-plain [] rest plain = refl
authority-plain (c ∷ text) rest plain =
    let stays : ends_authority c ≡ false = let h = plain.0 in ground arith in
    rw (stays, authority-plain text rest plain.1) refl

rsplit-plain : (text : Bytes) → All IsPlain text → rsplit_once b':' text ≡ none
unfolding rsplit_once
rsplit-plain [] plain = refl
rsplit-plain (c ∷ text) plain =
    let stays : (c == b':') ≡ false = let h = plain.0 in ground arith in
    rw (rsplit-plain text plain.1, stays) refl

pub any_port :
    (port path : Bytes)
    → All IsPlain port
    → is_loopback_redirect (http ++ (loopback_v4 ++ b':' ∷ (port ++ b'/' ∷ path))) ≡ true
unfolding is_loopback_redirect after_scheme strip_prefix authority_of is_loopback rsplit_once
any_port port path plain = rw (authority-plain port path plain, rsplit-plain port plain) refl

-- A user's name that reads as a loopback address, with any password, before any host, where neither
-- the password nor the host has a colon, `/`, `?` or `#`: the check accepts the target, although it
-- is a page of that host.
pub userinfo_lem :
    (password host path : Bytes)
    → All IsPlain (password ++ b'@' ∷ host)
    → is_loopback_redirect
        (http ++ (loopback_v4 ++ b':' ∷ (password ++ b'@' ∷ host ++ b'/' ∷ path)))
      ≡ true
userinfo_lem password host path plain = any_port (password ++ b'@' ∷ host) path plain

strip_prefix_lem :
    (prefix text rest : Bytes) → strip_prefix prefix text ≡ some rest → text ≡ prefix ++ rest
unfolding strip_prefix
strip_prefix_lem [] text rest h = ground arith
strip_prefix_lem (p ∷ ps) [] rest h = absurd (ground arith)
strip_prefix_lem (p ∷ ps) (c ∷ text) rest h = elim (Bool-cases (p == c)) [
  | inl hit ↦
      ap (λ x. x ∷ text) (sym (==→eq p c hit))
      ∙ ap (λ xs. p ∷ xs) (strip_prefix_lem ps text rest (ground arith))
  | inr miss ↦ absurd (ground arith)
]

rsplit_once_lem :
    (sep : ℕ) (text before after : Bytes)
    → rsplit_once sep text ≡ some (before, after)
    → text ≡ before ++ sep ∷ after
unfolding rsplit_once
rsplit_once_lem sep [] before after h = absurd (ground arith)
rsplit_once_lem sep (c ∷ text) before after h = elim (Option-cases (rsplit_once sep text)) [
  | inr ((k, v), later) ↦
      let found : (c ∷ k ≡ before) × (v ≡ after) = ground arith in
      ap (λ xs. c ∷ xs) (rsplit_once_lem sep text k v later)
      ∙ ap (λ xs. xs ++ sep ∷ v) found.0
      ∙ ap (λ xs. before ++ sep ∷ xs) found.1
  | inl nothing ↦ elim (Bool-cases (c == sep)) [
    | inl here ↦
        let found : ([] ≡ before) × (text ≡ after) = ground arith in
        ap (λ x. x ∷ text) (==→eq c sep here)
        ∙ ap (λ xs. sep ∷ xs) found.1
        ∙ ap (λ xs. xs ++ sep ∷ after) found.0
    | inr elsewhere ↦ absurd (ground arith)
  ]
]

same_lem : (xs ys : Bytes) → same xs ys ≡ true → xs ≡ ys
same_lem [] [] h = refl
same_lem [] (y ∷ ys) h = absurd (ground arith)
same_lem (x ∷ xs) [] h = absurd (ground arith)
same_lem (x ∷ xs) (y ∷ ys) h =
    let first : (x == y) ≡ true = ground arith in
    let others : same xs ys ≡ true = ground arith in
    ap (λ z. z ∷ xs) (==→eq x y first) ∙ ap (λ zs. y ∷ zs) (same_lem xs ys others)

-- One of the two literals, alone or with a colon behind it.
abbrev pub IsLoopback : Bytes → Type 0
IsLoopback authority =
    (lit : Bytes) × ((lit ≡ loopback_v4) ⊎ (lit ≡ loopback_v6))
    × ((authority ≡ lit) ⊎ ((port : Bytes) × (authority ≡ lit ++ b':' ∷ port)))

is_loopback_lem : (authority : Bytes) → is_loopback authority ≡ true → IsLoopback authority
unfolding is_loopback
is_loopback_lem authority h = elim (Option-cases (rsplit_once b':' authority)) [
  | inl whole ↦ (
    authority,
    literal authority (subst (λ o. literal_host (host_of authority o) ≡ true) whole h),
    inl refl,
  )
  | inr ((host, port), cut) ↦ (
    host,
    literal host (subst (λ o. literal_host (host_of authority o) ≡ true) cut h),
    inr (port, rsplit_once_lem b':' authority host port cut),
  )
]
  where
    literal_host : Bytes → Bool
    literal_host host = same host loopback_v4 || same host loopback_v6

    literal :
        (host : Bytes) → literal_host host ≡ true → (host ≡ loopback_v4) ⊎ (host ≡ loopback_v6)
    literal host l = elim (Bool-cases (same host loopback_v4)) [
      | inl v4 ↦ inl (same_lem host loopback_v4 v4)
      | inr other ↦ inr (same_lem host loopback_v6 (ground arith))
    ]

-- An accepted target is `http://` and a text whose authority, up to the first `/`, `?` or `#`, is
-- 127.0.0.1 or [::1], alone or with a colon and any bytes behind it.
pub is_loopback_redirect_lem :
    (uri : Bytes)
    → is_loopback_redirect uri ≡ true
    → (rest : Bytes) × (uri ≡ http ++ rest) × IsLoopback (authority_of rest)
unfolding is_loopback_redirect after_scheme
is_loopback_redirect_lem uri h = elim (Option-cases (strip_prefix http uri)) [
  | inl nothing ↦ absurd (ground arith)
  | inr (rest, found) ↦ (
    rest,
    strip_prefix_lem http uri rest found,
    is_loopback_lem (authority_of rest) (subst (λ o. after_scheme o ≡ true) found h),
  )
]
