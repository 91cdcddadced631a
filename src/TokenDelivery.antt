-- ===== src/TokenDelivery.antt =====
-- A login from one end to the other: the server's callback of apps/server/src/auth/routes.rs sends
-- the browser to the receiver of apps/client/src/auth.rs.
use remotekvm.Base.{
  ℕ, ◌+◌, ◌≤◌, ◌%◌, ◌/◌, ◌≡◌, refl, sym, ap, ◌∙◌, subst, List, [], ◌∷◌, ◌++◌, append_assoc, true,
  false, ◌||◌, ◌&&◌, not, str_eq, find, map, length, Option, none, some, String, arith, ◌==◌, ltb,
  any, All, Bool-cases, inl, inr,
}
use remotekvm.Base.Bytes.{Bytes}
use remotekvm.Base.Exec.{Result, ok, err, ◌>>=◌}
use remotekvm.Percent.{IsAscii, FormUrlencoded}
use remotekvm.Server.Schema.{Uuid, User, Database}
use remotekvm.Server.Login.Upserts.{upsert_user_row, upsert_user}
use remotekvm.Server.App.{AppState}
use remotekvm.Server.Routes.{Handler, ensure, ok_or}
use remotekvm.Server.Routes.Outcomes.{Post, on_bind, on_ok_or, on_statement}
use remotekvm.Server.Login.{ends_authority, http, loopback_v4, is_loopback_redirect}
use remotekvm.Server.Login.Upserts.{WorkOsUserProfile}
use remotekvm.Server.Login.Callback.{
  Config, Crates, Response, redirect, or_internal, location, create_token, deliver, workos_callback,
}
use remotekvm.Server.Login.Loopback.{IsPlain, any_port}
use remotekvm.Client.Auth.{Url, callback, print_port, redirect_uri, buffer_size, handle_callback}
use remotekvm.Client.Auth.Requests.{token_query, target, request, UrlLaws}
use remotekvm.Client.Auth.Receiver.{handle_callback-request}
use remotekvm.Base.Rows.{concat}
use remotekvm.Client.Auth.Reads.{IsSome}

or_internal_lem :
    {A : Type 0} (prefix : String) (r : Result String A) (a : A) (s : AppState)
    → (or_internal prefix r s).0 ≡ ok a
    → r ≡ ok a
or_internal_lem prefix (ok b) a s h = ground arith
or_internal_lem prefix (err e) a s h = absurd (ground arith)

on_known :
    {A B : Type 0} (P : Post B) (prefix : String) (r : Result String A) (a : A) (k : A → Handler B)
    (s : AppState)
    → r ≡ ok a
    → P (k a s).0 (k a s).1
    → P ((or_internal prefix r >>= k) s).0 ((or_internal prefix r >>= k) s).1
unfolding ◌>>=◌
on_known P prefix (ok b) a k s h next =
    let same : a ≡ b = ground arith in subst (λ x. P (k x s).0 (k x s).1) same next
on_known P prefix (err e) a k s h next = absurd (ground arith)

-- The digits of a port end no host and begin no query.
abbrev IsDigit : ℕ → Type 0
IsDigit c = (c == b':' || ends_authority c || c == b'?') ≡ false

one-IsDigit : (n : ℕ) → IsDigit (b'0' + n % 10)
one-IsDigit n = ground arith

print_port-IsDigit : (port : ℕ) → All IsDigit (print_port port)
unfolding print_port
print_port-IsDigit port = elim (Bool-cases (ltb port 10)) [
  | inl small ↦ rw small (ones, tt)
  | inr more ↦ elim (Bool-cases (ltb port 100)) [
    | inl small ↦ rw (more, small) (one-IsDigit (port / 10), (ones, tt))
    | inr more' ↦ elim (Bool-cases (ltb port 1000)) [
      | inl small ↦ rw (more, more', small) three
      | inr more'' ↦ elim (Bool-cases (ltb port 10000)) [
        | inl small ↦ rw (more, more', more'', small) (one-IsDigit (port / 1000), three)
        | inr large ↦
            rw (more, more', more'', large)
              (one-IsDigit (port / 10000), (one-IsDigit (port / 1000), three))
      ]
    ]
  ]
]
  where
    ones : IsDigit (b'0' + port % 10)
    ones = one-IsDigit port

    three :
        All IsDigit ((b'0' + port / 100 % 10) ∷ (b'0' + port / 10 % 10) ∷ (b'0' + port % 10) ∷ [])
    three = (one-IsDigit (port / 100), (one-IsDigit (port / 10), (ones, tt)))

digits-IsPlain : (text : Bytes) → All IsDigit text → All IsPlain text
digits-IsPlain [] h = tt
digits-IsPlain (c ∷ text) h = (let d = h.0 in ground arith, digits-IsPlain text h.1)

no_question :
    (text rest : Bytes)
    → All IsDigit text
    → any (λ c. c == b'?') rest ≡ false
    → any (λ c. c == b'?') (text ++ rest) ≡ false
no_question [] rest digits h = h
no_question (c ∷ text) rest digits h =
    let d = digits.0 in ground (arith, no_question text rest digits.1 h)

-- The receiver's own address, before the target of the request.
abbrev pub origin : ℕ → Bytes
origin port = http ++ (loopback_v4 ++ b':' ∷ print_port port)

location-redirect_uri :
    (port : ℕ) (token : Bytes) → location (redirect_uri port) token ≡ origin port ++ target token
unfolding location redirect_uri
location-redirect_uri port token =
    rw (no_question (print_port port) (b'/' ∷ callback) (print_port-IsDigit port) refl) (
      ap (λ t. http ++ (loopback_v4 ++ b':' ∷ t))
        (append_assoc (print_port port) (b'/' ∷ callback) (b'?' ∷ token_query token)))

-- The server lets the receiver's address pass.
receiver_accepted : (port : ℕ) → is_loopback_redirect (redirect_uri port) ≡ true
unfolding redirect_uri
receiver_accepted port =
    any_port (print_port port) callback (digits-IsPlain (print_port port) (print_port-IsDigit port))

-- The key of the user's row: that of the user whom WorkOS names, and the drawn one for a new user.
abbrev pub key_of : Uuid → Option User → Uuid
key_of drawn none = drawn
key_of drawn (some user) = user.id

upsert_user_row-key :
    (drawn a : Uuid) (profile : WorkOsUserProfile) (found : Option User) (db db' : Database)
    → upsert_user_row drawn profile found db ≡ ok (a, db')
    → a ≡ key_of drawn found
upsert_user_row-key drawn a profile none db db' h =
    elim (Bool-cases (any (λ u. str_eq u.email profile.email) db.users)) [
      | inl taken ↦ absurd (ground arith)
      | inr free ↦ ground arith
    ]
upsert_user_row-key drawn a profile (some user) db db' h =
    elim (Bool-cases (any (λ u. not (u.id == user.id) && str_eq u.email profile.email) db.users)) [
      | inl taken ↦ absurd (ground arith)
      | inr free ↦ ground arith
    ]

module _ (crates : Crates) (config : Config) (now port exp : ℕ) (state token : Bytes)
    (issued : crates.read_state now state config.jwt_secret
      ≡ some (record { redirect_uri = redirect_uri port; exp = exp })) where
  -- A redirect to the receiver, with the token.
  abbrev ToReceiver : Post Response
  ToReceiver (ok r) s = r ≡ redirect (origin port ++ target token)
  ToReceiver (err e) s = Unit

  deliver-ToReceiver :
      (t : Bytes) (user_id : Uuid) (profile : WorkOsUserProfile) (s : AppState)
      → t ≡ token
      → ToReceiver
          (deliver crates config now t user_id profile (some state) s).0
          (deliver crates config now t user_id profile (some state) s).1
  unfolding deliver ok_or ensure ◌>>=◌
  deliver-ToReceiver t user_id profile s same =
      rw (issued, receiver_accepted port)
        (ap redirect (ap (location (redirect_uri port)) same ∙ location-redirect_uri port token))

  -- From the profile on.
  profile-ToReceiver :
      (drawn_user : Uuid) (join accept : Uuid → Handler (Unit {0})) (profile : WorkOsUserProfile)
      (s : AppState)
      → create_token crates config now
          (key_of drawn_user (find (λ u. str_eq u.workos_user_id profile.id) s.db.users))
          profile
        ≡ ok token
      → let after =
          (upsert_user drawn_user profile >>= λ user_id. join user_id >>= λ _.
          accept user_id >>= λ _.
          or_internal "Failed to create JWT: " (create_token crates config now user_id profile)
          >>= λ t. deliver crates config now t user_id profile (some state))
            s in
        ToReceiver after.0 after.1
  unfolding upsert_user
  profile-ToReceiver drawn_user join accept profile s signed =
      on_statement ToReceiver _ s _ (λ e. tt)
        λ user_id db stored.
          on_bind ToReceiver _ _ _ (λ e failed. tt)
            λ done joined.
              on_bind ToReceiver _ _ _ (λ e failed. tt)
                λ done' accepted.
                  on_bind ToReceiver _ _ _ (λ e failed. tt)
                    λ t made.
                      let key = upsert_user_row-key drawn_user user_id profile _ s.db db stored in
                      let mine =
                        or_internal_lem _ (create_token crates config now user_id profile) t _
                          made in
                      let again : create_token crates config now user_id profile ≡ ok token =
                        ap (λ id. create_token crates config now id profile) key ∙ signed in
                      deliver-ToReceiver t user_id profile _ (one_token _ t mine again)
    where
      one_token : (r : Result String Bytes) (t : Bytes) → r ≡ ok t → r ≡ ok token → t ≡ token
      one_token (ok a) t e e' = ground arith
      one_token (err m) t e e' = absurd (ground arith)

  callback-ToReceiver :
      (drawn_user : Uuid) (drawn : ℕ → Uuid) (code : String) (profile : WorkOsUserProfile)
      (s : AppState)
      → crates.authenticate_with_code code ≡ ok profile
      → create_token crates config now
          (key_of drawn_user (find (λ u. str_eq u.workos_user_id profile.id) s.db.users))
          profile
        ≡ ok token
      → let after =
          workos_callback crates config now drawn_user drawn
            (record { code = some code; state = some state })
            s in
        ToReceiver after.0 after.1
  unfolding workos_callback
  callback-ToReceiver drawn_user drawn code profile s known signed =
      on_ok_or ToReceiver _ s (some code) _ tt λ given found.
        let same : code ≡ given = ground arith in
        on_known ToReceiver _ _ profile _ s (ap crates.authenticate_with_code (sym same) ∙ known)
          (profile-ToReceiver drawn_user _ _ profile s signed)

-- WorkOS names a user, whose row, or the key that is drawn for a new one, gives the claims that a token
-- is signed for; the state of the login holds the address of the receiver at some port. Whatever else
-- the database does, where the callback of the server succeeds, it redirects the browser to the
-- receiver with this very token. And whatever follows the target in the browser's request, and in
-- whatever pieces it comes in, the receiver reads the same token out of it and answers 200, if the
-- request up to the end of the target fits the buffer of 8192 bytes. The token is ASCII, the `url`
-- crate reads queries by its laws, and the decoding of UTF-8 keeps ASCII text at the front.
pub token_delivered :
    (crates : Crates) (config : Config) (parse : Bytes → Option Url) (form : FormUrlencoded)
    → UrlLaws parse form
    → (from_utf8_lossy : Bytes → Bytes)
    → ((text rest : Bytes)
        → All IsAscii text
        → from_utf8_lossy (text ++ rest) ≡ text ++ from_utf8_lossy rest)
    → (now port exp : ℕ) (state : Bytes)
    → crates.read_state now state config.jwt_secret
      ≡ some (record { redirect_uri = redirect_uri port; exp = exp })
    → (drawn_user : Uuid) (drawn : ℕ → Uuid) (code : String) (profile : WorkOsUserProfile)
    → crates.authenticate_with_code code ≡ ok profile
    → (s s' : AppState) (token : Bytes)
    → create_token crates config now
        (key_of drawn_user (find (λ u. str_eq u.workos_user_id profile.id) s.db.users))
        profile
      ≡ ok token
    → All IsAscii token
    → (r : Response)
    → workos_callback crates config now drawn_user drawn
        (record { code = some code; state = some state })
        s
      ≡ (ok r, s')
    → (rest : Bytes) (chunks : List Bytes) → concat chunks ≡ request (target token) rest
    → All IsSome chunks
    → length (request (target token) []) ≤ buffer_size
    → (r ≡ redirect (origin port ++ target token))
      × (handle_callback parse from_utf8_lossy (map some chunks) ≡ (ok token, some 200))
token_delivered crates config parse form laws from_utf8_lossy keeps now port exp state issued
      drawn_user drawn code profile known s s' token signed ascii r h rest chunks whole all small =
    (
      subst (λ x. ToReceiver crates config now port exp state token issued x.0 x.1) h
          (callback-ToReceiver crates config now port exp state token issued drawn_user drawn code
            profile s known signed),
      handle_callback-request parse form laws from_utf8_lossy keeps token rest chunks ascii small
          whole all,
    )
