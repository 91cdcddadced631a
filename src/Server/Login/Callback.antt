-- ===== src/Server/Login/Callback.antt =====
-- `login_init` and `workos_callback` of apps/server/src/auth/routes.rs, with `create_token` of
-- auth/mod.rs. WorkOS, the signatures of JWT and the drawn keys are parameters.
use Prim.Native.Char.{code}
use Prim.Native.String.{◌++◌ as str_append}
use remotekvm.Base.{
  ℕ, ◌+◌, ◌*◌, List, [], ◌∷◌, ◌++◌, Bool, ◌||◌, Option, none, some, String, ◌==◌, if◌then◌else◌,
  any, map,
}
use remotekvm.Base.Bytes.{Bytes}
use remotekvm.Base.Exec.{Result, ok, err, pure, ◌>>=◌, ◌>>◌}
use remotekvm.Percent.{percent_encode}
use remotekvm.Server.Schema.{Uuid}
use remotekvm.Server.App.{bad_request, internal}
use remotekvm.Server.Routes.{Handler, query, ensure, ok_or}
use remotekvm.Server.Login.{is_loopback_redirect}
use remotekvm.Server.Organizations.{Unicode, accept_pending_invites}
use remotekvm.Server.Login.Upserts.{
  WorkOsOrganizationMembership, WorkOsUserProfile, upsert_user, upsert_organization_row,
  role_or_member, upsert_membership,
}

pub record Claims : Type 0 where
  pub sub : String
  pub workos_user_id : String
  pub email : String
  pub iat : ℕ
  pub exp : ℕ

pub record StateClaims : Type 0 where
  pub redirect_uri : Bytes
  pub exp : ℕ

abbrev pub state_ttl_secs : ℕ
state_ttl_secs = 600

pub record Config : Type 0 where
  pub workos_api_base : Bytes
  pub workos_client_id : Bytes
  pub public_base_url : Bytes
  pub jwt_secret : Bytes
  pub jwt_expiry_hours : ℕ

-- What the handlers call: the WorkOS client, `jsonwebtoken`, and the tables of Unicode. An error is
-- its message.
pub record Crates : Type 0 where
  pub unicode : Unicode
  pub is_alphanumeric : ℕ → Bool
  pub to_string : Uuid → String
  pub authenticate_with_code : String → Result String WorkOsUserProfile
  pub sign_claims : Claims → Bytes → Result String Bytes
  pub sign_state : StateClaims → Bytes → Result String Bytes
  -- At a time: the signature and the expiry are checked.
  pub read_state : ℕ → Bytes → Bytes → Option StateClaims

abbrev pub or_internal : {A : Type 0} → String → Result String A → Handler A
or_internal prefix (ok a) s = (ok a, s)
or_internal prefix (err e) s = (err (internal (str_append prefix e)), s)

-- `state={…}` and the other parts of the page of WorkOS.
pub record AuthorizeUrl : Type 0 where
  pub base : Bytes
  pub client_id : Bytes
  pub redirect_uri : Bytes
  pub state : Bytes

pub data Response : Type 0 where
  redirect : Bytes → Response
  auth_response :
      Bytes → Uuid → WorkOsUserProfile → List (String × String × String × String) → Response

pub record CallbackQuery : Type 0 where
  pub code : Option String
  pub state : Option Bytes

-- `/auth/workos/callback`.
abbrev pub callback_path : Bytes
callback_path =
    b'/' ∷ b'a' ∷ b'u' ∷ b't' ∷ b'h' ∷ b'/' ∷ b'w' ∷ b'o' ∷ b'r' ∷ b'k' ∷ b'o' ∷ b's' ∷ b'/' ∷ b'c'
    ∷ b'a' ∷ b'l' ∷ b'l' ∷ b'b' ∷ b'a' ∷ b'c' ∷ b'k' ∷ []

abbrev pub token_key : Bytes
token_key = b't' ∷ b'o' ∷ b'k' ∷ b'e' ∷ b'n' ∷ []

-- The redirect target, with the token in its query.
unfoldable pub location : Bytes → Bytes → Bytes
location redirect_uri token =
    let sep = if any (λ c. c == b'?') redirect_uri then b'&' else b'?' in
    redirect_uri ++ sep ∷ (token_key ++ b'=' ∷ percent_encode token)

module _ (crates : Crates) (config : Config) where
  open crates use {
    unicode, is_alphanumeric, to_string, authenticate_with_code, sign_claims, sign_state,
    read_state,
  }

  unfoldable pub slugged : String → String
  slugged String.[] = String.[]
  slugged (String.◌∷◌ c s) =
      let rest = slugged s in
      if code c == b' '
      then str_append "-" rest
      else if is_alphanumeric (code c) || code c == b'-'
      then String.◌∷◌ c rest
      else rest

  abbrev pub slugify : String → String
  slugify name = slugged (unicode.to_lowercase name)

  unfoldable pub upsert_organization : Uuid → WorkOsOrganizationMembership → Handler (Unit {0})
  unfolding query
  upsert_organization drawn m =
      query (upsert_organization_row drawn m.organization (slugify m.organization.name))

  -- One key is drawn for every membership.
  unfoldable pub upsert_all :
      Uuid → (ℕ → Uuid) → ℕ → List WorkOsOrganizationMembership → Handler (Unit {0})
  upsert_all user_id drawn n [] = pure tt
  upsert_all user_id drawn n (m ∷ ms) =
      let rest = upsert_all user_id drawn (n + 1) ms in
      upsert_organization (drawn n) m >> upsert_membership user_id m >> rest

  abbrev pub claims_of : ℕ → Uuid → WorkOsUserProfile → Claims
  claims_of now user_id profile = record {
    sub = to_string user_id;
    workos_user_id = profile.id;
    email = profile.email;
    iat = now;
    exp = now + config.jwt_expiry_hours * 3600;
  }

  unfoldable pub create_token : ℕ → Uuid → WorkOsUserProfile → Result String Bytes
  create_token now user_id profile = sign_claims (claims_of now user_id profile) config.jwt_secret

  abbrev pub organization_response :
      WorkOsOrganizationMembership → String × String × String × String
  organization_response m =
      (m.organization.id, m.organization.name, slugify m.organization.name, role_or_member m.role)

  -- The end of the callback: where the token goes.
  unfoldable pub deliver : ℕ → Bytes → Uuid → WorkOsUserProfile → Option Bytes → Handler Response
  deliver now token user_id profile none =
      pure (auth_response token user_id profile (map organization_response profile.organizations))
  deliver now token user_id profile (some state) = do
    claims ← ok_or (read_state now state config.jwt_secret) (bad_request "invalid or expired state")
    ensure (is_loopback_redirect claims.redirect_uri)
        (bad_request "state redirect_uri must be a loopback address")
    pure (redirect (location claims.redirect_uri token))

  unfoldable pub workos_callback : ℕ → Uuid → (ℕ → Uuid) → CallbackQuery → Handler Response
  workos_callback now drawn_user drawn params = do
    code ← ok_or params.code (bad_request "Missing authorization code")
    profile ← or_internal "WorkOS authentication failed: " (authenticate_with_code code)
    user_id ← upsert_user drawn_user profile
    upsert_all user_id drawn 0 profile.organizations
    accept_pending_invites unicode user_id profile.email
    token ← or_internal "Failed to create JWT: " (create_token now user_id profile)
    deliver now token user_id profile params.state

  unfoldable pub login_init : ℕ → Option Bytes → Handler AuthorizeUrl
  login_init now requested = do
    redirect_uri ← ok_or requested (bad_request "Missing redirect_uri")
    ensure (is_loopback_redirect redirect_uri)
        (bad_request "redirect_uri must be a loopback address")
    signed ← or_internal "failed to sign state: " (
        sign_state (record { redirect_uri = redirect_uri; exp = now + state_ttl_secs })
          config.jwt_secret)
    pure (record {
      base = config.workos_api_base;
      client_id = percent_encode config.workos_client_id;
      redirect_uri = percent_encode (config.public_base_url ++ callback_path);
      state = percent_encode signed;
    })
