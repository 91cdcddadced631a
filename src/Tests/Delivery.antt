-- ===== src/Tests/Delivery.antt =====
-- A login from the server's callback to the client's receiver.
use remotekvm.Base.{
  List, map, str_eq, ◌==◌, if◌then◌else◌, ◌≡◌, ◌≢◌, refl, [], ◌∷◌, ◌++◌, true, none, some, arith,
}
use remotekvm.Base.Rows.{concat}
use remotekvm.Base.Bytes.{Bytes}
use remotekvm.Base.Exec.{ok, pure, ◌>>=◌}
use remotekvm.Percent.{is_unreserved, hex_digit, percent_encode}
use remotekvm.Server.App.{AppState}
use remotekvm.Server.App.{next_fault, rest_faults, run_sql, map_err}
use remotekvm.Server.Routes.{query, ensure, ok_or}
use remotekvm.Server.Organizations.{
  upsert_member, accept_invites, join_all, is_repeated, validate_role, accept_all,
  accept_pending_invites,
}
use remotekvm.Server.Login.{
  is_loopback_redirect, strip_prefix, is_loopback, rsplit_once, authority_of,
}
use remotekvm.Server.Login.Upserts.{upsert_user, upsert_membership, WorkOsUserProfile}
use remotekvm.Server.Login.Callback.{
  upsert_all, upsert_organization, deliver, location, slugged, Config, Crates, redirect,
  create_token, workos_callback,
}
use remotekvm.Server.Login.Conflicts.{slug_taken}
use remotekvm.Client.Auth.{print_port, redirect_uri, handle_callback}
use remotekvm.Client.Auth.Requests.{target}
use remotekvm.Tests.Handlers.{office}
use remotekvm.Tests.Urls.{form, parse, laws}
use remotekvm.TokenDelivery.{origin, token_delivered}

-- A token with a byte that is escaped.
abbrev token : Bytes
token = b't' ∷ b'/' ∷ []

abbrev named : WorkOsUserProfile
named = record {
  id = "w3";
  email = "boss@x";
  first_name = none;
  last_name = none;
  profile_picture_url = none;
  organizations = record { organization = record { id = "o7"; name = "acme" }; role = none } ∷ [];
}

abbrev crates : Crates
crates = record {
  unicode = record { trim = λ s. s; to_lowercase = λ s. s; lower = λ s. s };
  is_alphanumeric = λ c. true;
  to_string = λ id. if id == 3 then "u3" else "another";
  authenticate_with_code = λ code. ok named;
  sign_claims = λ claims secret. ok (if str_eq claims.sub "u3" then token else []);
  sign_state = λ claims secret. ok claims.redirect_uri;
  read_state = λ now state secret. some (record { redirect_uri = state; exp = 600 });
}

abbrev config : Config
config = record {
  workos_api_base = [];
  workos_client_id = [];
  public_base_url = [];
  jwt_secret = [];
  jwt_expiry_hours = 1;
}

-- The request in two pieces.
abbrev pieces : List Bytes
pieces = (b'G' ∷ b'E' ∷ []) ∷ (b'T' ∷ b' ' ∷ (target token ++ b' ' ∷ b'x' ∷ [])) ∷ []

-- A login of user 3, with the receiver at port 80.
token_delivered_example :
    (redirect (origin 80 ++ target token) ≡ redirect (origin 80 ++ target token))
    × (handle_callback parse (λ text. text) (map some pieces) ≡ (ok token, some 200))
unfolding workos_callback ◌>>=◌ ok_or upsert_user upsert_all upsert_organization upsert_membership
    accept_pending_invites accept_all is_repeated create_token deliver ensure is_loopback_redirect
    strip_prefix redirect_uri is_loopback rsplit_once authority_of print_port pure hex_digit
    is_unreserved percent_encode map_err next_fault rest_faults run_sql location slugged
    accept_invites join_all upsert_member validate_role query concat
token_delivered_example =
    token_delivered crates config parse form laws (λ text. text) (λ text rest ascii. refl) 0 80 600
      (redirect_uri 80) refl 13 (λ n. 17) "code" named refl office
      (workos_callback crates config 0 13 (λ n. 17)
        (record { code = some "code"; state = some (redirect_uri 80) }) office).1
      token refl (omega arith, (omega arith, tt)) (redirect (origin 80 ++ target token)) refl
      (b'x' ∷ []) pieces refl (omega arith, (omega arith, tt)) (omega arith)

-- Another organization of the same name came first.
abbrev crowded : AppState
crowded = record office {
  db = record office.db {
    organizations =
        record {
          id = 7;
          workos_org_id = "o6";
          name = "acme";
          slug = "acme";
          stripe_customer_id = none;
          stripe_subscription_id = none;
          plan = "free";
          seat_count = 1;
        }
        ∷ [];
  };
}

abbrev boss : WorkOsUserProfile
boss = record {
  id = "w3";
  email = "boss@x";
  first_name = none;
  last_name = none;
  profile_picture_url = none;
  organizations = [];
}

slug_taken_example :
    (workos_callback crates config 0 13
      (λ n. 17)
      (record { code = some "code"; state = none })
      crowded).0
    ≢ ok (redirect (origin 80))
unfolding slugged
slug_taken_example =
    slug_taken crates config boss
      (record { organization = record { id = "o7"; name = "acme" }; role = none }) [] 0 13 (λ n. 17)
      "code" none crowded (redirect (origin 80)) refl refl
