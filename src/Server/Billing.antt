-- ===== src/Server/Billing.antt =====
-- The webhook of apps/server/src/routes/billing.rs. A JSON document is of another crate: an event is
-- what the lookups in the document give.
pub mod Webhook
use Prim.Native.Nat.{bit_or, bit_xor}
use remotekvm.Base.{
  ℕ, zero, suc, ◌+◌, ◌-◌, ◌*◌, ◌^◌, max, min, List, [], ◌∷◌, ◌++◌, Bool, true, false, not, ◌&&◌,
  ◌||◌, Option, none, some, String, str_eq, ◌==◌, leb, ltb, length, any, if◌then◌else◌,
  update_where,
}
use remotekvm.Base.Bytes.{Bytes}
use remotekvm.Server.Signature.{ℤ, verify_signature}
use remotekvm.Base.Exec.{Result, ok, err, pure, ◌>>=◌, ◌>>◌}
use remotekvm.Server.Schema.{Uuid, User, Member, Organization, Database}
use remotekvm.Server.App.{ApiError, bad_request, internal, select, update}
use remotekvm.Server.Routes.{Handler, query, ensure, ok_or}

pub record Event : Type 0 where
  pub event_type : String
  pub customer : Option String
  pub subscription : Option String
  pub organization_id : Option Uuid
  pub client_reference_id : Option Uuid

abbrev pub or_keep : Option String → Option String → Option String
or_keep none old = old
or_keep (some new) old = some new

-- Whether the user is an owner or an administrator of the organization.
unfoldable pub can_admin_org : Uuid → Uuid → Database → Bool
can_admin_org org_id user_id db =
    any
      (λ r.
        r.organization_id == org_id
        && r.user_id == user_id
        && (str_eq r.role "owner" || str_eq r.role "admin"))
      db.organization_members

unfoldable pub set_team : Uuid → String → Option String → Database → Database
set_team org_id customer subscription db = record db {
  organizations =
      update_where (λ o. o.id == org_id)
        (λ o. record o {
          stripe_customer_id = some customer;
          stripe_subscription_id = or_keep subscription o.stripe_subscription_id;
          plan = "team";
        })
        db.organizations;
}

unfoldable pub set_customer : Uuid → String → Database → Database
set_customer user_id customer db = record db {
  users =
      update_where (λ u. u.id == user_id) (λ u. record u { stripe_customer_id = some customer })
        db.users;
}

unfoldable pub set_free : Uuid → Database → Database
set_free org_id db = record db {
  organizations =
      update_where (λ o. o.id == org_id)
        (λ o. record o { stripe_subscription_id = none; plan = "free" }) db.organizations;
}

-- The checkout for an organization, by the user of the reference.
org_checkout : Uuid → String → Option String → Option Uuid → Handler (Unit {0})
org_checkout org_id customer subscription none = pure tt
org_checkout org_id customer subscription (some user_id) = do
  allowed ← query (select (can_admin_org org_id user_id))
  if allowed then query (update (set_team org_id customer subscription)) else pure tt

unfoldable pub checkout_completed :
    Option Uuid → Option String → Option Uuid → Option String → Handler (Unit {0})
unfolding org_checkout
checkout_completed org_id none user_id subscription = pure tt
checkout_completed (some org_id) (some customer) user_id subscription =
    org_checkout org_id customer subscription user_id
checkout_completed none (some customer) (some user_id) subscription =
    query (update (set_customer user_id customer))
checkout_completed none (some customer) none subscription = pure tt

unfoldable pub subscription_deleted : Option Uuid → Handler (Unit {0})
subscription_deleted none = pure tt
subscription_deleted (some org_id) = query (update (set_free org_id))

unfoldable pub apply_event : Event → Handler (Unit {0})
apply_event event =
    if str_eq event.event_type "checkout.session.completed"
    then checkout_completed event.organization_id event.customer event.client_reference_id
        event.subscription
    else if str_eq event.event_type "customer.subscription.deleted"
    then subscription_deleted event.organization_id
    else pure tt

unfoldable pub returned : Result ApiError (Unit {0}) → Handler (Unit {0})
returned r s = (r, s)

module _ (sign : Bytes → ℤ → Bytes → Option Bytes) (from_slice : Bytes → Option Event) where
  unfoldable pub stripe_webhook : Bytes → Option Bytes → Bytes → ℕ → Handler (Unit {0})
  stripe_webhook secret header body now = do
    ensure (not (length secret == 0)) (bad_request "Billing is not configured")
    signature ← ok_or header (bad_request "Missing Stripe-Signature")
    returned (verify_signature sign body signature secret now)
    event ← ok_or (from_slice body) (bad_request "bad JSON")
    apply_event event
