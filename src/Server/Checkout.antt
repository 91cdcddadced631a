-- ===== src/Server/Checkout.antt =====
-- `create_checkout` and `CheckoutTarget::load` of apps/server/src/routes/billing.rs. The call of
-- Stripe is a parameter: the form that is posted, and the URL or the message that comes back.
pub mod Seats
use Prim.Native.String.{◌++◌ as str_append}
use remotekvm.Base.{
  ℕ, ◌%◌, max, List, [], ◌∷◌, ◌++◌, Bool, not, ◌||◌, Option, none, some, String, str_eq, ◌==◌,
  length, filter, update_where,
}
use remotekvm.Base.Exec.{Result, ok, err, pure, ◌>>=◌, ◌>>◌}
use remotekvm.Server.Schema.{Uuid, Member, Database}
use remotekvm.Server.App.{ApiError, bad_request, internal, select, update}
use remotekvm.Server.Routes.{Handler, query, ensure, claimed}
use remotekvm.Server.Organizations.{require_org_admin}

pub record Config : Type 0 where
  pub stripe_secret_key : String
  pub stripe_price_id : String
  pub public_base_url : String

pub record CheckoutTarget : Type 0 where
  pub organization_id : Option Uuid
  pub quantity : ℕ

-- `GREATEST(COUNT(*), 1)`.
abbrev pub seats : Uuid → List Member → ℕ
seats org_id rows = max (length (filter (λ r. r.organization_id == org_id) rows)) 1

-- `quantity as i32`, as the bits of the column.
abbrev pub as_i32 : ℕ → ℕ
as_i32 quantity = quantity % 4294967296

unfoldable pub set_seats : Uuid → ℕ → Database → Database
set_seats org_id quantity db = record db {
  organizations =
      update_where (λ o. o.id == org_id) (λ o. record o { seat_count = as_i32 quantity })
        db.organizations;
}

unfoldable pub load : Uuid → Option Uuid → Handler CheckoutTarget
load user_id none = pure (record { organization_id = none; quantity = 1 })
load user_id (some org_id) = do
  require_org_admin org_id user_id
  quantity ← query (select (λ db. seats org_id db.organization_members))
  query (update (set_seats org_id quantity))
  pure (record { organization_id = some org_id; quantity = quantity })

abbrev pub returned : {A : Type 0} → Result String A → Handler A
returned (ok a) s = (ok a, s)
returned (err e) s = (err (internal e), s)

module _ (to_string : Uuid → String) (print : ℕ → String) (config : Config) where
  abbrev pub organization_params : Option Uuid → List (String × String)
  organization_params none = []
  organization_params (some org_id) =
      ("metadata[organization_id]", to_string org_id)
      ∷ ("subscription_data[metadata][organization_id]", to_string org_id)
      ∷ []

  unfoldable pub params : Uuid → CheckoutTarget → List (String × String)
  params user_id target =
      ("mode", "subscription")
      ∷ ("line_items[0][price]", config.stripe_price_id)
      ∷ ("line_items[0][quantity]", print target.quantity)
      ∷ ("client_reference_id", to_string user_id)
      ∷ ("success_url", str_append config.public_base_url "/billing/success")
      ∷ ("cancel_url", str_append config.public_base_url "/billing/cancel")
      ∷ organization_params target.organization_id

  unfoldable pub create_checkout :
      (List (String × String) → Result String String) → Option Uuid → Option Uuid → Handler String
  create_checkout stripe sub organization_id = do
    ensure (not (str_eq config.stripe_secret_key "" || str_eq config.stripe_price_id ""))
        (bad_request "Billing is not configured")
    user_id ← claimed sub
    target ← load user_id organization_id
    returned (stripe (params user_id target))
