-- ===== src/Server/Billing/Webhook.antt =====
-- What a call of the webhook may change.
use remotekvm.Base.{
  ℕ, ◌≡◌, refl, true, ◌⊎◌, inl, inr, Option, none, some, String, str_eq, Bool-cases, Option-cases,
  str_eq→eq,
}
use remotekvm.Base.Exec.{ok, pure}
use remotekvm.Server.Schema.{Uuid, Database}
use remotekvm.Server.App.{AppState, next_fault, run_sql, map_err, update}
use remotekvm.Server.Routes.{query}
use remotekvm.Server.Routes.Rules.{after_fault}
use remotekvm.Server.Routes.Outcomes.{Post, on_bind, on_select, on_ok_or, on_ensure}
use remotekvm.Base.Bytes.{Bytes}
use remotekvm.Server.Signature.{ℤ, verify_signature}
use remotekvm.Server.Billing.{
  Event, can_admin_org, set_team, set_customer, set_free, org_checkout, checkout_completed,
  subscription_deleted, apply_event, returned, stripe_webhook,
}

-- The three ways in which an event changes the tables.
pub data Effect (event : Event) (before after : Database) : Type 0 where
  to_team :
      (org_id user_id : Uuid) (customer : String)
      → event.organization_id ≡ some org_id
      → event.client_reference_id ≡ some user_id
      → can_admin_org org_id user_id before ≡ true
      → after ≡ set_team org_id customer event.subscription before
      → Effect event before after
  to_customer :
      (user_id : Uuid) (customer : String)
      → event.organization_id ≡ none
      → event.client_reference_id ≡ some user_id
      → after ≡ set_customer user_id customer before
      → Effect event before after
  to_free :
      (org_id : Uuid)
      → event.organization_id ≡ some org_id
      → event.event_type ≡ "customer.subscription.deleted"
      → after ≡ set_free org_id before
      → Effect event before after

db-query :
    (f : Database → Database) (s : AppState)
    → ((query (update f) s).1.db ≡ s.db) ⊎ ((query (update f) s).1.db ≡ f s.db)
unfolding query run_sql map_err
db-query f s = elim (Option-cases (next_fault s.faults)) [
  | inl fine ↦ inr (rw fine refl)
  | inr (msg, fault) ↦ inl (rw fault refl)
]

abbrev Applied : Event → Database → Database → Type 0
Applied event before after = (after ≡ before) ⊎ Effect event before after

org_checkout_lem :
    (event : Event) (org_id : Uuid) (customer : String) (user_id : Option Uuid) (s : AppState)
    → event.organization_id ≡ some org_id
    → event.client_reference_id ≡ user_id
    → Applied event s.db (org_checkout org_id customer event.subscription user_id s).1.db
unfolding org_checkout pure
org_checkout_lem event org_id customer none s org user = inl refl
org_checkout_lem event org_id customer (some user_id) s org user =
    on_select (λ _ after. Applied event s.db after.db) _ s (can_admin_org org_id user_id)
      (λ _. inl refl)
      (elim (Bool-cases (can_admin_org org_id user_id s.db)) [
        | inl allowed ↦
            rw allowed
              (elim (db-query (set_team org_id customer event.subscription) (after_fault s)) [
                | inl same ↦ inl same
                | inr set ↦ inr (to_team org_id user_id customer org user allowed set)
              ])
        | inr refused ↦ rw refused (inl refl)
      ])

checkout_completed_lem :
    (event : Event) (org_id : Option Uuid) (customer : Option String) (user_id : Option Uuid)
    (s : AppState)
    → event.organization_id ≡ org_id
    → event.client_reference_id ≡ user_id
    → Applied event s.db (checkout_completed org_id customer user_id event.subscription s).1.db
unfolding checkout_completed pure
checkout_completed_lem event org_id none user_id s org user = inl refl
checkout_completed_lem event (some org_id) (some customer) user_id s org user =
    org_checkout_lem event org_id customer user_id s org user
checkout_completed_lem event none (some customer) none s org user = inl refl
checkout_completed_lem event none (some customer) (some user_id) s org user =
    elim (db-query (set_customer user_id customer) s) [
      | inl same ↦ inl same
      | inr set ↦ inr (to_customer user_id customer org user set)
    ]

subscription_deleted_lem :
    (event : Event) (org_id : Option Uuid) (s : AppState)
    → event.organization_id ≡ org_id
    → event.event_type ≡ "customer.subscription.deleted"
    → Applied event s.db (subscription_deleted org_id s).1.db
unfolding subscription_deleted pure
subscription_deleted_lem event none s org deleted = inl refl
subscription_deleted_lem event (some org_id) s org deleted = elim (db-query (set_free org_id) s) [
  | inl same ↦ inl same
  | inr set ↦ inr (to_free org_id org deleted set)
]

apply_event_lem : (event : Event) (s : AppState) → Applied event s.db (apply_event event s).1.db
unfolding apply_event pure
apply_event_lem event s = elim (Bool-cases (str_eq event.event_type "checkout.session.completed")) [
  | inl completed ↦ rw completed (
      checkout_completed_lem event event.organization_id event.customer event.client_reference_id s
        refl refl)
  | inr differs ↦ elim (Bool-cases (str_eq event.event_type "customer.subscription.deleted")) [
    | inl deleted ↦
        rw (differs, deleted)
          (subscription_deleted_lem event event.organization_id s refl
            (str_eq→eq event.event_type "customer.subscription.deleted" deleted))
    | inr unknown ↦ rw (differs, unknown) (inl refl)
  ]
]

module _ (sign : Bytes → ℤ → Bytes → Option Bytes) (from_slice : Bytes → Option Event)
    (secret body : Bytes) (header : Option Bytes) (now : ℕ) (s : AppState) where
  -- A call whose signature was accepted, and the event of its body.
  pub record Signed (after : Database) : Type 0 where
    pub event : Event
    pub signature : Bytes
    pub sent : header ≡ some signature
    pub accepted : verify_signature sign body signature secret now ≡ ok tt
    pub parsed : from_slice body ≡ some event
    pub effect : Effect event s.db after

  -- Whatever is posted, and whichever statement fails: either no table changes, or the call carries an
  -- accepted signature and its event made one of three changes. These are the team plan of an
  -- organization for a user who is an owner or an administrator of it, the customer id of the
  -- user, and the end of the subscription of an organization.
  pub stripe_webhook_lem :
      let after = (stripe_webhook sign from_slice secret header body now s).1.db in
      (after ≡ s.db) ⊎ Signed after
  unfolding stripe_webhook returned
  stripe_webhook_lem =
      let P : Post (Unit {0}) = λ _ after. (after.db ≡ s.db) ⊎ Signed after.db in
      on_ensure P _ s _ _ (inl refl) λ _. on_ok_or P _ s header _ (inl refl) λ signature sent.
        on_bind P _ s (returned (verify_signature sign body signature secret now)) (λ _ _. inl refl)
          λ _ accepted. on_ok_or P _ s (from_slice body) _ (inl refl) λ event parsed.
            elim (apply_event_lem event s) [
              | inl same ↦ inl same
              | inr effect ↦ inr (record {
                event = event;
                signature = signature;
                sent = sent;
                accepted = accepted;
                parsed = parsed;
                effect = effect;
              })
            ]
