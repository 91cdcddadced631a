-- ===== src/Tests/Billing.antt =====
-- The webhook at the header `t=5,v1=ab`, two seconds later.
use remotekvm.Base.{◌≡◌, refl, ◌⊎◌, [], ◌∷◌, Option, none, some}
use remotekvm.Base.Bytes.{Bytes}
use remotekvm.Server.Signature.{
  ℤ, read_header, split, split_once, parse_i64, ct_eq, distance, verify_signature,
}
use remotekvm.Server.Billing.{Event, stripe_webhook}
use remotekvm.Server.Signature.Acceptance.{SignedBy, verify_signature_lem}
use remotekvm.Server.Billing.Webhook.{Signed, stripe_webhook_lem}
use remotekvm.Tests.Handlers.{office}

abbrev sign : Bytes → ℤ → Bytes → Option Bytes
sign secret t body = some (b'a' ∷ b'b' ∷ [])

abbrev header : Bytes
header = b't' ∷ b'=' ∷ b'5' ∷ b',' ∷ b'v' ∷ b'1' ∷ b'=' ∷ b'a' ∷ b'b' ∷ []

-- The checkout of user 3 for organization 7.
abbrev event : Event
event = record {
  event_type = "checkout.session.completed";
  customer = some "cus";
  subscription = none;
  organization_id = some 7;
  client_reference_id = some 3;
}

verify_signature_lem_example : SignedBy sign (b'{' ∷ []) (b's' ∷ []) 7 header
unfolding verify_signature read_header split split_once parse_i64 ct_eq distance
verify_signature_lem_example = verify_signature_lem sign (b'{' ∷ []) (b's' ∷ []) 7 header refl

stripe_webhook_lem_example :
    let after =
      (stripe_webhook sign
        (λ body. some event)
        (b's' ∷ [])
        (some header)
        (b'{' ∷ [])
        7
        office).1.db in
    (after ≡ office.db)
    ⊎ Signed sign (λ body. some event) (b's' ∷ []) (b'{' ∷ []) (some header) 7 office after
stripe_webhook_lem_example =
    stripe_webhook_lem sign (λ body. some event) (b's' ∷ []) (b'{' ∷ []) (some header) 7 office

abbrev digits : Bytes
digits = b'a' ∷ b'b' ∷ []

abbrev other_digits : Bytes
other_digits = b'a' ∷ b'c' ∷ []
