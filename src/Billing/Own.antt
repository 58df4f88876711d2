-- ===== src/Billing/Own.antt =====
-- From the checkout that a user starts to the webhook of its completion.
use polyquantlab.Common.{
  ◌≡◌, refl, ap, ◌∙◌, sym, String, str_eq, false, List, [], ◌∷◌, Option, none, some,
}
use mathlib.Core.Option
use polyquantlab.Web.Routes.{User, nonempty}
use polyquantlab.Billing.Plans.{Plan, plan_of}
use polyquantlab.Billing.Checkout.{
  Mode, Profile, SessionParams, CheckoutBody, session_params, checked_checkout, post_checkout,
}
use polyquantlab.Billing.Webhook.{
  CheckoutObject, CheckoutSession, Customer, purchase, sync, paid_sync, Services, handle_completed,
}

-- The reference of the session is the user's id.
module _ (profile_by_id : Option String → Option Profile) (create : SessionParams → Option String)
    (u : User) where
  checked_checkout-reference :
      (price success cancel : Option String) (mode : Option Mode) {p : SessionParams}
      → (checked_checkout profile_by_id create (some u) price success cancel mode).asked ≡ some p
      → p.client_reference_id ≡ some u.id
  unfolding session_params
  checked_checkout-reference none success cancel mode e = cc
  checked_checkout-reference (some x) none cancel mode e = cc
  checked_checkout-reference (some x) (some s) none mode e = cc
  checked_checkout-reference (some x) (some s) (some c) none e = cc
  checked_checkout-reference (some x) (some s) (some c) (some m) e =
      ap (λ (q : SessionParams). q.client_reference_id) (sym (Option.some-injective _ _ e))

  post_checkout-reference :
      (body : CheckoutBody) {p : SessionParams}
      → (post_checkout profile_by_id create (some u) body).asked ≡ some p
      → p.client_reference_id ≡ some u.id
  unfolding post_checkout
  post_checkout-reference body e =
      checked_checkout-reference (nonempty body.price_id) (nonempty body.success_url)
        (nonempty body.cancel_url) body.mode e

-- If a signed-in user starts a checkout, and its completion arrives with the reference of the session,
-- then what the webhook writes is the purchase on the profile of this user and the tier of the plan
-- with the price paid: where the user has a profile, the session is found with the price of a plan,
-- and Stripe finds the customer.
pub handle_completed-own_profile :
    (plans : List Plan) (services : Services) (profile_by_id : Option String → Option Profile)
    (create : SessionParams → Option String) (u : User) (body : CheckoutBody) {p : SessionParams}
    (o : CheckoutObject) {row : Profile} {s : CheckoutSession} {customer : Customer} {plan : Plan}
    → (post_checkout profile_by_id create (some u) body).asked ≡ some p
    → o.client_reference_id ≡ p.client_reference_id
    → str_eq u.id "" ≡ false
    → services.profile_by_id u.id ≡ some row
    → services.find_session o.id ≡ some s
    → services.retrieve_customer s.customer ≡ some customer
    → plan_of plans s.price ≡ some plan
    → (handle_completed plans services o).effects
      ≡ purchase s.customer s.price (some row.id) ∷ sync (paid_sync o s.customer customer plan) ∷ []
unfolding handle_completed Option.bind
handle_completed-own_profile plans services profile_by_id create u body o {row} a b c d f g h =
    let r = b ∙ post_checkout-reference profile_by_id create u body a in
    rw (f, Option.bind, g, h, r, nonempty, c, d) refl
