-- ===== src/Billing/Tests.antt =====
-- Runs of the billing code at concrete inputs, and instances of its theorems.
use polyquantlab.Common.{◌≡◌, refl, String, false, [], ◌∷◌, Option, none, some, All}
use mathlib.Core.Option
use polyquantlab.Web.Routes.{User}
use polyquantlab.Billing.Plans.{plus, plans, plan_of}
use polyquantlab.Billing.Checkout.{
  subscription, Profile, SessionParams, CheckoutBody, session_params, post_checkout,
}
use polyquantlab.Billing.Webhook.{
  CheckoutObject, CheckoutSession, Customer, checkout_completed, invoice_paid, purchase, sync,
  paid_sync, Services, verified, bad_signature, handle_completed, post_webhook, handle_event,
  handle_paid,
}
use polyquantlab.Billing.Grants.{Earned, post_webhook-Earned}
use polyquantlab.Billing.Own.{handle_completed-own_profile}

abbrev alice : User
alice = record { id = "u1"; email = some "alice@example.com" }

abbrev row : Profile
row = record {
  id = "u1";
  email = some "alice@example.com";
  customer_id = some "cus_1";
  price_id = some "price_LIVE_PLUS";
}

abbrev session : CheckoutSession
session = record { customer = some "cus_1"; price = some "price_LIVE_PLUS" }

abbrev customer : Customer
customer = record { email = some "alice@example.com" }

abbrev services : Services
services = record {
  find_session = λ id. some session;
  retrieve_customer = λ id. some customer;
  retrieve_subscription = λ id. none;
  profile_by_email = λ email. none;
  profile_by_id = λ id. some row;
  profile_by_customer = λ id. some row;
  created_id = λ email. none;
}

abbrev completed : CheckoutObject
completed = record { id = "cs_1"; client_reference_id = some "u1"; subscription = some "sub_1" }

abbrev body : CheckoutBody
body = record {
  price_id = some "price_LIVE_PLUS";
  success_url = some "https://polyquantlab.com/dashboard";
  cancel_url = some "https://polyquantlab.com";
  mode = some subscription;
}

abbrev no_rows : Option String → Option Profile
no_rows id = none

abbrev create : SessionParams → Option String
create p = some "https://checkout.stripe.com/c"

-- A paid invoice with another price than that of the profile changes nothing.
other_price :
    post_webhook (plans false) services (
      verified (
        invoice_paid (record {
          price = some "price_LIVE_PRO";
          customer = "cus_1";
          subscription = none;
          period_end = none;
        })))
    ≡ (200, [])
unfolding post_webhook handle_event handle_paid
other_price = refl

post_webhook-Earned_example :
    All
      (Earned (plans false) services (checkout_completed completed))
      (post_webhook (plans false) services (verified (checkout_completed completed))).1
    × ((post_webhook (plans false) services (bad_signature "no signature")).1 ≡ [])
post_webhook-Earned_example =
    post_webhook-Earned (plans false) services (checkout_completed completed) "no signature"

handle_completed-own_profile_example :
    (handle_completed (plans false) services completed).effects
    ≡ purchase (some "cus_1") (some "price_LIVE_PLUS") (some "u1")
      ∷ sync (
          paid_sync completed
            (some "cus_1")
            customer
            (record { price_id = "price_LIVE_PLUS"; tier_key = plus; name = "Plus" }))
      ∷ []
unfolding post_checkout plan_of Option.bind session_params
handle_completed-own_profile_example =
    handle_completed-own_profile (plans false) services no_rows create alice body completed
      {s = session} {customer = customer} refl refl refl refl refl refl refl
