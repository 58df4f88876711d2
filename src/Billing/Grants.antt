-- ===== src/Billing/Grants.antt =====
-- What justifies each effect of the Stripe webhook.
use polyquantlab.Common.{
  ◌≡◌, refl, ap, eq_iff, String, Bool, true, false, List, [], Option, none, some, All, All-append,
}
use polyquantlab.Web.Routes.{nonempty}
use polyquantlab.Billing.Plans.{free, Plan, plan_of}
use polyquantlab.Billing.Checkout.{Profile}
use polyquantlab.Billing.Webhook.{
  CheckoutObject, Customer, Subscription, Invoice, Event, checkout_completed, subscription_deleted,
  invoice_paid, Effect, purchase, access, create_user, sync, SyncPayload, active, canceled,
  Services, bad_signature, verified, new_or, user_of, with_plan, with_customer, session_customer,
  session_price, handle_completed, downgrade, revoked, handle_deleted, refresh, same_price, paid_if,
  paid_by, paid, handle_paid, handle_event, post_webhook,
}

module _ (plans : List Plan) (services : Services) where
  -- The price of a completed checkout, as the session found for it has it.
  abbrev price_of : CheckoutObject → Option String
  price_of o = session_price (services.find_session o.id)

  abbrev customer_of : CheckoutObject → Option String
  customer_of o = session_customer (services.find_session o.id)

  -- `Earned e f`: the event `e` justifies the effect `f`.
  pub data Earned : Event → Effect → Type 0 where
    bought :
        {o : CheckoutObject} {user : Option String} {plan : Plan}
        → plan_of plans (price_of o) ≡ some plan
        → Earned (checkout_completed o) (purchase (customer_of o) (price_of o) user)
    new_user :
        {o : CheckoutObject} {email : Option String}
        → nonempty o.client_reference_id ≡ none
        → services.profile_by_email email ≡ none
        → Earned (checkout_completed o) (create_user email)
    bought_tier :
        {o : CheckoutObject} {p : SyncPayload} {plan : Plan}
        → plan_of plans (price_of o) ≡ some plan
        → p.tier ≡ plan.tier_key
        → p.status ≡ active
        → Earned (checkout_completed o) (sync p)
    renewed :
        {i : Invoice} {price : String} {p : Profile}
        → i.price ≡ some price
        → services.profile_by_customer i.customer ≡ some p
        → p.price_id ≡ some price
        → Earned (invoice_paid i) (access true i.customer)
    renewed_tier :
        {i : Invoice} {price : String} {p : Profile} {plan : Plan} {s : SyncPayload}
        → i.price ≡ some price
        → services.profile_by_customer i.customer ≡ some p
        → p.price_id ≡ some price
        → plan_of plans (some price) ≡ some plan
        → s.tier ≡ plan.tier_key
        → Earned (invoice_paid i) (sync s)
    ended :
        {id : String} {s : Subscription}
        → services.retrieve_subscription id ≡ some s
        → Earned (subscription_deleted id) (access false s.customer)
    ended_tier :
        {id : String} {p : SyncPayload}
        → p.tier ≡ free
        → p.status ≡ canceled
        → Earned (subscription_deleted id) (sync p)

  new_or-Earned :
      (o : CheckoutObject) (email : Option String) (p : Option Profile)
      → nonempty o.client_reference_id ≡ none
      → services.profile_by_email email ≡ p
      → All (Earned (checkout_completed o)) (new_or plans services email p).0
  new_or-Earned o email none a b = (new_user a b, tt)
  new_or-Earned o email (some p) a b = tt

  user_of-Earned :
      (o : CheckoutObject) (ref email : Option String)
      → nonempty o.client_reference_id ≡ ref
      → All (Earned (checkout_completed o)) (user_of plans services ref email).0
  user_of-Earned o none email e = new_or-Earned o email (services.profile_by_email email) e refl
  user_of-Earned o (some id) email e = tt

  with_plan-Earned :
      (o : CheckoutObject) (customer : Customer) (plan : Option Plan)
      → plan_of plans (price_of o) ≡ plan
      → All
          (Earned (checkout_completed o))
          (with_plan plans services o (customer_of o) (price_of o) customer plan).effects
  with_plan-Earned o customer none e = tt
  with_plan-Earned o customer (some plan) e =
      All-append (Earned (checkout_completed o)) _ _
        (user_of-Earned o (nonempty o.client_reference_id) customer.email refl)
        (bought e, (bought_tier e refl refl, tt))

  with_customer-Earned :
      (o : CheckoutObject) (customer : Option Customer)
      → All
          (Earned (checkout_completed o))
          (with_customer plans services o (customer_of o) (price_of o) customer).effects
  with_customer-Earned o none = tt
  with_customer-Earned o (some customer) =
      with_plan-Earned o customer (plan_of plans (price_of o)) refl

  refresh-Earned :
      (i : Invoice) (price : String) (p : Profile) (plan : Option Plan) (email : Option String)
      → i.price ≡ some price
      → services.profile_by_customer i.customer ≡ some p
      → p.price_id ≡ some price
      → plan_of plans (some price) ≡ plan
      → All (Earned (invoice_paid i)) (refresh plans services i plan email)
  refresh-Earned i price p none email a b c d = tt
  refresh-Earned i price p (some plan) none a b c d = tt
  refresh-Earned i price p (some plan) (some email) a b c d = (renewed_tier a b c d refl, tt)

  same_price-eq : (o : Option String) (price : String) → same_price o price ≡ true → o ≡ some price
  same_price-eq none price e = cc
  same_price-eq (some q) price e = ap some ((eq_iff q price).0 e)

  paid_if-Earned :
      (b : Bool) (i : Invoice) (price : String) (p : Profile)
      → same_price p.price_id price ≡ b
      → i.price ≡ some price
      → services.profile_by_customer i.customer ≡ some p
      → All (Earned (invoice_paid i)) (paid_if plans services b i price p).effects
  paid_if-Earned true i price p e a b =
      let c = same_price-eq p.price_id price e in
      (
        renewed a b c,
        refresh-Earned i price p (plan_of plans (some price)) (nonempty p.email) a b c refl,
      )
  paid_if-Earned false i price p e a b = tt

  paid_by-Earned :
      (i : Invoice) (price : String) (o : Option Profile)
      → i.price ≡ some price
      → services.profile_by_customer i.customer ≡ o
      → All (Earned (invoice_paid i)) (paid_by plans services i price o).effects
  paid_by-Earned i price none a b = tt
  paid_by-Earned i price (some p) a b =
      paid_if-Earned (same_price p.price_id price) i price p refl a b

  paid-Earned :
      (i : Invoice) (o : Option String)
      → i.price ≡ o
      → All (Earned (invoice_paid i)) (paid plans services i o).effects
  paid-Earned i none a = tt
  paid-Earned i (some price) a =
      paid_by-Earned i price (services.profile_by_customer i.customer) a refl

  downgrade-Earned :
      (id : String) (s : Subscription) (email : Option String)
      → All (Earned (subscription_deleted id)) (downgrade s email)
  downgrade-Earned id s none = tt
  downgrade-Earned id s (some email) = (ended_tier refl refl, tt)

  revoked-Earned :
      (id : String) (o : Option Subscription)
      → services.retrieve_subscription id ≡ o
      → All (Earned (subscription_deleted id)) (revoked plans services o).effects
  revoked-Earned id none e = tt
  revoked-Earned id (some s) e = (ended e, downgrade-Earned id s _)

  -- Each effect of a verified event is earned by it: access is given for a completed checkout whose
  -- session has the price of a plan, or for a paid invoice with the price of the profile it is for; a
  -- tier that is set active is that of the plan with this price; access is taken, and the tier made
  -- free, for a deleted subscription only; a user is created only for a checkout that names no user
  -- and whose email has no profile. An event with a bad signature has no effects.
  pub post_webhook-Earned :
      (e : Event) (message : String)
      → All (Earned e) (post_webhook plans services (verified e)).1
        × ((post_webhook plans services (bad_signature message)).1 ≡ [])
  unfolding post_webhook handle_event handle_completed handle_deleted handle_paid
  post_webhook-Earned (checkout_completed o) message = (with_customer-Earned o _, refl)
  post_webhook-Earned (subscription_deleted id) message =
      (revoked-Earned id (services.retrieve_subscription id) refl, refl)
  post_webhook-Earned (invoice_paid i) message = (paid-Earned i i.price refl, refl)
  post_webhook-Earned _ message = (tt, refl)
