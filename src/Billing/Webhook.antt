-- ===== src/Billing/Webhook.antt =====
-- The webhook, `POST` of web/app/api/webhook/stripe/route.ts. What it writes is a list of effects.
use polyquantlab.Common.{
  ℕ, ◌++◌, String, str_eq, Bool, true, false, List, [], ◌∷◌, Option, none, some,
}
use mathlib.Core.Option
use polyquantlab.Web.Routes.{nonempty}
use polyquantlab.Billing.Plans.{TierKey, free, Plan, plan_of}
use polyquantlab.Billing.Checkout.{Profile}

-- A checkout session as the event holds it.
pub record CheckoutObject : Type 0 where
  pub id : String
  pub client_reference_id : Option String
  pub subscription : Option String

-- What `findCheckoutSession` finds: the customer, and the price of the first line.
pub record CheckoutSession : Type 0 where
  pub customer : Option String
  pub price : Option String

pub record Customer : Type 0 where
  pub email : Option String

pub record Subscription : Type 0 where
  pub id : String
  pub customer : String

-- An invoice; `price` is that of its first line, reading it throws where there is none.
pub record Invoice : Type 0 where
  pub price : Option String
  pub customer : String
  pub subscription : Option String
  pub period_end : Option String

pub data Event : Type 0 where
  checkout_completed : CheckoutObject → Event
  checkout_expired subscription_updated payment_failed unhandled : Event
  subscription_deleted : String → Event
  invoice_paid : Invoice → Event

pub data Status : Type 0 where
  active canceled past_due : Status

-- `SyncSubscriptionPayload`
pub record SyncPayload : Type 0 where
  pub email : Option String
  pub tier : TierKey
  pub stripe_customer_id : Option String
  pub stripe_subscription_id : Option String
  pub status : Status
  pub current_period_end : Option String

pub data Effect : Type 0 where
  -- An update by id: the customer, the price and access.
  purchase : Option String → Option String → Option String → Effect
  -- An update of the access by customer.
  access : Bool → String → Effect
  create_user : Option String → Effect
  sync : SyncPayload → Effect

-- What a handler has written, and whether it threw afterwards.
pub record Done : Type 0 where
  pub effects : List Effect
  pub threw : Bool

abbrev pub done : List Effect → Done
done es = record { effects = es; threw = false }

abbrev pub threw_at_once : Done
threw_at_once = record { effects = []; threw = true }

-- Stripe's and Supabase's answers; `none` of a `retrieve` is an exception.
pub record Services : Type 0 where
  pub find_session : String → Option CheckoutSession
  pub retrieve_customer : Option String → Option Customer
  pub retrieve_subscription : String → Option Subscription
  pub profile_by_email : Option String → Option Profile
  pub profile_by_id : String → Option Profile
  pub profile_by_customer : String → Option Profile
  pub created_id : Option String → Option String

pub data Verified : Type 0 where
  bad_signature : String → Verified
  verified : Event → Verified

abbrev pub session_customer : Option CheckoutSession → Option String
session_customer s = Option.bind s (λ t. t.customer)

abbrev pub session_price : Option CheckoutSession → Option String
session_price s = Option.bind s (λ t. t.price)

abbrev pub same_price : Option String → String → Bool
same_price none price = false
same_price (some p) price = str_eq p price

abbrev pub downgrade : Subscription → Option String → List Effect
downgrade s none = []
downgrade s (some email) =
    sync (record {
      email = some email;
      tier = free;
      stripe_customer_id = some s.customer;
      stripe_subscription_id = some s.id;
      status = canceled;
      current_period_end = none;
    })
    ∷ []

-- The payload for a completed checkout.
abbrev pub paid_sync : CheckoutObject → Option String → Customer → Plan → SyncPayload
paid_sync o customer_id customer plan = record {
  email = customer.email;
  tier = plan.tier_key;
  stripe_customer_id = customer_id;
  stripe_subscription_id = nonempty o.subscription;
  status = active;
  current_period_end = none;
}

module _ (plans : List Plan) (services : Services) where
  -- The user of a checkout: what is created for it, and its id.
  abbrev pub new_or : Option String → Option Profile → List Effect × Option String
  new_or email none = (create_user email ∷ [], services.created_id email)
  new_or email (some p) = ([], some p.id)

  abbrev pub user_of : Option String → Option String → List Effect × Option String
  user_of none email = new_or email (services.profile_by_email email)
  user_of (some id) email = ([], Option.map (λ p. p.id) (services.profile_by_id id))

  abbrev pub granted :
      CheckoutObject
      → Option String
      → Option String
      → Customer
      → Plan
      → List Effect × Option String
      → Done
  granted o customer_id price customer plan (before, user) = done (
      before
      ++ (purchase customer_id price user ∷ sync (paid_sync o customer_id customer plan) ∷ []))

  abbrev pub with_plan :
      CheckoutObject → Option String → Option String → Customer → Option Plan → Done
  with_plan o customer_id price customer none = done []
  with_plan o customer_id price customer (some plan) =
      granted o customer_id price customer plan
        (user_of (nonempty o.client_reference_id) customer.email)

  abbrev pub with_customer : CheckoutObject → Option String → Option String → Option Customer → Done
  with_customer o customer_id price none = threw_at_once
  with_customer o customer_id price (some customer) =
      with_plan o customer_id price customer (plan_of plans price)

  -- `checkout.session.completed`
  unfoldable pub handle_completed : CheckoutObject → Done
  handle_completed o =
      let s = services.find_session o.id in
      with_customer o (session_customer s) (session_price s)
        (services.retrieve_customer (session_customer s))

  abbrev pub revoked : Option Subscription → Done
  revoked none = threw_at_once
  revoked (some s) = done (
      access false s.customer
      ∷ downgrade s
          (nonempty (Option.bind (services.retrieve_customer (some s.customer)) (λ c. c.email))))

  -- `customer.subscription.deleted`; an exception in the bridge is caught on the spot.
  unfoldable pub handle_deleted : String → Done
  handle_deleted id = revoked (services.retrieve_subscription id)

  abbrev pub refresh : Invoice → Option Plan → Option String → List Effect
  refresh i none email = []
  refresh i (some plan) none = []
  refresh i (some plan) (some email) =
      sync (record {
        email = some email;
        tier = plan.tier_key;
        stripe_customer_id = some i.customer;
        stripe_subscription_id = nonempty i.subscription;
        status = active;
        current_period_end = i.period_end;
      })
      ∷ []

  abbrev pub paid_if : Bool → Invoice → String → Profile → Done
  paid_if true i price p =
      done (access true i.customer ∷ refresh i (plan_of plans (some price)) (nonempty p.email))
  paid_if false i price p = done []

  -- Reading `price_id` of no profile throws.
  abbrev pub paid_by : Invoice → String → Option Profile → Done
  paid_by i price none = threw_at_once
  paid_by i price (some p) = paid_if (same_price p.price_id price) i price p

  abbrev pub paid : Invoice → Option String → Done
  paid i none = threw_at_once
  paid i (some price) = paid_by i price (services.profile_by_customer i.customer)

  -- `invoice.paid`
  unfoldable pub handle_paid : Invoice → Done
  handle_paid i = paid i i.price

  -- The `switch` on the type of the event.
  unfoldable pub handle_event : Event → Done
  handle_event (checkout_completed o) = handle_completed o
  handle_event (subscription_deleted id) = handle_deleted id
  handle_event (invoice_paid i) = handle_paid i
  handle_event _ = done []

  -- `POST`: the status and what was written. An exception of a handler is logged.
  unfoldable pub post_webhook : Verified → ℕ × List Effect
  post_webhook (bad_signature message) = (400, [])
  post_webhook (verified e) = (200, (handle_event e).effects)
