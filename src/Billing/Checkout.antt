-- ===== src/Billing/Checkout.antt =====
-- `createCheckout` and `createCustomerPortal` of web/libs/stripe.ts, and the routes that call them,
-- web/app/api/stripe/create-checkout/route.ts and web/app/api/stripe/create-portal/route.ts.
use polyquantlab.Common.{ℕ, String, Bool, true, false, List, [], ◌∷◌, Option, none, some}
use mathlib.Core.Option
use polyquantlab.Web.Routes.{User, nonempty}

pub data Mode : Type 0 where
  payment subscription : Mode

-- A row of the table `profiles`.
pub record Profile : Type 0 where
  pub id : String
  pub email : Option String
  pub customer_id : Option String
  pub price_id : Option String

-- `CreateCheckoutParams`
pub record CreateCheckoutParams : Type 0 where
  pub price_id : String
  pub mode : Mode
  pub success_url : String
  pub cancel_url : String
  pub coupon_id : Option String
  pub client_reference_id : Option String
  pub email : Option String
  pub customer_id : Option String

-- `extraParams`: a known customer, or what Stripe needs to make one.
pub data ExtraParams : Type 0 where
  known_customer : String → ExtraParams
  new_customer : (always_create : Bool) → (customer_email : Option String) → ExtraParams

-- The arguments of `stripe.checkout.sessions.create`.
pub record SessionParams : Type 0 where
  pub mode : Mode
  pub client_reference_id : Option String
  pub price : String
  pub quantity : ℕ
  pub discounts : List String
  pub success_url : String
  pub cancel_url : String
  pub extra : ExtraParams

abbrev is_payment : Mode → Bool
is_payment payment = true
is_payment subscription = false

abbrev pub extra_params : Mode → Option String → Option String → ExtraParams
extra_params mode (some customer) email = known_customer customer
extra_params mode none email = new_customer (is_payment mode) email

abbrev coupons : Option String → List String
coupons none = []
coupons (some c) = c ∷ []

-- The session that `createCheckout` asks for.
unfoldable pub session_params : CreateCheckoutParams → SessionParams
session_params p = record {
  mode = p.mode;
  client_reference_id = p.client_reference_id;
  price = p.price_id;
  quantity = 1;
  discounts = coupons (nonempty p.coupon_id);
  success_url = p.success_url;
  cancel_url = p.cancel_url;
  extra = extra_params p.mode (nonempty p.customer_id) (nonempty p.email);
}

-- What the routes answer.
pub data Answer : Type 0 where
  refused : ℕ → String → Answer
  url : Option String → Answer

-- What a route asks of Stripe, if anything, and what it answers.
pub record Asked {ℓ} (A : Type ℓ) : Type ℓ where
  pub asked : Option A
  pub answer : Answer

-- The body of a request for a checkout; a mode is one of the two texts that Stripe takes.
pub record CheckoutBody : Type 0 where
  pub price_id : Option String
  pub success_url : Option String
  pub cancel_url : Option String
  pub mode : Option Mode

module _ (profile_by_id : Option String → Option Profile) where
  abbrev user_id : Option User → Option String
  user_id user = Option.map (λ u. u.id) user

  -- The call of `createCheckout`; it gives no URL where Stripe throws.
  abbrev pub checkout_for :
      (SessionParams → Option String)
      → Option User
      → String
      → String
      → String
      → Mode
      → Asked SessionParams
  checkout_for create user price success cancel mode =
      let row = profile_by_id (user_id user) in
      let p : CreateCheckoutParams = record {
        price_id = price;
        mode = mode;
        success_url = success;
        cancel_url = cancel;
        coupon_id = none;
        client_reference_id = user_id user;
        email = Option.bind row (λ r. r.email);
        customer_id = Option.bind row (λ r. r.customer_id);
      } in
      record { asked = some (session_params p); answer = url (create (session_params p)) }

  abbrev no_session : ℕ → String → Asked SessionParams
  no_session status text = record { asked = none; answer = refused status text }

  abbrev pub checked_checkout :
      (SessionParams → Option String)
      → Option User
      → Option String
      → Option String
      → Option String
      → Option Mode
      → Asked SessionParams
  checked_checkout create user none success cancel mode = no_session 400 "Price ID is required"
  checked_checkout create user (some p) none cancel mode =
      no_session 400 "Success and cancel URLs are required"
  checked_checkout create user (some p) (some s) none mode =
      no_session 400 "Success and cancel URLs are required"
  checked_checkout create user (some p) (some s) (some c) none =
      no_session 400
        "Mode is required (either 'payment' for one-time payments or 'subscription' for recurring subscription)"
  checked_checkout create user (some p) (some s) (some c) (some m) =
      checkout_for create user p s c m

  -- POST of create-checkout; `create` is `stripe.checkout.sessions.create`.
  unfoldable pub post_checkout :
      (SessionParams → Option String) → Option User → CheckoutBody → Asked SessionParams
  post_checkout create user body =
      checked_checkout create user (nonempty body.price_id) (nonempty body.success_url)
        (nonempty body.cancel_url) body.mode

  -- The customer and the return URL that `createCustomerPortal` asks with.
  abbrev PortalParams : Type 0
  PortalParams = String × String

  abbrev no_portal : ℕ → String → Asked (String × String)
  no_portal status text = record { asked = none; answer = refused status text }

  -- Where Stripe throws, the answer is a 500 with the error's message.
  abbrev portal_answer : Option String → String → Answer
  portal_answer none message = refused 500 message
  portal_answer (some u) message = url (some u)

  abbrev portal_for :
      (String × String → Option String) → String → Option String → String → Asked (String × String)
  portal_for create message none return =
      no_portal 400 "You don't have a billing account yet. Make a purchase first."
  portal_for create message (some customer) return = record {
    asked = some (customer, return);
    answer = portal_answer (create (customer, return)) message;
  }

  abbrev checked_portal :
      (String × String → Option String) → String → User → Option String → Asked (String × String)
  checked_portal create message u none = no_portal 400 "Return URL is required"
  checked_portal create message u (some return) =
      portal_for create message
        (nonempty (Option.bind (profile_by_id (some u.id)) (λ r. r.customer_id))) return

  -- POST of create-portal.
  unfoldable pub post_portal :
      (String × String → Option String)
      → String
      → Option User
      → Option String
      → Asked (String × String)
  post_portal create message none return =
      no_portal 401 "You must be logged in to view billing information."
  post_portal create message (some u) return = checked_portal create message u (nonempty return)
