-- ===== src/Web/Client.antt =====
-- The client of the routes, web/libs/api.ts, and two small routes: web/app/api/lead/route.ts and
-- web/app/api/auth/callback/route.ts.
use polyquantlab.Common.{
  ℕ, ◌==◌, String, str_eq, Bool, true, false, [], ◌∷◌, Option, none, some, concat,
}
use polyquantlab.Strategy.Submit.{or_text, else_text}

-- What `error.response.data.error` is, if it is there: a text, or something else with its JSON.
pub data ErrorField : Type 0 where
  text : String → ErrorField
  other : (json : String) → ErrorField

-- An error of axios: the status and the field of its response, its message, and its text.
pub record ApiError : Type 0 where
  pub status : Option ℕ
  pub data_error : Option ErrorField
  pub message : Option String
  pub as_text : String

-- What the interceptor ends with: the redirect to the login page, which is thrown, or the rejection
-- with a message; and the toast.
pub data Intercepted : Type 0 where
  redirected : (toast page : String) → Intercepted
  rejected : (message toast : String) → Intercepted

abbrev pub toast_if : Bool → String → String
toast_if true message = "something went wrong..."
toast_if false message = message

abbrev pub reject_with : String → Intercepted
reject_with message = rejected message (toast_if (str_eq message "") message)

abbrev pub message_or : Option ErrorField → String → String
message_or none rest = rest
message_or (some (text s)) rest = else_text (or_text (some s) none) rest
message_or (some (other json)) rest = json

abbrev pub intercept_403 : Bool → ApiError → Intercepted
intercept_403 true e = reject_with "Pick a plan to use this feature"
intercept_403 false e =
    reject_with (message_or e.data_error (else_text (or_text e.message none) e.as_text))

abbrev pub intercept_401 : Bool → Bool → (login_url : String) → ApiError → Intercepted
intercept_401 true b login_url e = redirected "Please login" login_url
intercept_401 false b login_url e = intercept_403 b e

abbrev pub is_status : Option ℕ → ℕ → Bool
is_status none n = false
is_status (some s) n = s == n

-- The second function of `apiClient.interceptors.response.use`.
unfoldable pub intercept : (login_url : String) → ApiError → Intercepted
intercept login_url e = intercept_401 (is_status e.status 401) (is_status e.status 403) login_url e

-- The reply of the route for leads.
pub data LeadReply : Type 0 where
  lead_reply : (status : ℕ) → (error : Option String) → LeadReply

abbrev pub lead_for : Option String → LeadReply
lead_for none = lead_reply 400 (some "Email is required")
lead_for (some e) = lead_reply 200 none

abbrev pub post_lead : (email : Option String) → LeadReply
post_lead email = lead_for (or_text email none)

-- The route that a login comes back to: the code that is exchanged for a session, and the page.
pub record Callback : Type 0 where
  pub exchanged : Option String
  pub page : String

unfoldable pub get_callback : (origin callback_url : String) → (code : Option String) → Callback
get_callback origin callback_url code = record {
  exchanged = or_text code none;
  page = concat (origin ∷ callback_url ∷ []);
}
