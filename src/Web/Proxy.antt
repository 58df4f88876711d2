-- ===== src/Web/Proxy.antt =====
-- `fastapiProxy` of web/libs/fastapi.ts: an incoming request is forwarded, and the reply passed on.
use polyquantlab.Common.{
  ℕ, String, str_eq, Bool, true, false, not, ◌&&◌, List, [], ◌∷◌, Option, none, some, concat,
  if◌then◌else◌,
}
use polyquantlab.Web.Http.{
  Headers, Request, Reply, Fetched, Response, unreadable, Outcome, returned, thrown, Sent, or_else,
  null_body, json, new_response,
}
use polyquantlab.Web.Bridge.{Env, Init, internal_fetch, and_then}

-- The request of the browser: its method, its query string and its body.
pub record Incoming : Type 0 where
  pub method : String
  pub search : String
  pub text : String

pub record Options : Type 0 where
  pub method : Option String
  pub user_email : Option String

-- What a handler sends on, and what it answers.
pub record Handled : Type 0 where
  pub requests : List Request
  pub response : Response

abbrev pub email_unless : Bool → String → Headers
email_unless true e = []
email_unless false e = ("X-User-Email", e) ∷ []

-- `if (opts?.userEmail) extraHeaders["X-User-Email"] = …`
abbrev pub email_headers : Option String → Headers
email_headers none = []
email_headers (some e) = email_unless (str_eq e "") e

abbrev pub proxy_method : Incoming → Options → String
proxy_method incoming opts = or_else opts.method incoming.method

-- The body, unless the method is GET or HEAD.
abbrev pub forwarded_body : String → String → Option String
forwarded_body method text = elim (not (str_eq method "GET") && not (str_eq method "HEAD")) [
  | true ↦ some text
  | false ↦ none
]

abbrev pub proxy_init : Incoming → Options → Init
proxy_init incoming opts = record {
  method = some (proxy_method incoming opts);
  headers = email_headers opts.user_email;
  body = forwarded_body (proxy_method incoming opts) incoming.text;
}

-- The response for a reply.
abbrev pub pass_text : Reply → Option String → Outcome Response
pass_text p none = thrown unreadable
pass_text p (some t) =
    new_response (if null_body p.status then none else some t) p.status
      (or_else p.content_type "application/json")

unfoldable pub pass_on : Reply → Outcome Response
pass_on p = pass_text p p.text

-- What the `catch` answers.
abbrev pub unavailable : Response
unavailable = json 502 "{\"error\":\"Upstream API unavailable\"}"

abbrev pub or_unavailable : Sent Response → Handled
or_unavailable s = record {
  requests = s.requests;
  response = elim s.outcome [ returned r ↦ r | thrown e ↦ unavailable ];
}

module _ (strip_slash : String → String) (encode : String → String)
    (net : ℕ → Request → Fetched) where
  -- `fastapiProxy`
  unfoldable pub fastapi_proxy : Env → Incoming → String → Options → Handled
  fastapi_proxy env incoming path opts = or_unavailable (
      and_then strip_slash encode net
        (internal_fetch strip_slash encode net env (concat (path ∷ incoming.search ∷ []))
          (proxy_init incoming opts))
        pass_on)
