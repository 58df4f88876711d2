-- ===== src/Web/Serves.antt =====
-- What the routes that submit and list backtests answer, by the session, the secret and the network.
use polyquantlab.Common.{◌<◌, ◌≡◌, String, str_eq, true, false, [], ◌∷◌, Option, none, some}
use polyquantlab.Web.Http.{
  Request, Reply, Fetched, answered, failed, Response, header, or_else, null_body,
}
use polyquantlab.Web.Bridge.{Env}
use polyquantlab.Web.Proxy.{Incoming, Handled}
use polyquantlab.Web.Routes.{User}
use polyquantlab.Web.Jobs.{JobRoute, list_jobs, submit_job, submit_sweep}

-- Why a result cannot be passed on: an error, a body that cannot be read, or a status that no response
-- may have, or none with a body.
pub data IsUnusable : Fetched → Type 0 where
  error : {cause direct : Option String} → IsUnusable (failed cause direct)
  no_text : {p : Reply} → p.text ≡ none → IsUnusable (answered p)
  too_small : {p : Reply} → p.status < 200 → IsUnusable (answered p)
  too_large : {p : Reply} → 599 < p.status → IsUnusable (answered p)
  bodiless : {p : Reply} → null_body p.status ≡ true → IsUnusable (answered p)

-- The response is a reply, with its text.
pub record IsPassedOn (p : Reply) (r : Response) : Type 0 where
  pub text : r.body ≡ p.text
  pub status : r.status ≡ p.status
  pub content_type : r.content_type ≡ or_else p.content_type "application/json"

module _ (net : Request → Fetched) (env : Env) (incoming : Incoming) where
  -- The method and the body of the request, and the secret in it.
  pub data Asks : JobRoute → Request → Type 0 where
    listed :
        {q : Request}
        → q.method ≡ "GET"
        → q.body ≡ none
        → header "X-Internal-Secret" q.headers ≡ some env.secret
        → Asks list_jobs q
    submitted :
        {q : Request}
        → q.method ≡ "POST"
        → q.body ≡ some incoming.text
        → header "X-Internal-Secret" q.headers ≡ some env.secret
        → Asks submit_job q
    swept :
        {q : Request}
        → q.method ≡ "POST"
        → q.body ≡ some incoming.text
        → header "X-Internal-Secret" q.headers ≡ some env.secret
        → Asks submit_sweep q

  -- How a route serves: 401 without a session; 500 without a secret; else one request, whose reply is
  -- passed on, or 502 where it cannot be.
  pub data Serves (r : JobRoute) : Option User → Handled → Type 0 where
    no_session : {h : Handled} → h.requests ≡ [] → h.response.status ≡ 401 → Serves r none h
    no_secret :
        {u : User} {h : Handled}
        → str_eq env.secret "" ≡ true
        → h.requests ≡ []
        → h.response.status ≡ 500
        → Serves r (some u) h
    passed_on :
        {u : User} {h : Handled} (q : Request) (p : Reply)
        → str_eq env.secret "" ≡ false
        → Asks r q
        → h.requests ≡ q ∷ []
        → net q ≡ answered p
        → IsPassedOn p h.response
        → Serves r (some u) h
    given_up :
        {u : User} {h : Handled} (q : Request)
        → str_eq env.secret "" ≡ false
        → Asks r q
        → h.requests ≡ q ∷ []
        → IsUnusable (net q)
        → h.response.status ≡ 502
        → Serves r (some u) h

  module _ (r : JobRoute) (u : User) (q : Request) (s : str_eq env.secret "" ≡ false)
      (a : Asks r q) where
    abbrev sent : Response → Handled
    sent response = record { requests = q ∷ []; response = response }
