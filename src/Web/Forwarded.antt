-- ===== src/Web/Forwarded.antt =====
-- What the proxy and the routes in front of it send and answer.
use polyquantlab.Common.{
  ℕ, ◌≤◌, ◌≡◌, refl, String, str_eq, Bool, true, false, ◌&&◌, not, leb, List, [], ◌∷◌, none, some,
  concat, if◌then◌else◌, arith,
}
use polyquantlab.Web.Http.{
  Request, Reply, Fetched, Response, Thrown, returned, or_else, null_body, is_some, new_response,
}
use polyquantlab.Web.Bridge.{Env, internal_request}
use polyquantlab.Web.Proxy.{Incoming, Options, proxy_init, pass_on, unavailable, fastapi_proxy}
use polyquantlab.Web.Attempts.{Answers, Fails, internal_fetch-Answers, internal_fetch-Fails}

-- The response that passes a reply on: its status, its text unless the status has none, and its type.
abbrev pub relayed : Reply → String → Response
relayed p t = record {
  status = p.status;
  body = if null_body p.status then none else some t;
  content_type = or_else p.content_type "application/json";
}

relayable :
    (b : Bool) (status : ℕ) (t : String)
    → 200 ≤ status
    → status ≤ 599
    → (leb 200 status && (leb status 599 && not (b && is_some (if b then none else some t)))) ≡ true
relayable true status t lo hi = ground arith
relayable false status t lo hi = ground arith

pass_on-relayed :
    (p : Reply) (t : String)
    → p.text ≡ some t
    → 200 ≤ p.status
    → p.status ≤ 599
    → pass_on p ≡ returned (relayed p t)
unfolding pass_on new_response
pass_on-relayed p t e lo hi = rw (e, relayable (null_body p.status) p.status t lo hi) refl

module _ (strip_slash : String → String) (encode : String → String)
    (net : ℕ → Request → Fetched) where
  abbrev pub request_for : Env → Incoming → String → Options → Request
  request_for env incoming path opts =
      internal_request strip_slash encode net env (concat (path ∷ incoming.search ∷ []))
        (proxy_init incoming opts)

  -- Where the secret is set and the backend answers, at once or after one socket error, the browser
  -- gets the status, the text and the content type of the reply, without a body for a status that
  -- has none: for every reply that can be read and has a status from 200 to 599.
  pub fastapi_proxy-Answers :
      (env : Env) (incoming : Incoming) (path : String) (opts : Options) {rs : List Request}
      {p : Reply} {t : String}
      → str_eq env.secret "" ≡ false
      → Answers strip_slash encode net (request_for env incoming path opts) rs p
      → p.text ≡ some t
      → 200 ≤ p.status
      → p.status ≤ 599
      → fastapi_proxy strip_slash encode net env incoming path opts
        ≡ record { requests = rs; response = relayed p t }
  unfolding fastapi_proxy
  fastapi_proxy-Answers env incoming path opts {rs} {p} {t} e a h lo hi =
      rw
        (
          internal_fetch-Answers strip_slash encode net env _ (proxy_init incoming opts) e a,
          pass_on-relayed p t h lo hi,
        )
        refl

  -- Where the secret is set and the backend is out of reach, after the attempts made, the browser
  -- gets a 502 with an error text.
  pub fastapi_proxy-Fails :
      (env : Env) (incoming : Incoming) (path : String) (opts : Options) {rs : List Request}
      {t : Thrown}
      → str_eq env.secret "" ≡ false
      → Fails strip_slash encode net (request_for env incoming path opts) rs t
      → fastapi_proxy strip_slash encode net env incoming path opts
        ≡ record { requests = rs; response = unavailable }
  unfolding fastapi_proxy
  fastapi_proxy-Fails env incoming path opts e f =
      rw (internal_fetch-Fails strip_slash encode net env _ (proxy_init incoming opts) e f) refl
