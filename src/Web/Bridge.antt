-- ===== src/Web/Bridge.antt =====
-- The calls of the backend in web/libs/fastapi.ts: `internalFetch`, `syncSubscriptionToFastAPI`,
-- `listApiKeys`, `createApiKey`, `revokeApiKey`, `fastapiGet` and `getSubscription`. The network, the
-- functions of the platform and the process environment are parameters.
use polyquantlab.Common.{
  ℕ, String, str_eq, Bool, true, false, List, [], ◌∷◌, Option, none, some, any, concat,
}
use mathlib.Core.Option
use polyquantlab.Web.Http.{
  Headers, with_headers, Request, Reply, Fetched, answered, failed, not_configured, network,
  bad_status, unreadable, Outcome, returned, thrown, Sent, or_else, ok,
}

-- The environment: `FASTAPI_BASE_URL` and `INTERNAL_API_SECRET`, with the defaults that the module
-- takes for them.
pub record Env : Type 0 where
  pub base : String
  pub secret : String

abbrev pub read_env : Option String → Option String → Env
read_env base secret = record {
  base = or_else base "http://localhost:8000";
  secret = or_else secret "";
}

pub record Init : Type 0 where
  pub method : Option String
  pub headers : Headers
  pub body : Option String

abbrev pub plain : Init
plain = record { method = none; headers = []; body = none }

-- `SOCKET_ERROR_CODES.has(code)`, where there is a code.
abbrev pub socket_error_codes : List String
socket_error_codes = "UND_ERR_SOCKET" ∷ "ECONNRESET" ∷ "ETIMEDOUT" ∷ "EPIPE" ∷ []

unfoldable pub is_transient : Option String → Option String → Bool
is_transient cause direct =
    let c = or_else cause (Option.get_or direct "") in any (λ s. str_eq s c) socket_error_codes

module _ (strip_slash : String → String) (encode : String → String)
    (net : ℕ → Request → Fetched) where
  -- The request of `doFetch`; `strip_slash` is `.replace(/\/$/, "")`.
  unfoldable pub internal_request : Env → String → Init → Request
  internal_request env path init = record {
    url = concat (strip_slash env.base ∷ path ∷ []);
    method = Option.get_or init.method "GET";
    headers =
        with_headers
          (("Content-Type", "application/json")
            ∷ ("X-Internal-Secret", env.secret)
            ∷ ("Connection", "close")
            ∷ [])
          init.headers;
    body = init.body;
  }

  -- The second attempt: what it gives is given, an error too.
  abbrev pub after_second : Request → Fetched → Sent Reply
  after_second r (answered p) = record { requests = r ∷ r ∷ []; outcome = returned p }
  after_second r (failed cause direct) = record {
    requests = r ∷ r ∷ [];
    outcome = thrown (network cause direct);
  }

  -- A socket error is retried once, any other is thrown.
  abbrev pub retry_if : Bool → Request → Option String → Option String → Sent Reply
  retry_if true r cause direct = after_second r (net 1 r)
  retry_if false r cause direct = record {
    requests = r ∷ [];
    outcome = thrown (network cause direct);
  }

  -- The first attempt.
  abbrev pub after_first : Request → Fetched → Sent Reply
  after_first r (answered p) = record { requests = r ∷ []; outcome = returned p }
  after_first r (failed cause direct) = retry_if (is_transient cause direct) r cause direct

  -- Without a secret nothing is sent.
  abbrev pub refuse_if : Bool → Request → Sent Reply
  refuse_if true r = record { requests = []; outcome = thrown not_configured }
  refuse_if false r = after_first r (net 0 r)

  -- `internalFetch`
  unfoldable pub internal_fetch : Env → String → Init → Sent Reply
  internal_fetch env path init = refuse_if (str_eq env.secret "") (internal_request env path init)

  -- The part after `internalFetch`, on the reply that it returns.
  abbrev pub and_then {ℓ} : {A : Type ℓ} → Sent Reply → (Reply → Outcome A) → Sent A
  and_then s k = record {
    requests = s.requests;
    outcome = elim s.outcome [ returned p ↦ k p | thrown e ↦ thrown e ];
  }

  -- `if (!res.ok) throw …`
  abbrev pub if_ok {ℓ} : {A : Type ℓ} → Outcome A → Reply → Outcome A
  if_ok k p = elim (ok p) [ true ↦ k | false ↦ thrown (bad_status p.status) ]

  -- `res.json()`, from the parser of JSON texts.
  abbrev pub read_json {ℓ} : {A : Type ℓ} → (String → Option A) → Reply → Outcome A
  read_json parse p = elim p.text [
    | none ↦ thrown unreadable
    | some t ↦ elim (parse t) [ none ↦ thrown unreadable | some a ↦ returned a ]
  ]

  abbrev pub user_path : String → String → String
  user_path email rest = concat ("/v1/internal/users/" ∷ encode email ∷ rest ∷ [])

  abbrev post : String → Init
  post body = record { method = some "POST"; headers = []; body = some body }

  -- `syncSubscriptionToFastAPI`: whatever comes back is logged at most.
  unfoldable pub sync_subscription : Env → String → Sent (Unit {0})
  sync_subscription env payload = record {
    requests = (internal_fetch env "/v1/internal/sync-subscription" (post payload)).requests;
    outcome = returned tt;
  }

  -- `listApiKeys`; the parser finds `keys`, which may be missing.
  unfoldable pub list_api_keys {ℓ} :
      {K : Type ℓ} → Env → (String → Option (Option (List K))) → String → Sent (List K)
  list_api_keys env parse email =
      and_then (internal_fetch env (user_path email "/keys") plain) (λ p.
        if_ok
          (elim (read_json parse p) [
            | returned keys ↦ returned (Option.get_or keys [])
            | thrown e ↦ thrown e
          ])
          p)

  -- `createApiKey`; `label_json` is the text of `{ label: … }`.
  unfoldable pub create_api_key {ℓ} :
      {K : Type ℓ} → Env → (String → Option K) → String → String → Sent K
  create_api_key env parse email label_json =
      and_then (internal_fetch env (user_path email "/keys") (post label_json))
        (λ p. if_ok (read_json parse p) p)

  -- `revokeApiKey`
  unfoldable pub revoke_api_key : Env → String → String → Sent (Unit {0})
  revoke_api_key env email id =
      and_then
        (internal_fetch env (user_path email (concat ("/keys/" ∷ id ∷ [])))
          (record { method = some "DELETE"; headers = []; body = none }))
        (if_ok (returned tt))

  -- `fastapiGet`
  unfoldable pub fastapi_get {ℓ} : {A : Type ℓ} → Env → (String → Option A) → String → Sent A
  fastapi_get env parse path =
      and_then (internal_fetch env path plain) (λ p. if_ok (read_json parse p) p)

  -- `getSubscription`
  unfoldable pub get_subscription {ℓ} : {A : Type ℓ} → Env → (String → Option A) → String → Sent A
  get_subscription env parse email =
      and_then (internal_fetch env (user_path email "/subscription") plain)
        (λ p. if_ok (read_json parse p) p)
