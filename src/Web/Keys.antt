-- ===== src/Web/Keys.antt =====
-- The routes for API keys, web/app/api/keys/route.ts and web/app/api/keys/[id]/route.ts. A label is a
-- list of UTF-16 code units. The texts of JSON values are the platform's, and parameters.
use polyquantlab.Common.{
  ℕ, ◌≤◌, ◌<◌, arith, leb, any, ◌==◌, String, Bool, true, false, ◌&&◌, ◌||◌, List, [], ◌∷◌, Option,
  none, some, length, take, length-take_le,
}
use polyquantlab.Web.Http.{Request, Fetched, Response, returned, thrown, Sent, json}
use polyquantlab.Web.Bridge.{Env, list_api_keys, create_api_key, revoke_api_key}
use polyquantlab.Web.Proxy.{Handled}
use polyquantlab.Web.Routes.{User, user_email, turned_away}

-- A white space or line end of JavaScript.
abbrev spaces : List ℕ
spaces = 32 ∷ 160 ∷ 5760 ∷ 8232 ∷ 8233 ∷ 8239 ∷ 8287 ∷ 12288 ∷ 65279 ∷ []

unfoldable pub is_space : ℕ → Bool
is_space c = (leb 9 c && leb c 13) || ((leb 8192 c && leb c 8202) || any (λ s. s == c) spaces)

abbrev drop_if : Bool → ℕ → List ℕ → List ℕ → List ℕ
drop_if true c s rest = rest
drop_if false c s rest = c ∷ s

unfoldable pub trim_start : List ℕ → List ℕ
trim_start [] = []
trim_start (c ∷ s) = drop_if (is_space c) c s (trim_start s)

abbrev end_if : Bool → ℕ → List ℕ → List ℕ
end_if true c [] = []
end_if false c [] = c ∷ []
end_if b c (d ∷ s) = c ∷ d ∷ s

unfoldable pub trim_end : List ℕ → List ℕ
trim_end [] = []
trim_end (c ∷ s) = end_if (is_space c) c (trim_end s)

-- `.trim()`
abbrev pub trim : List ℕ → List ℕ
trim s = trim_end (trim_start s)

abbrev label_if : List ℕ → Option (List ℕ)
label_if [] = none
label_if (c ∷ s) = some (take 128 (c ∷ s))

-- The label of a POST: of the body's, where it is a text, what is left when it is trimmed, cut.
unfoldable pub label_of : Option (List ℕ) → Option (List ℕ)
label_of none = none
label_of (some s) = label_if (trim s)

-- "dashboard-created"
abbrev pub dashboard_created : List ℕ
dashboard_created =
    100 ∷ 97 ∷ 115 ∷ 104 ∷ 98 ∷ 111 ∷ 97 ∷ 114 ∷ 100 ∷ 45 ∷ 99 ∷ 114 ∷ 101 ∷ 97 ∷ 116 ∷ 101 ∷ 100
    ∷ []

-- `label || "dashboard-created"`
unfoldable pub sent_label : Option (List ℕ) → List ℕ
sent_label none = dashboard_created
sent_label (some []) = dashboard_created
sent_label (some (c ∷ s)) = c ∷ s

abbrev keys_failed : Response
keys_failed = json 502 "{\"error\":\"Failed to fetch keys\"}"

abbrev create_failed : Response
create_failed = json 502 "{\"error\":\"Failed to create key\"}"

abbrev revoke_failed : Response
revoke_failed = json 502 "{\"error\":\"Failed to revoke key\"}"

abbrev pub answer {ℓ} : {A : Type ℓ} → Sent A → (A → Response) → Response → Handled
answer s respond failure = record {
  requests = s.requests;
  response = elim s.outcome [ returned a ↦ respond a | thrown t ↦ failure ];
}

-- The platform's functions, the network, and the texts of `{ label }`, `{ keys }` and a created key.
module _ {K : Type 0} (strip_slash : String → String) (encode : String → String)
    (net : ℕ → Request → Fetched) (parse_keys : String → Option (Option (List K)))
    (parse_key : String → Option K) (keys_json : List K → String) (key_json : K → String)
    (label_json : List ℕ → String) where
  abbrev keys_for : Env → Option String → Handled
  keys_for env none = turned_away
  keys_for env (some email) =
      answer (list_api_keys strip_slash encode net env parse_keys email)
        (λ ks. json 200 (keys_json ks)) keys_failed

  -- GET
  unfoldable pub get_keys : Env → Option User → Handled
  get_keys env user = keys_for env (user_email user)

  abbrev key_for : Env → Option String → Option (List ℕ) → Handled
  key_for env none label = turned_away
  key_for env (some email) label =
      answer
        (create_api_key strip_slash encode net env parse_key email
          (label_json (sent_label (label_of label))))
        (λ k. json 201 (key_json k)) create_failed

  -- POST; `label` is the body's, where the body is JSON and the label a text.
  unfoldable pub post_key : Env → Option User → Option (List ℕ) → Handled
  post_key env user label = key_for env (user_email user) label

  abbrev revoked_for : Env → Option String → String → Handled
  revoked_for env none id = turned_away
  revoked_for env (some email) id =
      answer (revoke_api_key strip_slash encode net env email id) (λ u. json 200 "{\"ok\":true}")
        revoke_failed

  -- DELETE
  unfoldable pub delete_key : Env → Option User → String → Handled
  delete_key env user id = revoked_for env (user_email user) id

label_if_lem :
    (s : List ℕ) → (0 < length (sent_label (label_if s))) × (length (sent_label (label_if s)) ≤ 128)
unfolding sent_label
label_if_lem [] = (omega arith, omega arith)
label_if_lem (c ∷ s) = (omega arith, omega (arith, length-take_le 127 s))

-- The label that is sent to the backend has 1 to 128 code units, whatever the browser asks for.
pub sent_label-label_of :
    (label : Option (List ℕ))
    → (0 < length (sent_label (label_of label))) × (length (sent_label (label_of label)) ≤ 128)
unfolding label_of
sent_label-label_of none = label_if_lem []
sent_label-label_of (some s) = label_if_lem (trim s)
