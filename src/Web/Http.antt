-- ===== src/Web/Http.antt =====
-- Requests, replies and responses, as the server code in web/libs and web/app/api handles them.
use polyquantlab.Common.{
  ℕ, String, str_eq, Bool, true, false, not, ◌&&◌, List, [], ◌∷◌, Option, none, some, leb, any,
  ◌==◌,
}

abbrev pub Headers : Type 0
Headers = List (String × String)

abbrev pub put_if : Bool → String → String → String → Headers → Headers → Headers
put_if true n v value hs rest = (n, value) ∷ hs
put_if false n v value hs rest = (n, v) ∷ rest

-- Setting a header that is there replaces its value, as `{ ...headers, [name]: value }` does.
unfoldable pub with_header : String → String → Headers → Headers
with_header name value [] = (name, value) ∷ []
with_header name value ((n, v) ∷ hs) =
    put_if (str_eq n name) n v value hs (with_header name value hs)

-- `{ ...headers, ...extra }`
unfoldable pub with_headers : Headers → Headers → Headers
with_headers hs [] = hs
with_headers hs ((n, v) ∷ extra) = with_headers (with_header n v hs) extra

abbrev pub value_if : Bool → String → Option String → Option String
value_if true v rest = some v
value_if false v rest = rest

unfoldable pub header : String → Headers → Option String
header name [] = none
header name ((n, v) ∷ hs) = value_if (str_eq n name) v (header name hs)

pub record Request : Type 0 where
  pub url : String
  pub method : String
  pub headers : Headers
  pub body : Option String

-- What a server answers; `text` is `none` where reading the body fails.
pub record Reply : Type 0 where
  pub status : ℕ
  pub text : Option String
  pub content_type : Option String

-- What `fetch` gives: an answer, or an error with the codes `cause.code` and `code`.
pub data Fetched : Type 0 where
  answered : Reply → Fetched
  failed : Option String → Option String → Fetched

-- The response of a route.
pub record Response : Type 0 where
  pub status : ℕ
  pub body : Option String
  pub content_type : String

-- What the code throws.
pub data Thrown : Type 0 where
  not_configured unreadable bad_response : Thrown
  network : Option String → Option String → Thrown
  bad_status : ℕ → Thrown

pub data Outcome {ℓ} (A : Type ℓ) : Type ℓ where
  returned : A → Outcome A
  thrown : Thrown → Outcome A

-- What a call gives, and the requests that it sent on the way.
pub record Sent {ℓ} (A : Type ℓ) : Type ℓ where
  pub requests : List Request
  pub outcome : Outcome A

-- `s || d` on an optional text: an empty text is falsy.
abbrev pub or_else : Option String → String → String
or_else none d = d
or_else (some s) d = elim (str_eq s "") [ true ↦ d | false ↦ s ]

-- `res.ok`
abbrev pub ok : Reply → Bool
ok r = leb 200 r.status && leb r.status 299

-- The statuses for which a response has no body.
abbrev pub null_body : ℕ → Bool
null_body status = any (λ s. s == status) (101 ∷ 204 ∷ 205 ∷ 304 ∷ [])

-- `NextResponse.json(body, { status })`
abbrev pub json : ℕ → String → Response
json status text = record { status = status; body = some text; content_type = "application/json" }

abbrev pub is_some : Option String → Bool
is_some none = false
is_some (some s) = true

abbrev pub made_if : Bool → Response → Outcome Response
made_if true r = returned r
made_if false r = thrown bad_response

-- The constructor `Response`: it refuses a status outside 200 to 599, and a body, an empty one too,
-- for a status that has none.
unfoldable pub new_response : Option String → ℕ → String → Outcome Response
new_response body status type =
    made_if (leb 200 status && (leb status 599 && not (null_body status && is_some body)))
      (record { status = status; body = body; content_type = type })
