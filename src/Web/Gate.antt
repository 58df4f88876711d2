-- ===== src/Web/Gate.antt =====
-- Whom the routes let through, and on whose behalf they speak to the backend.
use polyquantlab.Common.{
  ℕ, ◌≡◌, refl, String, str_eq, Bool, true, false, [], ◌∷◌, Option, none, some, All, concat,
}
use polyquantlab.Web.Http.{Request, Fetched, header, with_header, with_headers}
use polyquantlab.Web.Bridge.{Env, internal_request}
use polyquantlab.Web.Proxy.{Incoming, proxy_init, fastapi_proxy}
use polyquantlab.Web.Routes.{
  User, Route, is_paper, set_method, some_unless, nonempty, user_email, fastapi_path, data_route,
  paper_route, route_if, handle_route,
}
use polyquantlab.Web.Attempts.{internal_fetch-All}

-- The email that a route sends on.
abbrev pub spoken_for : Bool → Option User → Option String
spoken_for true user = user_email user
spoken_for false user = none

-- A request with the server's secret, for the user that is spoken for.
abbrev pub Guarded : Env → Option String → Request → Type 0
Guarded env email r =
    (header "X-Internal-Secret" r.headers ≡ some env.secret)
    × (header "X-User-Email" r.headers ≡ email)

-- The emails that are sent on are not empty.
data IsEmail : Option String → Type 0 where
  no_email : IsEmail none
  an_email : {e : String} → str_eq e "" ≡ false → IsEmail (some e)

some_unless-IsEmail : (b : Bool) (e : String) → str_eq e "" ≡ b → IsEmail (some_unless b e)
some_unless-IsEmail true e h = no_email
some_unless-IsEmail false e h = an_email h

nonempty-IsEmail : (o : Option String) → IsEmail (nonempty o)
nonempty-IsEmail none = no_email
nonempty-IsEmail (some e) = some_unless-IsEmail (str_eq e "") e refl

user_email-IsEmail : (user : Option User) → IsEmail (user_email user)
user_email-IsEmail none = no_email
user_email-IsEmail (some u) = nonempty-IsEmail u.email

module _ (strip_slash : String → String) (encode : String → String)
    (net : ℕ → Request → Fetched) where
  request-Guarded :
      (env : Env) (incoming : Incoming) (path : String) (method email : Option String)
      → IsEmail email
      → Guarded env email (
          internal_request strip_slash encode net env path
            (proxy_init incoming (record { method = method; user_email = email })))
  unfolding internal_request with_headers with_header header
  request-Guarded env incoming path method none h = (refl, refl)
  request-Guarded env incoming path method (some e) (an_email h) = rw (h) (refl, refl)

  fastapi_proxy-Guarded :
      (env : Env) (incoming : Incoming) (path : String) (method email : Option String)
      → IsEmail email
      → All
          (Guarded env email)
          (fastapi_proxy strip_slash encode net env incoming path
            (record { method = method; user_email = email })).requests
  unfolding fastapi_proxy
  fastapi_proxy-Guarded env incoming path method email h =
      internal_fetch-All strip_slash encode net (Guarded env email) env
        (concat (path ∷ incoming.search ∷ []))
        (proxy_init incoming (record { method = method; user_email = email }))
        (request-Guarded env incoming (concat (path ∷ incoming.search ∷ [])) method email h)

  paper_route-Guarded :
      (env : Env) (email : Option String) (incoming : Incoming) (r : Route)
      → IsEmail email
      → All (Guarded env email) (paper_route strip_slash encode net env email incoming r).requests
  paper_route-Guarded env none incoming r h = tt
  paper_route-Guarded env (some e) incoming r h =
      fastapi_proxy-Guarded env incoming (fastapi_path strip_slash encode net r) (set_method r)
        (some e) h

  data_route-Guarded :
      (env : Env) (user : Option User) (incoming : Incoming) (r : Route)
      → All (Guarded env none) (data_route strip_slash encode net env user incoming r).requests
  data_route-Guarded env none incoming r = tt
  data_route-Guarded env (some u) incoming r =
      fastapi_proxy-Guarded env incoming (fastapi_path strip_slash encode net r) (set_method r) none
        no_email

  route_if-Guarded :
      (paper : Bool) (env : Env) (user : Option User) (incoming : Incoming) (r : Route)
      → All
          (Guarded env (spoken_for paper user))
          (route_if strip_slash encode net paper env user incoming r).requests
  route_if-Guarded true env user incoming r =
      paper_route-Guarded env (user_email user) incoming r (user_email-IsEmail user)
  route_if-Guarded false env user incoming r = data_route-Guarded env user incoming r

  -- Every request that a forwarding route sends, a retry too, carries the server's secret. One of
  -- paper trading carries the email of the session's user, and no other email; one of market data
  -- carries none.
  pub handle_route-Guarded :
      (env : Env) (user : Option User) (incoming : Incoming) (r : Route)
      → All
          (Guarded env (spoken_for (is_paper r) user))
          (handle_route strip_slash encode net env user incoming r).requests
  unfolding handle_route
  handle_route-Guarded env user incoming r = route_if-Guarded (is_paper r) env user incoming r
