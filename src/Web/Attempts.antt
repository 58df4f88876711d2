-- ===== src/Web/Attempts.antt =====
-- What `internalFetch` of web/libs/fastapi.ts sends, and what its header object holds.
use polyquantlab.Common.{
  ℕ, ◌≡◌, refl, ◌∙◌, String, str_eq, eq_iff, eq_refl, Bool, true, false, List, [], ◌∷◌, Option,
  none, some, All,
}
use polyquantlab.Web.Http.{
  Headers, with_header, with_headers, header, put_if, value_if, Request, Reply, Fetched, answered,
  failed, Thrown, network, returned, thrown, Sent,
}
use polyquantlab.Web.Bridge.{
  Env, Init, is_transient, internal_request, after_second, after_first, internal_fetch, retry_if,
  refuse_if,
}

header-cons : (n v : String) (hs : Headers) → header n ((n, v) ∷ hs) ≡ some v
unfolding header
header-cons n v hs = rw (header, eq_refl n) refl

header-put_if :
    (b : Bool) (n m w v : String) (hs rest : Headers)
    → str_eq m n ≡ b
    → header n rest ≡ some v
    → header n (put_if b m w v hs rest) ≡ some v
unfolding header
header-put_if true n m w v hs rest e h = rw (header, e) refl
header-put_if false n m w v hs rest e h = rw (header, e) h

header-with_header : (n v : String) (hs : Headers) → header n (with_header n v hs) ≡ some v
unfolding with_header
header-with_header n v [] = header-cons n v []
header-with_header n v ((m, w) ∷ hs) =
    header-put_if (str_eq m n) n m w v hs (with_header n v hs) refl (header-with_header n v hs)

header-put_if_other :
    (b : Bool) (n m k w v : String) (hs rest : Headers)
    → str_eq k m ≡ b
    → str_eq m n ≡ false
    → header n rest ≡ header n hs
    → header n (put_if b k w v hs rest) ≡ header n ((k, w) ∷ hs)
unfolding header
header-put_if_other true n m k w v hs rest e d h = rw (header, (eq_iff k m).0 e, d) refl
header-put_if_other false n m k w v hs rest e d h = rw (header, h) refl

-- Setting a header leaves the others.
header-with_header_other :
    (n m v : String) (hs : Headers)
    → str_eq m n ≡ false
    → header n (with_header m v hs) ≡ header n hs
unfolding with_header header
header-with_header_other n m v [] e = rw (header, e) refl
header-with_header_other n m v ((k, w) ∷ hs) e =
    header-put_if_other (str_eq k m) n m k w v hs (with_header m v hs) refl e
      (header-with_header_other n m v hs e)

value_if-none :
    (b : Bool) (v : String) (rest : Option String)
    → value_if b v rest ≡ none
    → (b ≡ false) × (rest ≡ none)
value_if-none true v rest e = cc
value_if-none false v rest e = (refl, e)

-- A header that the second object lacks has the first object's value.
pub header-with_headers :
    (n : String) (hs extra : Headers)
    → header n extra ≡ none
    → header n (with_headers hs extra) ≡ header n hs
unfolding with_headers header
header-with_headers n hs [] e = refl
header-with_headers n hs ((m, v) ∷ extra) e =
    let (d, f) = value_if-none (str_eq m n) v (header n extra) e in
    header-with_headers n (with_header m v hs) extra f ∙ header-with_header_other n m v hs d

-- A header of the second object, when it holds that header alone.
pub header-with_headers_one :
    (n v : String) (hs : Headers) → header n (with_headers hs ((n, v) ∷ [])) ≡ some v
unfolding with_headers
header-with_headers_one n v hs = header-with_header n v hs

module _ (strip_slash : String → String) (encode : String → String)
    (net : ℕ → Request → Fetched) where
  -- The request is answered at once, or after a socket error.
  pub data Answers (r : Request) : List Request → Reply → Type 0 where
    at_once : {p : Reply} → net 0 r ≡ answered p → Answers r (r ∷ []) p
    retried :
        {p : Reply} {cause direct : Option String}
        → net 0 r ≡ failed cause direct
        → is_transient cause direct ≡ true
        → net 1 r ≡ answered p
        → Answers r (r ∷ r ∷ []) p

  -- The request fails with an error that is no socket error, or twice.
  pub data Fails (r : Request) : List Request → Thrown → Type 0 where
    for_good :
        {cause direct : Option String}
        → net 0 r ≡ failed cause direct
        → is_transient cause direct ≡ false
        → Fails r (r ∷ []) (network cause direct)
    twice :
        {cause direct again code : Option String}
        → net 0 r ≡ failed cause direct
        → is_transient cause direct ≡ true
        → net 1 r ≡ failed again code
        → Fails r (r ∷ r ∷ []) (network again code)

  abbrev sends : Env → String → Init → Sent Reply
  sends = internal_fetch strip_slash encode net

  abbrev request : Env → String → Init → Request
  request = internal_request strip_slash encode net

  module _ (P : Request → Type 0) where
    after_second-All :
        (r : Request) (f : Fetched) → P r → All P (after_second strip_slash encode net r f).requests
    after_second-All r (answered p) h = (h, (h, tt))
    after_second-All r (failed a b) h = (h, (h, tt))

    retry_if-All :
        (b : Bool) (r : Request) (a c : Option String)
        → P r
        → All P (retry_if strip_slash encode net b r a c).requests
    retry_if-All true r a c h = after_second-All r (net 1 r) h
    retry_if-All false r a c h = (h, tt)

    after_first-All :
        (r : Request) (f : Fetched) → P r → All P (after_first strip_slash encode net r f).requests
    after_first-All r (answered p) h = (h, tt)
    after_first-All r (failed a b) h = retry_if-All (is_transient a b) r a b h

    refuse_if-All :
        (b : Bool) (r : Request) → P r → All P (refuse_if strip_slash encode net b r).requests
    refuse_if-All true r h = tt
    refuse_if-All false r h = after_first-All r (net 0 r) h

    -- All that is sent is the one request.
    pub internal_fetch-All :
        (env : Env) (path : String) (init : Init)
        → P (request env path init)
        → All P (sends env path init).requests
    unfolding internal_fetch
    internal_fetch-All env path init h =
        refuse_if-All (str_eq env.secret "") (request env path init) h

  pub internal_fetch-Answers :
      (env : Env) (path : String) (init : Init) {rs : List Request} {p : Reply}
      → str_eq env.secret "" ≡ false
      → Answers (request env path init) rs p
      → sends env path init ≡ record { requests = rs; outcome = returned p }
  unfolding internal_fetch
  internal_fetch-Answers env path init e (at_once a) = rw (e, a) refl
  internal_fetch-Answers env path init e (retried a t b) = rw (e, a, t, b) refl

  pub internal_fetch-Fails :
      (env : Env) (path : String) (init : Init) {rs : List Request} {t : Thrown}
      → str_eq env.secret "" ≡ false
      → Fails (request env path init) rs t
      → sends env path init ≡ record { requests = rs; outcome = thrown t }
  unfolding internal_fetch
  internal_fetch-Fails env path init e (for_good a t) = rw (e, a, t) refl
  internal_fetch-Fails env path init e (twice a t b) = rw (e, a, t, b) refl
