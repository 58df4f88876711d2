-- ===== src/Strategy/Submit/Settled.antt =====
-- How a submission ends, and what a submitted strategy leaves out.
use polyquantlab.Common.{
  ℕ, ◌≡◌, refl, String, str_eq, Bool, true, false, List, [], ◌∷◌, Option, none, some, concat,
}
use polyquantlab.Strategy.Params.{Number}
use polyquantlab.Strategy.Builder.{BuilderState}
use polyquantlab.Strategy.Submit.{
  Fields, Got, failed, got_null, got, first_if, or_text, is_ok, Seen, complaint, opened, job_page,
  submit_ok, null_ok, submit_seen, submit, paper_page, paper_ok, paper_seen, submit_as_paper, Post,
}

-- The first of some texts that is there and not empty, if there is one.
pub data IsFirst : List (Option String) → Option String → Type 0 where
  nowhere : IsFirst [] none
  here :
      {s : String} {os : List (Option String)}
      → str_eq s "" ≡ false
      → IsFirst (some s ∷ os) (some s)
  not_there : {os : List (Option String)} {o : Option String} → IsFirst os o → IsFirst (none ∷ os) o
  is_empty :
      {s : String} {os : List (Option String)} {o : Option String}
      → str_eq s "" ≡ true
      → IsFirst os o
      → IsFirst (some s ∷ os) o

abbrev pub Ids : Type 0
Ids = Fields → List (Option String)

-- Where the id of a job, and that of a paper strategy, may stand in a reply.
abbrev pub job_ids : Ids
job_ids f = f.job_id ∷ f.id ∷ []

abbrev pub paper_ids : Ids
paper_ids f = f.paper_strategy_id ∷ []

-- Why a reply has no page: an exception, `null`, a status of failure, or no id.
pub data NoPage (ids : Ids) : Got → Type 0 where
  exception : {e : Option String} → NoPage ids (failed e)
  null_object : {status : ℕ} → NoPage ids (got_null status)
  failure : {status : ℕ} {f : Fields} → is_ok status ≡ false → NoPage ids (got status f)
  no_id : {status : ℕ} {f : Fields} → IsFirst (ids f) none → NoPage ids (got status f)

-- What is seen fits the reply: the page of its id, or one error where it has no page.
pub data Settled (prefix : String) (ids : Ids) : Got → Seen → Type 0 where
  told : {g : Got} (text : String) → NoPage ids g → Settled prefix ids g (complaint text)
  moved :
      {toasts : List String} {status : ℕ} {f : Fields} (id : String)
      → is_ok status ≡ true
      → IsFirst (ids f) (some id)
      → Settled prefix ids (got status f) (opened toasts (concat (prefix ∷ id ∷ [])))

first_if-IsFirst :
    (b : Bool) (a : String) (o : Option String) (os : List (Option String))
    → str_eq a "" ≡ b
    → IsFirst os o
    → IsFirst (some a ∷ os) (first_if b a o)
first_if-IsFirst true a o os e h = is_empty e h
first_if-IsFirst false a o os e h = here e

or_text-IsFirst :
    (a o : Option String) (os : List (Option String))
    → IsFirst os o
    → IsFirst (a ∷ os) (or_text a o)
or_text-IsFirst none o os h = not_there h
or_text-IsFirst (some a) o os h = first_if-IsFirst (str_eq a "") a o os refl h

one-IsFirst : (a : Option String) → IsFirst (a ∷ []) (or_text a none)
one-IsFirst a = or_text-IsFirst a none [] nowhere

two_if-IsFirst :
    (b : Bool) (a : String) (o : Option String)
    → str_eq a "" ≡ b
    → IsFirst (some a ∷ o ∷ []) (or_text (first_if b a o) none)
two_if-IsFirst true a o e = is_empty e (one-IsFirst o)
two_if-IsFirst false a o e = rw (e) (here e)

two-IsFirst : (a o : Option String) → IsFirst (a ∷ o ∷ []) (or_text (or_text a o) none)
two-IsFirst none o = not_there (one-IsFirst o)
two-IsFirst (some a) o = two_if-IsFirst (str_eq a "") a o refl

module _ (status : ℕ) (f : Fields) where
  job_page-Settled :
      {o : Option String}
      → is_ok status ≡ true
      → IsFirst (job_ids f) o
      → Settled "/dashboard/backtest/" job_ids (got status f) (job_page o)
  job_page-Settled {o = none} e h = told _ (no_id h)
  job_page-Settled {o = some id} e h = moved id e h

  submit_ok-Settled :
      (b : Bool)
      → is_ok status ≡ b
      → Settled "/dashboard/backtest/" job_ids (got status f) (submit_ok b status f)
  submit_ok-Settled true e = job_page-Settled e (two-IsFirst f.job_id f.id)
  submit_ok-Settled false e = told _ (failure e)

null_ok-Settled :
    (prefix m what : String) (ids : Ids) (b : Bool) (status : ℕ)
    → Settled prefix ids (got_null status) (null_ok m what b status)
null_ok-Settled prefix m what ids true status = told _ null_object
null_ok-Settled prefix m what ids false status = told _ null_object

submit_seen-Settled :
    (m : String) (g : Got) → Settled "/dashboard/backtest/" job_ids g (submit_seen m g)
unfolding submit_seen
submit_seen-Settled m (failed e) = told _ exception
submit_seen-Settled m (got_null status) =
    null_ok-Settled _ m "Submit failed" _ (is_ok status) status
submit_seen-Settled m (got status f) = submit_ok-Settled status f (is_ok status) refl

module _ (m : String) (answer : Post → Got) where
  paper_page-Settled :
      (status : ℕ) (f : Fields) {o : Option String}
      → is_ok status ≡ true
      → IsFirst (paper_ids f) o
      → Settled "/dashboard/paper/" paper_ids (got status f) (paper_page m answer o)
  paper_page-Settled status f {o = none} e h = told _ (no_id h)
  paper_page-Settled status f {o = some id} e h = moved id e h

  paper_ok-Settled :
      (status : ℕ) (f : Fields) (b : Bool)
      → is_ok status ≡ b
      → Settled "/dashboard/paper/" paper_ids (got status f) (paper_ok m answer b status f)
  paper_ok-Settled status f true e = paper_page-Settled status f e (one-IsFirst f.paper_strategy_id)
  paper_ok-Settled status f false e = told _ (failure e)

  paper_seen-Settled : (g : Got) → Settled "/dashboard/paper/" paper_ids g (paper_seen m answer g)
  unfolding paper_seen
  paper_seen-Settled (failed e) = told _ exception
  paper_seen-Settled (got_null status) = null_ok-Settled _ m "Failed" _ (is_ok status) status
  paper_seen-Settled (got status f) = paper_ok-Settled status f (is_ok status) refl

  -- Submitting sends one request, and starting a paper strategy two, and what the user sees fits the
  -- reply to the last one, exceptions and replies that are no object included: a reply that is ok and
  -- has an id that is not empty (of a job, the field `job_id` and else `id`) opens the page of this
  -- id without an error; every other reply gives one error and no page, and the button is free.
  pub submit-Settled :
      (state : BuilderState)
      → ((p : Post) × ((submit m answer state).posts ≡ p ∷ [])
          × Settled "/dashboard/backtest/" job_ids (answer p) (submit m answer state).seen)
        × ((p q : Post) × ((submit_as_paper m answer state).posts ≡ p ∷ q ∷ [])
            × Settled "/dashboard/paper/" paper_ids
                (answer q)
                (submit_as_paper m answer state).seen)
  unfolding submit submit_as_paper
  submit-Settled state = ((_, refl, submit_seen-Settled m _), (_, _, refl, paper_seen-Settled _))

-- Two states whose settings for limit orders differ.
abbrev pub with_limit : Number → Number → Bool → BuilderState → BuilderState
with_limit offset timeout aware state = record state {
  limit_offset_cents = offset;
  limit_timeout_s = timeout;
  queue_aware = aware;
}
