-- ===== src/Poll/Shows.antt =====
-- What the polling shows in the end, for a job that finishes and on a page that was left.
use polyquantlab.Common.{
  ℕ, zero, suc, ◌+◌, ◌-◌, ◌≤◌, ◌<◌, ◌==◌, ltb, ◌≡◌, refl, arith, String, Bool, true, false, Option,
  none, some, ◌∙◌,
}
use polyquantlab.Strategy.Submit.{is_ok}
use polyquantlab.Poll.{
  JobRecord, Body, unreadable, null_body, job_body, Reply, crashed, replied, Round, PollState, Page,
  is_final, over, again, set_job, unless_final, take_body, when_ok, unless_missing, take_reply,
  poll_once, poll, initial,
}

-- A round whose reply is a job, on a page that is still there.
pub record Answered {A : Type 0} (r : Round A) (j : JobRecord A) : Type 0 where
  pub code : ℕ
  pub reply : r.reply ≡ replied code (job_body j)
  pub ok : is_ok code ≡ true
  pub here : r.cancelled ≡ false

-- A round after which the timer runs out: the job is not final, and the time is not up.
pub data Waits {A : Type 0} (page : Page) (start : ℕ) (r : Round A) : Type 0 where
  waits :
      (j : JobRecord A)
      → Answered r j
      → is_final j.status ≡ false
      → r.now ≤ start + page.give_up_ms
      → r.cleared ≡ false
      → Waits page start r

ok-not_missing : (status : ℕ) → is_ok status ≡ true → (status == 404) ≡ false
ok-not_missing status h = ground arith

not_late : (limit now start : ℕ) → now ≤ start + limit → ltb limit (now - start) ≡ false
not_late limit now start h = ground arith

-- The states between two rounds of a job that goes well.
abbrev well : {A : Type 0} → Option (JobRecord A) → PollState A
well job = record { job = job; error = none; gave_up = false }

module _ {A : Type 0} (page : Page) (type_error : String) (start : ℕ) where
  poll_once-Answered :
      (r : Round A) (j : JobRecord A) (s : PollState A)
      → Answered r j
      → poll_once page type_error start r s
        ≡ unless_final
            (is_final j.status)
            (ltb page.give_up_ms (r.now - start))
            (set_job (some j) s)
  unfolding poll_once
  poll_once-Answered r j s a = rw (a.reply, a.here, ok-not_missing a.code a.ok, a.ok) refl

  poll_once-waits :
      (r : Round A) (j : JobRecord A) (s : PollState A)
      → Answered r j
      → is_final j.status ≡ false
      → r.now ≤ start + page.give_up_ms
      → poll_once page type_error start r s ≡ again (set_job (some j) s)
  poll_once-waits r j s a f t =
      rw (poll_once-Answered r j s a, f, not_late page.give_up_ms r.now start t) refl

  poll_once-final :
      (r : Round A) (j : JobRecord A) (s : PollState A)
      → Answered r j
      → is_final j.status ≡ true
      → poll_once page type_error start r s ≡ over (set_job (some j) s)
  poll_once-final r j s a f = rw (poll_once-Answered r j s a, f) refl

  poll-final :
      (rounds : ℕ → Round A) (j : JobRecord A) (fuel n : ℕ) (s : PollState A)
      → Answered (rounds n) j
      → is_final j.status ≡ true
      → poll page type_error start rounds (suc fuel) n s ≡ some (set_job (some j) s, suc n)
  unfolding poll
  poll-final rounds j fuel n s a f = rw (poll_once-final (rounds n) j s a f) refl

  poll-waits :
      (rounds : ℕ → Round A) (j : JobRecord A) (fuel n : ℕ) (s : PollState A)
      → Answered (rounds n) j
      → is_final j.status ≡ false
      → (rounds n).now ≤ start + page.give_up_ms
      → (rounds n).cleared ≡ false
      → poll page type_error start rounds (suc fuel) n s
        ≡ poll page type_error start rounds fuel (suc n) (set_job (some j) s)
  unfolding poll
  poll-waits rounds j fuel n s a f t c = rw (poll_once-waits (rounds n) j s a f t, c) refl

  poll-shows_from :
      (rounds : ℕ → Round A) (last : JobRecord A) (t k fuel n : ℕ) (job : Option (JobRecord A))
      → n + k ≡ t
      → ((m : ℕ) → m < t → Waits page start (rounds m))
      → Answered (rounds t) last
      → is_final last.status ≡ true
      → k < fuel
      → poll page type_error start rounds fuel n (well job) ≡ some (well (some last), suc t)
  poll-shows_from rounds last t k zero n job e w a f h = absurd (omega arith)
  poll-shows_from rounds last t zero (suc fuel) n job e w a f h =
      let e1 : n ≡ t = omega arith in rw e1 (poll-final rounds last fuel t (well job) a f)
  poll-shows_from rounds last t (suc k) (suc fuel) n job e w a f h = elim (w n (omega arith)) [
    | waits j b g l c ↦
        poll-waits rounds j fuel n (well job) b g l c
        ∙ poll-shows_from rounds last t k fuel (suc n) (some j) (omega arith) w a f (omega arith)
  ]

-- On either page a job that finishes is shown: if each of the first `k` replies is a job that is
-- queued or running, within the time limit and on a page that is there, and the next is one that is
-- completed or failed, then the polling ends with this job, no error and no notice of giving up,
-- after `k` + 1 requests. Any fuel over `k` is enough.
pub poll-shows :
    {A : Type 0} (page : Page) (type_error : String) (start : ℕ) (rounds : ℕ → Round A)
    → (last : JobRecord A) (k fuel : ℕ) → ((m : ℕ) → m < k → Waits page start (rounds m))
    → Answered (rounds k) last
    → is_final last.status ≡ true
    → k < fuel
    → poll page type_error start rounds fuel 0 initial
      ≡ some (record { job = some last; error = none; gave_up = false }, suc k)
poll-shows page type_error start rounds last k fuel w a f h =
    poll-shows_from page type_error start rounds last k k fuel 0 none (omega arith) w a f h

-- A reply on a page that was left.
module _ {A : Type 0} (page : Page) (type_error : String) (late : Bool) (s : PollState A) where
  take_body-left : (b : Body A) → take_body type_error true late b s ≡ over s
  take_body-left (unreadable m) = refl
  take_body-left null_body = refl
  take_body-left (job_body j) = refl

  when_ok-left :
      (ok : Bool) (status : ℕ) (b : Body A)
      → when_ok ok page status type_error true late b s ≡ over s
  when_ok-left true status b = take_body-left b
  when_ok-left false status b = refl

  unless_missing-left :
      (missing : Bool) (status : ℕ) (b : Body A)
      → unless_missing missing page status type_error true late b s ≡ over s
  unless_missing-left true status b = refl
  unless_missing-left false status b = when_ok-left (is_ok status) status b

  take_reply-left : (reply : Reply A) → take_reply reply page type_error true late s ≡ over s
  take_reply-left (crashed m) = refl
  take_reply-left (replied status b) = unless_missing-left (status == 404) status b

-- On a page that was left before a reply comes, the polling ends with the state as it was,
-- whatever the reply is, and sends nothing more.
pub poll-left :
    {A : Type 0} (page : Page) (type_error : String) (start : ℕ) (rounds : ℕ → Round A)
    → (fuel n : ℕ) (s : PollState A) → (rounds n).cancelled ≡ true
    → poll page type_error start rounds (suc fuel) n s ≡ some (s, suc n)
unfolding poll poll_once
poll-left page type_error start rounds fuel n s h =
    rw (h, take_reply-left page type_error _ s (rounds n).reply) refl
