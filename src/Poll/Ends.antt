-- ===== src/Poll/Ends.antt =====
-- How the polling ends: the rounds, the time limit and the number of requests.
use polyquantlab.Common.{
  ℕ, zero, suc, ◌+◌, ◌-◌, ◌*◌, ◌≤◌, ◌<◌, ◌==◌, ltb, ◌≡◌, refl, arith, String, Bool, true, false,
  Option, some, ◌⊎◌, inl, inr,
}
use polyquantlab.Strategy.Submit.{is_ok}
use polyquantlab.Poll.{
  JobRecord, Body, unreadable, null_body, job_body, Reply, crashed, replied, Round, PollState, Page,
  is_final, Next, over, again, set_error, set_job, unless_final, take_body, when_ok, unless_missing,
  take_reply, poll_once, go_on, poll,
}

-- Why the polling is over after a round.
pub data Ending {A : Type 0} (r : Round A) (s : PollState A) : Type 0 where
  left : r.cancelled ≡ true → Ending r s
  timer_cleared : r.cleared ≡ true → Ending r s
  error_shown : (text : String) → s.error ≡ some text → Ending r s
  job_final : (j : JobRecord A) → s.job ≡ some j → is_final j.status ≡ true → Ending r s
  given_up : s.gave_up ≡ true → Ending r s

-- What a round leads to: an ending, or another round because the time is not up.
pub data AfterRound {A : Type 0} (page : Page) (start : ℕ) (r : Round A) : Next A → Type 0 where
  ended : {s : PollState A} → Ending r s → AfterRound page start r (over s)
  to_go :
      {s : PollState A}
      → ltb page.give_up_ms (r.now - start) ≡ false
      → AfterRound page start r (again s)

module _ {A : Type 0} (page : Page) (type_error : String) (start : ℕ) (r : Round A) where
  set_error-Ending :
      (b : Bool)
      → r.cancelled ≡ b
      → (text : String) (s : PollState A) → Ending r (set_error b text s)
  set_error-Ending true e text s = left e
  set_error-Ending false e text s = error_shown text refl

  unless_final-AfterRound :
      (f late : Bool) (j : JobRecord A) (s : PollState A)
      → is_final j.status ≡ f
      → ltb page.give_up_ms (r.now - start) ≡ late
      → AfterRound page start r (unless_final f late (set_job (some j) s))
  unless_final-AfterRound true late j s e l = ended (job_final j refl e)
  unless_final-AfterRound false true j s e l = ended (given_up refl)
  unless_final-AfterRound false false j s e l = to_go l

  take_body-AfterRound :
      (b : Bool)
      → r.cancelled ≡ b
      → (body : Body A) (s : PollState A)
      → AfterRound page start r
          (take_body type_error b (ltb page.give_up_ms (r.now - start)) body s)
  take_body-AfterRound b e (unreadable m) s = ended (set_error-Ending b e _ s)
  take_body-AfterRound true e null_body s = ended (left e)
  take_body-AfterRound true e (job_body j) s = ended (left e)
  take_body-AfterRound false e null_body s = ended (error_shown _ refl)
  take_body-AfterRound false e (job_body j) s =
      unless_final-AfterRound (is_final j.status) _ j s refl refl

  when_ok-AfterRound :
      (ok : Bool) (status : ℕ) (body : Body A) (s : PollState A)
      → AfterRound page start r (
          when_ok ok page status type_error r.cancelled
            (ltb page.give_up_ms (r.now - start))
            body
            s)
  when_ok-AfterRound true status body s = take_body-AfterRound r.cancelled refl body s
  when_ok-AfterRound false status body s = ended (set_error-Ending r.cancelled refl _ s)

  unless_missing-AfterRound :
      (missing : Bool) (status : ℕ) (body : Body A) (s : PollState A)
      → AfterRound page start r (
          unless_missing missing page status type_error r.cancelled
            (ltb page.give_up_ms (r.now - start))
            body
            s)
  unless_missing-AfterRound true status body s = ended (set_error-Ending r.cancelled refl _ s)
  unless_missing-AfterRound false status body s = when_ok-AfterRound (is_ok status) status body s

  take_reply-AfterRound :
      (reply : Reply A) (s : PollState A)
      → AfterRound page start r
          (take_reply reply page type_error r.cancelled (ltb page.give_up_ms (r.now - start)) s)
  take_reply-AfterRound (crashed m) s = ended (set_error-Ending r.cancelled refl _ s)
  take_reply-AfterRound (replied status body) s =
      unless_missing-AfterRound (status == 404) status body s

  poll_once-AfterRound :
      (s : PollState A) → AfterRound page start r (poll_once page type_error start r s)
  unfolding poll_once
  poll_once-AfterRound s = take_reply-AfterRound r.reply s

-- A run of the polling ended, after at most so many requests, and for a reason that the last round
-- has.
pub data EndsWithin {A : Type 0} (rounds : ℕ → Round A) (limit : ℕ)
    : Option (PollState A × ℕ) → Type 0 where
  ends_after :
      (s : PollState A) (n : ℕ)
      → n < limit
      → Ending (rounds n) s
      → EndsWithin rounds limit (some (s, suc n))

*-le : (a b c : ℕ) → a ≤ b → a * c ≤ b * c
*-le zero b c h = omega arith
*-le (suc a) zero c h = omega arith
*-le (suc a) (suc b) c h = let k = *-le a b c (omega arith) in omega arith

pos_of : (a b : ℕ) → 0 < a * b → 0 < a
pos_of zero b h = omega arith
pos_of (suc a) b h = omega arith

ltb-cases : (a b : ℕ) → (a < b) ⊎ (b ≤ a)
ltb-cases a b = ground arith

ltb-le : (a b : ℕ) → ltb a b ≡ false → b ≤ a
ltb-le a b h = ground arith

module _ {A : Type 0} (page : Page) (type_error : String) (start : ℕ) (rounds : ℕ → Round A)
    (limit : ℕ) where
  go_on-EndsWithin :
      (n : ℕ) (c : Bool) (next : Next A) (rest : PollState A → Option (PollState A × ℕ))
      → (rounds n).cleared ≡ c
      → n < limit
      → AfterRound page start (rounds n) next
      → (ltb page.give_up_ms ((rounds n).now - start) ≡ false
          → (s : PollState A) → EndsWithin rounds limit (rest s))
      → EndsWithin rounds limit (go_on c n next rest)
  go_on-EndsWithin n c (over s) rest e h (ended w) k = ends_after s n h w
  go_on-EndsWithin n true (again s) rest e h (to_go l) k = ends_after s n h (timer_cleared e)
  go_on-EndsWithin n false (again s) rest e h (to_go l) k = k l s

  in_time :
      (n : ℕ)
      → start + n * page.poll_ms ≤ (rounds n).now
      → page.give_up_ms + page.poll_ms < limit * page.poll_ms
      → ltb page.give_up_ms ((rounds n).now - start) ≡ false
      → suc n < limit
  in_time n t g l = elim (ltb-cases (suc n) limit) [
    | inl h ↦ h
    | inr h ↦
        let k = *-le limit (suc n) page.poll_ms h in
        let m = ltb-le page.give_up_ms ((rounds n).now - start) l in absurd (omega arith)
  ]

  poll-EndsWithin :
      (each : (n : ℕ) → start + n * page.poll_ms ≤ (rounds n).now)
      → page.give_up_ms + page.poll_ms < limit * page.poll_ms
      → (fuel n : ℕ) → n + fuel ≡ limit
      → n < limit
      → (s : PollState A) → EndsWithin rounds limit (poll page type_error start rounds fuel n s)
  unfolding poll
  poll-EndsWithin each g zero n e h s = absurd (omega arith)
  poll-EndsWithin each g (suc fuel) n e h s =
      go_on-EndsWithin n (rounds n).cleared _ (poll page type_error start rounds fuel (suc n)) refl
        h (poll_once-AfterRound page type_error start (rounds n) s)
        (λ l t. poll-EndsWithin each g fuel (suc n) (omega arith) (in_time n (each n) g l) t)

-- Polling ends on either page, whatever the network gives: if each round comes at least the pause of
-- the page after the one before, fuel for `limit` rounds is enough as soon as so many pauses are
-- longer than the time limit and one pause. At most so many requests are sent, and the last round
-- left the page, showed an error or a job that is completed or failed, or gave up.
pub poll-ends :
    {A : Type 0} (page : Page) (type_error : String) (start : ℕ) (rounds : ℕ → Round A) (limit : ℕ)
    → ((n : ℕ) → start + n * page.poll_ms ≤ (rounds n).now)
    → page.give_up_ms + page.poll_ms < limit * page.poll_ms
    → (s : PollState A) → EndsWithin rounds limit (poll page type_error start rounds limit 0 s)
poll-ends page type_error start rounds limit each g s =
    poll-EndsWithin page type_error start rounds limit each g limit 0 (omega arith)
      (pos_of limit page.poll_ms (omega (arith, g))) s
