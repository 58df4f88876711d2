-- ===== src/Poll/Tests.antt =====
-- The polling on concrete rounds.
use polyquantlab.Common.{ℕ, zero, suc, ◌+◌, ◌*◌, ◌<◌, ◌≡◌, refl, arith, true, false, none, some}
use polyquantlab.Poll.{
  JobStatus, queued, running, completed, JobRecord, job_body, replied, crashed, Round, poll,
  poll_once, initial, backtest_page, sweep_page,
}
use polyquantlab.Poll.Ends.{poll-ends, EndsWithin}
use polyquantlab.Poll.Shows.{poll-shows, poll-left, Waits, waits}

abbrev a_job : JobStatus → JobRecord ℕ
a_job status = record {
  job_id = "j1";
  status = status;
  started_at = some 0;
  params = record { market_limit = some 50; strategy_type = none; x_steps = none; y_steps = none };
  result = some 7;
  error = none;
}

-- A server that never finishes the job, asked every 1.2 seconds.
abbrev stuck : ℕ → Round ℕ
stuck n = record {
  reply = replied 200 (job_body (a_job running));
  cancelled = false;
  now = 1000 + n * 1200;
  cleared = false;
}

-- One that finishes at the second request.
abbrev second : ℕ → Round ℕ
second zero = record {
  reply = replied 200 (job_body (a_job queued));
  cancelled = false;
  now = 1100;
  cleared = false;
}
second (suc n) = record {
  reply = replied 200 (job_body (a_job completed));
  cancelled = false;
  now = 2400;
  cleared = false;
}

abbrev gone : ℕ → Round ℕ
gone n = record { reply = crashed none; cancelled = true; now = 5; cleared = false }

second-shown :
    poll backtest_page "" 1000 second 302 0 initial
    ≡ some (record { job = some (a_job completed); error = none; gave_up = false }, 2)
unfolding poll poll_once
second-shown = refl

-- 302 requests are enough.
poll-ends_example : EndsWithin stuck 302 (poll backtest_page "" 1000 stuck 302 0 initial)
poll-ends_example =
    poll-ends backtest_page "" 1000 stuck 302 (λ n. omega arith) (omega arith) initial

second-Waits : (m : ℕ) → m < 1 → Waits backtest_page 1000 (second m)
second-Waits zero h =
    waits (a_job queued) (record { code = 200; reply = refl; ok = refl; here = refl }) refl
      (omega arith) refl
second-Waits (suc m) h = absurd (omega arith)

poll-shows_example :
    poll backtest_page "" 1000 second 302 0 initial
    ≡ some (record { job = some (a_job completed); error = none; gave_up = false }, 2)
poll-shows_example =
    poll-shows backtest_page "" 1000 second (a_job completed) 1 302 second-Waits
      (record { code = 200; reply = refl; ok = refl; here = refl }) refl (omega arith)

left_early : poll sweep_page "" 1000 gone 1 0 initial ≡ some (initial, 1)
left_early = poll-left sweep_page "" 1000 gone 0 0 initial refl
