-- ===== src/Web/Jobs.antt =====
-- The routes that submit and list backtests, web/app/api/backtest/route.ts and
-- web/app/api/backtest/sweep/route.ts: they call the backend themselves, without the retry.
use polyquantlab.Common.{String, str_eq, Bool, true, false, [], ◌∷◌, Option, none, some, concat}
use polyquantlab.Web.Http.{
  Request, Reply, Fetched, answered, failed, Response, Outcome, returned, thrown, or_else, json,
  new_response,
}
use polyquantlab.Web.Bridge.{Env}
use polyquantlab.Web.Proxy.{Incoming, Handled, unavailable}
use polyquantlab.Web.Routes.{User, turned_away}

pub data JobRoute : Type 0 where
  list_jobs submit_job submit_sweep : JobRoute

abbrev secret_header : Env → String × String
secret_header env = ("X-Internal-Secret", env.secret)

abbrev json_header : String × String
json_header = ("Content-Type", "application/json")

abbrev close_header : String × String
close_header = ("Connection", "close")

abbrev pub job_request : Env → Incoming → JobRoute → Request
job_request env incoming list_jobs = record {
  url = concat (env.base ∷ "/v1/backtest" ∷ incoming.search ∷ []);
  method = "GET";
  headers = secret_header env ∷ close_header ∷ [];
  body = none;
}
job_request env incoming submit_job = record {
  url = concat (env.base ∷ "/v1/backtest" ∷ []);
  method = "POST";
  headers = json_header ∷ secret_header env ∷ [];
  body = some incoming.text;
}
job_request env incoming submit_sweep = record {
  url = concat (env.base ∷ "/v1/backtest/sweep" ∷ []);
  method = "POST";
  headers = json_header ∷ secret_header env ∷ close_header ∷ [];
  body = some incoming.text;
}

abbrev pub or_502 : Outcome Response → Response
or_502 (returned r) = r
or_502 (thrown t) = unavailable

-- The text goes on as it is, whatever the status.
abbrev pub pass_whole : Reply → Option String → Response
pass_whole p none = unavailable
pass_whole p (some t) =
    or_502 (new_response (some t) p.status (or_else p.content_type "application/json"))

abbrev pub job_response : Fetched → Response
job_response (failed cause direct) = unavailable
job_response (answered p) = pass_whole p p.text

abbrev pub misconfigured : Handled
misconfigured = record {
  requests = [];
  response = json 500 "{\"error\":\"Server misconfigured: INTERNAL_API_SECRET unset\"}";
}

module _ (net : Request → Fetched) where
  abbrev pub send_job : Bool → Request → Handled
  send_job true r = misconfigured
  send_job false r = record { requests = r ∷ []; response = job_response (net r) }

  -- The three handlers, from the user that `getUser` gives.
  unfoldable pub handle_job : Env → Option User → Incoming → JobRoute → Handled
  handle_job env none incoming r = turned_away
  handle_job env (some u) incoming r = send_job (str_eq env.secret "") (job_request env incoming r)
