-- ===== src/Web/Tests.antt =====
-- Runs of the server code at concrete inputs, and instances of its theorems.
use polyquantlab.Common.{
  ℕ, zero, suc, ◌≤◌, ◌<◌, ◌≡◌, refl, arith, String, true, [], ◌∷◌, none, some, All, length,
}
use polyquantlab.Web.Http.{Request, Reply, Fetched, answered, failed}
use polyquantlab.Web.Bridge.{Env, is_transient}
use polyquantlab.Web.Proxy.{Incoming, Options, fastapi_proxy, unavailable}
use polyquantlab.Web.Routes.{User, delete_strategy, handle_route}
use polyquantlab.Web.Attempts.{retried, for_good}
use polyquantlab.Web.Forwarded.{relayed, fastapi_proxy-Answers, fastapi_proxy-Fails, request_for}
use polyquantlab.Web.Gate.{Guarded, handle_route-Guarded}
use polyquantlab.Web.Serves.{Serves}
use polyquantlab.Web.Keys.{
  label_of, sent_label, sent_label-label_of, is_space, trim_start, trim_end,
}

abbrev same : String → String
same s = s

abbrev env : Env
env = record { base = "http://api"; secret = "s3" }

abbrev incoming : Incoming
incoming = record { method = "GET"; search = "?limit=5"; text = "" }

abbrev alice : User
alice = record { id = "u1"; email = some "alice@example.com" }

abbrev gone : Reply
gone = record { status = 204; text = some ""; content_type = none }

-- The first attempt is reset, the second answers.
abbrev reset_once : ℕ → Request → Fetched
reset_once zero r = failed (some "ECONNRESET") none
reset_once (suc n) r = answered gone

abbrev refused : ℕ → Request → Fetched
refused n r = failed (some "ECONNREFUSED") none

abbrev delete_opts : Options
delete_opts = record { method = some "DELETE"; user_email = some "alice@example.com" }

transient : is_transient (some "EPIPE") none ≡ true
unfolding is_transient
transient = refl

fastapi_proxy-Answers_example :
    fastapi_proxy same same reset_once env incoming "/v1/paper/strategies/7" delete_opts ≡ record {
      requests =
          request_for same same reset_once env incoming "/v1/paper/strategies/7" delete_opts
          ∷ request_for same same reset_once env incoming "/v1/paper/strategies/7" delete_opts
          ∷ [];
      response = relayed gone "";
    }
unfolding is_transient
fastapi_proxy-Answers_example =
    fastapi_proxy-Answers same same reset_once env incoming "/v1/paper/strategies/7" delete_opts
      refl (retried refl refl refl) refl (omega arith) (omega arith)

fastapi_proxy-Fails_example :
    fastapi_proxy same same refused env incoming "/v1/candles" delete_opts ≡ record {
      requests = request_for same same refused env incoming "/v1/candles" delete_opts ∷ [];
      response = unavailable;
    }
unfolding is_transient
fastapi_proxy-Fails_example =
    fastapi_proxy-Fails same same refused env incoming "/v1/candles" delete_opts refl
      (for_good refl refl)

handle_route-Guarded_example :
    All
      (Guarded env (some "alice@example.com"))
      (handle_route same same reset_once env (some alice) incoming (delete_strategy "7")).requests
handle_route-Guarded_example =
    handle_route-Guarded same same reset_once env (some alice) incoming (delete_strategy "7")

abbrev accepted : Reply
accepted = record { status = 202; text = some "{\"job_id\":\"j\"}"; content_type = none }

abbrev accepts : Request → Fetched
accepts r = answered accepted

-- "  a " is cut to "a".
trimmed : label_of (some (32 ∷ 32 ∷ 97 ∷ 32 ∷ [])) ≡ some (97 ∷ [])
unfolding label_of is_space trim_start trim_end
trimmed = refl

sent_label-label_of_example :
    (0 < length (sent_label (label_of (some (32 ∷ 97 ∷ [])))))
    × (length (sent_label (label_of (some (32 ∷ 97 ∷ [])))) ≤ 128)
sent_label-label_of_example = sent_label-label_of (some (32 ∷ 97 ∷ []))
