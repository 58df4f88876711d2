-- ===== src/Calibration/Tests.antt =====
-- The insight on concrete buckets.
use polyquantlab.Common.{ℕ, ◌≡◌, refl, String, [], ◌∷◌, List, some, none}
use polyquantlab.Strategy.Params.{decimal, always_up, btc, m5}
use polyquantlab.Strategy.Builder.{BuilderState, default_state}
use polyquantlab.Strategy.Prefill.{merged}
use polyquantlab.Calibration.{Bucket, insight, widest, apply_to_builder, mean_of}
use polyquantlab.Calibration.Widest.{IsWidest, insight-IsWidest}

abbrev bucket_of : ℕ → ℕ → ℕ → Bucket
bucket_of lo up n = record {
  lo = lo;
  hi = 10;
  n_markets = n;
  up_rate = some up;
  mean_mid = some lo;
}

-- The bucket with the widest gap has too few markets.
abbrev some_buckets : List Bucket
some_buckets = bucket_of 20 25 30 ∷ bucket_of 40 49 25 ∷ bucket_of 60 90 5 ∷ []

found : insight 100 some_buckets ≡ some (bucket_of 40 49 25)
unfolding insight widest
found = refl

insight-IsWidest_example : IsWidest 100 some_buckets (insight 100 some_buckets)
insight-IsWidest_example = insight-IsWidest 100 some_buckets

abbrev draw : ℕ → String
draw n = "id"

abbrev handed_off : BuilderState
handed_off =
    merged draw (default_state draw)
      (apply_to_builder (λ n. decimal n 2) "a" "b" none none (bucket_of 40 49 25))

-- The builder opens with the direction of the insight, on its default market.
opened :
    (handed_off.trade_logic ≡ always_up) × (handed_off.ticker ≡ btc) × (handed_off.event_type ≡ m5)
unfolding merged apply_to_builder
opened = (refl, refl, refl)

averaged : mean_of (λ b. b.up_rate) (bucket_of 20 25 30 ∷ []) ≡ some (750, 30)
averaged = refl
