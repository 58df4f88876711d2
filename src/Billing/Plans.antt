-- ===== src/Billing/Plans.antt =====
-- The plans of web/config.ts.
use polyquantlab.Common.{String, str_eq, Bool, true, false, List, [], ◌∷◌, Option, none, some, find}

pub data TierKey : Type 0 where
  free pro plus boost premium : TierKey

pub record Plan : Type 0 where
  pub price_id : String
  pub tier_key : TierKey
  pub name : String

abbrev price_for : Bool → String → String → String
price_for development test live = elim development [ true ↦ test | false ↦ live ]

-- `config.stripe.plans`, the prices by whether `NODE_ENV` is "development"; the prose is left out.
abbrev pub plans : Bool → List Plan
plans dev =
    record {
      price_id = price_for dev "price_TEST_PRO" "price_LIVE_PRO";
      tier_key = pro;
      name = "Pro";
    }
    ∷ record {
      price_id = price_for dev "price_TEST_PLUS" "price_LIVE_PLUS";
      tier_key = plus;
      name = "Plus";
    }
    ∷ record {
      price_id = price_for dev "price_TEST_BOOST" "price_LIVE_BOOST";
      tier_key = boost;
      name = "Boost";
    }
    ∷ record {
      price_id = price_for dev "price_TEST_PREMIUM" "price_LIVE_PREMIUM";
      tier_key = premium;
      name = "Premium";
    }
    ∷ []

-- `plans.find((p) => p.priceId === priceId)`; no plan has an undefined price.
unfoldable pub plan_of : List Plan → Option String → Option Plan
plan_of ps none = none
plan_of ps (some price) = find (λ p. str_eq p.price_id price) ps
