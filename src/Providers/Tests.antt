-- ===== src/Providers/Tests.antt =====
-- Prices of models with and without a date.
use open_thinking.Base.{◌≡◌, refl, some, false, [], ◌∷◌}
use open_thinking.Base.Texts.{starts_with}
use open_thinking.Providers.Pricing.{Prices, pricing, get_price, estimate_cost}
use open_thinking.Providers.Pricing.Laws.{IsLongest, get_price-IsLongest}

abbrev some_prices : Prices
some_prices =
    ("gpt-5.4", record { input = 2500; output = 15_000 })
    ∷ ("gpt-5.4-mini", record { input = 750; output = 4500 })
    ∷ ("gpt-5", record { input = 1250; output = 10_000 })
    ∷ []

dated : get_price "gpt-5.4-mini-2026" some_prices ≡ some (record { input = 750; output = 4500 })
unfolding get_price starts_with
dated = refl

costs :
    estimate_cost
      (record { prompt_tokens = 1000; completion_tokens = 100; total_tokens = 1100 })
      "gpt-4o"
      false
    ≡ some 3_500_000
unfolding estimate_cost starts_with
costs = refl

get_price-IsLongest_example :
    IsLongest "gpt-5.4-mini-2026-01" pricing (get_price "gpt-5.4-mini-2026-01" pricing)
get_price-IsLongest_example = get_price-IsLongest "gpt-5.4-mini-2026-01" pricing
