-- ===== src/Providers/Pricing.antt =====
-- src/providers/pricing.ts: the price of a model, by its name or the longest known prefix of it. Prices
-- are in nano-dollars a token, which is a thousandth of the dollars a million tokens that the source
-- gives, so a cost is exact.
pub mod Laws
use Prim.Native.String
use open_thinking.Base.{
  ℕ, zero, suc, String, ◌+◌, ◌*◌, Bool, true, false, ◌&&◌, Option, none, some, List, [], ◌∷◌, ◌==◌,
  ltb, if◌then◌else◌,
}
use open_thinking.Base.Texts.{starts_with}
use open_thinking.Types.{TokenUsage}

pub record ModelPrice : Type 0 where
  pub input : ℕ
  pub output : ℕ

abbrev price : ℕ → ℕ → ModelPrice
price input output = record { input = input; output = output }

abbrev pub Prices : Type 0
Prices = List (String × ModelPrice)

unfoldable pub pricing : Prices
pricing =
    ("claude-opus-4-8", price 5000 25_000)
    ∷ ("claude-opus-4-7", price 5000 25_000)
    ∷ ("claude-opus-4-6", price 5000 25_000)
    ∷ ("claude-opus-4-5", price 5000 25_000)
    ∷ ("claude-opus-4-5-20250520", price 5000 25_000)
    ∷ ("claude-opus-4-1", price 15_000 75_000)
    ∷ ("claude-opus-4-0", price 15_000 75_000)
    ∷ ("claude-sonnet-4-6", price 3000 15_000)
    ∷ ("claude-sonnet-4-5", price 3000 15_000)
    ∷ ("claude-sonnet-4-20250514", price 3000 15_000)
    ∷ ("claude-sonnet-4-0", price 3000 15_000)
    ∷ ("claude-haiku-4-5", price 1000 5000)
    ∷ ("claude-haiku-4-5-20251001", price 1000 5000)
    ∷ ("claude-3-5-sonnet-20241022", price 3000 15_000)
    ∷ ("claude-3-5-haiku-20241022", price 800 4000)
    ∷ ("claude-3-opus-20240229", price 15_000 75_000)
    ∷ ("gpt-5.5", price 5000 30_000)
    ∷ ("gpt-5.5-pro", price 30_000 180_000)
    ∷ ("gpt-5.4", price 2500 15_000)
    ∷ ("gpt-5.4-pro", price 30_000 180_000)
    ∷ ("gpt-5.4-mini", price 750 4500)
    ∷ ("gpt-5.4-nano", price 200 1250)
    ∷ ("gpt-5.2", price 1750 14_000)
    ∷ ("gpt-5.2-pro", price 10_500 84_000)
    ∷ ("gpt-5.1", price 1250 10_000)
    ∷ ("gpt-5", price 1250 10_000)
    ∷ ("gpt-5-pro", price 2000 10_000)
    ∷ ("gpt-5-mini", price 250 2000)
    ∷ ("gpt-5-nano", price 50 400)
    ∷ ("gpt-4.1", price 2000 8000)
    ∷ ("gpt-4.1-mini", price 400 1600)
    ∷ ("gpt-4.1-nano", price 100 400)
    ∷ ("gpt-4o", price 2500 10_000)
    ∷ ("gpt-4o-2024-11-20", price 2500 10_000)
    ∷ ("gpt-4o-mini", price 150 600)
    ∷ ("gpt-4-turbo", price 10_000 30_000)
    ∷ ("gpt-4", price 30_000 60_000)
    ∷ ("gpt-3.5-turbo", price 500 1500)
    ∷ ("o4-mini", price 550 2200)
    ∷ ("o3", price 2000 8000)
    ∷ ("o3-pro", price 20_000 80_000)
    ∷ ("o3-mini", price 1100 4400)
    ∷ ("o1", price 15_000 60_000)
    ∷ ("o1-pro", price 150_000 600_000)
    ∷ ("o1-mini", price 3000 12_000)
    ∷ ("gemini-3.5-flash", price 1500 9000)
    ∷ ("gemini-3.1-pro", price 2000 12_000)
    ∷ ("gemini-3.1-flash-lite", price 250 1500)
    ∷ ("gemini-2.5-pro", price 1250 10_000)
    ∷ ("gemini-2.5-flash", price 300 2500)
    ∷ ("gemini-2.0-flash", price 100 400)
    ∷ ("gemini-1.5-pro", price 1250 5000)
    ∷ ("gemini-1.5-flash", price 75 300)
    ∷ ("mistral-medium-latest", price 1500 7500)
    ∷ ("mistral-large-latest", price 500 1500)
    ∷ ("mistral-small-latest", price 100 300)
    ∷ ("ministral-3b-latest", price 100 100)
    ∷ ("ministral-8b-latest", price 150 150)
    ∷ ("ministral-14b-latest", price 200 200)
    ∷ ("devstral-medium-latest", price 400 2000)
    ∷ ("devstral-small-latest", price 100 300)
    ∷ ("codestral-latest", price 300 900)
    ∷ ("open-mistral-nemo", price 150 150)
    ∷ ("magistral-medium-latest", price 2000 5000)
    ∷ ("magistral-small-latest", price 500 1500)
    ∷ ("open-mixtral-8x7b", price 700 700)
    ∷ ("open-mixtral-8x22b", price 2000 6000)
    ∷ ("mistral-embed", price 100 0)
    ∷ ("codestral-embed", price 150 0)
    ∷ ("deepseek-v4-flash", price 140 280)
    ∷ ("deepseek-v4-pro", price 435 870)
    ∷ ("deepseek-chat", price 140 280)
    ∷ ("deepseek-coder", price 140 280)
    ∷ ("deepseek-reasoner", price 550 2190)
    ∷ ("grok-4.3", price 1250 2500)
    ∷ ("grok-4.20", price 1250 2500)
    ∷ ("grok-build", price 1000 2000)
    ∷ ("grok-3", price 3000 15_000)
    ∷ ("grok-3-mini", price 300 500)
    ∷ ("grok-2", price 2000 10_000)
    ∷ ("grok-2-mini", price 200 1000)
    ∷ ("openai/gpt-oss-20b", price 75 300)
    ∷ ("openai/gpt-oss-120b", price 150 600)
    ∷ ("meta-llama/llama-4-scout-17b-16e-instruct", price 110 340)
    ∷ ("qwen/qwen3-32b", price 290 590)
    ∷ ("llama-3.3-70b-versatile", price 590 790)
    ∷ ("llama-3.1-8b-instant", price 50 80)
    ∷ ("sonar", price 1000 1000)
    ∷ ("sonar-pro", price 3000 15_000)
    ∷ ("sonar-reasoning-pro", price 2000 8000)
    ∷ ("sonar-deep-research", price 2000 8000)
    ∷ ("command-a-plus", price 2500 10_000)
    ∷ ("command-a", price 2500 10_000)
    ∷ ("command-r-plus", price 2500 10_000)
    ∷ ("command-r", price 500 1500)
    ∷ ("command", price 1000 2000)
    ∷ ("command-light", price 300 600)
    ∷ ("amazon.nova-micro", price 35 140)
    ∷ ("amazon.nova-lite", price 60 240)
    ∷ ("amazon.nova-pro", price 800 3200)
    ∷ ("amazon.nova-premier", price 2000 8000)
    ∷ ("amazon.titan-text-express-v1", price 300 900)
    ∷ ("amazon.titan-text-lite-v1", price 150 450)
    ∷ ("meta.llama4-scout-17b-16e-instruct-v1:0", price 350 1000)
    ∷ ("meta.llama4-maverick-17b-128e-instruct-v1:0", price 500 1500)
    ∷ ("meta.llama3-3-70b-instruct-v1:0", price 2650 2650)
    ∷ ("deepseek.deepseek-v3-2-0324-v1:0", price 620 1850)
    ∷ []

-- `key.length`, in characters.
unfoldable pub size : String → ℕ
size String.[] = 0
size (String.◌∷◌ c s) = suc (size s)

-- `PRICING[model]`
unfoldable pub exact_price : String → Prices → Option ModelPrice
exact_price model [] = none
exact_price model ((key, p) ∷ prices) =
    let rest = exact_price model prices in if key == model then some p else rest

-- The loop over the table, with the best match so far and its length.
unfoldable pub longest_prefix : String → Prices → Option ModelPrice → ℕ → Option ModelPrice
unfolding size
longest_prefix model [] best best_len = best
longest_prefix model ((key, p) ∷ prices) best best_len =
    if starts_with model key && ltb best_len (size key)
    then longest_prefix model prices (some p) (size key)
    else longest_prefix model prices best best_len

unfoldable pub get_price : String → Prices → Option ModelPrice
unfolding exact_price longest_prefix
get_price model prices = elim (exact_price model prices) [
  | some p ↦ some p
  | none ↦ longest_prefix model prices none 0
]

unfoldable pub get_model_price : String → Option ModelPrice
unfolding get_price pricing
get_model_price model = get_price model pricing

-- Nano-dollars, or nothing for an unknown model.
unfoldable pub estimate_cost : TokenUsage → String → (is_local : Bool) → Option ℕ
unfolding get_model_price
estimate_cost usage model is_local = if is_local then some 0 else elim (get_model_price model) [
  | none ↦ none
  | some p ↦ some (usage.prompt_tokens * p.input + usage.completion_tokens * p.output)
]

unfoldable pub is_local_provider : String → Bool
is_local_provider provider_type = provider_type == "ollama"
