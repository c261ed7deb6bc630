-- ===== src/Resilience/Limits.antt =====
-- src/providers/resilience/rate-limiter.ts: the known limits of the providers, and the limiters that
-- are shared by name. A registry is the list of its limiters.
use open_thinking.Base.{ℕ, String, Option, none, some, List, [], ◌∷◌, ◌==◌, if◌then◌else◌}
use open_thinking.Resilience.Bucket.{Bucket, create_bucket}
use open_thinking.Resilience.Window.{Window, create_window}

unfoldable pub find_named : {A : Type 0} → String → List (String × A) → Option A
find_named name [] = none
find_named name ((n, x) ∷ rest) =
    let later = find_named name rest in if n == name then some x else later

unfoldable pub provider_default_rpm : List (String × ℕ)
provider_default_rpm =
    ("openai", 500)
    ∷ ("anthropic", 50)
    ∷ ("google", 360)
    ∷ ("mistral", 120)
    ∷ ("xai", 60)
    ∷ ("deepseek", 60)
    ∷ ("groq", 30)
    ∷ ("together", 600)
    ∷ ("fireworks", 600)
    ∷ ("openrouter", 200)
    ∷ ("perplexity", 50)
    ∷ ("cohere", 100)
    ∷ ("ollama", 10_000)
    ∷ ("lmstudio", 10_000)
    ∷ ("llamacpp", 10_000)
    ∷ []

unfoldable pub provider_default_tpm : List (String × ℕ)
provider_default_tpm =
    ("openai", 200_000)
    ∷ ("anthropic", 80_000)
    ∷ ("google", 1_000_000)
    ∷ ("mistral", 500_000)
    ∷ ("xai", 100_000)
    ∷ ("deepseek", 500_000)
    ∷ ("groq", 100_000)
    ∷ ("together", 1_000_000)
    ∷ ("fireworks", 1_000_000)
    ∷ ("openrouter", 200_000)
    ∷ ("perplexity", 100_000)
    ∷ ("cohere", 300_000)
    ∷ ("ollama", 100_000_000)
    ∷ ("lmstudio", 100_000_000)
    ∷ ("llamacpp", 100_000_000)
    ∷ []

-- The given limit, the provider's, or the general one.
unfoldable pub effective_limit : Option ℕ → String → List (String × ℕ) → ℕ → ℕ
unfolding find_named
effective_limit (some given) name defaults general = given
effective_limit none name defaults general = elim (find_named name defaults) [
  | none ↦ general
  | some known ↦ known
]

unfoldable pub get_rate_limiter :
    (now : ℕ) (provider_name : String) (rpm : Option ℕ)
    → List (String × Bucket)
    → Bucket × List (String × Bucket)
unfolding find_named effective_limit provider_default_rpm create_bucket
get_rate_limiter now provider_name rpm registry = elim (find_named provider_name registry) [
  | some limiter ↦ (limiter, registry)
  | none ↦
      let limiter =
        create_bucket now (effective_limit rpm provider_name provider_default_rpm 200) in
      (limiter, (provider_name, limiter) ∷ registry)
]

unfoldable pub get_tpm_limiter :
    (provider_name : String) (tpm : Option ℕ)
    → List (String × Window)
    → Window × List (String × Window)
unfolding find_named effective_limit provider_default_tpm create_window
get_tpm_limiter provider_name tpm registry = elim (find_named provider_name registry) [
  | some limiter ↦ (limiter, registry)
  | none ↦
      let limiter =
        create_window (effective_limit tpm provider_name provider_default_tpm 200_000) in
      (limiter, (provider_name, limiter) ∷ registry)
]

abbrev pub clear_rate_limiters : List (String × Bucket) → List (String × Bucket)
clear_rate_limiters registry = []

abbrev pub clear_tpm_limiters : List (String × Window) → List (String × Window)
clear_tpm_limiters registry = []
