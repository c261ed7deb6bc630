-- ===== src/Agent/Loop/Accounts/Watched.antt =====
-- An environment that keeps every request to the model with its answer.
use open_thinking.Base.{Bool, Option, none, some, List, ◌∷◌}
use open_thinking.Result.{Result}
use open_thinking.Errors.{ProviderError}
use open_thinking.Chat.{Message, ChatRequest, ChatResponse}
use open_thinking.Agent.Memory.{Environment, WorkSummary}

abbrev pub Answer : Type 0
Answer = Result ChatResponse ProviderError

-- The latest request first.
abbrev pub Log : Type 0
Log = List (ChatRequest × Answer)

abbrev watched_injection :
    {W : Type 0} → Option (W → List Message × W) → Option (W × Log → List Message × (W × Log))
watched_injection none = none
watched_injection (some get) = some (λ (w, l). let (m, w') = get w in (m, (w', l)))

abbrev watched_question :
    {W : Type 0}
    → Option (WorkSummary → W → Bool × W)
    → Option (WorkSummary → W × Log → Bool × (W × Log))
watched_question none = none
watched_question (some ask) = some (λ summary (w, l). let (b, w') = ask summary w in (b, (w', l)))

abbrev pub watched : {W : Type 0} → Environment W → Environment (W × Log)
watched env = record {
  aborted = λ (w, l). env.aborted w;
  chat = λ request (w, l).
      let (answer, w') = env.chat request w in (answer, (w', (request, answer) ∷ l));
  execute = λ name args (w, l). let (r, w') = env.execute name args w in (r, (w', l));
  injected = watched_injection env.injected;
  on_token_limit = watched_question env.on_token_limit;
  definitions = env.definitions;
  parse_args = env.parse_args;
  content_text = env.content_text;
  error_json = env.error_json;
}
