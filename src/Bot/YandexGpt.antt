-- ===== src/Bot/YandexGpt.antt =====
-- internal/bot/yandexgpt/client.go.
use Prim.Native.String.{◌++◌}
use chatops.Base.{String, List, [], ◌∷◌, if◌then◌else◌, str_eq}
use chatops.Effects.{Call, Result, err, ok}

-- What SendMessage calls outside the program: os.ReadFile of system_prompt.txt, os.Getenv, and the
-- completion of go-yandexgpt for a key, a catalog, a system prompt and a text, whose alternatives are
-- given by their texts.
pub record Gpt (W : Type 0) : Type 0 where
  pub read_prompt : Call W String
  pub get_env : String → String
  pub get_completion : String → String → String → String → Call W (List String)

module _ {W : Type 0} (gpt : Gpt W) where
  abbrev pub first_answer : Result (List String) × W → Result String × W
  first_answer (err e, w) = (err ("failed to get GPT completion: " ++ e), w)
  first_answer (ok [], w) = (err "no response alternatives received", w)
  first_answer (ok (answer ∷ _), w) = (ok answer, w)

  abbrev pub with_prompt : String → Result String × W → Result String × W
  with_prompt text (err e, w) = (err ("failed to read system prompt: " ++ e), w)
  with_prompt text (ok prompt, w) =
      if str_eq (gpt.get_env "GPT_KEY") ""
      then (err "GPT_KEY not found in environment", w)
      else if str_eq (gpt.get_env "GPT_CATALOG") ""
      then (err "GPT_CATALOG not found in environment", w)
      else first_answer
          (gpt.get_completion (gpt.get_env "GPT_KEY") (gpt.get_env "GPT_CATALOG") prompt text w)

  unfoldable pub send_message : String → Call W String
  send_message text w = with_prompt text (gpt.read_prompt w)
