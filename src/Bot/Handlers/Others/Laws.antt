-- ===== src/Bot/Handlers/Others/Laws.antt =====
-- From the text of /ai_help to the question.
use Prim.Native.String.{◌++◌, String}
use text.Mathlib.TextLemmas.{nil-append, cons-append}
use chatops.Bot.Handlers.Others.{
  ai_help_handler, Tables, Gpt, Chat, Talk, told_answer, send_message, ai_help_parts, split_n,
}
use chatops.Base.{◌≡◌, refl, ap, ◌∙◌}
use chatops.Go.Strings.Split.{Lacks, split_n-two}

module _ {W S : Type 0} (tables : Tables W) (gpt : Gpt W) (chat : Chat S) where
  blank_lem : (s : String) → " " ++ s ≡ Prim.Native.String.◌∷◌ " " s
  blank_lem s = rw (cons-append, nil-append) refl

  -- An /ai_help command of a word without a blank and of a question asks exactly that question,
  -- whatever it holds, and the answer or the error of SendMessage is what is sent.
  pub ai_help_handler_lem :
      (word question : String) (t : Talk W S)
      → Lacks " " word
      → ai_help_handler tables gpt chat (word ++ " " ++ question) t
        ≡ told_answer tables gpt chat (send_message gpt question t.world) t.chat
  unfolding ai_help_handler
  ai_help_handler_lem word question t plain =
      ap (λ parts. ai_help_parts tables gpt chat parts t)
        (ap (λ s. split_n 2 " " (word ++ s)) (blank_lem question)
          ∙ split_n-two " " word question plain)
