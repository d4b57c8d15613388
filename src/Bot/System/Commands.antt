-- ===== src/Bot/System/Commands.antt =====
-- Commands on a deployment, from the message of a user to the client of Kubernetes.
use Prim.Native.String.{◌++◌}
use text.Mathlib.TextLemmas.{append_assoc}
use text.Mathlib.TextPositions.{starts_with_of_prefix}
use chatops.Base.{ℤ, String, true, ◌≡◌, refl, ap, sym, ◌∙◌, none, InWidth, arith}
use chatops.Go.Strings.{has_prefix, split_n}
use chatops.Go.Strings.Split.{Lacks, split_n-two}
use chatops.Go.Numbers.{half_64, format_int, to_int32}
use chatops.Go.Maps.{lookup}
use chatops.Kube.Log.{open_chan}
use chatops.Kube.Scale.{scale_deployment_with_logs}
use chatops.Kube.Rollback.{rollback_deployment_with_logs}
use chatops.Bot.Users.{state_of}
use chatops.Bot.Commands.{Handler, find_handler, command_word, command_handlers, first}
use chatops.Bot.Handlers.Chat.{Talk, with_logs}
use chatops.Bot.Handlers.Kube.{nonempty, every}
use chatops.Bot.Handlers.Kube.Laws.{command, command_lem, scale_handler_lem, rollback_handler_lem}
use chatops.Bot.System.{Services, Bot, yes_sent, text_sent, perform, run_handler}
use chatops.Bot.System.Laws.{perform-confirmed}

known :
    (word namespace name count : String)
    → Lacks " " word
    → find_handler (command word namespace name count) ≡ lookup word command_handlers
unfolding find_handler command_word
known word namespace name count plain =
    ap (λ t. lookup (first (split_n 2 " " t)) command_handlers)
      (command_lem word namespace name count)
    ∙ ap (λ parts. lookup (first parts) command_handlers) (split_n-two " " word _ plain)

scale_Lacks : Lacks " " "/scale"
scale_Lacks = ground arith

rollback_Lacks : Lacks " " "/rollback"
rollback_Lacks = ground arith

slash : (word rest : String) → has_prefix (("/" ++ word) ++ rest) "/" ≡ true
slash word rest = starts_with_of_prefix "/" _ (word ++ rest, sym (append_assoc "/" word rest))

module _ {W Q F S : Type 0} (s : Services W Q F S) (b : Bot W S) (id : ℤ) (namespace name : String)
    (plain_namespace : Lacks " " namespace) (no_slash : Lacks "/" namespace)
    (plain_name : Lacks " " name) (num : ℤ) (fits : InWidth half_64 num)
    (free : state_of id b.dialogue.user_state ≡ none)
    (authorized : b.dialogue.authorized ≡ true) where
  -- The talk after a message and the press of "Да" by its sender.
  abbrev pub confirmed : String → Talk W S
  confirmed t = (perform s (yes_sent id) (perform s (text_sent none id t) b).1).1.talk

  -- A message "/scale namespace/name number" of a user who is in no login, while the bot is
  -- authorized, with the press of "Да" by that user behind it, leaves the world and the chat as
  -- ScaleDeploymentWithLogs does on that deployment with the int32 of that number, where the
  -- number is one that an int64 holds, the names have no blank and the namespace no slash.
  pub scale-confirmed :
      confirmed (command "/scale" namespace name (format_int num))
      ≡ (with_logs s.chat nonempty
          (s.with_timeout 20)
          (scale_deployment_with_logs s.client namespace name (to_int32 num) open_chan)
          b.talk).1
  unfolding run_handler
  scale-confirmed =
      let t = command "/scale" namespace name (format_int num) in
      ap (λ r. r.1.talk)
        (perform-confirmed s b id t Handler.scale_handler (slash "scale" _) free authorized (
          known "/scale" namespace name (format_int num) scale_Lacks
          ∙ unfold lookup in unfold command_handlers in refl))
      ∙ ap (λ f. (f b.talk).1)
          (scale_handler_lem s.client s.with_timeout s.chat "/scale" namespace name scale_Lacks
            plain_namespace no_slash plain_name num fits)

  -- A message "/rollback namespace/name number" of a user who is in no login, while the bot is
  -- authorized, with the press of "Да" by that user behind it, leaves the world and the chat as
  -- RollbackDeploymentWithLogs does on that deployment with exactly that revision, where the
  -- number is one that an int64 holds, the names have no blank and the namespace no slash.
  pub rollback-confirmed :
      confirmed (command "/rollback" namespace name (format_int num))
      ≡ (with_logs s.chat every
          (s.with_timeout 30)
          (rollback_deployment_with_logs s.client namespace name num open_chan)
          b.talk).1
  unfolding run_handler
  rollback-confirmed =
      let t = command "/rollback" namespace name (format_int num) in
      ap (λ r. r.1.talk)
        (perform-confirmed s b id t Handler.rollback_handler (slash "rollback" _) free authorized (
          known "/rollback" namespace name (format_int num) rollback_Lacks
          ∙ unfold lookup in unfold command_handlers in refl))
      ∙ ap (λ f. (f b.talk).1)
          (rollback_handler_lem s.client s.with_timeout s.chat "/rollback" namespace name
            rollback_Lacks plain_namespace no_slash plain_name num fits)
