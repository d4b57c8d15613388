-- ===== src/Bot/Handlers/Kube/Laws.antt =====
-- From the text of a message to the operation on the cluster.
use chatops.Bot.Handlers.Kube.{
  restart_handler, restart_parts, restart_data, restart_deployment_with_logs,
}
use chatops.Bot.Handlers.Kube.{
  scale_handler, rollback_handler, to_int32, every, scale_number, rollback_deployment_with_logs,
  scale_parts, rollback_parts, scale_data, rollback_data, rollback_number,
}
use Prim.Native.String.{◌++◌, ◌∷◌}
use chatops.Base.{String, [], ◌∷◌, ◌≡◌, refl, ℕ, InWidth, arith, ℤ, ◌∙◌, ap, sym}
use text.Mathlib.TextLemmas.{nil-append, cons-append}
use chatops.Kube.Log.{K8sClient}
use chatops.Bot.Handlers.Chat.{Chat, with_logs}
use chatops.Go.Strings.Split.{Lacks, Lacks-append, split_n-two, split_n-three}
use chatops.Go.Strings.{split_n}
use chatops.Go.Numbers.{half_64}
use chatops.Bot.Handlers.Kube.{nonempty, scale_deployment_with_logs, format_int, open_chan}
use chatops.Go.Numbers.Bounds.{Apart, to_int32-Apart}
use chatops.Go.Numbers.RoundTrip.{parse_int-format_int}

-- "/scale shop/web 3" from its four parts
abbrev pub command : String → String → String → String → String
command word namespace name count = word ++ " " ++ (namespace ++ "/" ++ name) ++ " " ++ count

slash_lem : (s : String) → "/" ++ s ≡ "/" ∷ s
slash_lem s = rw (cons-append, nil-append) refl

space_lem : (s : String) → " " ++ s ≡ " " ∷ s
space_lem s = rw (cons-append, nil-append) refl

pub command_lem :
    (word namespace name count : String)
    → command word namespace name count
      ≡ word ++ (" " ∷ ((namespace ++ ("/" ∷ name)) ++ (" " ∷ count)))
command_lem word namespace name count =
    ap (λ t. word ++ " " ++ (namespace ++ t) ++ " " ++ count) (slash_lem name)
    ∙ ap (λ t. word ++ " " ++ (namespace ++ ("/" ∷ name)) ++ t) (space_lem count)
    ∙ ap (λ t. word ++ t) (space_lem ((namespace ++ ("/" ∷ name)) ++ (" " ∷ count)))

module _ {W S : Type 0} (client : K8sClient W) (with_timeout : ℕ → W → W) (chat : Chat S) where
  -- A /restart command of a word without a blank and of namespace/name, where the namespace has no
  -- slash, restarts exactly that deployment.
  pub restart_handler_lem :
      (word namespace name : String)
      → Lacks " " word
      → Lacks "/" namespace
      → restart_handler client with_timeout chat (word ++ " " ++ (namespace ++ "/" ++ name))
        ≡ with_logs chat every
            (with_timeout 10)
            (restart_deployment_with_logs client namespace name open_chan)
  unfolding restart_handler
  restart_handler_lem word namespace name plain_word no_slash =
      ap (λ s. restart_parts client with_timeout chat (split_n 2 " " (word ++ s)))
        (space_lem (namespace ++ "/" ++ name))
      ∙ ap (restart_parts client with_timeout chat)
          (split_n-two " " word (namespace ++ "/" ++ name) plain_word)
      ∙ ap (λ s. restart_data client with_timeout chat (split_n 2 "/" (namespace ++ s)))
          (slash_lem name)
      ∙ ap (restart_data client with_timeout chat) (split_n-two "/" namespace name no_slash)

  module _ (word namespace name : String) (plain_word : Lacks " " word)
      (plain_namespace : Lacks " " namespace) (no_slash : Lacks "/" namespace)
      (plain_name : Lacks " " name) where
    target_Lacks : Lacks " " (namespace ++ ("/" ∷ name))
    target_Lacks =
        Lacks-append " " namespace ("/" ∷ name) plain_namespace (ground arith, plain_name)

    parts_lem :
        (count : String)
        → split_n 3 " " (command word namespace name count)
          ≡ word ∷ (namespace ++ ("/" ∷ name)) ∷ count ∷ []
    parts_lem count =
        rw (command_lem word namespace name count)
          (split_n-three " " word (namespace ++ ("/" ∷ name)) plain_word count target_Lacks)

    data_lem : split_n 2 "/" (namespace ++ ("/" ∷ name)) ≡ namespace ∷ name ∷ []
    data_lem = split_n-two "/" namespace name no_slash

    -- A /scale command of a word, namespace/name and a number that an int64 holds, where none of
    -- the words has a blank and the namespace no slash, scales the deployment to the int32 of that
    -- number.
    pub scale_handler_lem :
        (num : ℤ)
        → InWidth half_64 num
        → scale_handler client with_timeout chat (command word namespace name (format_int num))
          ≡ with_logs chat nonempty
              (with_timeout 20)
              (scale_deployment_with_logs client namespace name (to_int32 num) open_chan)
    unfolding scale_handler
    scale_handler_lem num fits =
        ap (scale_parts client with_timeout chat) (parts_lem (format_int num))
        ∙ ap (scale_data client with_timeout chat (format_int num)) data_lem
        ∙ ap (scale_number client with_timeout chat namespace name) (parse_int-format_int num fits)

    -- A /rollback command of a word, namespace/name and a number that an int64 holds, where none
    -- of the words has a blank and the namespace no slash, rolls the deployment back to exactly
    -- that revision.
    pub rollback_handler_lem :
        (num : ℤ)
        → InWidth half_64 num
        → rollback_handler client with_timeout chat (command word namespace name (format_int num))
          ≡ with_logs chat every
              (with_timeout 30)
              (rollback_deployment_with_logs client namespace name num open_chan)
    unfolding rollback_handler
    rollback_handler_lem num fits =
        ap (rollback_parts client with_timeout chat) (parts_lem (format_int num))
        ∙ ap (rollback_data client with_timeout chat (format_int num)) data_lem
        ∙ ap (rollback_number client with_timeout chat namespace name)
            (parse_int-format_int num fits)

    -- Two /scale commands that differ in their numbers alone, which are any two numbers of an
    -- int64 that differ by a multiple of 2 ^ 32, and are well-formed, do the same.
    pub scale_handler-Apart :
        (k : ℕ) (y z : ℤ)
        → Apart k y z
        → InWidth half_64 y
        → InWidth half_64 z
        → scale_handler client with_timeout chat (command word namespace name (format_int y))
          ≡ scale_handler client with_timeout chat (command word namespace name (format_int z))
    scale_handler-Apart k y z apart big small =
        scale_handler_lem y big
        ∙ ap
            (λ num.
              with_logs chat nonempty (with_timeout 20)
                (scale_deployment_with_logs client namespace name num open_chan))
            (to_int32-Apart k y z apart)
        ∙ sym (scale_handler_lem z small)
