-- ===== src/Bot/Tests.antt =====
-- Runs of the dialogue of cmd/bot/main.go.
use chatops.Bot.Users.{enter, state_of}
use chatops.Base.{String, [], ◌∷◌}
use chatops.Bot.Dialogue.Trace.{after}
use chatops.Bot.Dialogue.Invariant.{IsWellFormed, after-IsWellFormed}
use chatops.Bot.Dialogue.{
  Pending, on_text, Dialogue, with_confirmation, on_yes_pressed, on_command, yes_pressed, step,
  Event, ask_confirmation, start, run, initial, text, respond, not_for_you,
}
use chatops.Base.{
  List, ℤ, Bool, ◌≡◌, none, ◌∷◌, pos, some, str_eq, false, true, if◌then◌else◌, ◌&&◌, ◌↔◌, refl,
  arith, eqb_ℤ,
}
use chatops.Bot.Dialogue.Trace.{Accepted, Asked, run-Asked}
use chatops.Bot.Dialogue.Login.{after_text, started, login_mixed, authorization_shared}
use chatops.Bot.Commands.{find_handler, scale_handler, restart_handler, Handler}
use chatops.Bot.Users.{state_of}
use chatops.Bot.Dialogue.Gate.{on_command-ask_confirmation, with_confirmation-replaces}

abbrev passwords : String → String → Bool
passwords login password = str_eq login "anna" && str_eq password "secret"

abbrev says : ℤ → String → Event
says id t = text none passwords id t

abbrev anna : ℤ
anna = pos 11

abbrev boris : ℤ
boris = pos 22

abbrev restart_web : Pending
restart_web = record { handler = restart_handler; sender = anna; text = "/restart shop/web" }

abbrev scale_web : Pending
scale_web = record { handler = scale_handler; sender = boris; text = "/scale shop/web 3" }

-- The latest event stands first.
abbrev login_events : List Event
login_events = says anna "secret" ∷ says anna "anna" ∷ start anna ∷ []

abbrev asked_events : List Event
asked_events = says anna "/restart shop/web" ∷ login_events

ran : (step (yes_pressed anna) (after asked_events)).1 ≡ run restart_web
unfolding after step state_of enter find_handler
ran = refl

run-Asked_example :
    (yes_pressed anna ≡ yes_pressed anna) × Asked restart_web asked_events × Accepted asked_events
run-Asked_example = run-Asked asked_events (yes_pressed anna) restart_web ran

on_command-ask_confirmation_example :
    ((on_command none anna "/restart shop/web" (after login_events)).1 ≡ ask_confirmation) ↔ (
      (state_of anna (after login_events).user_state ≡ none)
      × ((after login_events).authorized ≡ true)
      × ((h : Handler) × (find_handler "/restart shop/web" ≡ some h)))
on_command-ask_confirmation_example =
    on_command-ask_confirmation anna "/restart shop/web" (after login_events)

with_confirmation-replaces_example :
    let twice =
      (with_confirmation none scale_web (with_confirmation none restart_web initial).0).0 in
    ((on_yes_pressed anna twice).1
      ≡ (if eqb_ℤ anna boris then run scale_web else respond not_for_you))
    × ((on_yes_pressed boris (on_yes_pressed boris twice).0).1 ≡ run scale_web)
with_confirmation-replaces_example = with_confirmation-replaces restart_web scale_web initial

-- Anna has named her login and owes the password.
abbrev waiting : Dialogue
waiting = after (says anna "anna" ∷ start anna ∷ [])

owes : state_of anna waiting.user_state ≡ some "password"
unfolding after step state_of enter
owes = refl

known : find_handler "/scale shop/web 3" ≡ some scale_handler
unfolding find_handler
known = refl

free : state_of boris waiting.user_state ≡ none
unfolding after step state_of enter
free = refl

right : passwords waiting.user_login "secret" ≡ true
unfolding after step state_of enter find_handler
right = refl

login_mixed_example :
    (after_text passwords anna "secret"
      (after_text passwords boris "boris" (started boris waiting))).authorized
    ≡ false
login_mixed_example =
    login_mixed passwords anna boris "boris" "secret" waiting (λ e. absurd (ground (arith, e))) refl
      refl owes

authorization_shared_example :
    (on_text none passwords boris "/scale shop/web 3"
      (after_text passwords anna "secret" waiting)).1
    ≡ ask_confirmation
authorization_shared_example =
    authorization_shared passwords anna boris "secret" "/scale shop/web 3" scale_handler waiting
      refl refl owes right free known

after-IsWellFormed_example : IsWellFormed (after asked_events)
after-IsWellFormed_example = after-IsWellFormed asked_events
