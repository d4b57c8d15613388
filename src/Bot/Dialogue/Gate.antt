-- ===== src/Bot/Dialogue/Gate.antt =====
-- When a command is passed on to its handler.
use chatops.Base.{
  ◌≡◌, ℤ, Option, String, none, ◌≢◌, ◌↔◌, Option-cases, some, inl, true, arith, inr, eqb_ℤ_iff,
  Bool-cases, if◌then◌else◌, eqb_ℤ,
}
use chatops.Bot.Dialogue.{
  on_yes_pressed, on_command, Dialogue, Error, Pending, ask_confirmation, run, state_of,
  find_handler, Handler, with_confirmation, respond, not_for_you,
}

asked-allowed :
    (id : ℤ) (t : String) (d : Dialogue)
    → (on_command none id t d).1 ≡ ask_confirmation
    → (state_of id d.user_state ≡ none)
      × (d.authorized ≡ true)
      × ((h : Handler) × (find_handler t ≡ some h))
unfolding on_command
asked-allowed id t d h = elim (Option-cases (state_of id d.user_state)) [
  | inr (s, e) ↦ absurd (ground (arith, e))
  | inl e ↦ elim (Bool-cases d.authorized) [
    | inr a ↦ absurd (ground (arith, e, a))
    | inl a ↦ elim (Option-cases (find_handler t)) [
      | inl f ↦ absurd (ground (arith, e, a, f))
      | inr (handler, f) ↦ (e, a, (handler, f))
    ]
  ]
]

allowed-asked :
    (id : ℤ) (t : String) (d : Dialogue)
    → state_of id d.user_state ≡ none
    → d.authorized ≡ true
    → (h : Handler) → find_handler t ≡ some h
    → (on_command none id t d).1 ≡ ask_confirmation
unfolding on_command
allowed-asked id t d e a h f = ground (arith, e, a, f)

-- A message that begins with a slash, where the question can be sent, has it sent exactly if its
-- sender is in no login, the bot is authorized, and its first word is a command of the table.
pub on_command-ask_confirmation :
    (id : ℤ) (t : String) (d : Dialogue)
    → ((on_command none id t d).1 ≡ ask_confirmation) ↔ (
        (state_of id d.user_state ≡ none)
        × (d.authorized ≡ true)
        × ((h : Handler) × (find_handler t ≡ some h)))
on_command-ask_confirmation id t d =
    (asked-allowed id t d, λ h. allowed-asked id t d h.0 h.1 h.2.0 h.2.1)

-- A message that begins with a slash changes nothing of the state of the bot where it is not
-- answered by the question.
pub on_command-unchanged :
    (sent : Option Error) (id : ℤ) (t : String) (d : Dialogue)
    → (on_command sent id t d).1 ≢ ask_confirmation
    → (on_command sent id t d).0 ≡ d
unfolding on_command
on_command-unchanged sent id t d h = elim (Option-cases (find_handler t)) [
  | inl e ↦ ground (arith, e)
  | inr (handler, e) ↦ ground (arith, e)
]

-- A press of "Да" runs a command exactly if the command waits and the user who presses wrote it.
pub run-sender :
    (id : ℤ) (d : Dialogue) (p : Pending)
    → ((on_yes_pressed id d).1 ≡ run p) ↔ ((d.on_yes ≡ some p) × (id ≡ p.sender))
unfolding on_yes_pressed
run-sender id d p = elim (Option-cases d.on_yes) [
  | inl e ↦ ground (arith, e)
  | inr (q, e) ↦ ground (arith, e, eqb_ℤ_iff id q.sender)
]

-- A second command replaces the first: the press of "Да" by the user of the first runs the second
-- command if that user wrote it, and is refused otherwise; and of two presses by the user of the
-- second the last, too, runs the second command.
pub with_confirmation-replaces :
    (first second : Pending) (d : Dialogue)
    → let twice = (with_confirmation none second (with_confirmation none first d).0).0 in
      ((on_yes_pressed first.sender twice).1
        ≡ (if eqb_ℤ first.sender second.sender then run second else respond not_for_you))
      × ((on_yes_pressed second.sender (on_yes_pressed second.sender twice).0).1 ≡ run second)
unfolding with_confirmation on_yes_pressed
with_confirmation-replaces first second d =
    (ground arith, ground (arith, eqb_ℤ_iff second.sender second.sender))
