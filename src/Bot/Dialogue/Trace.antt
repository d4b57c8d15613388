-- ===== src/Bot/Dialogue/Trace.antt =====
-- Whole runs of the bot: what must have happened before a command is run.
use chatops.Base.{
  List, [], ◌∷◌, ◌≡◌, String, ◌⊎◌, true, Option, Bool, ℤ, some, arith, Option-cases, none, inl, inr,
  str_eq_iff, str_eq, Bool-cases, ap, sym, ◌∙◌, ◌≢◌,
}
use chatops.Bot.Dialogue.{
  on_command, Pending, on_words, Event, Dialogue, text, Error, initial, state_of, find_handler,
  step, start, run, help, yes_pressed, or_empty, has_prefix, no_pressed, on_no_pressed,
}
use chatops.Bot.Dialogue.Login.{command_text, plain_text}
use chatops.Bot.Dialogue.Gate.{run-sender}

-- The state after a list of events, the latest first.
unfoldable pub after : List Event → Dialogue
after [] = initial
after (e ∷ es) = (step e (after es)).0

-- The event is a password that is accepted together with the login kept in the state.
abbrev pub Accepts : Event → Dialogue → Type 0
Accepts (text sent accepts id t) d =
    (state_of id d.user_state ≡ some "password") × (accepts d.user_login t ≡ true)
Accepts _ d = ⊥

-- The event is the message of the pending command, from its sender.
abbrev pub Asks : Pending → Event → Type 0
Asks p (text sent accepts id t) =
    (id ≡ p.sender) × (t ≡ p.text) × (find_handler t ≡ some p.handler) × (sent ≡ none)
Asks p _ = ⊥

abbrev pub Accepted : List Event → Type 0
Accepted [] = ⊥
Accepted (e ∷ es) = Accepts e (after es) ⊎ Accepted es

-- The command was written, its question was sent, and the bot was authorized at that moment.
abbrev pub Asked : Pending → List Event → Type 0
Asked p [] = ⊥
Asked p (e ∷ es) = (Asks p e × ((after es).authorized ≡ true)) ⊎ Asked p es

at_password : (o : Option String) → str_eq (or_empty o) "password" ≡ true → o ≡ some "password"
at_password none h = cc
at_password (some s) h = ap some ((str_eq_iff s "password").0 h)

authorized-on_words :
    (accepts : String → String → Bool) (id : ℤ) (t : String) (d : Dialogue)
    → (on_words accepts id t d).0.authorized ≡ true
    → (d.authorized ≡ true)
      ⊎ ((state_of id d.user_state ≡ some "password") × (accepts d.user_login t ≡ true))
unfolding on_words
authorized-on_words accepts id t d h =
    elim (Bool-cases (str_eq (or_empty (state_of id d.user_state)) "login")) [
      | inl l ↦ inl (ground (arith, l))
      | inr l ↦ elim (Bool-cases (str_eq (or_empty (state_of id d.user_state)) "password")) [
        | inl p ↦ inr (at_password (state_of id d.user_state) p, ground (arith, l, p))
        | inr p ↦ inl (ground (arith, l, p))
      ]
    ]

same-on_words :
    (accepts : String → String → Bool) (id : ℤ) (t : String) (d : Dialogue)
    → (on_words accepts id t d).0.on_yes ≡ d.on_yes
unfolding on_words
same-on_words accepts id t d = ground arith

authorized-on_command :
    (sent : Option Error) (id : ℤ) (t : String) (d : Dialogue)
    → (on_command sent id t d).0.authorized ≡ d.authorized
unfolding on_command
authorized-on_command sent id t d = ground arith

on_yes-on_command :
    (sent : Option Error) (id : ℤ) (t : String) (d : Dialogue) (p : Pending)
    → (on_command sent id t d).0.on_yes ≡ some p
    → (d.on_yes ≡ some p)
      ⊎ (((id ≡ p.sender) × (t ≡ p.text) × (find_handler t ≡ some p.handler) × (sent ≡ none))
          × (d.authorized ≡ true))
unfolding on_command
on_yes-on_command (some x) id t d p h = elim (Option-cases (find_handler t)) [
  | inl f ↦ inl (ground (arith, f))
  | inr (handler, f) ↦ inl (ground (arith, f))
]
on_yes-on_command none id t d p h = elim (Option-cases (find_handler t)) [
  | inl f ↦ inl (ground (arith, f))
  | inr (handler, f) ↦ ground (arith, f)
]

-- One event: where the authorization and a pending command come from.
authorized-step :
    (e : Event) (d : Dialogue)
    → (step e d).0.authorized ≡ true
    → (d.authorized ≡ true) ⊎ Accepts e d
unfolding step
authorized-step (start id) d h = inl h
authorized-step (help id) d h = inl h
authorized-step (text sent accepts id t) d h = elim (Bool-cases (has_prefix t "/")) [
  | inl c ↦
      inl (sym (authorized-on_command sent id t d) ∙ rw (command_text sent accepts id t d c) at h)
  | inr c ↦ authorized-on_words accepts id t d (rw (plain_text sent accepts id t d c) at h)
]
authorized-step (yes_pressed id) d h = inl h
authorized-step (no_pressed id) d h = inl h

on_yes-step :
    (e : Event) (d : Dialogue) (p : Pending)
    → (step e d).0.on_yes ≡ some p
    → (d.on_yes ≡ some p) ⊎ (Asks p e × (d.authorized ≡ true))
unfolding step
on_yes-step (start id) d p h = inl h
on_yes-step (help id) d p h = inl h
on_yes-step (text sent accepts id t) d p h = elim (Bool-cases (has_prefix t "/")) [
  | inl c ↦ on_yes-on_command sent id t d p (rw (command_text sent accepts id t d c) at h)
  | inr c ↦ inl (sym (same-on_words accepts id t d) ∙ rw (plain_text sent accepts id t d c) at h)
]
on_yes-step (yes_pressed id) d p h = inl h
on_yes-step (no_pressed id) d p h = inl h

-- If the bot is authorized after some events, then one of them was a password, from a user who
-- owed one, that was accepted together with the login then kept.
pub authorized-Accepted : (es : List Event) → (after es).authorized ≡ true → Accepted es
unfolding after
authorized-Accepted [] h = cc
authorized-Accepted (e ∷ es) h = elim (authorized-step e (after es) h) [
  | inl before ↦ inr (authorized-Accepted es before)
  | inr now ↦ inl now
]

on_yes-Asked : (es : List Event) (p : Pending) → (after es).on_yes ≡ some p → Asked p es
unfolding after
on_yes-Asked [] p h = cc
on_yes-Asked (e ∷ es) p h = elim (on_yes-step e (after es) p h) [
  | inl before ↦ inr (on_yes-Asked es p before)
  | inr now ↦ inl now
]

Asked-Accepted : (es : List Event) (p : Pending) → Asked p es → Accepted es
Asked-Accepted [] p h = h
Asked-Accepted (e ∷ es) p (inl (asks, authorized)) = inr (authorized-Accepted es authorized)
Asked-Accepted (e ∷ es) p (inr before) = inr (Asked-Accepted es p before)

command_never_runs :
    (sent : Option Error) (id : ℤ) (t : String) (d : Dialogue) (p : Pending)
    → (on_command sent id t d).1 ≢ run p
unfolding on_command
command_never_runs (some x) id t d p = elim (Option-cases (find_handler t)) [
  | inl f ↦ ground (arith, f)
  | inr (handler, f) ↦ ground (arith, f)
]
command_never_runs none id t d p = elim (Option-cases (find_handler t)) [
  | inl f ↦ ground (arith, f)
  | inr (handler, f) ↦ ground (arith, f)
]

words_never_run :
    (accepts : String → String → Bool) (id : ℤ) (t : String) (d : Dialogue) (p : Pending)
    → (on_words accepts id t d).1 ≢ run p
unfolding on_words
words_never_run accepts id t d p = ground arith

no_never_runs : (id : ℤ) (d : Dialogue) (p : Pending) → (on_no_pressed id d).1 ≢ run p
unfolding on_no_pressed
no_never_runs id d p = elim (Option-cases d.on_no) [
  | inl e ↦ ground (arith, e)
  | inr (q, e) ↦ ground (arith, e)
]

run-step :
    (e : Event) (d : Dialogue) (p : Pending)
    → (step e d).1 ≡ run p
    → (e ≡ yes_pressed p.sender) × (d.on_yes ≡ some p)
unfolding step
run-step (start id) d p h = absurd (ground arith)
run-step (help id) d p h = absurd (ground arith)
run-step (text sent accepts id t) d p h = elim (Bool-cases (has_prefix t "/")) [
  | inl c ↦ absurd (command_never_runs sent id t d p (rw (command_text sent accepts id t d c) at h))
  | inr c ↦ absurd (words_never_run accepts id t d p (rw (plain_text sent accepts id t d c) at h))
]
run-step (yes_pressed id) d p h =
    let (pending, same) = (run-sender id d p).0 h in (ap yes_pressed same, pending)
run-step (no_pressed id) d p h = absurd (no_never_runs id d p h)

-- In every run of the bot from its first event, a command is run only at the press of "Да" by the
-- user who wrote it, after it was written as a command of the table and its question was sent
-- while the bot was authorized, which in turn was after a password had been accepted.
pub run-Asked :
    (es : List Event) (e : Event) (p : Pending)
    → (step e (after es)).1 ≡ run p
    → (e ≡ yes_pressed p.sender) × Asked p es × Accepted es
run-Asked es e p h =
    let (pressed, pending) = run-step e (after es) p h in
    let asked = on_yes-Asked es p pending in (pressed, asked, Asked-Accepted es p asked)
