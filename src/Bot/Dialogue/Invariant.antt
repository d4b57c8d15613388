-- ===== src/Bot/Dialogue/Invariant.antt =====
-- What holds of the variables of cmd/bot/main.go in every state that the bot can reach.
use chatops.Base.{
  ℤ, String, Bool, true, false, Option, none, some, List, [], ◌∷◌, ◌≡◌, ◌⊎◌, inl, inr, refl, All,
  Bool-cases, eqb_ℤ, str_eq, if◌then◌else◌,
}
use chatops.Effects.{Error}
use chatops.Bot.Users.{UserStates, forget, enter, state_of}
use chatops.Bot.Dialogue.{
  Dialogue, Event, step, start, help, text, yes_pressed, no_pressed, on_command, on_words, or_empty,
  has_prefix, find_handler, with_confirmation, Reply, Handler, Pending, is_there,
}
use chatops.Bot.Dialogue.Login.{command_text, plain_text}
use chatops.Bot.Dialogue.Trace.{after}

-- An entry of userState: a user who owes the login or the password.
abbrev pub IsStage : ℤ × String → Type 0
IsStage (id, s) = (s ≡ "login") ⊎ (s ≡ "password")

abbrev pub Absent : ℤ → UserStates → Type 0
Absent id m = All (λ e. eqb_ℤ e.0 id ≡ false) m

-- No user has two entries.
abbrev pub Single : UserStates → Type 0
Single [] = Unit
Single ((id, s) ∷ m) = Absent id m × Single m

pub record IsWellFormed (d : Dialogue) : Type 0 where
  pub stages : All IsStage d.user_state
  pub single : Single d.user_state
  -- Both buttons belong to one command.
  pub buttons : d.on_yes ≡ d.on_no

All-forget : (P : ℤ × String → Type 0) (id : ℤ) (m : UserStates) → All P m → All P (forget id m)
unfolding forget
All-forget P id [] h = h
All-forget P id ((i, s) ∷ m) (p, ps) = elim (Bool-cases (eqb_ℤ i id)) [
  | inl same ↦ rw same (All-forget P id m ps)
  | inr other ↦ rw other (p, All-forget P id m ps)
]

Absent-forget : (id : ℤ) (m : UserStates) → Absent id (forget id m)
unfolding forget
Absent-forget id [] = tt
Absent-forget id ((i, s) ∷ m) = elim (Bool-cases (eqb_ℤ i id)) [
  | inl same ↦ rw same (Absent-forget id m)
  | inr other ↦ rw other (other, Absent-forget id m)
]

Single-forget : (id : ℤ) (m : UserStates) → Single m → Single (forget id m)
unfolding forget
Single-forget id [] h = h
Single-forget id ((i, s) ∷ m) (apart, rest) = elim (Bool-cases (eqb_ℤ i id)) [
  | inl same ↦ rw same (Single-forget id m rest)
  | inr other ↦ rw other (All-forget (λ e. eqb_ℤ e.0 i ≡ false) id m apart, Single-forget id m rest)
]

forget-IsWellFormed :
    (id : ℤ) (login password : String) (b : Bool) (d : Dialogue)
    → IsWellFormed d
    → IsWellFormed
        (record d { user_state = forget id d.user_state; user_password = password; authorized = b })
forget-IsWellFormed id login password b d h = record {
  stages = All-forget IsStage id d.user_state h.stages;
  single = Single-forget id d.user_state h.single;
  buttons = h.buttons;
}

enter-IsWellFormed :
    (id : ℤ) (s login : String) (d : Dialogue)
    → IsStage (id, s)
    → IsWellFormed d
    → IsWellFormed (record d { user_state = enter id s d.user_state; user_login = login })
unfolding enter
enter-IsWellFormed id s login d stage h = record {
  stages = (stage, All-forget IsStage id d.user_state h.stages);
  single = (Absent-forget id d.user_state, Single-forget id d.user_state h.single);
  buttons = h.buttons;
}

branch-IsWellFormed :
    (b : Bool) (x y : Dialogue × Reply)
    → IsWellFormed x.0
    → IsWellFormed y.0
    → IsWellFormed (if b then x else y).0
branch-IsWellFormed true x y hx hy = hx
branch-IsWellFormed false x y hx hy = hy

confirmation-IsWellFormed :
    (sent : Option Error) (p : Pending) (d : Dialogue)
    → IsWellFormed d
    → IsWellFormed (with_confirmation sent p d).0
unfolding with_confirmation
confirmation-IsWellFormed (some e) p d h = h
confirmation-IsWellFormed none p d h = record {
  stages = h.stages;
  single = h.single;
  buttons = refl;
}

command-IsWellFormed :
    (sent : Option Error) (id : ℤ) (t : String) (d : Dialogue)
    → IsWellFormed d
    → IsWellFormed (on_command sent id t d).0
unfolding on_command
command-IsWellFormed sent id t d h =
    branch-IsWellFormed (is_there (state_of id d.user_state)) _ _ h
      (branch-IsWellFormed d.authorized _ _ (found (find_handler t)) h)
  where
    found :
        (o : Option Handler)
        → IsWellFormed
            (elim o as (λ o. Dialogue × Reply) [
              | some h ↦ with_confirmation sent (record { handler = h; sender = id; text = t }) d
              | none ↦ (d, Reply.say "Введите одну из предложенных команд")
            ]).0
    found none = h
    found (some handler) =
        confirmation-IsWellFormed sent (record { handler = handler; sender = id; text = t }) d h

words-IsWellFormed :
    (accepts : String → String → Bool) (id : ℤ) (t : String) (d : Dialogue)
    → IsWellFormed d
    → IsWellFormed (on_words accepts id t d).0
unfolding on_words
words-IsWellFormed accepts id t d h =
    elim (Bool-cases (str_eq (or_empty (state_of id d.user_state)) "login")) [
      | inl l ↦ rw l (enter-IsWellFormed id "password" t d (inr refl) h)
      | inr l ↦ elim (Bool-cases (str_eq (or_empty (state_of id d.user_state)) "password")) [
        | inl p ↦ rw (l, p) (forget-IsWellFormed id d.user_login t (accepts d.user_login t) d h)
        | inr p ↦ rw (l, p) h
      ]
    ]

step-IsWellFormed : (e : Event) (d : Dialogue) → IsWellFormed d → IsWellFormed (step e d).0
unfolding step
step-IsWellFormed (start id) d h = enter-IsWellFormed id "login" d.user_login d (inl refl) h
step-IsWellFormed (help id) d h = h
step-IsWellFormed (text sent accepts id t) d h = elim (Bool-cases (has_prefix t "/")) [
  | inl c ↦ rw (command_text sent accepts id t d c) (command-IsWellFormed sent id t d h)
  | inr c ↦ rw (plain_text sent accepts id t d c) (words-IsWellFormed accepts id t d h)
]
step-IsWellFormed (yes_pressed id) d h = h
step-IsWellFormed (no_pressed id) d h = h

-- In every state that the bot can reach, no user has two entries in userState, each entry says
-- that its user owes the login or the password, and both buttons belong to one command.
pub after-IsWellFormed : (es : List Event) → IsWellFormed (after es)
unfolding after
after-IsWellFormed [] = record { stages = tt; single = tt; buttons = refl }
after-IsWellFormed (e ∷ es) = step-IsWellFormed e (after es) (after-IsWellFormed es)
