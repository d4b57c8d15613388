-- ===== src/Bot/Dialogue/Login.antt =====
-- The login, alone and in the company of other users.
use chatops.Base.{
  ◌≡◌, String, Bool, ℤ, false, none, if◌then◌else◌, some, ◌≢◌, true, sym, ◌∙◌, arith, eqb_ℤ_iff,
  Option, refl, ap,
}
use chatops.Bot.Dialogue.{
  on_start, on_text, Dialogue, has_prefix, state_of, say, UserStates, Handler, enter, forget,
  find_handler, ask_confirmation, on_words, Error, on_command,
}
use chatops.Bot.Users.{state_of-enter, state_of-forget}
use chatops.Bot.Dialogue.Gate.{on_command-ask_confirmation}

pub plain_text :
    (sent : Option Error) (accepts : String → String → Bool) (id : ℤ) (t : String) (d : Dialogue)
    → has_prefix t "/" ≡ false
    → on_text sent accepts id t d ≡ on_words accepts id t d
unfolding on_text
plain_text sent accepts id t d h =
    ap (λ (b : Bool). if b then on_command sent id t d else on_words accepts id t d) h

pub command_text :
    (sent : Option Error) (accepts : String → String → Bool) (id : ℤ) (t : String) (d : Dialogue)
    → has_prefix t "/" ≡ true
    → on_text sent accepts id t d ≡ on_command sent id t d
unfolding on_text
command_text sent accepts id t d h =
    ap (λ (b : Bool). if b then on_command sent id t d else on_words accepts id t d) h

-- A text from a user who owes the login.
pub told_login :
    (accepts : String → String → Bool) (id : ℤ) (t : String) (d : Dialogue)
    → has_prefix t "/" ≡ false
    → state_of id d.user_state ≡ some "login"
    → on_text none accepts id t d ≡ (
      record d { user_state = enter id "password" d.user_state; user_login = t },
      say "Теперь введите пароль:",
    )
unfolding on_words
told_login accepts id t d plain owes = plain_text none accepts id t d plain ∙ rw (owes, on_words)

-- A text from a user who owes the password.
pub told_password :
    (accepts : String → String → Bool) (id : ℤ) (t : String) (d : Dialogue)
    → has_prefix t "/" ≡ false
    → state_of id d.user_state ≡ some "password"
    → on_text none accepts id t d ≡ (
      record d {
        user_state = forget id d.user_state;
        user_password = t;
        authorized = accepts d.user_login t;
      },
      say (if accepts d.user_login t then "Авторизация успешна!" else "Неверный логин или пароль."),
    )
unfolding on_words
told_password accepts id t d plain owes = plain_text none accepts id t d plain ∙ rw (owes, on_words)

pub entered : (id : ℤ) (s : String) (m : UserStates) → state_of id (enter id s m) ≡ some s
entered id s m = ground (arith, state_of-enter id id s m, eqb_ℤ_iff id id)

entered_other :
    (id j : ℤ) (s : String) (m : UserStates) → id ≢ j → state_of j (enter id s m) ≡ state_of j m
entered_other id j s m ne = ground (arith, state_of-enter id j s m, eqb_ℤ_iff id j)

pub forgotten : (id : ℤ) (m : UserStates) → state_of id (forget id m) ≡ none
forgotten id m = ground (arith, state_of-forget id id m, eqb_ℤ_iff id id)

-- The state after a user has sent /start, and after the login that follows.
abbrev pub started : ℤ → Dialogue → Dialogue
started id d = (on_start id d).0

started_other :
    (id j : ℤ) (d : Dialogue)
    → id ≢ j
    → state_of j (started id d).user_state ≡ state_of j d.user_state
unfolding on_start
started_other id j d ne = entered_other id j "login" d.user_state ne

abbrev pub after_text : (String → String → Bool) → ℤ → String → Dialogue → Dialogue
after_text accepts id t d = (on_text none accepts id t d).0

-- /start, a login and a password of one user, neither with a slash in front and with nobody in
-- between, leave the bot authorized exactly if that pair is accepted, and the user out of the
-- login.
pub login_lem :
    (accepts : String → String → Bool) (id : ℤ) (login password : String) (d : Dialogue)
    → has_prefix login "/" ≡ false
    → has_prefix password "/" ≡ false
    → ((after_text accepts id password (after_text accepts id login (started id d))).authorized
        ≡ accepts login password)
      × (state_of id
            (after_text accepts id password (after_text accepts id login (started id d))).user_state
          ≡ none)
login_lem accepts id login password d l p =
    let one =
      told_login accepts id login (started id d) l
        (unfold on_start in entered id "login" d.user_state) in
    let two =
      told_password accepts id password (after_text accepts id login (started id d)) p
        (rw (one, after_text) (entered id "password" (started id d).user_state)) in
    (rw (two, after_text) (rw (one, after_text) refl), rw (two, after_text) (forgotten id _))

-- If a user owes the password, and then another user sends /start and a login, the password of the
-- first is checked against the login of the second, where neither text has a slash in front.
pub login_mixed :
    (accepts : String → String → Bool) (a b : ℤ) (other password : String) (d : Dialogue)
    → a ≢ b
    → has_prefix other "/" ≡ false
    → has_prefix password "/" ≡ false
    → state_of a d.user_state ≡ some "password"
    → (after_text accepts a password (after_text accepts b other (started b d))).authorized
      ≡ accepts other password
login_mixed accepts a b other password d ne o p owes =
    let one =
      told_login accepts b other (started b d) o
        (unfold on_start in entered b "login" d.user_state) in
    let still : state_of a (after_text accepts b other (started b d)).user_state ≡ some "password" =
      rw (one, after_text)
        (entered_other b a "password" (started b d).user_state (λ e. ne (sym e))
          ∙ started_other b a d (λ e. ne (sym e))
          ∙ owes) in
    rw
      (
        told_password accepts a password (after_text accepts b other (started b d)) p still,
        after_text,
      )
      (rw (one, after_text) refl)

-- Once a user who owed the password sends one that is accepted, a known command of any user who is
-- in no login is answered by the question whether to run it.
pub authorization_shared :
    (accepts : String → String → Bool) (a b : ℤ) (password t : String) (h : Handler) (d : Dialogue)
    → has_prefix password "/" ≡ false
    → has_prefix t "/" ≡ true
    → state_of a d.user_state ≡ some "password"
    → accepts d.user_login password ≡ true
    → state_of b d.user_state ≡ none
    → find_handler t ≡ some h
    → (on_text none accepts b t (after_text accepts a password d)).1 ≡ ask_confirmation
authorization_shared accepts a b password t h d p c owes right free known =
    let now = told_password accepts a password d p owes in
    rw (command_text none accepts b t (after_text accepts a password d) c) (
      (on_command-ask_confirmation b t (after_text accepts a password d)).1 (
        rw (now, after_text) (ground (arith, state_of-forget a b d.user_state, free)),
        rw (now, after_text) right,
        (h, known),
      ))
