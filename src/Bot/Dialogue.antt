-- ===== src/Bot/Dialogue.antt =====
-- The handlers that main of cmd/bot/main.go registers, withConfirmation, and the variables that
-- they share. An event is one update of Telegram, handled whole before the next; the answers of
-- what lies outside (was the question sent, are login and password right) come with it.
pub mod Login
pub mod Gate
pub mod Trace
pub mod Invariant
use chatops.Base.{
  ℤ, String, Bool, true, false, Option, none, some, List, [], ◌∷◌, ◌≡◌, if◌then◌else◌, eqb_ℤ,
  str_eq,
}
use chatops.Bot.Commands.{Handler, help_message, find_handler}
use chatops.Effects.{Error}
use chatops.Go.Maps.{or_empty}
use chatops.Bot.Users.{enter, UserStates, state_of, forget}
use chatops.Go.Strings.{has_prefix}

-- A command that waits for its confirmation: the context of the message, and its handler.
pub record Pending : Type 0 where
  pub handler : Handler
  pub sender : ℤ
  pub text : String

-- userState, userLogin, userPassword, userStatusAuthorization, and what the bot has registered for
-- the buttons confirm_yes and confirm_no.
pub record Dialogue : Type 0 where
  pub user_state : UserStates
  pub user_login : String
  pub user_password : String
  pub authorized : Bool
  pub on_yes : Option Pending
  pub on_no : Option Pending

abbrev pub initial : Dialogue
initial = record {
  user_state = [];
  user_login = "";
  user_password = "";
  authorized = false;
  on_yes = none;
  on_no = none;
}

-- What the bot does in answer to an event.
pub data Reply : Type 0 where
  say : String → Reply
  ask_confirmation : Reply
  failed : Error → Reply
  respond : String → Reply
  run : Pending → Reply
  silent : Reply

abbrev pub not_for_you : String
not_for_you = "Это не для вас"

-- The handler of /start.
unfoldable pub on_start : ℤ → Dialogue → Dialogue × Reply
on_start id d = (record d { user_state = enter id "login" d.user_state }, say "Введите свой логин:")

-- withConfirmation(handler)(c): the question, and two new callbacks in place of the old ones. An
-- error of the question leaves them.
unfoldable pub with_confirmation : Option Error → Pending → Dialogue → Dialogue × Reply
with_confirmation (some e) p d = (d, failed e)
with_confirmation none p d = (record d { on_yes = some p; on_no = some p }, ask_confirmation)

unfoldable pub press : (Pending → Reply) → ℤ → Option Pending → Reply
press answer id none = silent
press answer id (some p) = if eqb_ℤ id p.sender then answer p else respond not_for_you

-- The callbacks of the two buttons; neither is taken away by a press.
unfoldable pub on_yes_pressed : ℤ → Dialogue → Dialogue × Reply
unfolding press
on_yes_pressed id d = (d, press run id d.on_yes)

unfoldable pub on_no_pressed : ℤ → Dialogue → Dialogue × Reply
unfolding press
on_no_pressed id d = (d, press (λ _. say "Отмена") id d.on_no)

abbrev pub is_there : Option String → Bool
is_there none = false
is_there (some _) = true

-- A text that begins with a slash.
unfoldable pub on_command : Option Error → ℤ → String → Dialogue → Dialogue × Reply
unfolding with_confirmation
on_command sent id text d =
    if is_there (state_of id d.user_state)
    then (d, silent)
    else if d.authorized
    then (elim (find_handler text) [
      | some h ↦ with_confirmation sent (record { handler = h; sender = id; text = text }) d
      | none ↦ (d, say "Введите одну из предложенных команд")
    ])
    else (d, say "Вы не авторизованы. Введите /start для авторизации.")

-- Any other text: a login, a password, or nothing that is expected.
unfoldable pub on_words : (String → String → Bool) → ℤ → String → Dialogue → Dialogue × Reply
on_words accepts id text d =
    let stage = or_empty (state_of id d.user_state) in
    if str_eq stage "login"
    then (
      record d { user_state = enter id "password" d.user_state; user_login = text },
      say "Теперь введите пароль:",
    )
    else if str_eq stage "password"
    then (
      record d {
        user_state = forget id d.user_state;
        user_password = text;
        authorized = accepts d.user_login text;
      },
      say (
          if accepts d.user_login text
          then "Авторизация успешна!"
          else "Неверный логин или пароль."),
    )
    else (d, say "Непонятные входные данные или что то пошло не так.")

-- The handler of telebot.OnText.
unfoldable pub on_text :
    Option Error → (String → String → Bool) → ℤ → String → Dialogue → Dialogue × Reply
unfolding on_command on_words
on_text sent accepts id text d =
    if has_prefix text "/" then on_command sent id text d else on_words accepts id text d

pub data Event : Type 0 where
  start : ℤ → Event
  help : ℤ → Event
  text : Option Error → (String → String → Bool) → ℤ → String → Event
  yes_pressed no_pressed : ℤ → Event

unfoldable pub step : Event → Dialogue → Dialogue × Reply
unfolding on_start on_text on_yes_pressed on_no_pressed
step (start id) d = on_start id d
step (help id) d = (d, say help_message)
step (text sent accepts id t) d = on_text sent accepts id t d
step (yes_pressed id) d = on_yes_pressed id d
step (no_pressed id) d = on_no_pressed id d
