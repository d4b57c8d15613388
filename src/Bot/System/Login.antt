-- ===== src/Bot/System/Login.antt =====
-- The login of a user, from /start to the table of users.
use chatops.Base.{ℤ, String, false, ◌&&◌, ◌≡◌, refl, ap, ◌∙◌, none, some, List, any, str_eq}
use chatops.Go.Strings.{has_prefix}
use chatops.Db.Types.{User}
use chatops.Db.Sql.{Answers, user_schema}
use chatops.Db.Laws.Users.{authenticate_user_lem}
use chatops.Bot.Users.{state_of, enter, forget}
use chatops.Bot.Dialogue.{on_start, say, step}
use chatops.Bot.Dialogue.Login.{told_login, told_password, started, entered, forgotten}
use chatops.Bot.Handlers.Others.{proof_login_pasword_handler}
use chatops.Bot.System.{
  Services, Bot, start_sent, text_sent, perform, Update, answer, event_of, looked_up,
}

module _ {W Q F S : Type 0} (s : Services W Q F S) where
  world-said :
      (u : Update) (b : Bot W S) (words : String)
      → (step (event_of s u b.talk.world) b.dialogue).1 ≡ say words
      → (perform s u b).1.talk.world ≡ looked_up s u b.dialogue b.talk.world
  unfolding perform answer
  world-said u b words h = rw h refl

  dialogue-perform :
      (u : Update) (b : Bot W S)
      → (perform s u b).1.dialogue ≡ (step (event_of s u b.talk.world) b.dialogue).0
  unfolding perform
  dialogue-perform u b = refl

  perform-login :
      (id : ℤ) (t : String) (b : Bot W S)
      → has_prefix t "/" ≡ false
      → state_of id b.dialogue.user_state ≡ some "login"
      → ((perform s (text_sent none id t) b).1.dialogue ≡ record b.dialogue {
        user_state = enter id "password" b.dialogue.user_state;
        user_login = t;
      })
        × ((perform s (text_sent none id t) b).1.talk.world ≡ b.talk.world)
  unfolding step
  perform-login id t b plain owes =
      let said =
        told_login (λ l p. (proof_login_pasword_handler s.database l p b.talk.world).0) id t
          b.dialogue plain owes in
      (
        dialogue-perform (text_sent none id t) b ∙ ap (λ r. r.0) said,
        world-said (text_sent none id t) b _ (ap (λ r. r.1) said) ∙ rw (plain, owes) refl,
      )

  perform-password :
      (id : ℤ) (t : String) (b : Bot W S)
      → has_prefix t "/" ≡ false
      → state_of id b.dialogue.user_state ≡ some "password"
      → let found = proof_login_pasword_handler s.database b.dialogue.user_login t b.talk.world in
        ((perform s (text_sent none id t) b).1.dialogue ≡ record b.dialogue {
          user_state = forget id b.dialogue.user_state;
          user_password = t;
          authorized = found.0;
        })
        × ((perform s (text_sent none id t) b).1.talk.world ≡ found.1)
  unfolding step
  perform-password id t b plain owes =
      let said =
        told_password (λ l p. (proof_login_pasword_handler s.database l p b.talk.world).0) id t
          b.dialogue plain owes in
      (
        dialogue-perform (text_sent none id t) b ∙ ap (λ r. r.0) said,
        world-said (text_sent none id t) b _ (ap (λ r. r.1) said) ∙ rw (plain, owes) refl,
      )

  perform-start :
      (id : ℤ) (b : Bot W S)
      → ((perform s (start_sent id) b).1.dialogue ≡ started id b.dialogue)
        × ((perform s (start_sent id) b).1.talk.world ≡ b.talk.world)
  unfolding perform step answer
  perform-start id b = (refl, unfold on_start in refl)

module _ {W Q F S : Type 0} (s : Services W Q F S) (users : W → List User)
    (answers : Answers s.database.users user_schema users) where
  -- The bot after /start, a login and a password of one user.
  abbrev pub after_login : ℤ → String → String → Bot W S → Bot W S
  after_login id login password b =
      (perform s (text_sent none id password)
        (perform s (text_sent none id login) (perform s (start_sent id) b).1).1).1

  -- Over a table of users that answers as SQL promises, /start, a login and a password of one
  -- user, neither with a slash in front and with nobody in between, leave the bot authorized
  -- exactly if the table has a user with that login and password, leave the user out of the login,
  -- and leave the table as it was.
  pub after_login_lem :
      (id : ℤ) (login password : String) (b : Bot W S)
      → has_prefix login "/" ≡ false
      → has_prefix password "/" ≡ false
      → ((after_login id login password b).dialogue.authorized
          ≡ any (λ u. str_eq u.login login && str_eq u.password password) (users b.talk.world))
        × (state_of id (after_login id login password b).dialogue.user_state ≡ none)
        × (users (after_login id login password b).talk.world ≡ users b.talk.world)
  after_login_lem id login password b l p =
      let b1 = (perform s (start_sent id) b).1 in
      let b2 = (perform s (text_sent none id login) b1).1 in
      let (d1, w1) = perform-start s id b in
      let owes : state_of id b1.dialogue.user_state ≡ some "login" =
        ap (λ d. state_of id d.user_state) d1
        ∙ unfold on_start in entered id "login" b.dialogue.user_state in
      let (d2, w2) = perform-login s id login b1 l owes in
      let owes2 : state_of id b2.dialogue.user_state ≡ some "password" =
        ap (λ d. state_of id d.user_state) d2 ∙ entered id "password" b1.dialogue.user_state in
      let (d3, w3) = perform-password s id password b2 p owes2 in
      let (right, same) =
        authenticate_user_lem s.database users answers b2.dialogue.user_login password
          b2.talk.world in
      (
        ap (λ d. d.authorized) d3
            ∙ unfold proof_login_pasword_handler in
              right
              ∙ ap
                  (λ d.
                    any (λ u. str_eq u.login d.user_login && str_eq u.password password)
                      (users b2.talk.world))
                  d2
              ∙ ap (λ w. any (λ u. str_eq u.login login && str_eq u.password password) (users w))
                  (w2 ∙ w1),
        ap (λ d. state_of id d.user_state) d3 ∙ forgotten id b2.dialogue.user_state,
        ap users w3 ∙ unfold proof_login_pasword_handler in same ∙ ap users (w2 ∙ w1),
      )
