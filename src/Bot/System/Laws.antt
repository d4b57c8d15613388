-- ===== src/Bot/System/Laws.antt =====
-- What may move the cluster, from the updates of Telegram to the table of users.
use chatops.Base.{
  ℤ, String, Bool, true, ◌&&◌, ◌≡◌, ◌≢◌, ◌⊎◌, inl, inr, refl, ap, sym, ◌∙◌, some, List, [], ◌∷◌,
  any, str_eq, arith, none, eqb_ℤ_iff, eqb_ℤ, if◌then◌else◌,
}
use chatops.Db.Types.{User}
use chatops.Db.Sql.{Answers, user_schema}
use chatops.Db.Laws.Users.{authenticate_user_lem}
use chatops.Bot.Dialogue.{
  Dialogue, Reply, Pending, initial, step, run, yes_pressed, with_confirmation, on_yes_pressed,
  on_command, text,
}
use chatops.Bot.Dialogue.Trace.{after, Accepts, Accepted, Asked, run-Asked}
use chatops.Bot.Handlers.Chat.{Talk}
use chatops.Bot.Handlers.Others.{proof_login_pasword_handler}
use chatops.Bot.System.{
  Services, Update, Bot, text_sent, yes_sent, answer, event_of, looked_up, perform, runs, events,
  state_of, Handler, has_prefix, run_handler, done,
}
use chatops.Bot.Commands.{find_handler}
use chatops.Bot.Dialogue.Login.{command_text}

module _ {W Q F S : Type 0} (s : Services W Q F S) where
  -- Only a command that is run moves the world.
  world-answer :
      (r : Reply) (t : Talk W S)
      → ((p : Pending) × (r ≡ run p)) ⊎ ((answer s r t).1.world ≡ t.world)
  unfolding answer
  world-answer (Reply.say words) t = inr refl
  world-answer Reply.ask_confirmation t = inr refl
  world-answer (Reply.failed e) t = inr refl
  world-answer (Reply.respond words) t = inr refl
  world-answer (run p) t = inl (p, refl)
  world-answer Reply.silent t = inr refl

  world-perform :
      (u : Update) (b : Bot W S)
      → ((p : Pending) × ((step (event_of s u b.talk.world) b.dialogue).1 ≡ run p))
        ⊎ ((perform s u b).1.talk.world ≡ looked_up s u b.dialogue b.talk.world)
  unfolding perform
  world-perform u b = world-answer (step (event_of s u b.talk.world) b.dialogue).1 _

  -- The dialogue goes its own way, whatever the commands do.
  pub dialogue-runs :
      (b : Bot W S) (us : List Update)
      → b.dialogue ≡ initial
      → (runs s b us).dialogue ≡ after (events s b us)
  unfolding runs events after perform
  dialogue-runs b [] h = h
  dialogue-runs b (u ∷ us) h =
      ap (λ d. (step (event_of s u (runs s b us).talk.world) d).0) (dialogue-runs b us h)

  pressed : (u : Update) (w : W) (id : ℤ) → event_of s u w ≡ yes_pressed id → u ≡ yes_sent id
  pressed (Update.start_sent i) w id e = absurd (ground (arith, e))
  pressed (Update.help_sent i) w id e = absurd (ground (arith, e))
  pressed (text_sent sent i t) w id e = absurd (ground (arith, e))
  pressed (yes_sent i) w id e = ground (arith, e)
  pressed (Update.no_sent i) w id e = absurd (ground (arith, e))

module _ {W Q F S : Type 0} (s : Services W Q F S) where
  -- A known command of a user who may run it.
  asked :
      (accepts : String → String → Bool) (id : ℤ) (t : String) (h : Handler) (d : Dialogue)
      → has_prefix t "/" ≡ true
      → state_of id d.user_state ≡ none
      → d.authorized ≡ true
      → find_handler t ≡ some h
      → step (text none accepts id t) d
        ≡ with_confirmation none (record { handler = h; sender = id; text = t }) d
  unfolding step on_command
  asked accepts id t h d slash free authorized known =
      command_text none accepts id t d slash
      ∙ rw (on_command, free, known)
          (ap
            (λ (a : Bool).
              if a
              then with_confirmation none (record { handler = h; sender = id; text = t }) d
              else (d, Reply.say "Вы не авторизованы. Введите /start для авторизации."))
            authorized)

  perform-asked :
      (b : Bot W S) (id : ℤ) (t : String) (h : Handler)
      → has_prefix t "/" ≡ true
      → state_of id b.dialogue.user_state ≡ none
      → b.dialogue.authorized ≡ true
      → find_handler t ≡ some h
      → perform s (text_sent none id t) b ≡ (
        done tt,
        record {
          dialogue =
              (with_confirmation none (record { handler = h; sender = id; text = t }) b.dialogue).0;
          talk = b.talk;
        },
      )
  unfolding perform with_confirmation answer
  perform-asked b id t h slash free authorized known =
      rw
        (
          asked (λ l p. (proof_login_pasword_handler s.database l p b.talk.world).0) id t h
              b.dialogue slash free authorized known,
          slash,
        )
        refl

  perform-pressed :
      (b : Bot W S) (id : ℤ) (p : Pending)
      → b.dialogue.on_yes ≡ some p
      → eqb_ℤ id p.sender ≡ true
      → perform s (yes_sent id) b ≡ (
        (run_handler s p.handler p.text b.talk).0,
        record { dialogue = b.dialogue; talk = (run_handler s p.handler p.text b.talk).1 },
      )
  unfolding perform step on_yes_pressed answer
  perform-pressed b id p pending same = rw (pending, same) refl

  -- A known command of a user who is in no login, while the bot is authorized and the question can
  -- be sent, followed by the press of "Да" by that user, runs the handler that the table names on
  -- the text of the message, with its error, and leaves the world and the chat as that handler
  -- does.
  pub perform-confirmed :
      (b : Bot W S) (id : ℤ) (t : String) (h : Handler)
      → has_prefix t "/" ≡ true
      → state_of id b.dialogue.user_state ≡ none
      → b.dialogue.authorized ≡ true
      → find_handler t ≡ some h
      → perform s (yes_sent id) (perform s (text_sent none id t) b).1 ≡ (
        (run_handler s h t b.talk).0,
        record {
          dialogue =
              (with_confirmation none (record { handler = h; sender = id; text = t }) b.dialogue).0;
          talk = (run_handler s h t b.talk).1;
        },
      )
  perform-confirmed b id t h slash free authorized known =
      rw (perform-asked b id t h slash free authorized known) (
        perform-pressed _ id (record { handler = h; sender = id; text = t })
          (unfold with_confirmation in refl) ((eqb_ℤ_iff id id).1 refl))

module _ {W Q F S : Type 0} (s : Services W Q F S) (users : W → List User)
    (answers : Answers s.database.users user_schema users) where
  -- The text is a password of the user who owes it, and the table holds it with the login kept.
  abbrev pub Matches : Update → W → Dialogue → Type 0
  Matches (text_sent sent id t) w d =
      (state_of id d.user_state ≡ some "password")
      × (any (λ u. str_eq u.login d.user_login && str_eq u.password t) (users w) ≡ true)
  Matches _ w d = ⊥

  -- Some update was such a password at its time.
  abbrev pub Registered : Bot W S → List Update → Type 0
  Registered b [] = ⊥
  Registered b (u ∷ us) =
      Matches u (runs s b us).talk.world (after (events s b us)) ⊎ Registered b us

  Accepts-Matches : (u : Update) (w : W) (d : Dialogue) → Accepts (event_of s u w) d → Matches u w d
  unfolding proof_login_pasword_handler
  Accepts-Matches (Update.start_sent i) w d h = h
  Accepts-Matches (Update.help_sent i) w d h = h
  Accepts-Matches (text_sent sent i t) w d h =
      (h.0, sym (authenticate_user_lem s.database users answers d.user_login t w).0 ∙ h.1)
  Accepts-Matches (yes_sent i) w d h = h
  Accepts-Matches (Update.no_sent i) w d h = h

  Accepted-Registered :
      (b : Bot W S) (us : List Update) → Accepted (events s b us) → Registered b us
  unfolding events
  Accepted-Registered b [] h = h
  Accepted-Registered b (u ∷ us) (inl now) = inl (Accepts-Matches u _ _ now)
  Accepted-Registered b (u ∷ us) (inr before) = inr (Accepted-Registered b us before)

  -- In every run of the bot, over a table of users that answers as SQL promises, an update moves
  -- the state of the world beyond what looking up a password leaves of it only if it is the press
  -- of "Да" by the user who wrote the command, after that command was written while the bot was
  -- authorized, and after some text was the password of a user who owed one and stood then in the
  -- table of users with the login kept.
  pub world-Registered :
      (b : Bot W S) (us : List Update) (u : Update)
      → b.dialogue ≡ initial
      → (perform s u (runs s b us)).1.talk.world
        ≢ looked_up s u (runs s b us).dialogue (runs s b us).talk.world
      → (p : Pending) × (u ≡ yes_sent p.sender) × Asked p (events s b us) × Registered b us
  world-Registered b us u h moved = elim (world-perform s u (runs s b us)) [
    | inr still ↦ absurd (moved still)
    | inl (p, ran) ↦
        let now =
          ap (λ d. (step (event_of s u (runs s b us).talk.world) d).1)
            (sym (dialogue-runs s b us h))
          ∙ ran in
        let (press, asked, accepted) =
          run-Asked (events s b us) (event_of s u (runs s b us).talk.world) p now in
        (p, pressed s u _ p.sender press, asked, Accepted-Registered b us accepted)
  ]
