-- ===== src/Bot/Handlers/Chat.antt =====
-- What the handlers of internal/bot/handlers get from telebot's Context, and the goroutine that sends
-- the messages of logCh.
use chatops.Base.{[], ◌∷◌}
use Prim.Native.String.{String, ◌∷◌}
use chatops.Effects.{Call, Eff, outcome}
use chatops.Base.{Bool, List, if◌then◌else◌}
use chatops.Kube.Api.{Run}
use chatops.Kube.Log.{start}

-- Context.Send, plain and with telebot.ModeMarkdownV2; `S` is the state of the chat.
pub record Chat (S : Type 0) : Type 0 where
  pub send : String → Call S (Unit {0})
  pub send_markdown : String → Call S (Unit {0})

-- What a handler acts on: the surroundings of the clients, and the chat.
pub record Talk (W S : Type 0) : Type 0 where
  pub world : W
  pub chat : S

-- Sends whose errors nobody looks at.
unfoldable pub relay : {S : Type 0} → Chat S → (String → Bool) → List String → S → S
relay chat wanted [] s = s
relay chat wanted (m ∷ ms) s = relay chat wanted ms (if wanted m then (chat.send m s).1 else s)

module _ {W S : Type 0} (chat : Chat S) where
  -- return c.Send(text)
  abbrev pub say : String → Eff (Talk W S) (Unit {0})
  say text t = let (r, s) = chat.send text t.chat in (outcome r, record t { chat = s })

  -- return c.Send(text, telebot.ModeMarkdownV2)
  abbrev pub say_markdown : String → Eff (Talk W S) (Unit {0})
  say_markdown text t =
      let (r, s) = chat.send_markdown text t.chat in (outcome r, record t { chat = s })

  -- An operation with a goroutine that sends its messages. The chat and the cluster know nothing of
  -- each other, so it is the same whether a message is sent at once or later.
  unfoldable pub with_logs :
      (String → Bool) → (W → W) → Eff (Run W) (Unit {0}) → Eff (Talk W S) (Unit {0})
  unfolding relay
  with_logs wanted context operation t =
      let (r, u) = operation (start (context t.world)) in
      (r, record t { world = u.world; chat = relay chat wanted u.logs t.chat })
