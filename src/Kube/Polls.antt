-- ===== src/Kube/Polls.antt =====
-- What a wait by PollUntilContextCancel leaves behind, from what one round of its condition does.
use chatops.Base.{Bool, true, ◌≡◌, refl, subst, arith}
use chatops.Effects.{Outcome, done, panic, Eff}
use chatops.Kube.Api.{Run, Polled, met, failed, crashed, cancelled, again, Api, PollsAsDocumented}

module _ {W : Type 0} {cond : Eff (Run W) Bool} where
  -- A wait that ends well ends in a round that was satisfied.
  pub Polled-met :
      {s t : Run W} {r : Outcome (Unit {0})}
      → Polled cond s r t
      → r ≡ done tt
      → (u : Run W) × (cond u ≡ (done true, t))
  Polled-met (met {s} h) e = (s, h)
  Polled-met (failed h) e = cc
  Polled-met (crashed h) e = cc
  Polled-met (cancelled x h w) e = cc
  Polled-met (again h w p) e = Polled-met p e

  -- A wait panics only where a round of its condition does.
  pub Polled-crashed :
      {s t : Run W} {r : Outcome (Unit {0})}
      → Polled cond s r t
      → r ≡ panic
      → (u : Run W) × (cond u ≡ (panic, t))
  Polled-crashed (met h) e = cc
  Polled-crashed (failed h) e = cc
  Polled-crashed (crashed {s} h) e = (s, h)
  Polled-crashed (cancelled x h w) e = cc
  Polled-crashed (again h w p) e = Polled-crashed p e

  -- A first round that is satisfied ends the wait.
  pub Polled-first :
      {s t u : Run W} {r : Outcome (Unit {0})}
      → Polled cond s r u
      → cond s ≡ (done true, t)
      → ◌≡◌ {A = Outcome (Unit {0}) × Run W} (r, u) (done tt, t)
  Polled-first (met h) e = ground (arith, h, e)
  Polled-first (failed h) e = cc
  Polled-first (crashed h) e = cc
  Polled-first (cancelled x h w) e = cc
  Polled-first (again h w p) e = cc

-- The same for a client that polls as documented.
module _ {W : Type 0} (api : Api W) (polls : PollsAsDocumented api) (cond : Eff (Run W) Bool) where
  polled : {s t : Run W} {r : Outcome (Unit {0})} → api.poll cond s ≡ (r, t) → Polled cond s r t
  polled {s} h = subst (λ (x : Outcome (Unit {0}) × Run W). Polled cond s x.0 x.1) h (polls cond s)

  pub poll-met :
      {s t : Run W} → api.poll cond s ≡ (done tt, t) → (u : Run W) × (cond u ≡ (done true, t))
  poll-met h = Polled-met (polled h) refl

  pub poll-crashed :
      {s t : Run W} → api.poll cond s ≡ (panic, t) → (u : Run W) × (cond u ≡ (panic, t))
  poll-crashed h = Polled-crashed (polled h) refl

  pub poll-first : {s t : Run W} → cond s ≡ (done true, t) → api.poll cond s ≡ (done tt, t)
  poll-first {s} h = Polled-first (polls cond s) h
