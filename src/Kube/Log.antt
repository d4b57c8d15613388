-- ===== src/Kube/Log.antt =====
-- The channel logCh of internal/kube/client.go. A message counts as logged once it is sent; the
-- channel has no buffer and one reader, so the reader has the messages in this order.
use chatops.Base.{true, false, String, [], ◌∷◌, ◌++◌, ◌≡◌, arith}
use chatops.Effects.{Outcome, done, panic, Eff}
use chatops.Kube.Api.{Run, Api}

-- The argument logCh: the nil channel or a channel that is open.
pub data LogChan : Type 0 where
  nil_chan open_chan : LogChan

-- K8sClient: its clientset may be the nil interface.
pub data K8sClient (W : Type 0) : Type 0 where
  nil_clientset : K8sClient W
  clientset : Api W → K8sClient W

abbrev pub start : {W : Type 0} → W → Run W
start w = record { world = w; logs = []; closed = false }

module _ {W : Type 0} where
  -- The closure log of each operation.
  unfoldable pub log : LogChan → String → Eff (Run W) (Unit {0})
  log nil_chan msg s = (done tt, s)
  log open_chan msg s = (done tt, record s { logs = s.logs ++ msg ∷ [] })

  abbrev close : LogChan → Outcome (Unit {0}) → Eff (Run W) (Unit {0})
  close nil_chan r s = (panic, s)
  close open_chan r s = (r, record s { closed = true })

  -- `defer close(logCh)`: it runs however the body ends, and closing a nil channel panics.
  unfoldable pub with_close : LogChan → Eff (Run W) (Unit {0}) → Eff (Run W) (Unit {0})
  with_close ch body s = let (r, t) = body s in close ch r t

  -- The operation ends well exactly where its body does, on a channel that is not nil.
  pub with_close-done :
      (body : Eff (Run W) (Unit {0})) (s t : Run W)
      → with_close open_chan body s ≡ (done tt, t)
      → (u : Run W) × (body s ≡ (done tt, u)) × (t ≡ record u { closed = true })
  unfolding with_close
  with_close-done body s t h = ((body s).1, ground arith, ground arith)
