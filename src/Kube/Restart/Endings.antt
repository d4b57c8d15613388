-- ===== src/Kube/Restart/Endings.antt =====
-- Every way in which RestartDeploymentWithLogs can end.
use chatops.Base.{String, [], ◌∷◌, ◌≡◌, inl, inr, true, false}
use chatops.Effects.{Error, Outcome, fail, ok, err, Call-cases}
use chatops.Kube.Types.{Deployment}
use chatops.Kube.Api.{Api, Run, Polled, PollsAsDocumented}
use chatops.Kube.Log.{open_chan, clientset, start}
use chatops.Kube.Scale.{get_failed, update_failed}
use chatops.Kube.Restart.{
  with_restart, restart_ready, restart_body, restart_launched, restart_deployment_with_logs,
}

module _ {W : Type 0} (api : Api W) (namespace name : String) where
  -- The state of the cluster at the start, how the operation ends, and the state that it leaves.
  pub data Restarted (w : W) : Outcome (Unit {0}) → Run W → Type 0 where
    -- The deployment cannot be read: nothing is written.
    unread :
        {e : Error} {v : W}
        → api.get_deployment namespace name w ≡ (err e, v)
        → Restarted w
            (fail e)
            (record { world = v; logs = get_failed e namespace name ∷ []; closed = true })
    -- What was read is written with the time in one annotation; the write fails.
    unwritten :
        {dep : Deployment} {e : Error} {v u : W}
        → api.get_deployment namespace name w ≡ (ok dep, v)
        → api.update_deployment namespace (with_restart (api.now v).0 dep) (api.now v).1
          ≡ (err e, u)
        → Restarted w (fail e) (record { world = u; logs = update_failed e ∷ []; closed = true })
    -- The same write succeeds, and the operation ends as the wait ends.
    waited :
        {dep : Deployment} {v u : W} {r : Outcome (Unit {0})} {t : Run W}
        → api.get_deployment namespace name w ≡ (ok dep, v)
        → api.update_deployment namespace (with_restart (api.now v).0 dep) (api.now v).1
          ≡ (ok tt, u)
        → Polled
            (restart_ready api namespace name open_chan)
            (record { world = u; logs = restart_launched ∷ []; closed = false })
            r
            t
        → Restarted w r (record t { closed = true })

  -- With waits that poll as documented, and whatever the cluster answers,
  -- RestartDeploymentWithLogs on an open channel ends in one of three ways: a failed read; a
  -- failed write of what was read with the time in one annotation; or that write, accepted, and
  -- the wait, with whose end it ends.
  pub restart-Restarted :
      (w : W)
      → PollsAsDocumented api
      → Restarted w
          (restart_deployment_with_logs (clientset api) namespace name open_chan (start w)).0
          (restart_deployment_with_logs (clientset api) namespace name open_chan (start w)).1
  unfolding restart_deployment_with_logs restart_body
  restart-Restarted w polls = elim (Call-cases (api.get_deployment namespace name w)) [
    | inr (e, v, g) ↦ rw g (unread g)
    | inl (dep, v, g) ↦
        rw g
          (elim (Call-cases
            (api.update_deployment namespace (with_restart (api.now v).0 dep) (api.now v).1)) [
              | inr (e, u, p) ↦ rw p (unwritten g p)
              | inl (_, u, p) ↦
                  rw p (waited g p (polls (restart_ready api namespace name open_chan) _))
            ])
  ]
