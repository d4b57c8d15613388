-- ===== src/Kube/Restart/Laws.antt =====
-- What RestartDeploymentWithLogs does on each of its paths.
use chatops.Base.{
  String, List, [], ◌∷◌, ◌++◌, ◌≡◌, ℤ, some, true, ◌≤ℤ◌, inr, pos, arith, eqb_ℤ_iff, inl,
  Option-cases, Bool-cases, if◌then◌else◌, str_eq, sym, ◌∙◌, subst, refl,
}
use chatops.Effects.{ok, done, Call-cases}
use chatops.Kube.Restart.{
  rolled_out, with_restart, restart_ready, made, rolled_out_message, restart_deployment_with_logs,
  restart_body, restart_launched, restart_progress, restarted_at,
}
use chatops.Kube.Api.{Api, Run, PollsAsDocumented}
use chatops.Kube.Types.{Deployment}
use chatops.Go.Maps.{lookup, lookup-put}
use chatops.Kube.Log.{open_chan, clientset, LogChan, with_close, start, with_close-done}
use chatops.Kube.Polls.{poll-met}

-- A restart changes one annotation of the pod template, to the time; every other annotation keeps
-- its value, and so do the containers and the number of replicas.
pub with_restart_lem :
    (now k : String) (dep : Deployment)
    → (lookup k (made (with_restart now dep).template.annotations)
        ≡ (if str_eq restarted_at k then some now else lookup k (made dep.template.annotations)))
      × ((with_restart now dep).template.containers ≡ dep.template.containers)
      × ((with_restart now dep).spec_replicas ≡ dep.spec_replicas)
unfolding with_restart
with_restart_lem now k dep =
    (lookup-put restarted_at k now (made dep.template.annotations), refl, refl)

-- A deployment whose rollout is complete, for a number of replicas.
pub record IsRolledOut (dep : Deployment) (wanted : ℤ) : Type 0 where
  pub observed : dep.generation ≤ℤ dep.status.observed_generation
  pub updated : dep.status.updated_replicas ≡ wanted
  pub available : dep.status.available_replicas ≡ wanted
  pub none_missing : dep.status.unavailable_replicas ≡ pos 0

rolled_out-IsRolledOut :
    (dep : Deployment) (wanted : ℤ) → rolled_out dep wanted ≡ true → IsRolledOut dep wanted
unfolding rolled_out
rolled_out-IsRolledOut dep wanted h = ground (
  arith,
  eqb_ℤ_iff dep.status.updated_replicas wanted,
  eqb_ℤ_iff dep.status.available_replicas wanted,
  eqb_ℤ_iff dep.status.unavailable_replicas (pos 0),
)

module _ {W : Type 0} (api : Api W) (namespace name : String) where
  -- A read that shows a complete rollout, and the message that follows it.
  pub record RolledOut (t : Run W) : Type 0 where
    pub before : W
    pub dep : Deployment
    pub wanted : ℤ
    pub read : api.get_deployment namespace name before ≡ (ok dep, t.world)
    pub spec : dep.spec_replicas ≡ some wanted
    pub complete : IsRolledOut dep wanted
    pub logged : (l : List String) × (t.logs ≡ l ++ rolled_out_message ∷ [])

  restart_ready-RolledOut :
      (u t : Run W) → restart_ready api namespace name open_chan u ≡ (done true, t) → RolledOut t
  unfolding restart_ready
  restart_ready-RolledOut u t h = elim (Call-cases (api.get_deployment namespace name u.world)) [
    | inr (x, w, e) ↦ absurd (ground (arith, e))
    | inl (dep, w, e) ↦ elim (Option-cases dep.spec_replicas) [
      | inl d ↦ absurd (ground (arith, e, d))
      | inr (wanted, d) ↦ elim (Bool-cases (rolled_out dep wanted)) [
        | inr b ↦ absurd (ground (arith, e, d, b))
        | inl b ↦ record {
          before = u.world;
          dep = dep;
          wanted = wanted;
          read = ground (arith, e, d, b);
          spec = d;
          complete = rolled_out-IsRolledOut dep wanted b;
          logged = (u.logs ++ restart_progress dep.status wanted ∷ [], ground (arith, e, d, b));
        }
      ]
    ]
  ]

  abbrev waiting : Run W → W → Run W
  waiting s w = record s { world = w; logs = s.logs ++ restart_launched ∷ [] }

  -- A body that ends well has ended in the wait.
  restart_body-polled :
      (s t : Run W)
      → restart_body api namespace name open_chan s ≡ (done tt, t)
      → (u : Run W) × (api.poll (restart_ready api namespace name open_chan) u ≡ (done tt, t))
  unfolding restart_body
  restart_body-polled s t h = elim (Call-cases (api.get_deployment namespace name s.world)) [
    | inr (x, w, e) ↦ absurd (ground (arith, e))
    | inl (dep, w, e) ↦
        elim (Call-cases
          (api.update_deployment namespace (with_restart (api.now w).0 dep) (api.now w).1)) [
            | inr (x, v, d) ↦ absurd (ground (arith, e, d))
            | inl (_, v, d) ↦ (waiting s v, ground (arith, e, d))
          ]
  ]

  restart_lem :
      (ch : LogChan) (s : Run W)
      → restart_deployment_with_logs (clientset api) namespace name ch s
        ≡ with_close ch (restart_body api namespace name ch) s
  unfolding restart_deployment_with_logs
  restart_lem ch s = refl

  closed-RolledOut : (t : Run W) → RolledOut t → RolledOut (record t { closed = true })
  closed-RolledOut t r = record {
    before = r.before;
    dep = r.dep;
    wanted = r.wanted;
    read = r.read;
    spec = r.spec;
    complete = r.complete;
    logged = r.logged;
  }

  -- If RestartDeploymentWithLogs, on an open channel and with waits that poll as documented,
  -- returns nil, then its last call was a read of the deployment that showed the rollout complete:
  -- the generation observed, as many updated and as many available replicas as its specification
  -- asks for, and none unavailable. Its last message says so.
  pub restart-RolledOut :
      (w : W) (t : Run W)
      → PollsAsDocumented api
      → restart_deployment_with_logs (clientset api) namespace name open_chan (start w)
        ≡ (done tt, t)
      → RolledOut t
  restart-RolledOut w t polls h =
      let (r, body, same) = with_close-done _ _ t (sym (restart_lem open_chan (start w)) ∙ h) in
      let (u, e) = restart_body-polled (start w) r body in
      let (v, m) = poll-met api polls _ e in
      subst RolledOut (sym same) (closed-RolledOut r (restart_ready-RolledOut v r m))
