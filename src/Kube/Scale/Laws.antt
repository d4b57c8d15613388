-- ===== src/Kube/Scale/Laws.antt =====
-- What ScaleDeploymentWithLogs does on each of its paths.
use chatops.Base.{
  ℤ, true, String, List, [], ◌∷◌, ◌++◌, ◌≡◌, refl, arith, eqb_ℤ_iff, inl, inr, sym, subst, ◌∙◌,
}
use chatops.Effects.{Error, ok, err, done, fail, Call-cases, Outcome}
use chatops.Kube.Types.{Deployment}
use chatops.Kube.Api.{Run, Api, PollsAsDocumented, Polled}
use chatops.Kube.Log.{LogChan, open_chan, clientset, start, with_close, with_close-done}
use chatops.Kube.Polls.{poll-met}
use chatops.Kube.Scale.{
  get_failed, scaled_message, scale_status, scale_ready, scale_body, with_replicas,
  scale_deployment_with_logs, scale_begins, scale_launched, update_failed,
}

module _ {W : Type 0} (api : Api W) (namespace name : String) (replicas : ℤ) where
  -- A read of the deployment that shows the wanted number of available replicas, and the message
  -- that follows it.
  pub record Reached (t : Run W) : Type 0 where
    pub before : W
    pub dep : Deployment
    pub read : api.get_deployment namespace name before ≡ (ok dep, t.world)
    pub enough : dep.status.available_replicas ≡ replicas
    pub logged : (l : List String) × (t.logs ≡ l ++ scaled_message ∷ [])

  scale_ready-Reached :
      (u t : Run W)
      → scale_ready api namespace name replicas open_chan u ≡ (done true, t)
      → Reached t
  unfolding scale_ready
  scale_ready-Reached u t h = elim (Call-cases (api.get_deployment namespace name u.world)) [
    | inl (dep, w, e) ↦
        let enough : dep.status.available_replicas ≡ replicas =
          ground (arith, e, eqb_ℤ_iff dep.status.available_replicas replicas) in
        record {
          before = u.world;
          dep = dep;
          read = ground (arith, e);
          enough = enough;
          logged = (
            u.logs ++ scale_status dep.status.available_replicas replicas ∷ [],
            ground (arith, e),
          );
        }
    | inr (x, w, e) ↦ absurd (ground (arith, e))
  ]

  -- The state in which the wait begins.
  abbrev pub waiting : Run W → W → Run W
  waiting s w = record s {
    world = w;
    logs = (s.logs ++ scale_begins namespace name replicas ∷ []) ++ scale_launched ∷ [];
  }

  -- A body that ends well has ended in the wait.
  scale_body-polled :
      (s t : Run W)
      → scale_body api namespace name replicas open_chan s ≡ (done tt, t)
      → (u : Run W) × (api.poll (scale_ready api namespace name replicas open_chan) u
          ≡ (done tt, t))
  unfolding scale_body
  scale_body-polled s t h = elim (Call-cases (api.get_deployment namespace name s.world)) [
    | inr (x, w, e) ↦ absurd (ground (arith, e))
    | inl (dep, w, e) ↦
        elim (Call-cases (api.update_deployment namespace (with_replicas replicas dep) w)) [
          | inr (x, v, d) ↦ absurd (ground (arith, e, d))
          | inl (_, v, d) ↦ (waiting s v, ground (arith, e, d))
        ]
  ]

  polled-Reached :
      (u t : Run W)
      → PollsAsDocumented api
      → api.poll (scale_ready api namespace name replicas open_chan) u ≡ (done tt, t)
      → Reached t
  polled-Reached u t polls h = let (v, e) = poll-met api polls _ h in scale_ready-Reached v t e

  scale_lem :
      (ch : LogChan) (s : Run W)
      → scale_deployment_with_logs (clientset api) namespace name replicas ch s
        ≡ with_close ch (scale_body api namespace name replicas ch) s
  unfolding scale_deployment_with_logs
  scale_lem ch s = refl

  closed-Reached : (t : Run W) → Reached t → Reached (record t { closed = true })
  closed-Reached t r = record {
    before = r.before;
    dep = r.dep;
    read = r.read;
    enough = r.enough;
    logged = r.logged;
  }

  -- If ScaleDeploymentWithLogs, on an open channel and with waits that poll as documented, returns
  -- nil, then its last call was a read of the deployment that showed as many available replicas as
  -- were asked for, and its last message says that it succeeded.
  pub scale-Reached :
      (w : W) (t : Run W)
      → PollsAsDocumented api
      → scale_deployment_with_logs (clientset api) namespace name replicas open_chan (start w)
        ≡ (done tt, t)
      → Reached t
  scale-Reached w t polls h =
      let (r, body, same) = with_close-done _ _ t (sym (scale_lem open_chan (start w)) ∙ h) in
      let (u, e) = scale_body-polled (start w) r body in
      subst Reached (sym same) (closed-Reached r (polled-Reached u r polls e))

  -- Every way in which the operation can end, from the state `w` of the cluster: how it ends, and the
  -- state that it leaves.
  pub data Ending (w : W) : Outcome (Unit {0}) → Run W → Type 0 where
    -- The deployment cannot be read: nothing is written.
    unread :
        {e : Error} {v : W}
        → api.get_deployment namespace name w ≡ (err e, v)
        → Ending w
            (fail e)
            (record { world = v; logs = get_failed e namespace name ∷ []; closed = true })
    -- The deployment is read, and what is written differs from it in the number of replicas alone;
    -- the write fails.
    unwritten :
        {dep : Deployment} {e : Error} {v u : W}
        → api.get_deployment namespace name w ≡ (ok dep, v)
        → api.update_deployment namespace (with_replicas replicas dep) v ≡ (err e, u)
        → Ending w (fail e) (record {
          world = u;
          logs = scale_begins namespace name replicas ∷ update_failed e ∷ [];
          closed = true;
        })
    -- The same write succeeds, and the operation ends as the wait ends.
    waited :
        {dep : Deployment} {v u : W} {r : Outcome (Unit {0})} {t : Run W}
        → api.get_deployment namespace name w ≡ (ok dep, v)
        → api.update_deployment namespace (with_replicas replicas dep) v ≡ (ok tt, u)
        → Polled (scale_ready api namespace name replicas open_chan) (waiting (start w) u) r t
        → Ending w r (record t { closed = true })

  -- With waits that poll as documented, and whatever the cluster answers, ScaleDeploymentWithLogs
  -- on an open channel ends in one of three ways: a failed read; a failed write of the deployment,
  -- changed in nothing but the number of replicas; or that write, accepted, and the wait, with
  -- whose end it ends.
  pub scale-Ending :
      (w : W)
      → PollsAsDocumented api
      → Ending w
          (scale_deployment_with_logs (clientset api) namespace name replicas open_chan (start w)).0
          (scale_deployment_with_logs (clientset api) namespace name replicas open_chan (start w)).1
  unfolding scale_deployment_with_logs
  scale-Ending w polls = elim (Call-cases (api.get_deployment namespace name w)) [
    | inr (e, v, g) ↦ rw g (unread g)
    | inl (dep, v, g) ↦
        rw g (elim (Call-cases (api.update_deployment namespace (with_replicas replicas dep) v)) [
          | inr (e, u, p) ↦ rw p (unwritten g p)
          | inl (_, u, p) ↦ rw p (
              waited g p
                (polls (scale_ready api namespace name replicas open_chan) (waiting (start w) u)))
        ])
  ]
