-- ===== src/Kube/Rollback/Laws.antt =====
-- What RollbackDeploymentWithLogs has done when it reports success.
use chatops.Base.{
  List, [], ◌∷◌, ◌++◌, ◌≡◌, String, ℤ, pos, true, arith, eqb_ℤ_iff, some, inr, inl, Option-cases,
  Bool-cases, ap, sym, refl, ◌∙◌, subst, InWidth, ◌≤◌, length,
}
use chatops.Kube.Types.{Deployment}
use chatops.Kube.Rollback.{
  settled, apply_target, rollback_ready, applying_message, ReplicaSet, waiting_message,
  rolled_back_message, update_template, wait_settled, rollback_deployment_with_logs, rollback_body,
  choose_target, find_sets,
}
use chatops.Kube.Api.{Api, Run, PollsAsDocumented, Polled}
use chatops.Effects.{ok, done, Call-cases, bind-done, on_error-done, Outcome}
use chatops.Kube.Log.{open_chan, clientset, start, with_close, with_close-done}
use chatops.Kube.Rollback.Choice.{choose_target-Chosen, world-choose_target}
use chatops.Kube.Polls.{poll-met}
use chatops.Kube.Rollback.Checks.{Found, find_sets-Found}
use chatops.Go.Numbers.{half_64}
use chatops.Kube.Rollback.Update.Rounds.{Rounds, update_template-Rounds}
use chatops.Kube.Rollback.Picked.{Picked, choice-Picked}

-- A deployment that has come to rest at a number of replicas.
pub record IsSettled (dep : Deployment) (wanted : ℤ) : Type 0 where
  pub available : dep.status.available_replicas ≡ wanted
  pub updated : dep.status.updated_replicas ≡ wanted
  pub total : dep.status.replicas ≡ wanted
  pub none_missing : dep.status.unavailable_replicas ≡ pos 0

settled-IsSettled :
    (dep : Deployment) (wanted : ℤ) → settled dep wanted ≡ true → IsSettled dep wanted
unfolding settled
settled-IsSettled dep wanted h = ground (
  arith,
  eqb_ℤ_iff dep.status.available_replicas wanted,
  eqb_ℤ_iff dep.status.updated_replicas wanted,
  eqb_ℤ_iff dep.status.replicas wanted,
  eqb_ℤ_iff dep.status.unavailable_replicas (pos 0),
)

module _ {W : Type 0} (api : Api W) (namespace name : String) (revision : ℤ) where
  -- A read that shows the deployment at rest, and the last message.
  pub record RolledBack (t : Run W) : Type 0 where
    pub before : W
    pub dep : Deployment
    pub wanted : ℤ
    pub read : api.get_deployment namespace name before ≡ (ok dep, t.world)
    pub spec : dep.spec_replicas ≡ some wanted
    pub at_rest : IsSettled dep wanted
    pub logged : (l : List String) × (t.logs ≡ l ++ rolled_back_message ∷ [])

  -- A round of the wait that is satisfied.
  pub record Rested (t : Run W) : Type 0 where
    pub before : W
    pub dep : Deployment
    pub wanted : ℤ
    pub read : api.get_deployment namespace name before ≡ (ok dep, t.world)
    pub spec : dep.spec_replicas ≡ some wanted
    pub at_rest : IsSettled dep wanted

  rollback_ready-Rested :
      (u t : Run W)
      → rollback_ready api namespace name revision open_chan u ≡ (done true, t)
      → Rested t
  unfolding rollback_ready
  rollback_ready-Rested u t h = elim (Call-cases (api.get_deployment namespace name u.world)) [
    | inr (x, w, e) ↦ absurd (ground (arith, e))
    | inl (dep, w, e) ↦ elim (Option-cases dep.spec_replicas) [
      | inl d ↦ absurd (ground (arith, e, d))
      | inr (wanted, d) ↦ elim (Bool-cases (settled dep wanted)) [
        | inr b ↦ absurd (ground (arith, e, d, b))
        | inl b ↦ record {
          before = u.world;
          dep = dep;
          wanted = wanted;
          read = ground (arith, e, d, b);
          spec = d;
          at_rest = settled-IsSettled dep wanted b;
        }
      ]
    ]
  ]

  abbrev writing : Run W → Run W
  writing s = record s { logs = s.logs ++ applying_message ∷ [] }

  abbrev resting : Run W → Run W
  resting s = record s { logs = s.logs ++ waiting_message ∷ [] }

  abbrev finished : Run W → Run W
  finished s = record s { logs = s.logs ++ rolled_back_message ∷ [] }

  wait_settled-polled :
      (s t : Run W)
      → wait_settled api namespace name revision open_chan s ≡ (done tt, t)
      → api.poll (rollback_ready api namespace name revision open_chan) s ≡ (done tt, t)
  unfolding wait_settled
  wait_settled-polled s t h =
      on_error-done (api.poll (rollback_ready api namespace name revision open_chan)) _ s tt t
        (λ e r. ground arith) h

  -- From the chosen ReplicaSet on: the write loop, the wait, and the message of success.
  apply_target-done :
      (target : ReplicaSet) (s t : Run W)
      → apply_target api namespace name revision open_chan target s ≡ (done tt, t)
      → (u v : Run W) × (update_template api namespace name target.template open_chan 5 (writing s)
          ≡ (done tt, u))
        × (api.poll (rollback_ready api namespace name revision open_chan) (resting u)
            ≡ (done tt, v))
        × (t ≡ finished v)
  unfolding apply_target
  apply_target-done target s t h =
      let (_, u, written, rest) =
        bind-done (update_template api namespace name target.template open_chan 5) _ (writing s) tt
          t h in
      let (_, v, waited, last) =
        bind-done (wait_settled api namespace name revision open_chan) _ (resting u) tt t rest in
      (
        u,
        v,
        written,
        wait_settled-polled (resting u) v waited,
        ap (λ (x : Outcome (Unit {0}) × Run W). x.1) (sym last),
      )

  -- What a rollback that returns nil has done, call by call: it read the deployment, the selector
  -- and the ReplicaSets, picked one of two or more, wrote its template in rounds that ended without
  -- an error, waited, and read the deployment at rest last.
  pub record Success (w : W) (t : Run W) : Type 0 where
    pub dep : Deployment
    pub items : List ReplicaSet
    pub target : ReplicaSet
    pub listed : Run W
    pub chosen : Run W
    pub wrote : Run W
    pub rested : Run W
    pub found : Found api namespace name revision w (done (dep, items)) listed
    pub enough : 2 ≤ length items
    pub picked : Picked revision dep items target
    pub quiet : chosen.world ≡ listed.world
    pub rounds : Rounds api namespace name target.template 5 (writing chosen) (done tt) wrote
    pub waited :
        Polled
          (rollback_ready api namespace name revision open_chan)
          (resting wrote)
          (done tt)
          rested
    pub ends : t ≡ record (finished rested) { closed = true }
    pub at_rest : RolledBack t

  Rested-RolledBack : (v : Run W) → Rested v → RolledBack (record (finished v) { closed = true })
  Rested-RolledBack v r = record {
    before = r.before;
    dep = r.dep;
    wanted = r.wanted;
    read = r.read;
    spec = r.spec;
    at_rest = r.at_rest;
    logged = (v.logs, refl);
  }

  rollback_lem :
      (s : Run W)
      → rollback_deployment_with_logs (clientset api) namespace name revision open_chan s
        ≡ with_close open_chan (rollback_body api namespace name revision open_chan) s
  unfolding rollback_deployment_with_logs
  rollback_lem s = refl

  rollback_body-done :
      (w : W) (t : Run W)
      → rollback_body api namespace name revision open_chan (start w) ≡ (done tt, t)
      → (dep : Deployment) × (items : List ReplicaSet) × (target : ReplicaSet) × (u v : Run W)
        × Found api namespace name revision w (done (dep, items)) u
        × (choose_target api namespace name revision open_chan dep items u ≡ (done target, v))
        × (apply_target api namespace name revision open_chan target v ≡ (done tt, t))
  unfolding rollback_body
  rollback_body-done w t h =
      let (found, u, seen, rest) =
        bind-done (find_sets api namespace name revision open_chan) _ (start w) tt t h in
      let (target, v, chosen, last) =
        bind-done (choose_target api namespace name revision open_chan found.0 found.1) _ u tt t
          rest in
      (
        found.0,
        found.1,
        target,
        u,
        v,
        subst
            (λ (p : Outcome (Deployment × List ReplicaSet) × Run W).
              Found api namespace name revision w p.0 p.1)
            seen (find_sets-Found api namespace name revision w),
        chosen,
        last,
      )

  -- If RollbackDeploymentWithLogs, on an open channel, with an int64 as the revision and waits
  -- that poll as documented, returns nil, then it read the deployment, its selector and the
  -- ReplicaSets of the selector, at least two. It picked, among these sorted with the newest
  -- first, the first whose annotation is the decimal form of the revision asked for, where this is
  -- positive, and else the first whose annotation counts as the number before the deployment's own
  -- revision. With no call in between it went on to at most five rounds of reading the deployment
  -- and writing it with the template of that ReplicaSet, which ended by a write or by five
  -- conflicts, and then to the wait. Its last call was a read that showed the deployment at rest,
  -- and its last message says that it succeeded.
  pub rollback-Success :
      (w : W) (t : Run W)
      → InWidth half_64 revision
      → PollsAsDocumented api
      → rollback_deployment_with_logs (clientset api) namespace name revision open_chan (start w)
        ≡ (done tt, t)
      → Success w t
  rollback-Success w t fits polls h =
      let (r, body, same) = with_close-done _ _ t (sym (rollback_lem (start w)) ∙ h) in
      let (dep, items, target, s, u, found, choice, last) = rollback_body-done w r body in
      let (x, v, written, polled, ends) = apply_target-done target u r last in
      let (y, met) = poll-met api polls _ polled in
      let c = choose_target-Chosen api namespace name revision dep items s u target choice in
      let ended : t ≡ record (finished v) { closed = true } =
        same ∙ ap (λ (z : Run W). record z { closed = true }) ends in
      record {
        dep = dep;
        items = items;
        target = target;
        listed = s;
        chosen = u;
        wrote = x;
        rested = v;
        found = found;
        enough = c.enough;
        picked = choice-Picked api namespace name revision dep items target fits c;
        quiet =
            sym (ap (λ (p : Outcome ReplicaSet × Run W). p.1.world) choice)
            ∙ world-choose_target api namespace name revision dep items s;
        rounds =
            subst
              (λ (p : Outcome (Unit {0}) × Run W).
                Rounds api namespace name target.template 5 (writing u) p.0 p.1)
              written (update_template-Rounds api namespace name target.template 5 (writing u));
        waited =
            subst
              (λ (p : Outcome (Unit {0}) × Run W).
                Polled (rollback_ready api namespace name revision open_chan) (resting x) p.0 p.1)
              polled (polls (rollback_ready api namespace name revision open_chan) (resting x));
        ends = ended;
        at_rest =
            subst RolledBack (sym ended) (Rested-RolledBack v (rollback_ready-Rested y v met));
      }
