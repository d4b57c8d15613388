-- ===== src/Kube/Rollback/Endings.antt =====
-- Every way in which RollbackDeploymentWithLogs can end.
use Prim.Native.String.{◌++◌}
use chatops.Base.{ℕ, ℤ, String, List, ◌≡◌, refl, true}
use chatops.Effects.{Error, Outcome, done, fail, panic, continue}
use chatops.Kube.Types.{Deployment, ReplicaSet, PodTemplate}
use chatops.Kube.Api.{Api, Run, Polled, PollsAsDocumented}
use chatops.Kube.Log.{open_chan, start, log, with_close, clientset}
use chatops.Kube.Rollback.{
  find_sets, choose_target, wait_settled, rolled_back_message, applying_message, waiting_message,
  rollback_ready, rollback_body, apply_target, rollback_deployment_with_logs, update_template,
}
use chatops.Kube.Rollback.Update.Rounds.{saying, Rounds, update_template-Rounds}
use chatops.Kube.Rollback.Checks.{Found, find_sets-Found, Quiet-choose_target, Quiet}

module _ {W : Type 0} (api : Api W) (namespace name : String) (revision : ℤ) where
  abbrev writing : Run W → Run W
  writing s = saying s s.world applying_message

  abbrev resting : Run W → Run W
  resting s = saying s s.world waiting_message

  -- How the operation ends behind its wait.
  abbrev pub concluded : Outcome (Unit {0}) → Run W → Outcome (Unit {0}) × Run W
  concluded (done x) t = (done tt, saying t t.world rolled_back_message)
  concluded (fail e) t = (
    fail ("ошибка ожидания завершения отката: " ++ e),
    saying t t.world ("[rollback] ОШИБКА ожидания завершения отката: " ++ e),
  )
  concluded panic t = (panic, t)

  abbrev closed : Run W → Run W
  closed t = record t { closed = true }

  -- The state of the cluster at the start, how the operation ends, and the state that it leaves.
  pub data Ending (w : W) : Outcome (Unit {0}) → Run W → Type 0 where
    -- The checks fail: the cluster was only read.
    unfound :
        {e : Error} {t : Run W}
        → Found api namespace name revision w (fail e) t
        → Ending w (fail e) (closed t)
    -- No ReplicaSet is chosen: the cluster was only read.
    unchosen :
        {dep : Deployment} {items : List ReplicaSet} {e : Error} {s t : Run W}
        → Found api namespace name revision w (done (dep, items)) s
        → choose_target api namespace name revision open_chan dep items s ≡ (fail e, t)
        → t.world ≡ s.world
        → Ending w (fail e) (closed t)
    -- The write loop, of five attempts at most, fails.
    unwritten :
        {dep : Deployment} {items : List ReplicaSet} {target : ReplicaSet} {e : Error}
        {s t u : Run W}
        → Found api namespace name revision w (done (dep, items)) s
        → choose_target api namespace name revision open_chan dep items s ≡ (done target, t)
        → t.world ≡ s.world
        → Rounds api namespace name target.template 5 (writing t) (fail e) u
        → Ending w (fail e) (closed u)
    -- The write loop ends without an error, and the operation ends as its wait does.
    waited :
        {dep : Deployment} {items : List ReplicaSet} {target : ReplicaSet} {s t u v : Run W}
        {r : Outcome (Unit {0})}
        → Found api namespace name revision w (done (dep, items)) s
        → choose_target api namespace name revision open_chan dep items s ≡ (done target, t)
        → t.world ≡ s.world
        → Rounds api namespace name target.template 5 (writing t) (done tt) u
        → Polled (rollback_ready api namespace name revision open_chan) (resting u) r v
        → Ending w (concluded r v).0 (closed (concluded r v).1)

  Rounds-panic :
      (template : PodTemplate) (n : ℕ) (s t : Run W)
      → Rounds api namespace name template n s panic t
      → ⊥
  Rounds-panic template n s t h = never h
    where
      never : {n : ℕ} {s t : Run W} → Rounds api namespace name template n s panic t → ⊥
      never (Rounds.again g p b rest) = never rest

  wait_settled-concluded :
      (s : Run W) (p : Outcome (Unit {0}) × Run W)
      → api.poll (rollback_ready api namespace name revision open_chan) s ≡ p
      → continue
          (wait_settled api namespace name revision open_chan s).0
          (λ x. log open_chan rolled_back_message)
          (wait_settled api namespace name revision open_chan s).1
        ≡ concluded p.0 p.1
  unfolding wait_settled log
  wait_settled-concluded s (done x, t) e = rw e refl
  wait_settled-concluded s (fail x, t) e = rw e refl
  wait_settled-concluded s (panic, t) e = rw e refl

  apply_target-Ending :
      {w : W} {dep : Deployment} {items : List ReplicaSet} {s : Run W}
      → PollsAsDocumented api
      → (target : ReplicaSet) (t : Run W) (q : Outcome (Unit {0}) × Run W)
      → Found api namespace name revision w (done (dep, items)) s
      → choose_target api namespace name revision open_chan dep items s ≡ (done target, t)
      → t.world ≡ s.world
      → update_template api namespace name target.template open_chan 5 (writing t) ≡ q
      → Rounds api namespace name target.template 5 (writing t) q.0 q.1
      → Ending w
          (apply_target api namespace name revision open_chan target t).0
          (closed (apply_target api namespace name revision open_chan target t).1)
  unfolding apply_target log
  apply_target-Ending polls target t (fail e, u) found chosen quiet q rounds =
      rw q (unwritten found chosen quiet rounds)
  apply_target-Ending polls target t (panic, u) found chosen quiet q rounds =
      absurd (Rounds-panic target.template 5 (writing t) u rounds)
  apply_target-Ending polls target t (done x, u) found chosen quiet q rounds =
      rw
        (
          q,
          wait_settled-concluded (resting u)
              (api.poll (rollback_ready api namespace name revision open_chan) (resting u)) refl,
        )
        (waited found chosen quiet rounds
          (polls (rollback_ready api namespace name revision open_chan) (resting u)))

  Quiet-Ending :
      {w : W} {dep : Deployment} {items : List ReplicaSet} {s : Run W}
      → PollsAsDocumented api
      → (p : Outcome ReplicaSet × Run W) → Found api namespace name revision w (done (dep, items)) s
      → choose_target api namespace name revision open_chan dep items s ≡ p
      → Quiet api namespace name revision s p
      → let r = continue p.0 (apply_target api namespace name revision open_chan) p.1 in
        Ending w r.0 (closed r.1)
  Quiet-Ending polls (done target, t) found e quiet =
      apply_target-Ending polls target t _ found e quiet refl
        (update_template-Rounds api namespace name target.template 5 (writing t))
  Quiet-Ending polls (fail x, t) found e quiet = unchosen found e quiet
  Quiet-Ending polls (panic, t) found e quiet = absurd quiet

  Found-Ending :
      {w : W}
      → PollsAsDocumented api
      → (p : Outcome (Deployment × List ReplicaSet) × Run W)
      → Found api namespace name revision w p.0 p.1
      → find_sets api namespace name revision open_chan (start w) ≡ p
      → Ending w
          (rollback_body api namespace name revision open_chan (start w)).0
          (closed (rollback_body api namespace name revision open_chan (start w)).1)
  unfolding rollback_body
  Found-Ending polls (done (dep, items), s) found e = rw e (
      Quiet-Ending polls _ found refl (Quiet-choose_target api namespace name revision dep items s))
  Found-Ending polls (fail x, s) found e = rw e (unfound found)
  Found-Ending polls (panic, s) found e = absurd (never found)
    where
      never : {w : W} {s : Run W} → Found api namespace name revision w panic s → ⊥
      never found = elim found [ ]

  -- With waits that poll as documented, and whatever the cluster answers,
  -- RollbackDeploymentWithLogs on an open channel ends in one of four ways: a failure of the
  -- checks or of the choice of a ReplicaSet, in front of which the cluster was only read; a
  -- failure of the write loop of five attempts; or that loop without an error, and the wait, with
  -- whose end it ends.
  pub rollback-Ending :
      (w : W)
      → PollsAsDocumented api
      → Ending w
          (rollback_deployment_with_logs
            (clientset api)
            namespace
            name
            revision
            open_chan
            (start w)).0
          (rollback_deployment_with_logs
            (clientset api)
            namespace
            name
            revision
            open_chan
            (start w)).1
  unfolding rollback_deployment_with_logs with_close
  rollback-Ending w polls =
      Found-Ending polls (find_sets api namespace name revision open_chan (start w))
        (find_sets-Found api namespace name revision w) refl
