-- ===== src/Kube/Rollback/Conflicts.antt =====
-- The write loop of RollbackDeploymentWithLogs when somebody else is always faster, and what follows.
use mathlib.Core.List.{append_assoc}
use chatops.Base.{[], ◌∷◌, ◌++◌, ◌≡◌, String, ℤ, true, arith, some, refl, ◌∙◌}
use chatops.Kube.Types.{Deployment}
use chatops.Kube.Rollback.{
  settled, apply_target, rollback_ready, applying_message, ReplicaSet, waiting_message,
  rolled_back_message, wait_settled, rollback_status,
}
use chatops.Kube.Api.{Api, Run, PollsAsDocumented}
use chatops.Effects.{ok, done}
use chatops.Kube.Log.{open_chan}
use chatops.Kube.Rollback.Update.Laws.{AlwaysConflicts, replicate, update_template-conflicts}
use chatops.Kube.Rollback.Update.{conflict_message}
use chatops.Kube.Polls.{poll-first}

module _ {W : Type 0} (api : Api W) (namespace name : String) (revision : ℤ) where
  abbrev writing : Run W → Run W
  writing s = record s { logs = s.logs ++ applying_message ∷ [] }

  abbrev resting : Run W → Run W
  resting s = record s { logs = s.logs ++ waiting_message ∷ [] }

  abbrev finished : Run W → Run W
  finished s = record s { logs = s.logs ++ rolled_back_message ∷ [] }

  -- A deployment that every read shows at rest.
  abbrev pub AlwaysAtRest : Type 0
  AlwaysAtRest =
      (w : W)
      → (dep : Deployment) × (v : W) × (wanted : ℤ) × (api.get_deployment namespace name w
          ≡ (ok dep, v))
        × (dep.spec_replicas ≡ some wanted)
        × (settled dep wanted ≡ true)

  rollback_ready_at_rest :
      AlwaysAtRest
      → (s : Run W)
      → (t : Run W) × (status : String) × (rollback_ready api namespace name revision open_chan s
          ≡ (done true, t))
        × (t.logs ≡ s.logs ++ status ∷ [])
  unfolding rollback_ready
  rollback_ready_at_rest rests s =
      let (dep, v, wanted, reads, spec, still) = rests s.world in
      (
        record s { world = v; logs = s.logs ++ rollback_status dep.status wanted ∷ [] },
        rollback_status dep.status wanted,
        ground (arith, reads, spec, still),
        refl,
      )

  -- With waits that poll as documented, where every write of the old template meets a conflict and
  -- every read shows the deployment at rest, the rollback from its chosen ReplicaSet on returns
  -- nil: it logs five conflicts, the wait, one status, and that it succeeded.
  pub apply_target-conflicts :
      (target : ReplicaSet) (s : Run W)
      → PollsAsDocumented api
      → AlwaysConflicts api namespace name target.template
      → AlwaysAtRest
      → (t : Run W) × (status : String) × (apply_target api namespace name revision open_chan target
            s
          ≡ (done tt, t))
        × (t.logs
            ≡ (s.logs ++ applying_message ∷ [])
              ++ replicate 5 conflict_message
              ++ waiting_message ∷ status ∷ rolled_back_message ∷ [])
  unfolding apply_target
  apply_target-conflicts target s polls always rests =
      let (u, ended, said) =
        update_template-conflicts api namespace name target.template always 5 (writing s) in
      let (v, status, ready, added) = rollback_ready_at_rest rests (resting u) in
      let polled =
        poll-first api polls (rollback_ready api namespace name revision open_chan) {s = resting u}
          ready in
      (
        finished v,
        status,
        rw ended (unfold wait_settled in ground (arith, polled)),
        logged u v status said added,
      )
    where
      logged :
          (u v : Run W) (status : String)
          → u.logs ≡ (s.logs ++ applying_message ∷ []) ++ replicate 5 conflict_message
          → v.logs ≡ (u.logs ++ waiting_message ∷ []) ++ status ∷ []
          → v.logs ++ rolled_back_message ∷ []
            ≡ (s.logs ++ applying_message ∷ [])
              ++ replicate 5 conflict_message
              ++ waiting_message ∷ status ∷ rolled_back_message ∷ []
      logged u v status said added =
          rw (added, said)
            (append_assoc
                ((((s.logs ++ applying_message ∷ []) ++ replicate 5 conflict_message)
                  ++ waiting_message ∷ []))
                (status ∷ []) (rolled_back_message ∷ [])
              ∙ append_assoc ((s.logs ++ applying_message ∷ []) ++ replicate 5 conflict_message)
                  (waiting_message ∷ []) (status ∷ rolled_back_message ∷ []))
