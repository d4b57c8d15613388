-- ===== src/Kube/Tests.antt =====
-- A cluster of one deployment, and runs of the operations of internal/kube/client.go on it.
mod Rollback
use chatops.Base.{[], ◌∷◌, String, All, ◌++◌, arith}
use chatops.Effects.{Outcome, Call, err, ok, done, fail, panic}
use chatops.Base.{Option, List, ℤ, pos, Bool, ◌∷◌, some, none, pos_part, ◌≡◌, refl, true, false}
use chatops.Kube.Restart.{restart_deployment_with_logs, made}
use chatops.Kube.Scale.{scale_deployment_with_logs}
use chatops.Kube.Scale.Laws.{Reached, Ending, scale-Reached, scale-Ending}
use chatops.Kube.Restart.Endings.{Restarted, restart-Restarted}
use chatops.Kube.Restart.Laws.{RolledOut, restart-RolledOut, with_restart_lem}
use chatops.Kube.Log.{with_close, nil_chan}
use chatops.Go.Maps.{lookup}
use chatops.Go.Numbers.{parsed_value, parse_int, format_int, bad_syntax, parsed, pred_int64}
use chatops.Kube.Restart.{with_restart, rolled_out}
use chatops.Kube.Rollback.Target.{choose, revision_of, has_number, has_text, passes}
use chatops.Kube.Rollback.Update.{update_template, attempt_update, conflict_message}
use chatops.Kube.Rollback.{
  rollback_body, find_sets, choose_target, current_revision, found_target, apply_target,
  wait_settled, rollback_ready, settled, applying_message, rolled_back_message,
}
use chatops.Kube.Rollback.{rollback_deployment_with_logs}
use Prim.Native.Nat.{ℕ}
use chatops.Kube.Api.{Api, Run, PollsAsDocumented, Polled, met, cancelled, failed, crashed}
use chatops.Kube.Types.{ReplicaSet, Deployment, DeploymentStatus, PodTemplate, RevisionInfo}
use chatops.Kube.Rollback.Target.{revision_key}
use chatops.Kube.Log.{clientset, open_chan, start}
use chatops.Kube.Rollback.Update.Laws.{
  AlwaysConflicts, Ends, replicate, update_template-Ends, update_template-conflicts,
}
use chatops.Kube.Rollback.Target.Laws.{choose-malformed, IsFirst, choose-none, choose-asked}
use chatops.Kube.Rollback.Choice.{world-choose_target, Chosen, choose_target-Chosen}
use chatops.Go.Strings.{contains}

abbrev status_of : ℕ → DeploymentStatus
status_of n = record {
  replicas = pos n;
  updated_replicas = pos n;
  available_replicas = pos n;
  unavailable_replicas = pos 0;
  observed_generation = pos 7;
}

abbrev pub template_of : String → PodTemplate
template_of image = record { annotations = none; containers = record { image = image } ∷ [] }

abbrev pub web : Deployment
web = record {
  annotations = (revision_key, "2") ∷ [];
  generation = pos 7;
  spec_replicas = some (pos 2);
  selector = "app=web";
  template = template_of "web:2";
  status = status_of 2;
}

abbrev set_of : String → String → ℕ → String → ReplicaSet
set_of name revision created image = record {
  name = name;
  annotations = (revision_key, revision) ∷ [];
  created = created;
  replicas = pos 0;
  ready_replicas = pos 0;
  template = template_of image;
}

abbrev pub old_set : ReplicaSet
old_set = set_of "web-1" "1" 10 "web:1"

abbrev pub new_set : ReplicaSet
new_set = set_of "web-2" "2" 20 "web:2"

abbrev pub strange_set : ReplicaSet
strange_set = set_of "web-x" "latest" 30 "web:x"

abbrev pub sets : List ReplicaSet
sets = old_set ∷ new_set ∷ []

-- A wait that gives up behind its first round.
abbrev one_round : Outcome Bool × Run Deployment → Outcome (Unit {0}) × Run Deployment
one_round (done true, t) = (done tt, t)
one_round (done false, t) = (fail "context deadline exceeded", t)
one_round (fail e, t) = (fail e, t)
one_round (panic, t) = (panic, t)

-- The cluster, by what it does with a write.
abbrev cluster : (String → Deployment → Call Deployment (Unit {0})) → Api Deployment
cluster write = record {
  get_deployment = λ namespace name w. (ok w, w);
  update_deployment = write;
  list_replica_sets = λ namespace selector w. (ok sets, w);
  get_pod_phase = λ namespace name w. (ok "Running", w);
  list_pod_names = λ namespace w. (ok ("web-1" ∷ []), w);
  get_pod_logs = λ namespace name options w. (ok "", w);
  label_selector = λ selector. ok selector;
  format_time = λ t. "2025-06-01T00:00:00Z";
  now = λ w. ("2025-06-02T00:00:00Z", w);
  sleep = λ w. w;
  poll = λ cond s. one_round (cond s);
}

abbrev replicas_of : Option ℤ → ℕ
replicas_of none = 0
replicas_of (some z) = pos_part z

-- A write that the cluster carries out at once.
abbrev pub carry_out : String → Deployment → Call Deployment (Unit {0})
carry_out namespace dep w =
    (ok tt, record dep { status = status_of (replicas_of dep.spec_replicas) })

abbrev pub refuse : String → Deployment → Call Deployment (Unit {0})
refuse namespace dep w = (err "the object has been modified; please apply your changes", w)

abbrev pub calm : Api Deployment
calm = cluster carry_out

abbrev pub busy : Api Deployment
busy = cluster refuse

pub cluster-polls :
    (write : String → Deployment → Call Deployment (Unit {0})) → PollsAsDocumented (cluster write)
cluster-polls write cond s = by_round (cond s) refl
  where
    by_round :
        (p : Outcome Bool × Run Deployment)
        → cond s ≡ p
        → Polled cond s (one_round p).0 (one_round p).1
    by_round (done true, t) e = met e
    by_round (done false, t) e = cancelled "context deadline exceeded" e (refl, refl)
    by_round (fail x, t) e = failed e
    by_round (panic, t) e = crashed e

abbrev scaled : Run Deployment
scaled = (scale_deployment_with_logs (clientset calm) "shop" "web" (pos 3) open_chan (start web)).1

scaled_ok :
    scale_deployment_with_logs (clientset calm) "shop" "web" (pos 3) open_chan (start web)
    ≡ (done tt, scaled)
unfolding scale_deployment_with_logs
scaled_ok = refl

scale-Reached_example : Reached calm "shop" "web" (pos 3) scaled
scale-Reached_example =
    scale-Reached calm "shop" "web" (pos 3) web scaled (cluster-polls carry_out) scaled_ok

scale-Ending_example :
    Ending busy "shop" "web"
      (pos 3)
      web
      (scale_deployment_with_logs (clientset busy) "shop" "web" (pos 3) open_chan (start web)).0
      (scale_deployment_with_logs (clientset busy) "shop" "web" (pos 3) open_chan (start web)).1
scale-Ending_example = scale-Ending busy "shop" "web" (pos 3) web (cluster-polls refuse)

abbrev restarted : Run Deployment
restarted = (restart_deployment_with_logs (clientset calm) "shop" "web" open_chan (start web)).1

restarted_ok :
    restart_deployment_with_logs (clientset calm) "shop" "web" open_chan (start web)
    ≡ (done tt, restarted)
unfolding restart_deployment_with_logs with_restart rolled_out
restarted_ok = refl

restart-RolledOut_example : RolledOut calm "shop" "web" restarted
restart-RolledOut_example =
    restart-RolledOut calm "shop" "web" web restarted (cluster-polls carry_out) restarted_ok

abbrev listing : List RevisionInfo
listing =
    record { revision = pos 1; rs_name = "web-1"; image = "web:1" }
    ∷ record { revision = pos 2; rs_name = "web-2"; image = "web:2" }
    ∷ []

restart-Restarted_example :
    Restarted busy "shop" "web" web
      (restart_deployment_with_logs (clientset busy) "shop" "web" open_chan (start web)).0
      (restart_deployment_with_logs (clientset busy) "shop" "web" open_chan (start web)).1
restart-Restarted_example = restart-Restarted busy "shop" "web" web (cluster-polls refuse)
