-- ===== src/Kube/Tests/Rollback.antt =====
-- Runs of RollbackDeploymentWithLogs of internal/kube/client.go on the cluster of one deployment.
use chatops.Kube.Tests.{
  web, template_of, old_set, strange_set, sets, carry_out, refuse, calm, busy, cluster-polls,
}
use chatops.Base.{[], ◌∷◌, String, ◌++◌, arith}
use chatops.Effects.{ok, done}
use chatops.Base.{pos, ◌∷◌, some, none, ◌≡◌, refl, true}
use chatops.Kube.Log.{with_close}
use chatops.Go.Sort.{sort}
use chatops.Go.Maps.{lookup}
use chatops.Go.Numbers.{parsed_value, parse_int, format_int, bad_syntax, parsed}
use chatops.Kube.Rollback.Target.{choose, revision_of, has_text}
use chatops.Kube.Rollback.Update.{update_template, attempt_update, conflict_message}
use chatops.Kube.Rollback.{
  rollback_body, find_sets, choose_target, current_revision, found_target, apply_target,
  wait_settled, rollback_ready, settled, applying_message, rolled_back_message, waiting_message,
}
use chatops.Kube.Rollback.{rollback_deployment_with_logs}
use chatops.Kube.Rollback.Laws.{Success, rollback-Success}
use chatops.Kube.Rollback.Conflicts.{AlwaysAtRest, apply_target-conflicts}
use chatops.Kube.Rollback.Endings.{Ending, rollback-Ending}
use chatops.Kube.Api.{Api, Run, PollsAsDocumented}
use chatops.Kube.Types.{Deployment}
use chatops.Kube.Log.{clientset, open_chan, start}
use chatops.Kube.Rollback.Update.Laws.{AlwaysConflicts, replicate}
use chatops.Kube.Rollback.Update.Rounds.{Rounds, update_template-Rounds}
use chatops.Kube.Rollback.Target.Previous.{choose-previous, IsFirstNumbered}
use chatops.Kube.Rollback.Target.Laws.{choose-malformed, IsFirst, choose-asked}
use chatops.Go.Strings.{contains}

abbrev rolled_back : Run Deployment
rolled_back =
    (rollback_deployment_with_logs (clientset calm) "shop" "web" (pos 1) open_chan (start web)).1

rolled_back_ok :
    rollback_deployment_with_logs (clientset calm) "shop" "web" (pos 1) open_chan (start web)
    ≡ (done tt, rolled_back)
unfolding rollback_deployment_with_logs with_close rollback_body find_sets choose_target sort
    current_revision lookup parse_int found_target choose format_int apply_target update_template
    attempt_update wait_settled rollback_ready settled
rolled_back_ok = refl

rollback-Success_example : Success calm "shop" "web" (pos 1) web rolled_back
rollback-Success_example =
    rollback-Success calm "shop" "web" (pos 1) web rolled_back (omega arith)
      (cluster-polls carry_out) rolled_back_ok

-- A cluster of the deployment `web` alone, in which every write meets a conflict.
abbrev stuck : Api Deployment
stuck = record busy { get_deployment = λ namespace name w. (ok web, w) }

stuck_polls : PollsAsDocumented stuck
stuck_polls cond s = cluster-polls refuse cond s

stuck_always : AlwaysConflicts stuck "shop" "web" (template_of "web:1")
stuck_always w =
    (web, w, "the object has been modified; please apply your changes", w, refl, refl, conflict)
  where
    conflict :
        contains "the object has been modified; please apply your changes"
          "the object has been modified"
        ≡ true
    conflict = unfold contains in refl

stuck_at_rest : AlwaysAtRest stuck "shop" "web" (pos 1)
unfolding settled
stuck_at_rest w = (web, w, pos 2, refl, refl, refl)

apply_target-conflicts_example :
    (t : Run Deployment) × (status : String) × (apply_target stuck "shop" "web"
        (pos 1)
        open_chan
        old_set
        (start web)
      ≡ (done tt, t))
    × (t.logs
        ≡ (applying_message ∷ [])
          ++ replicate 5 conflict_message
          ++ waiting_message ∷ status ∷ rolled_back_message ∷ [])
apply_target-conflicts_example =
    apply_target-conflicts stuck "shop" "web" (pos 1) old_set (start web) stuck_polls stuck_always
      stuck_at_rest

abbrev written : Run Deployment
written = (update_template calm "shop" "web" (template_of "web:1") open_chan 5 (start web)).1

written_ok :
    update_template calm "shop" "web" (template_of "web:1") open_chan 5 (start web)
    ≡ (done tt, written)
unfolding update_template attempt_update
written_ok = refl

chosen_ok : choose (pos 1) (pos 2) sets ≡ some old_set
unfolding choose format_int lookup
chosen_ok = refl

choose-asked_example :
    IsFirst (has_text (pos 1)) sets old_set
    × ((text : String) × (revision_of old_set ≡ some text) × (parse_int text ≡ parsed (pos 1)))
choose-asked_example = choose-asked 0 (pos 2) sets old_set (ground arith) chosen_ok

previous_ok : choose (pos 0) (pos 2) sets ≡ some old_set
unfolding choose parse_int lookup parsed_value
previous_ok = refl

choose-previous_example : IsFirstNumbered (pos 1) sets old_set
choose-previous_example =
    choose-previous (pos 0) 1 sets old_set (ground arith) (omega arith) previous_ok

absent : choose (pos 9) (pos 2) sets ≡ none
unfolding choose format_int lookup
absent = refl

strange_text : revision_of strange_set ≡ some "latest"
unfolding lookup
strange_text = refl

strange_number : parse_int "latest" ≡ bad_syntax
unfolding parse_int
strange_number = refl

choose-malformed_example : choose (pos 0) (pos 1) (strange_set ∷ sets) ≡ some strange_set
choose-malformed_example =
    choose-malformed (pos 0) strange_set sets "latest" (ground arith) strange_text strange_number

abbrev choosing : Run Deployment
choosing = (choose_target calm "shop" "web" (pos 1) open_chan web sets (start web)).1

choosing_ok :
    choose_target calm "shop" "web" (pos 1) open_chan web sets (start web)
    ≡ (done old_set, choosing)
unfolding choose_target current_revision lookup parse_int found_target choose format_int
choosing_ok = refl

update_template-Rounds_example :
    Rounds busy "shop" "web"
      (template_of "web:1")
      5
      (start web)
      (update_template busy "shop" "web" (template_of "web:1") open_chan 5 (start web)).0
      (update_template busy "shop" "web" (template_of "web:1") open_chan 5 (start web)).1
update_template-Rounds_example =
    update_template-Rounds busy "shop" "web" (template_of "web:1") 5 (start web)

rollback-Ending_example :
    Ending busy "shop" "web"
      (pos 1)
      web
      (rollback_deployment_with_logs (clientset busy) "shop" "web" (pos 1) open_chan (start web)).0
      (rollback_deployment_with_logs (clientset busy) "shop" "web" (pos 1) open_chan (start web)).1
rollback-Ending_example = rollback-Ending busy "shop" "web" (pos 1) web (cluster-polls refuse)
