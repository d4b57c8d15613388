-- ===== src/Kube/Rollback/Target.antt =====
-- Which ReplicaSet RollbackDeploymentWithLogs goes back to.
pub mod Laws
pub mod Previous
use chatops.Base.{
  ℤ, Bool, false, String, Option, none, some, List, [], ◌∷◌, ltb, ltb_ℤ, eqb_ℤ, pos, if◌then◌else◌,
  str_eq,
}
use chatops.Go.Numbers.{format_int, parse_int, parsed_value, pred_int64}
use chatops.Go.Maps.{lookup}
use chatops.Kube.Types.{ReplicaSet}

abbrev pub revision_key : String
revision_key = "deployment.kubernetes.io/revision"

-- The less function of the sort: the newest first.
abbrev pub newer : ReplicaSet → ReplicaSet → Bool
newer a b = ltb b.created a.created

abbrev pub revision_of : ReplicaSet → Option String
revision_of rs = lookup revision_key rs.annotations

abbrev pub passes : (String → Bool) → Option String → Bool
passes test none = false
passes test (some text) = test text

-- Both loops over the ReplicaSets: the first whose annotation is there and passes the test.
unfoldable pub first_set : (String → Bool) → List ReplicaSet → Option ReplicaSet
first_set test [] = none
first_set test (rs ∷ sets) = if passes test (revision_of rs) then some rs else first_set test sets

-- rsRev == fmt.Sprintf("%d", revision)
unfoldable pub has_text : ℤ → String → Bool
has_text revision text = str_eq text (format_int revision)

-- rsRevInt, _ := strconv.ParseInt(rsRev, 10, 64); rsRevInt == targetRevision
unfoldable pub has_number : ℤ → String → Bool
has_number target text = eqb_ℤ (parsed_value (parse_int text)) target

-- The revision asked for, if it is positive, and else the one before the current.
unfoldable pub choose : ℤ → ℤ → List ReplicaSet → Option ReplicaSet
unfolding first_set has_text has_number pred_int64
choose revision current sets =
    if ltb_ℤ (pos 0) revision
    then first_set (has_text revision) sets
    else first_set (has_number (pred_int64 current)) sets

-- The revision that the messages name.
unfoldable pub sought : ℤ → ℤ → ℤ
unfolding pred_int64
sought revision current = if ltb_ℤ (pos 0) revision then revision else pred_int64 current
