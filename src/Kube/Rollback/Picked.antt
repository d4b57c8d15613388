-- ===== src/Kube/Rollback/Picked.antt =====
-- Which ReplicaSet RollbackDeploymentWithLogs picks, by the annotations of the deployment and the list.
use chatops.Kube.Rollback.Target.Previous.{IsFirstNumbered, choose-IsFirstNumbered}
use chatops.Base.{
  ℤ, List, arith, String, InWidth, ℕ, ◌≡◌, pos, suc, ◌<◌, some, subst, sym, ◌≤ℤ◌, ◌∙◌, ap, negsuc,
  zero, refl,
}
use chatops.Kube.Api.{Api}
use chatops.Kube.Types.{Deployment, ReplicaSet}
use chatops.Go.Numbers.{half_64, parse_int, parsed, pred_int64}
use chatops.Kube.Rollback.Choice.{Chosen}
use chatops.Kube.Rollback.Target.Laws.{IsFirst, choose-asked}
use chatops.Kube.Rollback.Target.{has_text, choose, revision_of, revision_key}
use chatops.Go.Maps.{lookup}

module _ (revision : ℤ) where
  -- The rule of the revision asked for: the first annotation that is its decimal form, from which
  -- ParseInt reads just it, where it is positive, and else the first that counts as the revision in
  -- front of the deployment's own.
  pub data Picked (dep : Deployment) (items : List ReplicaSet) (target : ReplicaSet) : Type 0 where
    asked :
        (n : ℕ) (text : String)
        → revision ≡ pos (suc n)
        → IsFirst (has_text revision) items target
        → revision_of target ≡ some text
        → parse_int text ≡ parsed revision
        → Picked dep items target
    previous :
        (current : ℤ) (text : String)
        → revision ≤ℤ pos 0
        → lookup revision_key dep.annotations ≡ some text
        → parse_int text ≡ parsed current
        → IsFirstNumbered (pred_int64 current) items target
        → Picked dep items target

module _ {W : Type 0} (api : Api W) (namespace name : String) (revision : ℤ) where
  pub choice-Picked :
      (dep : Deployment) (items : List ReplicaSet) (target : ReplicaSet)
      → InWidth half_64 revision
      → Chosen api namespace name revision dep items target
      → Picked revision dep items target
  choice-Picked dep items target fits c = by_sign revision refl
    where
      by_sign : (z : ℤ) → revision ≡ z → Picked revision dep items target
      by_sign (pos (suc n)) e =
          let small : suc n < half_64 = (rw e at fits).0 in
          let chose : choose (pos (suc n)) c.current items ≡ some target = rw e at c.fits in
          let (first, (text, there, reads)) = choose-asked n c.current items target small chose in
          asked n text e (subst (λ z. IsFirst (has_text z) items target) (sym e) first) there
            (reads ∙ ap parsed (sym e))
      by_sign (pos zero) e =
          let (text, there, reads) = c.numbered in
          let low : revision ≤ℤ pos 0 = rw e (omega arith) in
          previous c.current text low there reads
            (choose-IsFirstNumbered revision c.current items target low c.fits)
      by_sign (negsuc n) e =
          let (text, there, reads) = c.numbered in
          let low : revision ≤ℤ pos 0 = rw e (omega arith) in
          previous c.current text low there reads
            (choose-IsFirstNumbered revision c.current items target low c.fits)
