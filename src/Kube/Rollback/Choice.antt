-- ===== src/Kube/Rollback/Choice.antt =====
-- What RollbackDeploymentWithLogs checks before it changes anything.
use chatops.Base.{
  List, ◌≡◌, String, ℤ, Option, ◌≤◌, some, length, arith, Bool-cases, ltb, none, Option-cases, inl,
  inr, refl, ◌∙◌,
}
use chatops.Kube.Api.{Api, Run}
use chatops.Kube.Types.{Deployment}
use chatops.Kube.Rollback.{
  choose_target, found_target, current_revision, lookup, ReplicaSet, revision_key, parsed, done,
  choose, sought,
}
use chatops.Kube.Log.{open_chan}
use chatops.Go.Numbers.{Parsed, parse_int, out_of_range, bad_syntax}
use chatops.Effects.{bind-done, Outcome, Eff, continue, fail, panic}

module _ {W : Type 0} (api : Api W) (namespace name : String) (revision : ℤ) where
  -- The deployment's annotation holds the number of a revision.
  abbrev pub HasRevision : Deployment → ℤ → Type 0
  HasRevision dep n =
      (text : String) × (lookup revision_key dep.annotations ≡ some text)
      × (parse_int text ≡ parsed n)

  current_revision-HasRevision :
      (dep : Deployment) (s t : Run W) (n : ℤ)
      → current_revision api namespace name revision open_chan dep s ≡ (done n, t)
      → HasRevision dep n
  unfolding current_revision
  current_revision-HasRevision dep s t n h =
      elim (Option-cases (lookup revision_key dep.annotations)) [
        | inl e ↦ absurd (ground (arith, e))
        | inr (text, e) ↦ numbered (parse_int text) text e refl
      ]
    where
      numbered :
          (p : Parsed) (text : String)
          → lookup revision_key dep.annotations ≡ some text
          → parse_int text ≡ p
          → HasRevision dep n
      numbered (parsed m) text e q = (text, e, ground (arith, e, q))
      numbered bad_syntax text e q = absurd (ground (arith, e, q))
      numbered (out_of_range m) text e q = absurd (ground (arith, e, q))

  world-current_revision :
      (dep : Deployment) (s : Run W)
      → (current_revision api namespace name revision open_chan dep s).1.world ≡ s.world
  unfolding current_revision
  world-current_revision dep s = elim (Option-cases (lookup revision_key dep.annotations)) [
    | inl e ↦ ground (arith, e)
    | inr (text, e) ↦ numbered (parse_int text) text e refl
  ]
    where
      numbered :
          (p : Parsed) (text : String)
          → lookup revision_key dep.annotations ≡ some text
          → parse_int text ≡ p
          → (current_revision api namespace name revision open_chan dep s).1.world ≡ s.world
      numbered (parsed m) text e q = ground (arith, e, q)
      numbered bad_syntax text e q = ground (arith, e, q)
      numbered (out_of_range m) text e q = ground (arith, e, q)

  found_target-done :
      (n : ℤ) (o : Option ReplicaSet) (s t : Run W) (rs : ReplicaSet)
      → found_target api namespace name revision open_chan n o s ≡ (done rs, t)
      → o ≡ some rs
  unfolding found_target
  found_target-done n none s t rs h = absurd (ground arith)
  found_target-done n (some r) s t rs h = ground arith

  -- A ReplicaSet is chosen only among two or more, for a deployment whose annotation holds its own
  -- revision, and by the rule of the revision asked for.
  pub record Chosen (dep : Deployment) (items : List ReplicaSet) (target : ReplicaSet)
      : Type 0 where
    pub enough : 2 ≤ length items
    pub current : ℤ
    pub numbered : HasRevision dep current
    pub fits : choose revision current items ≡ some target

  -- If a ReplicaSet is chosen, then among two or more, for a deployment whose annotation holds the
  -- number of its own revision, and by the rule of the revision asked for.
  pub choose_target-Chosen :
      (dep : Deployment) (items : List ReplicaSet) (s t : Run W) (rs : ReplicaSet)
      → choose_target api namespace name revision open_chan dep items s ≡ (done rs, t)
      → Chosen dep items rs
  unfolding choose_target
  choose_target-Chosen dep items s t rs h = elim (Bool-cases (ltb (length items) 2)) [
    | inl e ↦ absurd (ground (arith, e))
    | inr e ↦
        let (n, u, own, rest) =
          bind-done (current_revision api namespace name revision open_chan dep)
            (λ current.
              found_target api namespace name revision open_chan (sought revision current)
                (choose revision current items))
            s rs t (rw e at h) in
        record {
          enough = ground arith;
          current = n;
          numbered = current_revision-HasRevision dep s u n own;
          fits = found_target-done (sought revision n) (choose revision n items) u t rs rest;
        }
  ]

  world-found_target :
      (n : ℤ) (o : Option ReplicaSet) (s : Run W)
      → (found_target api namespace name revision open_chan n o s).1.world ≡ s.world
  unfolding found_target
  world-found_target n none s = ground arith
  world-found_target n (some r) s = ground arith

  world-continue :
      {A B : Type 0} (p : Outcome A × Run W) (f : A → Eff (Run W) B) (w : W)
      → p.1.world ≡ w
      → ((a : A) (u : Run W) → (f a u).1.world ≡ u.world)
      → (continue p.0 f p.1).1.world ≡ w
  world-continue (done a, u) f w e keeps = keeps a u ∙ e
  world-continue (fail x, u) f w e keeps = e
  world-continue (panic, u) f w e keeps = e

  -- The checks of the rollback and the choice of its ReplicaSet leave the cluster as it is,
  -- whether they succeed or fail.
  pub world-choose_target :
      (dep : Deployment) (items : List ReplicaSet) (s : Run W)
      → (choose_target api namespace name revision open_chan dep items s).1.world ≡ s.world
  unfolding choose_target
  world-choose_target dep items s = elim (Bool-cases (ltb (length items) 2)) [
    | inl e ↦ rw e (ground arith)
    | inr e ↦ rw e (
        world-continue (current_revision api namespace name revision open_chan dep s) _ s.world
          (world-current_revision dep s) (λ n u. world-found_target _ _ u))
  ]
