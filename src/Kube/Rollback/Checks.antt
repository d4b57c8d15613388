-- ===== src/Kube/Rollback/Checks.antt =====
-- What RollbackDeploymentWithLogs checks in front of its first write, on every path.
use Prim.Native.String.{◌++◌}
use chatops.Base.{
  ℕ, suc, ℤ, String, List, [], ◌∷◌, ◌≡◌, refl, inl, inr, false, Bool-cases, pos, Option, ltb_ℤ,
  length, ltb, some, none, Option-cases, ◌≢◌, arith, subst, sym,
}
use chatops.Effects.{
  Error, Outcome, done, fail, ok, err, Call-cases, Result-cases, Eff, panic, continue,
}
use chatops.Go.Sort.{sort}
use chatops.Kube.Types.{Deployment, ReplicaSet}
use chatops.Kube.Api.{Api, Run}
use chatops.Kube.Log.{open_chan, start}
use chatops.Kube.Rollback.Target.{newer}
use chatops.Kube.Rollback.{
  find_sets, log_sets, found_target, current_revision, choose_target, format_int, parsed, lookup,
  revision_key,
}
use chatops.Kube.Rollback.Update.Rounds.{saying}
use chatops.Go.Numbers.{Parsed, parse_int, out_of_range, bad_syntax}

module _ {W : Type 0} (api : Api W) (namespace name : String) (revision : ℤ) where
  -- What the checks in front of the choice come to: three failures, or the deployment and the
  -- ReplicaSets that its selector selects. All that they ask of the cluster is to read.
  pub data Found (w : W) : Outcome (Deployment × List ReplicaSet) → Run W → Type 0 where
    unread :
        {e : Error} {v : W} {l : List String}
        → api.get_deployment namespace name w ≡ (err e, v)
        → Found w
            (fail ("ошибка получения deployment: " ++ e))
            (record { world = v; logs = l; closed = false })
    unselected :
        {dep : Deployment} {e : Error} {v : W} {l : List String}
        → api.get_deployment namespace name w ≡ (ok dep, v)
        → api.label_selector dep.selector ≡ err e
        → Found w
            (fail ("ошибка создания селектора: " ++ e))
            (record { world = v; logs = l; closed = false })
    unlisted :
        {dep : Deployment} {selector : String} {e : Error} {v u : W} {l : List String}
        → api.get_deployment namespace name w ≡ (ok dep, v)
        → api.label_selector dep.selector ≡ ok selector
        → api.list_replica_sets namespace selector v ≡ (err e, u)
        → Found w
            (fail ("ошибка получения списка ReplicaSets: " ++ e))
            (record { world = u; logs = l; closed = false })
    listed :
        {dep : Deployment} {selector : String} {items : List ReplicaSet} {v u : W} {l : List String}
        → api.get_deployment namespace name w ≡ (ok dep, v)
        → api.label_selector dep.selector ≡ ok selector
        → api.list_replica_sets namespace selector v ≡ (ok items, u)
        → Found w (done (dep, sort newer items)) (record { world = u; logs = l; closed = false })

  log_sets_lem :
      (i : ℕ) (sets : List ReplicaSet) (s : Run W)
      → (l : List String) × (log_sets api namespace name revision open_chan i sets s
          ≡ (done tt, record s { logs = l }))
  unfolding log_sets
  log_sets_lem i [] s = (s.logs, refl)
  log_sets_lem i (rs ∷ sets) s = log_sets_lem (suc i) sets _

  -- The state in front of the loop that logs the ReplicaSets.
  abbrev found_so_far : String → List ReplicaSet → W → Run W
  found_so_far selector items u = record {
    world = u;
    logs =
        "[rollback] Получаем deployment..."
        ∷ "[rollback] Получаем селектор из deployment..."
        ∷ ("[rollback] Селектор: " ++ selector)
        ∷ "[rollback] Получаем список ReplicaSets..."
        ∷ ("[rollback] Найдено ReplicaSets: " ++ format_int (pos (length items)))
        ∷ [];
    closed = false;
  }

  pub find_sets-Found :
      (w : W)
      → Found w
          (find_sets api namespace name revision open_chan (start w)).0
          (find_sets api namespace name revision open_chan (start w)).1
  unfolding find_sets
  find_sets-Found w = elim (Call-cases (api.get_deployment namespace name w)) [
    | inr (e, v, g) ↦ rw g (unread g)
    | inl (dep, v, g) ↦ rw g (elim (Result-cases (api.label_selector dep.selector)) [
      | inr (e, q) ↦ rw q (unselected g q)
      | inl (selector, q) ↦ rw q (elim (Call-cases (api.list_replica_sets namespace selector v)) [
        | inr (e, u, i) ↦ rw i (unlisted g q i)
        | inl (items, u, i) ↦ rw i (
            let (l, logged) = log_sets_lem 0 items (found_so_far selector items u) in
            rw logged (listed g q i))
      ])
    ])
  ]

  -- The choice ends with a ReplicaSet or an error, and asks nothing of the cluster.
  abbrev pub Quiet : {A : Type 0} → Run W → Outcome A × Run W → Type 0
  Quiet s (done a, t) = t.world ≡ s.world
  Quiet s (fail e, t) = t.world ≡ s.world
  Quiet s (panic, t) = ⊥

  Quiet-found_target :
      (n : ℤ) (o : Option ReplicaSet) (r s : Run W)
      → s.world ≡ r.world
      → Quiet r (found_target api namespace name revision open_chan n o s)
  unfolding found_target
  Quiet-found_target n none r s e = elim (Bool-cases (ltb_ℤ (pos 0) revision)) [
    | inl b ↦ rw b e
    | inr b ↦ rw b e
  ]
  Quiet-found_target n (some rs) r s e = e

  Quiet-continue :
      {A B : Type 0} (p : Outcome A × Run W) (f : A → Eff (Run W) B) (s : Run W)
      → Quiet s p
      → ((a : A) (u : Run W) → u.world ≡ s.world → Quiet s (f a u))
      → Quiet s (continue p.0 f p.1)
  Quiet-continue (done a, u) f s h keeps = keeps a u h
  Quiet-continue (fail e, u) f s h keeps = h
  Quiet-continue (panic, u) f s h keeps = absurd h

  read_number :
      (dep : Deployment) (s : Run W) (text : String) (m : ℤ)
      → lookup revision_key dep.annotations ≡ some text
      → parse_int text ≡ parsed m
      → current_revision api namespace name revision open_chan dep s ≡ (done m, s)
  unfolding current_revision
  read_number dep s text m e q = ground (arith, e, q)

  no_number :
      (dep : Deployment) (s : Run W)
      → lookup revision_key dep.annotations ≡ none
      → current_revision api namespace name revision open_chan dep s ≡ (
        fail "не удалось определить текущую ревизию deployment",
        saying s s.world "[rollback] Не удалось определить текущую ревизию deployment",
      )
  unfolding current_revision
  no_number dep s e = ground (arith, e)

  abbrev unread_number : Run W → Outcome ℤ × Run W
  unread_number s = (
    fail "не удалось преобразовать ревизию deployment",
    saying s s.world "[rollback] Не удалось преобразовать ревизию deployment",
  )

  bad_number :
      (dep : Deployment) (s : Run W) (text : String) (p : Parsed)
      → lookup revision_key dep.annotations ≡ some text
      → parse_int text ≡ p
      → ((m : ℤ) → p ≢ parsed m)
      → current_revision api namespace name revision open_chan dep s ≡ unread_number s
  unfolding current_revision
  bad_number dep s text (parsed m) e q h = absurd (h m refl)
  bad_number dep s text bad_syntax e q h = ground (arith, e, q)
  bad_number dep s text (out_of_range m) e q h = ground (arith, e, q)

  Quiet-current_revision :
      (dep : Deployment) (s : Run W)
      → Quiet s (current_revision api namespace name revision open_chan dep s)
  unfolding current_revision
  Quiet-current_revision dep s = elim (Option-cases (lookup revision_key dep.annotations)) [
    | inl e ↦ subst (Quiet s) (sym (no_number dep s e)) refl
    | inr (text, e) ↦ numbered text (parse_int text) e refl
  ]
    where
      numbered :
          (text : String) (p : Parsed)
          → lookup revision_key dep.annotations ≡ some text
          → parse_int text ≡ p
          → Quiet s (current_revision api namespace name revision open_chan dep s)
      numbered text (parsed m) e q = subst (Quiet s) (sym (read_number dep s text m e q)) refl
      numbered text bad_syntax e q =
          subst (Quiet s) (sym (bad_number dep s text bad_syntax e q (λ m f. ground (arith, f))))
            refl
      numbered text (out_of_range n) e q =
          subst (Quiet s)
            (sym (bad_number dep s text (out_of_range n) e q (λ m f. ground (arith, f)))) refl

  pub Quiet-choose_target :
      (dep : Deployment) (items : List ReplicaSet) (s : Run W)
      → Quiet s (choose_target api namespace name revision open_chan dep items s)
  unfolding choose_target
  Quiet-choose_target dep items s = elim (Bool-cases (ltb (length items) 2)) [
    | inl b ↦ rw b refl
    | inr b ↦ rw b (
        Quiet-continue (current_revision api namespace name revision open_chan dep s) _ s
          (Quiet-current_revision dep s) (λ n u e. Quiet-found_target _ _ s u e))
  ]
