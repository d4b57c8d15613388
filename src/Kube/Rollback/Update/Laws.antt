-- ===== src/Kube/Rollback/Update/Laws.antt =====
-- How the loop that writes the old template can end.
use chatops.Base.{
  List, [], ◌∷◌, ◌++◌, ◌≡◌, ℕ, String, suc, false, true, sym, arith, inr, inl, refl, Bool-cases,
  zero, ◌∙◌, ◌<◌, Bool, ◌⊎◌, ap, if◌then◌else◌, subst,
}
use chatops.Kube.Api.{Api, Run}
use chatops.Kube.Types.{PodTemplate, Deployment}
use chatops.Kube.Rollback.Update.{
  update_template, attempt_update, with_template, conflict_message, contains, conflict_text,
}
use chatops.Effects.{ok, Error, done, err, Call-cases, Outcome, fail, continue, pure, panic}
use chatops.Kube.Log.{open_chan}
use mathlib.Core.List.{append-nil, append_assoc}

abbrev pub replicate : ℕ → String → List String
replicate zero m = []
replicate (suc n) m = m ∷ replicate n m

module _ {W : Type 0} (api : Api W) (namespace name : String) (template : PodTemplate) where
  -- A cluster in which the deployment can always be read, and somebody else is always faster.
  abbrev pub AlwaysConflicts : Type 0
  AlwaysConflicts =
      (w : W)
      → (dep : Deployment) × (v : W) × (e : Error) × (u : W) × (api.get_deployment namespace name w
          ≡ (ok dep, v))
        × (api.update_deployment namespace (with_template template dep) v ≡ (err e, u))
        × (contains e conflict_text ≡ true)

  -- The write that an attempt made: what was read, with the old template and nothing else changed.
  pub record Wrote (s t : Run W) : Type 0 where
    pub dep : Deployment
    pub read : W
    pub reads : api.get_deployment namespace name s.world ≡ (ok dep, read)
    pub writes :
        api.update_deployment namespace (with_template template dep) read ≡ (ok tt, t.world)
    pub silent : t.logs ≡ s.logs

  attempt_update-Wrote :
      (s t : Run W)
      → attempt_update api namespace name template open_chan s ≡ (done true, t)
      → Wrote s t
  unfolding attempt_update
  attempt_update-Wrote s t h = elim (Call-cases (api.get_deployment namespace name s.world)) [
    | inr (x, w, e) ↦ absurd (ground (arith, e))
    | inl (dep, w, e) ↦
        elim (Call-cases (api.update_deployment namespace (with_template template dep) w)) [
          | inr (x, v, d) ↦ elim (Bool-cases (contains x conflict_text)) [
            | inl b ↦ absurd (ground (arith, e, d, b))
            | inr b ↦ absurd (ground (arith, e, d, b))
          ]
          | inl (_, v, d) ↦ record {
            dep = dep;
            read = w;
            reads = e;
            writes = ground (arith, e, d);
            silent = ground (arith, e, d);
          }
        ]
  ]

  attempt_update-conflict :
      AlwaysConflicts
      → (s : Run W)
      → (t : Run W) × (attempt_update api namespace name template open_chan s ≡ (done false, t))
        × (t.logs ≡ s.logs ++ conflict_message ∷ [])
  unfolding attempt_update
  attempt_update-conflict always s =
      let (dep, v, e, u, reads, writes, conflict) = always s.world in
      (
        record s { world = api.sleep u; logs = s.logs ++ conflict_message ∷ [] },
        ground (arith, reads, writes, conflict),
        refl,
      )

  -- However many attempts are allowed, where every read succeeds and every write of the old
  -- template meets a conflict, the write loop ends without an error, with one message for each
  -- attempt.
  pub update_template-conflicts :
      AlwaysConflicts
      → (n : ℕ) (s : Run W)
      → (t : Run W) × (update_template api namespace name template open_chan n s ≡ (done tt, t))
        × (t.logs ≡ s.logs ++ replicate n conflict_message)
  unfolding update_template
  update_template-conflicts always zero s = (s, refl, sym (append-nil s.logs))
  update_template-conflicts always (suc n) s =
      let (t, first, said) = attempt_update-conflict always s in
      let (u, rest, more) = update_template-conflicts always n t in
      (u, rw first rest, more ∙ rw said (append_assoc s.logs _ _))

  attempt_update-again :
      (s t : Run W)
      → attempt_update api namespace name template open_chan s ≡ (done false, t)
      → t.logs ≡ s.logs ++ conflict_message ∷ []
  unfolding attempt_update
  attempt_update-again s t h = elim (Call-cases (api.get_deployment namespace name s.world)) [
    | inr (x, w, e) ↦ absurd (ground (arith, e))
    | inl (dep, w, e) ↦
        elim (Call-cases (api.update_deployment namespace (with_template template dep) w)) [
          | inr (x, v, d) ↦ elim (Bool-cases (contains x conflict_text)) [
            | inl b ↦ ground (arith, e, d, b)
            | inr b ↦ absurd (ground (arith, e, d, b))
          ]
          | inl (_, v, d) ↦ absurd (ground (arith, e, d))
        ]
  ]

  -- The ways in which the loop ends with no error: a write was accepted after fewer conflicts than
  -- attempts, or every attempt met a conflict and nothing was written.
  abbrev pub Ends : ℕ → Run W → Run W → Type 0
  Ends n s t =
      ((k : ℕ) × (u : Run W) × (k < n)
        × (u.logs ≡ s.logs ++ replicate k conflict_message)
        × Wrote u t)
      ⊎ (t.logs ≡ s.logs ++ replicate n conflict_message)

  after_conflict :
      (n : ℕ) (s r t : Run W)
      → r.logs ≡ s.logs ++ conflict_message ∷ []
      → Ends n r t
      → Ends (suc n) s t
  after_conflict n s r t said (inl (k, u, lt, logs, wrote)) =
      inl (suc k, u, omega arith, logs ∙ rw said (append_assoc s.logs _ _), wrote)
  after_conflict n s r t said (inr logs) = inr (logs ∙ rw said (append_assoc s.logs _ _))

  update_template-round :
      (n : ℕ) (s t : Run W) (p : Outcome Bool × Run W)
      → attempt_update api namespace name template open_chan s ≡ p
      → continue p.0
          (λ accepted.
            if accepted then pure tt else update_template api namespace name template open_chan n)
          p.1
        ≡ (done tt, t)
      → ((r : Run W)
          → update_template api namespace name template open_chan n r ≡ (done tt, t)
          → Ends n r t)
      → Ends (suc n) s t
  update_template-round n s t (done true, r) e h ih =
      let same : r ≡ t = ap (λ (x : Outcome (Unit {0}) × Run W). x.1) h in
      inl (
        0,
        s,
        omega arith,
        sym (append-nil s.logs),
        subst (Wrote s) same (attempt_update-Wrote s r e),
      )
  update_template-round n s t (done false, r) e h ih =
      after_conflict n s r t (attempt_update-again s r e) (ih r h)
  update_template-round n s t (fail x, r) e h ih = cc
  update_template-round n s t (panic, r) e h ih = cc

  -- The write loop of the rollback, with any number of attempts, ends without an error only if a
  -- write of what was just read with the old template was accepted after fewer reports of a
  -- conflict than attempts, or as many conflicts as attempts were reported.
  pub update_template-Ends :
      (n : ℕ) (s t : Run W)
      → update_template api namespace name template open_chan n s ≡ (done tt, t)
      → Ends n s t
  unfolding update_template
  update_template-Ends zero s t h =
      inr (ap (λ (x : Outcome (Unit {0}) × Run W). x.1.logs) (sym h) ∙ sym (append-nil s.logs))
  update_template-Ends (suc n) s t h =
      update_template-round n s t (attempt_update api namespace name template open_chan s) refl h
        (λ r. update_template-Ends n r t)
