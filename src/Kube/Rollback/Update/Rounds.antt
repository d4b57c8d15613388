-- ===== src/Kube/Rollback/Update/Rounds.antt =====
-- The rounds of the loop that writes the old template, each with all that it may meet.
use Prim.Native.String.{◌++◌}
use mathlib.Core.List as List
use chatops.Base.{ℕ, zero, suc, String, [], ◌∷◌, ◌≡◌, true, false, inl, inr, Bool-cases}
use chatops.Effects.{Error, Outcome, done, fail, ok, err, Call-cases}
use chatops.Kube.Api.{Api, Run}
use chatops.Kube.Log.{open_chan}
use chatops.Kube.Types.{PodTemplate, Deployment}
use chatops.Kube.Rollback.Update.{
  update_template, attempt_update, with_template, conflict_message, contains, conflict_text,
}

-- A state in which one more message has been logged.
abbrev pub saying : {W : Type 0} → Run W → W → String → Run W
saying s w m = record s { world = w; logs = List.◌++◌ s.logs (m ∷ []) }

module _ {W : Type 0} (api : Api W) (namespace name : String) (template : PodTemplate) where
  -- The loop with so many attempts left, from one state to how it ends and to another state.
  pub data Rounds : ℕ → Run W → Outcome (Unit {0}) → Run W → Type 0 where
    -- No attempt is left, and the loop just ends.
    spent : {s : Run W} → Rounds zero s (done tt) s
    -- The deployment cannot be read, and that is the error.
    unread :
        {n : ℕ} {s : Run W} {e : Error} {v : W}
        → api.get_deployment namespace name s.world ≡ (err e, v)
        → Rounds
            (suc n)
            s
            (fail ("ошибка получения deployment перед Update: " ++ e))
            (saying s v ("[rollback] Ошибка получения deployment перед Update: " ++ e))
    -- What was read is written with the old template, and the loop ends at once.
    written :
        {n : ℕ} {s : Run W} {dep : Deployment} {v u : W}
        → api.get_deployment namespace name s.world ≡ (ok dep, v)
        → api.update_deployment namespace (with_template template dep) v ≡ (ok tt, u)
        → Rounds (suc n) s (done tt) (record s { world = u })
    -- The write fails for another reason than a conflict, and that is the error.
    refused :
        {n : ℕ} {s : Run W} {dep : Deployment} {e : Error} {v u : W}
        → api.get_deployment namespace name s.world ≡ (ok dep, v)
        → api.update_deployment namespace (with_template template dep) v ≡ (err e, u)
        → contains e conflict_text ≡ false
        → Rounds
            (suc n)
            s
            (fail ("ошибка обновления deployment: " ++ e))
            (saying s u ("[rollback] Ошибка обновления deployment: " ++ e))
    -- A conflict: the loop pauses, and goes on with one attempt less.
    again :
        {n : ℕ} {s t : Run W} {dep : Deployment} {e : Error} {v u : W} {r : Outcome (Unit {0})}
        → api.get_deployment namespace name s.world ≡ (ok dep, v)
        → api.update_deployment namespace (with_template template dep) v ≡ (err e, u)
        → contains e conflict_text ≡ true
        → Rounds n (saying s (api.sleep u) conflict_message) r t
        → Rounds (suc n) s r t

  -- Whatever the cluster answers, the write loop of the rollback ends after at most as many rounds
  -- as it has attempts, each of them a failed read, an accepted write of what was read with the
  -- old template, a write refused for another reason than a conflict, or a conflict, which alone
  -- has it go on.
  pub update_template-Rounds :
      (n : ℕ) (s : Run W)
      → Rounds n s
          (update_template api namespace name template open_chan n s).0
          (update_template api namespace name template open_chan n s).1
  unfolding update_template attempt_update
  update_template-Rounds zero s = spent
  update_template-Rounds (suc n) s = elim (Call-cases (api.get_deployment namespace name s.world)) [
    | inr (e, v, g) ↦ rw g (unread g)
    | inl (dep, v, g) ↦
        rw g (elim (Call-cases (api.update_deployment namespace (with_template template dep) v)) [
          | inl (_, u, p) ↦ rw p (written g p)
          | inr (e, u, p) ↦ rw p (elim (Bool-cases (contains e conflict_text)) [
            | inl b ↦ rw b (again g p b (update_template-Rounds n _))
            | inr b ↦ rw b (refused g p b)
          ])
        ])
  ]
