-- ===== src/Kube/Api.antt =====
-- What the Kubernetes client calls outside the program: the typed clientset of client-go, the
-- selector of apimachinery, its PollUntilContextCancel, and the clock. `W` is the state of the
-- cluster and of the call's context, which may change at every call.
use chatops.Base.{ℕ, Bool, true, false, String, List, ◌≡◌, inl, arith, inr}
use chatops.Effects.{Error, Result, Call, Outcome, done, fail, panic, Eff, outcome, ok, Call-cases}
use chatops.Kube.Types.{Deployment, ReplicaSet, PodLogOptions}

-- The state of a running operation: the surroundings, the messages put on logCh, and whether logCh
-- is closed.
pub record Run (W : Type 0) : Type 0 where
  pub world : W
  pub logs : List String
  pub closed : Bool

pub record Api (W : Type 0) : Type 0 where
  pub get_deployment : String → String → Call W Deployment
  pub update_deployment : String → Deployment → Call W (Unit {0})
  pub list_replica_sets : String → String → Call W (List ReplicaSet)
  pub get_pod_phase : String → String → Call W String
  pub list_pod_names : String → Call W (List String)
  pub get_pod_logs : String → String → PodLogOptions → Call W String
  pub label_selector : String → Result String
  pub format_time : ℕ → String
  pub now : W → String × W
  pub sleep : W → W
  pub poll : Eff (Run W) Bool → Eff (Run W) (Unit {0})

module _ {W : Type 0} where
  -- Only the surroundings move while a poll waits for its next round.
  abbrev pub Waits : Run W → Run W → Type 0
  Waits s t = (t.logs ≡ s.logs) × (t.closed ≡ s.closed)

  -- What apimachinery documents of wait.PollUntilContextCancel with immediate = true: the condition
  -- runs at once and then once in every interval, until it returns true or an error, or until the
  -- context ends while the poll waits.
  pub data Polled (cond : Eff (Run W) Bool) : Run W → Outcome (Unit {0}) → Run W → Type 0 where
    met : {s t : Run W} → cond s ≡ (done true, t) → Polled cond s (done tt) t
    failed : {s t : Run W} {e : Error} → cond s ≡ (fail e, t) → Polled cond s (fail e) t
    crashed : {s t : Run W} → cond s ≡ (panic, t) → Polled cond s panic t
    cancelled :
        {s t u : Run W} (e : Error)
        → cond s ≡ (done false, t)
        → Waits t u
        → Polled cond s (fail e) u
    again :
        {s t u v : Run W} {r : Outcome (Unit {0})}
        → cond s ≡ (done false, t)
        → Waits t u
        → Polled cond u r v
        → Polled cond s r v

  abbrev pub PollsAsDocumented : Api W → Type 0
  PollsAsDocumented api =
      (cond : Eff (Run W) Bool) (s : Run W) → Polled cond s (api.poll cond s).0 (api.poll cond s).1

  -- A call of the clientset, inside an operation.
  abbrev pub call : {A : Type 0} → Call W A → Eff (Run W) A
  call c s = let (r, w) = c s.world in (outcome r, record s { world = w })

  pub call-done :
      {A : Type 0} (c : Call W A) (s t : Run W) (a : A)
      → call c s ≡ (done a, t)
      → c s.world ≡ (ok a, t.world)
  call-done c s t a h = elim (Call-cases (c s.world)) [
    | inl (b, w, e) ↦ ground (arith, e)
    | inr (x, w, e) ↦ absurd (ground (arith, e))
  ]
