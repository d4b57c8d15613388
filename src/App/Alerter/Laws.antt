-- ===== src/App/Alerter/Laws.antt =====
-- Whom the alerter notifies of an alert.
use mathlib.Core.List.{Permᴰ}
use chatops.Base.{[], ◌∷◌, inl, inr, ◌↔◌, ◌⊎◌, refl, subst, String, ◌≡◌, ◌≢◌, arith, ap}
use chatops.Db.Types.{User}
use chatops.App.Alerter.{
  Alerter, Result, List, label_text, find_duty, ok, err, found, answer_of, search_duty,
}

-- A duty table that answers by the label alone, with no users where it gives an error.
abbrev pub Answers : {W : Type 0} → Alerter W → (String → Result (List User)) → Type 0
Answers {W} a table =
    (label : String) (w : W) → a.get_duty_users_by_label label w ≡ (answer_of (table label), w)

-- The label has somebody on duty.
abbrev pub HasDuty : (String → Result (List User)) → String × String → List User → Type 0
HasDuty table label users = (table (label_text label) ≡ ok users) × (users ≢ [])

-- Somebody is found through one of the labels.
abbrev pub Found : (String → Result (List User)) → List (String × String) → Type 0
Found table [] = ⊥
Found table (label ∷ labels) =
    ((users : List User) × HasDuty table label users) ⊎ Found table labels

module _ {W : Type 0} (a : Alerter W) (table : String → Result (List User))
    (answers : Answers a table) where
  found_iff :
      (label : String × String) (labels : List (String × String)) (w : W) (r : Result (List User))
      → table (label_text label) ≡ r
      → ((find_duty a labels w).0 ≢ []) ↔ Found table labels
      → ((found (answer_of r, w) (λ us. search_duty a us labels)).0 ≢ [])
        ↔ Found table (label ∷ labels)
  found_iff label labels w (err e) q ih = (
    λ h. inr (ih.0 h),
    λ f. elim f [ inl h ↦ absurd (ground (arith, q, h.1.0)) | inr later ↦ ih.1 later ],
  )
  found_iff label labels w (ok []) q ih = (
    λ h. inr (ih.0 h),
    λ f. elim f [ inl h ↦ absurd (h.1.1 (ground (arith, q, h.1.0))) | inr later ↦ ih.1 later ],
  )
  found_iff label labels w (ok (user ∷ users)) q ih = (
    λ h. inl (user ∷ users, (q, λ e. absurd (ground (arith, e)))),
    λ f e. absurd (ground (arith, e)),
  )

  pub find_duty_lem :
      (label : String × String) (labels : List (String × String)) (w : W)
      → find_duty a (label ∷ labels) w
        ≡ found (answer_of (table (label_text label)), w) (λ us. search_duty a us labels)
  unfolding search_duty
  find_duty_lem label labels w =
      ap (λ r. found r (λ us. search_duty a us labels)) (answers (label_text label) w)

  -- For a duty table that answers by the label alone, and gives no users with an error, users are
  -- notified of an alert exactly if one of its labels has somebody on duty: an error or an empty
  -- answer for one label does not keep the others from being asked.
  pub find_duty_iff :
      (labels : List (String × String)) (w : W)
      → ((find_duty a labels w).0 ≢ []) ↔ Found table labels
  find_duty_iff [] w = (λ h. unfold search_duty in h refl, λ h. absurd h)
  find_duty_iff (label ∷ labels) w =
      rw (find_duty_lem label labels w)
        (found_iff label labels w (table (label_text label)) refl (find_duty_iff labels w))

  Found-perm : (ls ms : List (String × String)) → Permᴰ ls ms → Found table ls → Found table ms
  Found-perm ls ms p = by_perm p
    where
      by_perm : {ls ms : List (String × String)} → Permᴰ ls ms → Found table ls → Found table ms
      by_perm Permᴰ.nil h = h
      by_perm (Permᴰ.cons e p) (inl h) =
          inl (subst (λ l. (users : List User) × HasDuty table l users) e h)
      by_perm (Permᴰ.cons e p) (inr h) = inr (by_perm p h)
      by_perm (Permᴰ.swap e f) (inl h) =
          inr (inl (subst (λ l. (users : List User) × HasDuty table l users) e h))
      by_perm (Permᴰ.swap e f) (inr (inl h)) =
          inl (subst (λ l. (users : List User) × HasDuty table l users) f h)
      by_perm (Permᴰ.swap e f) (inr (inr h)) = inr (inr h)
      by_perm (Permᴰ.trans p q) h = by_perm q (by_perm p h)

  -- For a duty table that answers by the label alone, and gives no users with an error, whether
  -- anybody is notified of an alert does not depend on the order in which its labels are visited.
  pub find_duty-perm :
      (labels labels' : List (String × String)) (w : W)
      → Permᴰ labels labels'
      → (find_duty a labels w).0 ≢ []
      → (find_duty a labels' w).0 ≢ []
  find_duty-perm labels labels' w p h =
      (find_duty_iff labels' w).1 (Found-perm labels labels' p ((find_duty_iff labels w).0 h))
