-- ===== src/Monitoring/Dashboard/Commute.antt =====
-- The writes of two queries of GetStatusDashboard, in both orders.
use chatops.Base.{[]}
use chatops.Monitoring.Dashboard.Queries.{keep}
use chatops.Monitoring.Dashboard.{
  adjust, changes, change, has, Change, ◌>=>◌, fault, Setting, unless_panicked, Map, write,
  PodStatus,
}
use chatops.Base.{
  Option, String, List, ◌≡◌, ◌≢◌, sym, some, fun_ext, All, ◌∙◌, none, ap, refl, ◌∷◌, arith, str_eq,
  ◌||◌,
}
use chatops.Monitoring.Dashboard.Settings.{Job, job_of, apply_comm}

module _ {A : Type 0} where
  pub assoc : (f g h : A → Option A) → (f >=> g) >=> h ≡ f >=> (g >=> h)
  assoc f g h = fun_ext (λ a. at (f a))
    where
      at : (o : Option A) → unless_panicked (unless_panicked o g) h ≡ unless_panicked o (g >=> h)
      at none = refl
      at (some a) = refl

  after_some : (f : A → Option A) → f >=> some ≡ f
  after_some f = fun_ext (λ a. at (f a))
    where
      at : (o : Option A) → unless_panicked o some ≡ o
      at none = refl
      at (some a) = refl

  -- What commutes with two steps commutes with the one after the other.
  commutes-both :
      (f g h : A → Option A)
      → f >=> g ≡ g >=> f
      → f >=> h ≡ h >=> f
      → f >=> (g >=> h) ≡ (g >=> h) >=> f
  commutes-both f g h p q =
      sym (assoc f g h)
      ∙ ap (λ (k : A → Option A). k >=> h) p
      ∙ assoc g f h
      ∙ ap (λ (k : A → Option A). g >=> k) q
      ∙ sym (assoc g h f)

module _ {F : Type 0} where
  adjust_comm :
      (n m : String) (s t : Setting F) (pods : Map (PodStatus F))
      → job_of s ≢ job_of t
      → adjust n s (adjust m t pods) ≡ adjust m t (adjust n s pods)
  unfolding adjust
  adjust_comm n m s t [] h = refl
  adjust_comm n m s t ((x, ps) ∷ pods) h =
      ground (arith, adjust_comm n m s t pods h, apply_comm s t ps h)

  pub has-adjust :
      (n m : String) (s : Setting F) (pods : Map (PodStatus F))
      → has n (adjust m s pods) ≡ has n pods
  unfolding adjust has
  has-adjust n m s [] = refl
  has-adjust n m s ((x, ps) ∷ pods) = ap (λ b. str_eq x n || b) (has-adjust n m s pods)

  -- The change is one that the query makes.
  abbrev pub Belongs : Job → Change F → Type 0
  Belongs job keep = Unit {0}
  Belongs job (fault n) = Unit {0}
  Belongs job (write n s) = job_of s ≡ job

  fault-write :
      (n m : String) (s : Setting F)
      → ◌≡◌ {A = Map (PodStatus F) → Option (Map (PodStatus F))}
          (change (fault n) >=> change (write m s))
          (change (write m s) >=> change (fault n))
  unfolding change
  fault-write n m s = fun_ext (λ pods. ground (arith, has-adjust n m s pods))

  pub change_comm :
      (j k : Job) (c d : Change F)
      → j ≢ k
      → Belongs j c
      → Belongs k d
      → ◌≡◌ {A = Map (PodStatus F) → Option (Map (PodStatus F))}
          (change c >=> change d)
          (change d >=> change c)
  unfolding change
  change_comm j k keep d ne b e = sym (after_some (change d))
  change_comm j k c keep ne b e = after_some (change c)
  change_comm j k (fault n) (fault m) ne b e = fun_ext (λ pods. ground arith)
  change_comm j k (fault n) (write m t) ne b e = fault-write n m t
  change_comm j k (write n s) (fault m) ne b e = sym (fault-write m n s)
  change_comm j k (write n s) (write m t) ne b e =
      fun_ext (λ pods. ap some (sym (adjust_comm n m s t pods (λ q. ne (sym b ∙ q ∙ e)))))

  change-changes :
      (j k : Job) (c : Change F) (ds : List (Change F))
      → j ≢ k
      → Belongs j c
      → All (Belongs k) ds
      → ◌≡◌ {A = Map (PodStatus F) → Option (Map (PodStatus F))}
          (change c >=> changes ds)
          (changes ds >=> change c)
  unfolding changes
  change-changes j k c [] ne b h = after_some (change c)
  change-changes j k c (d ∷ ds) ne b (e, h) =
      commutes-both (change c) (change d) (changes ds) (change_comm j k c d ne b e)
        (change-changes j k c ds ne b h)

  pub changes_comm :
      (j k : Job) (cs ds : List (Change F))
      → j ≢ k
      → All (Belongs j) cs
      → All (Belongs k) ds
      → ◌≡◌ {A = Map (PodStatus F) → Option (Map (PodStatus F))}
          (changes ds >=> changes cs)
          (changes cs >=> changes ds)
  unfolding changes
  changes_comm j k [] ds ne b h = after_some (changes ds)
  changes_comm j k (c ∷ cs) ds ne (b, bs) h =
      commutes-both (changes ds) (change c) (changes cs) (sym (change-changes j k c ds ne b h))
        (changes_comm j k cs ds ne bs h)
