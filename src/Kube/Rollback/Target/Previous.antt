-- ===== src/Kube/Rollback/Target/Previous.antt =====
-- Which ReplicaSet a rollback to the previous revision chooses, by what ParseInt reads.
use chatops.Base.{
  List, ◌∷◌, [], ◌++◌, ◌≡◌, String, ℕ, ℤ, All, some, suc, ◌<◌, true, false, refl, pos, arith, ◌≤ℤ◌,
  eqb_ℤ_iff, ap, sym, ◌∙◌,
}
use chatops.Kube.Rollback.Target.{choose, ReplicaSet, passes, revision_of, has_number}
use chatops.Kube.Rollback.Target.Laws.{IsFirst, first_set_sound, choose_previous_lem}
use chatops.Go.Numbers.{
  half_64, parse_int, Parsed, parsed, pred_int64, parsed_value, bad_syntax, out_of_range,
}

-- The number that a text counts as, where the error of ParseInt is dropped: its own, the end of the
-- range that it passes, or 0 for bad syntax.
pub data CountsAs (target : ℤ) (text : String) : Type 0 where
  number : parse_int text ≡ parsed target → CountsAs target text
  past_range : parse_int text ≡ out_of_range target → CountsAs target text
  malformed : parse_int text ≡ bad_syntax → target ≡ pos 0 → CountsAs target text

-- The ReplicaSet has a revision annotation, and it counts as the number.
pub record IsNumbered (target : ℤ) (rs : ReplicaSet) : Type 0 where
  pub text : String
  pub there : revision_of rs ≡ some text
  pub counts : CountsAs target text

-- The first ReplicaSet of the list that is so numbered.
pub record IsFirstNumbered (target : ℤ) (sets : List ReplicaSet) (rs : ReplicaSet) : Type 0 where
  pub before : List ReplicaSet
  pub after : List ReplicaSet
  pub placed : sets ≡ before ++ rs ∷ after
  pub earlier : All (λ r. ¬ IsNumbered target r) before
  pub numbered : IsNumbered target rs

has_number-CountsAs :
    (target : ℤ) (text : String) → has_number target text ≡ true → CountsAs target text
unfolding has_number parsed_value
has_number-CountsAs target text h = by_parsed (parse_int text) refl
  where
    by_parsed : (p : Parsed) → parse_int text ≡ p → CountsAs target text
    by_parsed (parsed n) q = number (q ∙ ap parsed ((eqb_ℤ_iff n target).0 (rw q at h)))
    by_parsed bad_syntax q = malformed q (sym ((eqb_ℤ_iff (pos 0) target).0 (rw q at h)))
    by_parsed (out_of_range n) q =
        past_range (q ∙ ap out_of_range ((eqb_ℤ_iff n target).0 (rw q at h)))

CountsAs-has_number :
    (target : ℤ) (text : String) → CountsAs target text → has_number target text ≡ true
unfolding has_number parsed_value
CountsAs-has_number target text (number q) = rw q ((eqb_ℤ_iff target target).1 refl)
CountsAs-has_number target text (past_range q) = rw q ((eqb_ℤ_iff target target).1 refl)
CountsAs-has_number target text (malformed q z) = rw q ((eqb_ℤ_iff (pos 0) target).1 (sym z))

not_passing :
    (target : ℤ) (r : ReplicaSet)
    → passes (has_number target) (revision_of r) ≡ false
    → ¬ IsNumbered target r
not_passing target r h n =
    let e : has_number target n.text ≡ false = rw n.there at h in
    cc (e, CountsAs-has_number target n.text n.counts)

none_passing :
    (target : ℤ) (sets : List ReplicaSet)
    → All (λ r. passes (has_number target) (revision_of r) ≡ false) sets
    → All (λ r. ¬ IsNumbered target r) sets
none_passing target [] h = tt
none_passing target (r ∷ sets) (e, h) = (not_passing target r e, none_passing target sets h)

IsFirst-Numbered :
    (target : ℤ) (sets : List ReplicaSet) (rs : ReplicaSet)
    → IsFirst (has_number target) sets rs
    → IsFirstNumbered target sets rs
IsFirst-Numbered target sets rs first =
    let (text, there, passing) = first.passing in
    record {
      before = first.before;
      after = first.after;
      placed = first.placed;
      earlier = none_passing target first.before first.earlier;
      numbered = record {
        text = text;
        there = there;
        counts = has_number-CountsAs target text passing;
      };
    }

pub choose-IsFirstNumbered :
    (revision current : ℤ) (sets : List ReplicaSet) (rs : ReplicaSet)
    → revision ≤ℤ pos 0
    → choose revision current sets ≡ some rs
    → IsFirstNumbered (pred_int64 current) sets rs
choose-IsFirstNumbered revision current sets rs h e =
    IsFirst-Numbered _ sets rs
      (first_set_sound _ sets rs (rw (choose_previous_lem revision current sets h) at e))

pred_int64-suc : (c : ℕ) → suc c < half_64 → pred_int64 (pos (suc c)) ≡ pos c
unfolding pred_int64
pred_int64-suc c h = ground arith

-- With a revision that is not positive, and a current revision c + 1 that an int64 holds, the
-- chosen ReplicaSet is the first of the list whose annotation is there and counts as c: ParseInt
-- reads c from it, or it finds bad syntax and c is 0, or it reports c as the end of the range
-- passed.
pub choose-previous :
    (revision : ℤ) (c : ℕ) (sets : List ReplicaSet) (rs : ReplicaSet)
    → revision ≤ℤ pos 0
    → suc c < half_64
    → choose revision (pos (suc c)) sets ≡ some rs
    → IsFirstNumbered (pos c) sets rs
choose-previous revision c sets rs h fits e =
    rw (pred_int64-suc c fits) at (choose-IsFirstNumbered revision (pos (suc c)) sets rs h e)
