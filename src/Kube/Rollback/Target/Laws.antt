-- ===== src/Kube/Rollback/Target/Laws.antt =====
-- Which ReplicaSet a rollback chooses.
use chatops.Base.{
  List, [], ◌∷◌, ◌++◌, ◌≡◌, String, ℕ, Bool, Option, ℤ, All, some, none, suc, ◌<◌, true, Bool-cases,
  inl, refl, false, pos, arith, ap, inr, subst, InWidth, ◌≤ℤ◌, str_eq_iff,
}
use chatops.Kube.Rollback.Target.{
  first_set, choose, ReplicaSet, passes, revision_of, has_text, has_number,
}
use chatops.Go.Numbers.{
  half_64, parse_int, parsed, pred_int64, format_int, parsed_value, bad_syntax,
}
use chatops.Go.Numbers.RoundTrip.{parse_int-format_int}

-- The ReplicaSet is the first of the list that passes the test.
pub record IsFirst (test : String → Bool) (sets : List ReplicaSet) (rs : ReplicaSet) : Type 0 where
  pub before : List ReplicaSet
  pub after : List ReplicaSet
  pub placed : sets ≡ before ++ rs ∷ after
  pub earlier : All (λ r. passes test (revision_of r) ≡ false) before
  pub passing : (text : String) × (revision_of rs ≡ some text) × (test text ≡ true)

passing_text :
    (test : String → Bool) (o : Option String)
    → passes test o ≡ true
    → (text : String) × (o ≡ some text) × (test text ≡ true)
passing_text test none h = cc
passing_text test (some text) h = (text, refl, h)

pub first_set_sound :
    (test : String → Bool) (sets : List ReplicaSet) (rs : ReplicaSet)
    → first_set test sets ≡ some rs
    → IsFirst test sets rs
unfolding first_set
first_set_sound test [] rs h = cc
first_set_sound test (r ∷ sets) rs h = elim (Bool-cases (passes test (revision_of r))) [
  | inl e ↦
      let same : r ≡ rs = ground (arith, e) in
      record {
        before = [];
        after = sets;
        placed = ap (λ x. x ∷ sets) same;
        earlier = tt;
        passing =
            subst (λ x. (text : String) × (revision_of x ≡ some text) × (test text ≡ true)) same
              (passing_text test (revision_of r) e);
      }
  | inr e ↦
      let ih = first_set_sound test sets rs (ground (arith, e)) in
      record {
        before = r ∷ ih.before;
        after = ih.after;
        placed = ap (λ x. r ∷ x) ih.placed;
        earlier = (e, ih.earlier);
        passing = ih.passing;
      }
]

first_set-none :
    (test : String → Bool) (sets : List ReplicaSet)
    → first_set test sets ≡ none
    → All (λ r. passes test (revision_of r) ≡ false) sets
unfolding first_set
first_set-none test [] h = tt
first_set-none test (r ∷ sets) h = elim (Bool-cases (passes test (revision_of r))) [
  | inl e ↦ absurd (ground (arith, e))
  | inr e ↦ (e, first_set-none test sets (ground (arith, e)))
]

has_text-parsed :
    (z : ℤ) (text : String) → InWidth half_64 z → has_text z text ≡ true → parse_int text ≡ parsed z
unfolding has_text
has_text-parsed z text fits h =
    let e : text ≡ format_int z = (str_eq_iff text (format_int z)).0 h in
    rw e (parse_int-format_int z fits)

choose_asked_lem :
    (n : ℕ) (current : ℤ) (sets : List ReplicaSet)
    → choose (pos (suc n)) current sets ≡ first_set (has_text (pos (suc n))) sets
unfolding choose
choose_asked_lem n current sets = ground arith

pub choose_previous_lem :
    (revision current : ℤ) (sets : List ReplicaSet)
    → revision ≤ℤ pos 0
    → choose revision current sets ≡ first_set (has_number (pred_int64 current)) sets
unfolding choose
choose_previous_lem revision current sets h = ground arith

-- With a positive revision that an int64 holds, the chosen ReplicaSet is the first whose
-- annotation is the decimal form of that revision, and ParseInt reads exactly that number from it.
pub choose-asked :
    (n : ℕ) (current : ℤ) (sets : List ReplicaSet) (rs : ReplicaSet)
    → suc n < half_64
    → choose (pos (suc n)) current sets ≡ some rs
    → IsFirst (has_text (pos (suc n))) sets rs
      × ((text : String) × (revision_of rs ≡ some text) × (parse_int text ≡ parsed (pos (suc n))))
choose-asked n current sets rs fits h =
    let first = first_set_sound _ sets rs (rw (choose_asked_lem n current sets) at h) in
    let (text, there, passing) = first.passing in
    (first, (text, there, has_text-parsed _ text (fits, omega arith) passing))

-- Where a positive revision finds no ReplicaSet, no annotation of the list is its decimal form.
pub choose-none :
    (n : ℕ) (current : ℤ) (sets : List ReplicaSet)
    → choose (pos (suc n)) current sets ≡ none
    → All (λ r. passes (has_text (pos (suc n))) (revision_of r) ≡ false) sets
choose-none n current sets h = first_set-none _ sets (rw (choose_asked_lem n current sets) at h)

malformed_number :
    (text : String) → parse_int text ≡ bad_syntax → has_number (pred_int64 (pos 1)) text ≡ true
unfolding has_number parsed_value pred_int64
malformed_number text h = rw h

-- With a revision that is not positive, and 1 as the current one, the first ReplicaSet of the list
-- is chosen if its annotation is there and has bad syntax for ParseInt.
pub choose-malformed :
    (revision : ℤ) (rs : ReplicaSet) (sets : List ReplicaSet) (text : String)
    → revision ≤ℤ pos 0
    → revision_of rs ≡ some text
    → parse_int text ≡ bad_syntax
    → choose revision (pos 1) (rs ∷ sets) ≡ some rs
choose-malformed revision rs sets text h there bad =
    rw (choose_previous_lem revision (pos 1) (rs ∷ sets) h)
      (unfold first_set in ground (arith, there, malformed_number text bad))
