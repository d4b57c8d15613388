-- ===== src/Go/Strings/Split.antt =====
-- The pieces that Cut, SplitN and Split give, and Join of them.
use Prim.Native.String.{String, [], ◌∷◌, ◌++◌}
use text.Mathlib.TextLemmas.{nil-append, cons-append}
use text.Mathlib.TextEquality.{Char-path}
use chatops.Base.{
  ℕ, zero, suc, ◌≡◌, refl, ◌≢◌, Option, none, some, List, [], ◌∷◌, arith, Char, code, All, ap,
  Option-cases, Bool-cases, length, ◌≤◌, ◌==◌, inl, inr,
}
use chatops.Go.Strings.{chars, cut, split_n, push, split, join}

abbrev pub Lacks : Char → String → Type 0
Lacks sep [] = Unit
Lacks sep (c ∷ s) = (code c ≢ code sep) × Lacks sep s

-- A text whose first piece lacks the separator is cut just behind that piece.
pub cut-append : (sep : Char) (w s : String) → Lacks sep w → cut sep (w ++ sep ∷ s) ≡ some (w, s)
unfolding cut
cut-append sep [] s h = rw nil-append (ground arith)
cut-append sep (c ∷ w) s (p, h) = rw cons-append (ground (arith, cut-append sep w s h))

pub cut-Lacks : (sep : Char) (w : String) → Lacks sep w → cut sep w ≡ none
unfolding cut
cut-Lacks sep [] h = refl
cut-Lacks sep (c ∷ w) (p, h) = ground (arith, cut-Lacks sep w h)

-- What a successful cut says of its parts.
Parts : Char → String → Option (String × String) → Type 0
Parts sep s none = Lacks sep s
Parts sep s (some (b, a)) = (b ++ sep ∷ a ≡ s) × Lacks sep b

chars-Parts :
    (sep c : Char) (s : String) (o : Option (String × String))
    → code c ≢ code sep
    → Parts sep s o
    → Parts sep (c ∷ s) (chars c s o)
unfolding Parts
chars-Parts sep c s none ne h = (ne, h)
chars-Parts sep c s (some (b, a)) ne (e, h) = (rw (cons-append, e), (ne, h))

cut-Parts : (sep : Char) (s : String) → Parts sep s (cut sep s)
unfolding cut Parts
cut-Parts sep [] = tt
cut-Parts sep (c ∷ s) = elim (Bool-cases (code c == code sep)) [
  | inl e ↦ rw e (rw nil-append (ap (λ d. d ∷ s) (Char-path sep c (ground arith))), tt)
  | inr e ↦ rw e (chars-Parts sep c s (cut sep s) (ground arith) (cut-Parts sep s))
]

pub cut_sound :
    (sep : Char) (s b a : String) → cut sep s ≡ some (b, a) → (b ++ sep ∷ a ≡ s) × Lacks sep b
unfolding Parts
cut_sound sep s b a h = rw h at (cut-Parts sep s)

pub cut-none : (sep : Char) (s : String) → cut sep s ≡ none → Lacks sep s
unfolding Parts
cut-none sep s h = rw h at (cut-Parts sep s)

join-cons :
    (sep w : String) (ws : List String) → ws ≢ [] → join sep (w ∷ ws) ≡ w ++ sep ++ join sep ws
unfolding join
join-cons sep w [] h = absurd (h refl)
join-cons sep w (v ∷ ws) h = refl

split_n-ne-nil : (n : ℕ) (sep : Char) (s : String) → split_n (suc n) sep s ≢ []
unfolding split_n
split_n-ne-nil zero sep s = ground arith
split_n-ne-nil (suc n) sep s = ground arith

-- The pieces, joined again, are the text.
pub join-split_n : (n : ℕ) (sep : Char) (s : String) → join (sep ∷ []) (split_n (suc n) sep s) ≡ s
unfolding split_n
join-split_n zero sep s = unfold join in refl
join-split_n (suc n) sep s = elim (Option-cases (cut sep s)) [
  | inl e ↦ rw (e, split_n) (unfold join in refl)
  | inr ((b, a), e) ↦
      rw (e, split_n)
        (rw (join-cons (sep ∷ []) b (split_n (suc n) sep a) (split_n-ne-nil n sep a))
          (simp (join-split_n n sep a, nil-append, cons-append) (cut_sound sep s b a e).0))
]

pub length-split_n : (n : ℕ) (sep : Char) (s : String) → length (split_n n sep s) ≤ n
unfolding split_n
length-split_n zero sep s = omega arith
length-split_n (suc zero) sep s = omega arith
length-split_n (suc (suc n)) sep s = elim (Option-cases (cut sep s)) [
  | inl e ↦ rw (e, split_n) (omega arith)
  | inr ((b, a), e) ↦ rw (e, split_n) (omega (arith, length-split_n (suc n) sep a))
]

split-ne-nil : (sep : Char) (s : String) → split sep s ≢ []
unfolding split
split-ne-nil sep [] = ground arith
split-ne-nil sep (c ∷ s) = ground (arith, split-ne-nil sep s)

join-push :
    (sep : String) (c : Char) (ws : List String) → ws ≢ [] → join sep (push c ws) ≡ c ∷ join sep ws
unfolding join
join-push sep c [] h = absurd (h refl)
join-push sep c (w ∷ []) h = refl
join-push sep c (w ∷ v ∷ ws) h = rw cons-append

pub join-split : (sep : Char) (s : String) → join (sep ∷ []) (split sep s) ≡ s
unfolding split
join-split sep [] = unfold join in refl
join-split sep (c ∷ s) = elim (Bool-cases (code c == code sep)) [
  | inl e ↦ rw e (
      rw (join-cons (sep ∷ []) [] (split sep s) (split-ne-nil sep s)) (
        simp (join-split sep s, nil-append, cons-append)
          (ap (λ d. d ∷ s) (Char-path sep c (ground arith)))))
  | inr e ↦
      rw e (rw (join-push (sep ∷ []) c (split sep s) (split-ne-nil sep s)) (rw (join-split sep s)))
]

push-Lacks :
    (sep c : Char) (ws : List String)
    → code c ≢ code sep
    → All (Lacks sep) ws
    → All (Lacks sep) (push c ws)
push-Lacks sep c [] ne h = ((ne, tt), tt)
push-Lacks sep c (w ∷ ws) ne (h, hs) = ((ne, h), hs)

-- No piece of Split holds the separator.
pub split-Lacks : (sep : Char) (s : String) → All (Lacks sep) (split sep s)
unfolding split
split-Lacks sep [] = (tt, tt)
split-Lacks sep (c ∷ s) = elim (Bool-cases (code c == code sep)) [
  | inl e ↦ rw e (tt, split-Lacks sep s)
  | inr e ↦ rw e (push-Lacks sep c (split sep s) (ground arith) (split-Lacks sep s))
]

module _ (sep : Char) (a b : String) (ha : Lacks sep a) where
  -- A command with one argument.
  pub split_n-two : split_n 2 sep (a ++ sep ∷ b) ≡ a ∷ b ∷ []
  unfolding split_n
  split_n-two = rw (cut-append sep a b ha, split_n)

  -- A command with two arguments; the last may hold anything.
  pub split_n-three :
      (c : String) → Lacks sep b → split_n 3 sep (a ++ sep ∷ (b ++ sep ∷ c)) ≡ a ∷ b ∷ c ∷ []
  unfolding split_n
  split_n-three c hb =
      rw (cut-append sep a (b ++ sep ∷ c) ha, split_n) (rw (cut-append sep b c hb, split_n))

pub Lacks-append : (sep : Char) (a b : String) → Lacks sep a → Lacks sep b → Lacks sep (a ++ b)
Lacks-append sep [] b ha hb = rw nil-append hb
Lacks-append sep (c ∷ a) b (p, ha) hb = rw cons-append (p, Lacks-append sep a b ha hb)
