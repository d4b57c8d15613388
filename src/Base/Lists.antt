-- ===== src/Base/Lists.antt =====
-- Lists measured by native numbers, with tests that run, and predicates by recursion.
use Prim.Native.Nat.{ℕ, suc, ◌+◌}
use mathlib.Core.Path.{◌≡◌, refl, ap, ◌∙◌, fun_ext}
use mathlib.Core.Bool.{Bool, ◌||◌, ◌&&◌}
use mathlib.Core.List.{List, [], ◌∷◌, ◌++◌, map}
use mathlib.Core.Logic.{∥∥₁_elim}
use mathlib.Core.List.{Perm, Permᴰ}
use native.Mathlib.Omega.{arith}
use chatops.Base.Tests.{if◌then◌else◌}

module _ {ℓ} {A : Type ℓ} where
  abbrev pub length : List A → ℕ
  length [] = 0
  length (x ∷ xs) = suc (length xs)

  -- What a Boolean test keeps, in order.
  abbrev pub select : (A → Bool) → List A → List A
  select p [] = []
  select p (x ∷ xs) = if p x then x ∷ select p xs else select p xs

  abbrev pub any : (A → Bool) → List A → Bool
  any p [] = Bool.false
  any p (x ∷ xs) = p x || any p xs

  pub length-append : (xs ys : List A) → length (xs ++ ys) ≡ length xs + length ys
  length-append [] ys = omega arith
  length-append (x ∷ xs) ys = omega (arith, length-append xs ys)

  pub select-append :
      (p : A → Bool) (xs ys : List A) → select p (xs ++ ys) ≡ select p xs ++ select p ys
  select-append p [] ys = refl
  select-append p (x ∷ xs) ys = ground (arith, select-append p xs ys)

module _ {ℓ} {A : Type ℓ} (p : A → Bool) where
  pub any-append : (xs ys : List A) → any p (xs ++ ys) ≡ (any p xs || any p ys)
  any-append [] ys = refl
  any-append (x ∷ xs) ys = ground (arith, any-append xs ys)

  pub any-last : (xs : List A) (x : A) → p x ≡ Bool.true → any p (xs ++ x ∷ []) ≡ Bool.true
  any-last xs x h = ground (arith, any-append xs (x ∷ []), h)

  any-Permᴰ : (xs ys : List A) → Permᴰ xs ys → any p xs ≡ any p ys
  any-Permᴰ xs ys d = by_perm d
    where
      by_perm : {xs ys : List A} → Permᴰ xs ys → any p xs ≡ any p ys
      by_perm Permᴰ.nil = refl
      by_perm (Permᴰ.cons e d) = ground (arith, ap p e, by_perm d)
      by_perm (Permᴰ.swap e f) = ground (arith, ap p e, ap p f)
      by_perm (Permᴰ.trans d d') = by_perm d ∙ by_perm d'

  -- What a list holds does not depend on its order.
  pub any-Perm : (xs ys : List A) → Perm xs ys → any p xs ≡ any p ys
  any-Perm xs ys d = ∥∥₁_elim d (hlevel) (any-Permᴰ xs ys)

  pub any-select : (q : A → Bool) (xs : List A) → any p (select q xs) ≡ any (λ x. p x && q x) xs
  any-select q [] = refl
  any-select q (x ∷ xs) = ground (arith, any-select q xs)

  pub any_and : (b : Bool) (xs : List A) → any (λ x. b && p x) xs ≡ (b && any p xs)
  any_and b [] = ground arith
  any_and b (x ∷ xs) = ground (arith, any_and b xs)

  pub any_eq : (q : A → Bool) → ((x : A) → p x ≡ q x) → (xs : List A) → any p xs ≡ any q xs
  any_eq q same xs = ap (λ r. any r xs) (fun_ext same)

module _ {ℓ κ} {A : Type ℓ} {B : Type κ} (p : B → Bool) (f : A → B) where
  pub any-map : (xs : List A) → any p (map f xs) ≡ any (λ x. p (f x)) xs
  any-map [] = refl
  any-map (x ∷ xs) = ground (arith, any-map xs)

module _ {ℓ κ} {A : Type ℓ} (P : A → Type κ) where
  abbrev pub All : List A → Type κ
  All [] = Unit
  All (x ∷ xs) = P x × All xs

  pub All-append : (xs ys : List A) → All xs → All ys → All (xs ++ ys)
  All-append [] ys hx hy = hy
  All-append (x ∷ xs) ys hx hy = (hx.0, All-append xs ys hx.1 hy)
