-- ===== src/Go/Maps.antt =====
-- Go's map[string]T: an association list in the order in which one `range` loop visits it. Go
-- promises no order, so a statement about every list is one about every order.
use chatops.Base.{
  String, Option, none, some, List, [], ◌∷◌, ◌≡◌, refl, arith, if◌then◌else◌, str_eq, str_eq_iff,
}

abbrev pub Map {ℓ} : Type ℓ → Type ℓ
Map V = List (String × V)

module _ {ℓ} {V : Type ℓ} where
  -- v, ok := m[k]
  unfoldable pub lookup : String → Map V → Option V
  lookup k [] = none
  lookup k ((j, v) ∷ m) = if str_eq j k then some v else lookup k m

  -- m[k] = v
  unfoldable pub put : String → V → Map V → Map V
  put k v [] = (k, v) ∷ []
  put k v ((j, w) ∷ m) = if str_eq j k then (k, v) ∷ m else (j, w) ∷ put k v m

  pub lookup-put :
      (k j : String) (v : V) (m : Map V)
      → lookup j (put k v m) ≡ (if str_eq k j then some v else lookup j m)
  unfolding lookup put
  lookup-put k j v [] = refl
  lookup-put k j v ((i, w) ∷ m) =
      ground (arith, str_eq_iff k j, str_eq_iff i k, str_eq_iff i j, lookup-put k j v m)

abbrev pub or_empty : Option String → String
or_empty none = ""
or_empty (some s) = s

-- m[k] of a map[string]string: the empty text where the key is missing.
unfoldable pub get : String → Map String → String
unfolding lookup
get k m = or_empty (lookup k m)
