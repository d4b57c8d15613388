-- ===== src/Bot/Users.antt =====
-- userState of cmd/bot/main.go: a map[int64]string from a user's number to where that user stands
-- in the login.
use chatops.Base.{
  ℤ, String, Option, none, some, List, [], ◌∷◌, ◌≡◌, if◌then◌else◌, eqb_ℤ, arith, eqb_ℤ_iff,
}

abbrev pub UserStates : Type 0
UserStates = List (ℤ × String)

-- state, ok := userState[id]
unfoldable pub state_of : ℤ → UserStates → Option String
state_of id [] = none
state_of id ((i, s) ∷ m) = if eqb_ℤ i id then some s else state_of id m

-- delete(userState, id)
unfoldable pub forget : ℤ → UserStates → UserStates
forget id [] = []
forget id ((i, s) ∷ m) = if eqb_ℤ i id then forget id m else (i, s) ∷ forget id m

-- userState[id] = s
unfoldable pub enter : ℤ → String → UserStates → UserStates
unfolding forget
enter id s m = (id, s) ∷ forget id m

pub state_of-forget :
    (id j : ℤ) (m : UserStates)
    → state_of j (forget id m) ≡ (if eqb_ℤ id j then none else state_of j m)
unfolding state_of forget
state_of-forget id j [] = ground arith
state_of-forget id j ((i, s) ∷ m) =
    ground (arith, state_of-forget id j m, eqb_ℤ_iff i id, eqb_ℤ_iff i j, eqb_ℤ_iff id j)

pub state_of-enter :
    (id j : ℤ) (s : String) (m : UserStates)
    → state_of j (enter id s m) ≡ (if eqb_ℤ id j then some s else state_of j m)
unfolding state_of enter
state_of-enter id j s m = ground (arith, state_of-forget id j m)
