-- ===== src/Go/Strings.antt =====
-- Go's package strings, as the handlers and the dialogue use it. Every separator that the program
-- cuts at is one ASCII character, so cutting by characters is cutting by bytes.
pub mod Split
pub mod Pieces
use Prim.Native.String.{String, [], ◌∷◌, ◌++◌}
use text.Mathlib.Text.{starts_with}
use chatops.Base.{
  ℕ, zero, suc, ◌≤◌, Bool, true, false, ◌||◌, ◌&&◌, Option, none, some, List, [], ◌∷◌, Char, code,
  leb, ◌==◌, if◌then◌else◌,
}

abbrev pub chars : Char → String → Option (String × String) → Option (String × String)
chars c s none = none
chars c s (some (before, after)) = some (c ∷ before, after)

-- strings.Cut at a separator of one character; `none` where it does not occur.
unfoldable pub cut : Char → String → Option (String × String)
cut sep [] = none
cut sep (c ∷ s) = if code c == code sep then some ([], s) else chars c s (cut sep s)

-- strings.SplitN(s, sep, n) for n ≥ 0: n pieces at most, the last of them with what is left.
unfoldable pub split_n : ℕ → Char → String → List String
unfolding cut
split_n zero sep s = []
split_n (suc zero) sep s = s ∷ []
split_n (suc (suc n)) sep s = elim (cut sep s) [
  | none ↦ s ∷ []
  | some (before, after) ↦ before ∷ split_n (suc n) sep after
]

abbrev pub push : Char → List String → List String
push c [] = (c ∷ []) ∷ []
push c (w ∷ ws) = (c ∷ w) ∷ ws

-- strings.Split(s, sep)
unfoldable pub split : Char → String → List String
split sep [] = [] ∷ []
split sep (c ∷ s) = if code c == code sep then [] ∷ split sep s else push c (split sep s)

-- strings.Join(ws, sep)
unfoldable pub join : String → List String → String
join sep [] = []
join sep (w ∷ []) = w
join sep (w ∷ v ∷ ws) = w ++ sep ++ join sep (v ∷ ws)

-- strings.HasPrefix(s, t)
abbrev pub has_prefix : String → String → Bool
has_prefix s t = starts_with s t

-- strings.Contains(s, t)
unfoldable pub contains : String → String → Bool
contains [] t = has_prefix [] t
contains (c ∷ s) t = has_prefix (c ∷ s) t || contains s t

abbrev within : ℕ → ℕ → ℕ → Bool
within lo hi n = leb lo n && leb n hi

-- unicode.IsSpace
unfoldable pub is_space : Char → Bool
is_space ch =
    let c = code ch in
    within 9 13 c
    || c == 32
    || c == 0x85
    || c == 0xa0
    || c == 0x1680
    || within 0x2000 0x200a c
    || within 0x2028 0x2029 c
    || c == 0x202f
    || c == 0x205f
    || c == 0x3000

-- strings.TrimLeft over unicode.IsSpace
unfoldable pub trim_left : String → String
unfolding is_space
trim_left [] = []
trim_left (c ∷ s) = if is_space c then trim_left s else c ∷ s

abbrev keep : Char → String → String
keep c [] = if is_space c then [] else c ∷ []
keep c (d ∷ s) = c ∷ d ∷ s

-- strings.TrimRight over unicode.IsSpace
unfoldable pub trim_right : String → String
unfolding is_space
trim_right [] = []
trim_right (c ∷ s) = keep c (trim_right s)

-- strings.TrimSpace(s)
unfoldable pub trim_space : String → String
unfolding trim_left trim_right
trim_space s = trim_right (trim_left s)
