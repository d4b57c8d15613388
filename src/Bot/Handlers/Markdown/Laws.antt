-- ===== src/Bot/Handlers/Markdown/Laws.antt =====
-- What an escaped text shows.
use Prim.Native.String.{String, [], ◌∷◌}
use chatops.Bot.Handlers.Markdown.{
  is_special, escape_markdown, shown, has_markup, false, occurs, reserved,
}
use Prim.Native.Char.{Char, code}
use chatops.Go.Strings.Split.{Lacks}
use chatops.Base.{◌≡◌, Bool-cases, true, arith, inl, ◌≢◌, ap, inr, refl}

special_not_backslash : (c : Char) → is_special c ≡ true → code c ≢ 92
unfolding is_special
special_not_backslash c h = ground arith

ordinary : (c : Char) → is_special c ≡ false → occurs c reserved ≡ false
unfolding is_special
ordinary c h = ground arith

-- A text without a backslash is shown by MarkdownV2, once escaped, as it is, and none of the
-- characters that Telegram reserves in MarkdownV2 is left without a backslash in front.
pub shown-escape_markdown :
    (s : String)
    → Lacks "\\" s
    → (shown false (escape_markdown s) ≡ s) × (has_markup false (escape_markdown s) ≡ false)
unfolding escape_markdown shown has_markup
shown-escape_markdown [] h = (refl, refl)
shown-escape_markdown (c ∷ s) (p, h) =
    let (same, none_left) = shown-escape_markdown s h in
    elim (Bool-cases (is_special c)) [
      | inl e ↦ (rw e (ap (λ t. c ∷ t) same), rw e none_left)
      | inr e ↦ (rw e (ground (arith, same, p)), rw e (ground (arith, ordinary c e, none_left, p)))
    ]

-- The backslash is not escaped: a star behind a backslash keeps its meaning in the escaped text.
pub has_markup-escape_markdown :
    (s : String) → has_markup false (escape_markdown ("\\" ∷ "*" ∷ s)) ≡ true
unfolding escape_markdown has_markup is_special
has_markup-escape_markdown s = refl
