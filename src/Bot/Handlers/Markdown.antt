-- ===== src/Bot/Handlers/Markdown.antt =====
-- escapeMarkdown of metrics_handlers.go, and how Telegram's MarkdownV2 reads a text.
use chatops.Base.{◌∷◌, [], List, any, Bool, if◌then◌else◌, false, ℕ, true, code, ◌==◌, ◌||◌, Char}
use Prim.Native.String.{String, [], ◌∷◌}
pub mod Laws

-- The characters that the replacer replaces, by their codes: _ * [ ] ( ) ~ ` > # + - = | { } . !
abbrev special_codes : List ℕ
special_codes =
    95 ∷ 42 ∷ 91 ∷ 93 ∷ 40 ∷ 41 ∷ 126 ∷ 96 ∷ 62 ∷ 35 ∷ 43 ∷ 45 ∷ 61 ∷ 124 ∷ 123 ∷ 125 ∷ 46 ∷ 33 ∷ []

unfoldable pub is_special : Char → Bool
is_special c = any (λ n. code c == n) special_codes

-- escapeMarkdown(s): the replacer puts a backslash in front of each.
unfoldable pub escape_markdown : String → String
escape_markdown [] = []
escape_markdown (c ∷ s) =
    let rest = escape_markdown s in if is_special c then "\\" ∷ c ∷ rest else c ∷ rest

-- What Telegram documents of MarkdownV2, https://core.telegram.org/bots/api#markdownv2-style: these
-- characters must be escaped, and a backslash takes the special meaning from the next character.
abbrev reserved : String
reserved = "_*[]()~`>#+-=|{}.!"

abbrev pub occurs : Char → String → Bool
occurs c [] = false
occurs c (d ∷ s) = code c == code d || occurs c s

-- The text that is shown, from the state behind a backslash or not.
unfoldable pub shown : Bool → String → String
shown behind [] = []
shown true (c ∷ s) = c ∷ shown false s
shown false (c ∷ s) =
    let taken = shown true s in let kept = shown false s in if code c == 92 then taken else c ∷ kept

-- Whether a special character keeps its meaning somewhere.
unfoldable pub has_markup : Bool → String → Bool
has_markup behind [] = false
has_markup true (c ∷ s) = has_markup false s
has_markup false (c ∷ s) =
    let escaped = has_markup true s in
    let plain = has_markup false s in if code c == 92 then escaped else occurs c reserved || plain
