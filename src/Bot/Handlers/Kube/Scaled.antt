-- ===== src/Bot/Handlers/Kube/Scaled.antt =====
-- What ScaleHandler makes of any text.
use chatops.Base.{String, ℕ, ℤ, ◌≡◌, ◌≢◌, List, arith, refl}
use chatops.Go.Strings.{split_n}
use chatops.Go.Strings.Split.{Lacks}
use chatops.Go.Strings.Pieces.{
  CutTwice, CutOnce, CutShort, Thirds, Halves, split_n-Halves, split_n-Thirds, whole, halves,
}
use chatops.Go.Numbers.{Parsed, parsed, bad_syntax, out_of_range, parse_int, to_int32}
use chatops.Go.Numbers.Bounds.{IsInt32Of, to_int32-IsInt32Of}
use chatops.Kube.Log.{K8sClient, open_chan}
use chatops.Kube.Scale.{scale_deployment_with_logs}
use chatops.Bot.Handlers.Chat.{Chat, say, with_logs}
use chatops.Bot.Handlers.Kube.{scale_handler, scale_number, scale_data, scale_parts, nonempty}

module _ {W S : Type 0} (client : K8sClient W) (with_timeout : ℕ → W → W) (chat : Chat S) where
  -- What a message to ScaleHandler comes to, by its text.
  pub data Scaled (text : String) : Type 0 where
    -- The text has fewer than two blanks.
    short :
        CutShort " " text
        → scale_handler client with_timeout chat text ≡ say chat "Неправильное кол-во параметров"
        → Scaled text
    -- What stands between the first two blanks has no slash.
    unnamed :
        (word target count : String)
        → CutTwice " " text word target count
        → Lacks "/" target
        → scale_handler client with_timeout chat text ≡ say chat "Ошибка в парсинге namespace/name"
        → Scaled text
    -- What stands behind the second blank is no int.
    uncounted :
        (word target count : String)
        → CutTwice " " text word target count
        → ((num : ℤ) → parse_int count ≢ parsed num)
        → scale_handler client with_timeout chat text ≡ say chat "Ошибки при чтении числа реплик"
        → Scaled text
    scaled :
        (word target count namespace name : String) (num reached : ℤ)
        → CutTwice " " text word target count
        → CutOnce "/" target namespace name
        → parse_int count ≡ parsed num
        → IsInt32Of num reached
        → scale_handler client with_timeout chat text
          ≡ with_logs chat nonempty
              (with_timeout 20)
              (scale_deployment_with_logs client namespace name reached open_chan)
        → Scaled text

  by_number :
      (text word target count namespace name : String) (p : Parsed)
      → CutTwice " " text word target count
      → CutOnce "/" target namespace name
      → parse_int count ≡ p
      → scale_handler client with_timeout chat text
        ≡ scale_number client with_timeout chat namespace name p
      → Scaled text
  by_number text word target count namespace name (parsed num) t n q e =
      scaled word target count namespace name num (to_int32 num) t n q (to_int32-IsInt32Of num) e
  by_number text word target count namespace name bad_syntax t n q e =
      uncounted word target count t (λ num f. ground (arith, f, q)) e
  by_number text word target count namespace name (out_of_range m) t n q e =
      uncounted word target count t (λ num f. ground (arith, f, q)) e

  by_name :
      (text word target count : String) (pieces : List String)
      → CutTwice " " text word target count
      → Halves "/" target pieces
      → scale_handler client with_timeout chat text
        ≡ scale_data client with_timeout chat count pieces
      → Scaled text
  by_name text word target count _ t (Halves.one none_there) e =
      unnamed word target count t none_there e
  by_name text word target count _ t (Halves.two namespace name n) e =
      by_number text word target count namespace name (parse_int count) t n refl e

  by_parts :
      (text : String) (parts : List String)
      → Thirds " " text parts
      → scale_handler client with_timeout chat text ≡ scale_parts client with_timeout chat parts
      → Scaled text
  by_parts text _ (Thirds.one h) e = short (whole h) e
  by_parts text _ (Thirds.two a b c h) e = short (halves a b c h) e
  by_parts text _ (Thirds.three word target count t) e =
      by_name text word target count (split_n 2 "/" target) t (split_n-Halves "/" target) e

  -- Every text that ScaleHandler is given: with fewer than two blanks, with no slash between the
  -- first two, or with no int behind them, it is answered by the refusal for that case, which
  -- leaves the cluster alone. Any other is cut at the first two blanks, and at the first slash in
  -- between, and has ScaleDeploymentWithLogs called once, with the namespace in front of that
  -- slash, the name behind it, and the int32 that is congruent modulo 2 ^ 32 to the number that
  -- Atoi reads.
  pub scale_handler-Scaled : (text : String) → Scaled text
  unfolding scale_handler
  scale_handler-Scaled text = by_parts text (split_n 3 " " text) (split_n-Thirds " " text) refl
