-- ===== src/Go/Strings/Pieces.antt =====
-- Where SplitN cuts a text, for two pieces and for three.
use Prim.Native.String.{String, ◌∷◌, ◌++◌}
use chatops.Base.{◌≡◌, List, [], ◌∷◌, Char, Option-cases, inl, inr, sym, ap, ◌∙◌}
use chatops.Go.Strings.{cut, split_n}
use chatops.Go.Strings.Split.{Lacks, cut-none, cut_sound}

-- A text with two separators at least, cut at the first two, and with one only.
pub record CutTwice (sep : Char) (text a b c : String) : Type 0 where
  pub joined : text ≡ a ++ sep ∷ (b ++ sep ∷ c)
  pub first_plain : Lacks sep a
  pub second_plain : Lacks sep b

pub record CutOnce (sep : Char) (text a b : String) : Type 0 where
  pub joined : text ≡ a ++ sep ∷ b
  pub first_plain : Lacks sep a

-- No separator, or only one.
pub data CutShort (sep : Char) (text : String) : Type 0 where
  whole : Lacks sep text → CutShort sep text
  halves : (a b : String) → CutOnce sep text a b → Lacks sep b → CutShort sep text

-- What SplitN gives, by the separators of the text.
pub data Thirds (sep : Char) (text : String) : List String → Type 0 where
  one : Lacks sep text → Thirds sep text (text ∷ [])
  two : (a b : String) → CutOnce sep text a b → Lacks sep b → Thirds sep text (a ∷ b ∷ [])
  three : (a b c : String) → CutTwice sep text a b c → Thirds sep text (a ∷ b ∷ c ∷ [])

pub data Halves (sep : Char) (text : String) : List String → Type 0 where
  one : Lacks sep text → Halves sep text (text ∷ [])
  two : (a b : String) → CutOnce sep text a b → Halves sep text (a ∷ b ∷ [])

pub split_n-Halves : (sep : Char) (text : String) → Halves sep text (split_n 2 sep text)
unfolding split_n
split_n-Halves sep text = elim (Option-cases (cut sep text)) [
  | inl e ↦ rw (e, split_n) (Halves.one (cut-none sep text e))
  | inr ((a, b), e) ↦
      let (same, plain) = cut_sound sep text a b e in
      rw (e, split_n) (Halves.two a b (record { joined = sym same; first_plain = plain }))
]

pub split_n-Thirds : (sep : Char) (text : String) → Thirds sep text (split_n 3 sep text)
unfolding split_n
split_n-Thirds sep text = elim (Option-cases (cut sep text)) [
  | inl e ↦ rw (e, split_n) (Thirds.one (cut-none sep text e))
  | inr ((a, b), e) ↦
      let (same, plain) = cut_sound sep text a b e in
      rw (e, split_n)
        (elim (Option-cases (cut sep b)) [
          | inl d ↦
              rw (d, split_n)
                (Thirds.two a b (record { joined = sym same; first_plain = plain })
                  (cut-none sep b d))
          | inr ((c, r), d) ↦
              let (again, also) = cut_sound sep b c r d in
              rw (d, split_n)
                (Thirds.three a c r (record {
                  joined = sym same ∙ ap (λ t. a ++ sep ∷ t) (sym again);
                  first_plain = plain;
                  second_plain = also;
                }))
        ])
]
