-- ===== src/Text.antt =====
-- Texts, as lists of code points, and the `str` methods that the services call.
use Prim.Native.Char.{code}
use Prim.Native.String.{String}
use defnex_mlops.Base.{
  ℕ, Bool, List, ◌≡◌, false, true, ◌∷◌, arith, if◌then◌else◌, ◌==◌, ◌||◌, [], suc, ◌&&◌, refl, any,
  Bool-cases, inl, inr, ◌∙◌,
}
use mathlib.Core.List.{reverse, reverse_aux}

abbrev pub Text : Type 0
Text = List ℕ

-- The code points of a literal.
abbrev pub codes : String → Text
codes String.[] = []
codes (String.◌∷◌ c s) = code c ∷ codes s

unfoldable pub same_text : Text → Text → Bool
same_text [] [] = true
same_text [] (_ ∷ _) = false
same_text (_ ∷ _) [] = false
same_text (a ∷ s) (b ∷ t) = a == b && same_text s t

pub same_text_refl : (s : Text) → same_text s s ≡ true
unfolding same_text
same_text_refl [] = refl
same_text_refl (a ∷ s) = ground (arith, same_text_refl s)

pub same_text_eq : (s t : Text) → same_text s t ≡ true → s ≡ t
unfolding same_text
same_text_eq [] [] h = refl
same_text_eq [] (b ∷ t) h = cc
same_text_eq (a ∷ s) [] h = cc
same_text_eq (a ∷ s) (b ∷ t) h =
    let head : a ≡ b = ground arith in
    let tail : same_text s t ≡ true = ground arith in rw (head, same_text_eq s t tail) refl

-- Whether the text starts with the other one.
starts_with : Text → Text → Bool
starts_with s [] = true
starts_with [] (_ ∷ _) = false
starts_with (a ∷ s) (b ∷ t) = a == b && starts_with s t

-- `phrase in text`
unfoldable pub contains_text : Text → Text → Bool
unfolding starts_with
contains_text phrase [] = starts_with [] phrase
contains_text phrase (a ∷ s) = starts_with (a ∷ s) phrase || contains_text phrase s

any-reverse_aux : (q : ℕ → Bool) (s t : Text) → any q (reverse_aux s t) ≡ (any q s || any q t)
any-reverse_aux q [] t = refl
any-reverse_aux q (c ∷ s) t = let rest = any-reverse_aux q s (c ∷ t) in ground (arith, rest)

any-reverse : (q : ℕ → Bool) (s : Text) → any q (reverse s) ≡ any q s
any-reverse q s = let swapped = any-reverse_aux q s [] in ground (arith, swapped)

module _ (is_space : ℕ → Bool) where
  skip_spaces : Text → Text
  skip_spaces [] = []
  skip_spaces (c ∷ s) = if is_space c then skip_spaces s else c ∷ s

  -- `str.strip`
  unfoldable pub strip : Text → Text
  unfolding skip_spaces
  strip s = reverse (skip_spaces (reverse (skip_spaces s)))

  any-skip_spaces : (q : ℕ → Bool) (s : Text) → any q s ≡ false → any q (skip_spaces s) ≡ false
  unfolding skip_spaces
  any-skip_spaces q [] h = refl
  any-skip_spaces q (c ∷ s) h =
      let rest = any-skip_spaces q s (ground arith) in
      elim (Bool-cases (is_space c)) [ inl e ↦ rw e rest | inr e ↦ rw e h ]

  -- What no character of a text is, none of the stripped text is.
  pub strip-without : (q : ℕ → Bool) (s : Text) → any q s ≡ false → any q (strip s) ≡ false
  unfolding strip
  strip-without q s h =
      let back = reverse (skip_spaces s) in
      let front : any q back ≡ false = any-reverse q (skip_spaces s) ∙ any-skip_spaces q s h in
      any-reverse q (skip_spaces back) ∙ any-skip_spaces q back front

  words_from : Bool → Text → ℕ
  words_from inside [] = 0
  words_from inside (c ∷ s) = elim (is_space c) [
    | true ↦ words_from false s
    | false ↦ if inside then words_from true s else suc (words_from true s)
  ]

  -- `len(text.split())`
  unfoldable pub word_count : Text → ℕ
  unfolding words_from
  word_count s = words_from false s
