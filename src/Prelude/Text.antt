-- ===== src/Prelude/Text.antt =====
-- Byte texts, and what the program calls on them of Go's package `strings`.
-- `split_from` is modelled for separators that are not empty, the only ones that the program uses.
use Prim.Native.Char.{code}
use Prim.Native.Nat.{ℕ, zero, suc, ◌+◌, ◌-◌}
use Prim.Native.String.{String}
use mathlib.Core.Path.{◌≡◌, refl}
use mathlib.Core.Logic.{◌↔◌}
use mathlib.Core.Bool.{Bool, true, false, ◌&&◌}
use mathlib.Core.List.{List, [], ◌∷◌, ◌++◌, map, reverse}
use native.Mathlib.Omega.{arith}
use tensor.Prelude.Tests.{if◌then◌else◌, Comparable, nat_beq, leb, ◌==◌, nat_eq}
use tensor.Prelude.Lists.{length, any}

abbrev pub Text : Type 0
Text = List ℕ

-- The bytes of a literal.
abbrev pub codes : String → Text
codes String.[] = []
codes (String.◌∷◌ c s) = code c ∷ codes s

abbrev pub text_beq : Text → Text → Bool
text_beq [] [] = true
text_beq (a ∷ s) (b ∷ t) = nat_beq a b && text_beq s t
text_beq _ _ = false

pub text_beq_iff : (s t : Text) → (text_beq s t ≡ true) ↔ (s ≡ t)
text_beq_iff [] [] = (λ h. refl, λ h. refl)
text_beq_iff [] (b ∷ t) = (λ h. cc, λ h. cc)
text_beq_iff (a ∷ s) [] = (λ h. cc, λ h. cc)
text_beq_iff (a ∷ s) (b ∷ t) = ground (arith, text_beq_iff s t)

instance abbrev pub text_eq : Comparable Text
text_eq = record { same = text_beq; same_iff = text_beq_iff }

pub has_prefix : Text → Text → Bool
has_prefix s [] = true
has_prefix [] (b ∷ sep) = false
has_prefix (a ∷ s) (b ∷ sep) = a == b && has_prefix s sep

-- The loop of `strings.Split(s, sep)`: `skip` bytes of a separator that was found are still to be
-- passed over, and `piece` is what the current piece has so far.
pub split_from : Text → ℕ → Text → Text → List Text
split_from sep skip piece [] = piece ∷ []
split_from sep (suc skip) piece (c ∷ s) = split_from sep skip piece s
split_from sep zero piece (c ∷ s) =
    let closed = piece ∷ split_from sep (length sep - 1) [] s in
    let longer = split_from sep zero (piece ++ c ∷ []) s in
    if has_prefix (c ∷ s) sep then closed else longer

unfoldable pub split : Text → Text → List Text
unfolding split_from has_prefix
split s sep = split_from sep 0 [] s

-- `strings.ToLower` on ASCII; bytes beyond are kept.
unfoldable pub lower : ℕ → ℕ
lower c = if leb b'A' c && leb c b'Z' then c + 32 else c

unfoldable pub to_lower : Text → Text
unfolding lower
to_lower s = map lower s

pub trim_left : Text → Text → Text
trim_left cutset [] = []
trim_left cutset (c ∷ s) =
    let rest = trim_left cutset s in if any (λ d. c == d) cutset then rest else c ∷ s

-- `strings.Trim(s, cutset)`.
unfoldable pub trim : Text → Text → Text
unfolding trim_left
trim s cutset = reverse (trim_left cutset (reverse (trim_left cutset s)))

-- `strings.Trim(s, " ")` on native strings.
trim_blanks_left : String → String
trim_blanks_left String.[] = String.[]
trim_blanks_left (String.◌∷◌ c s) =
    let rest = trim_blanks_left s in if code c == 32 then rest else String.◌∷◌ c s

-- Without the blanks at its end.
trim_blanks_right : String → String
trim_blanks_right String.[] = String.[]
trim_blanks_right (String.◌∷◌ c s) = elim (trim_blanks_right s) [
  | String.[] ↦ if code c == 32 then String.[] else String.◌∷◌ c String.[]
  | String.◌∷◌ d t ↦ String.◌∷◌ c (String.◌∷◌ d t)
]

unfoldable pub trim_blanks : String → String
unfolding trim_blanks_left trim_blanks_right
trim_blanks s = trim_blanks_right (trim_blanks_left s)
