-- ===== src/Common/Text.antt =====
-- Text that the program walks, as its code points, with its equality.
use Prim.Native.Nat.{ℕ}
use Prim.Native.Char.{code}
use Prim.Native.String.{String}
use mathlib.Core.Path.{◌≡◌}
use mathlib.Core.Logic.{◌↔◌}
use mathlib.Core.Bool.{Bool, true, false, ◌&&◌, ◌||◌}
use mathlib.Core.List.{List, [], ◌∷◌, ◌++◌}
use native.Mathlib.Omega.{arith}
use talisker.Common.Tests.{Eq, nat_beq}

abbrev pub Text : Type 0
Text = List ℕ

abbrev pub codes : String → Text
codes String.[] = []
codes (String.◌∷◌ c s) = code c ∷ codes s

unfoldable pub text_beq : Text → Text → Bool
text_beq [] [] = true
text_beq [] (d ∷ t) = false
text_beq (c ∷ s) [] = false
text_beq (c ∷ s) (d ∷ t) = nat_beq c d && text_beq s t

pub text_beq_iff : (s t : Text) → (text_beq s t ≡ true) ↔ (s ≡ t)
unfolding text_beq
text_beq_iff [] [] = ground arith
text_beq_iff [] (d ∷ t) = ground arith
text_beq_iff (c ∷ s) [] = ground arith
text_beq_iff (c ∷ s) (d ∷ t) = ground (arith, text_beq_iff s t)

instance abbrev pub text_eq : Eq Text
text_eq = record { beq = text_beq; beq_iff = text_beq_iff }

-- `t.startswith(s)`
abbrev pub is_prefix : Text → Text → Bool
is_prefix [] t = true
is_prefix (c ∷ s) [] = false
is_prefix (c ∷ s) (d ∷ t) = nat_beq c d && is_prefix s t

-- `s in t`
abbrev pub is_infix : Text → Text → Bool
is_infix s [] = is_prefix s []
is_infix s (d ∷ t) = is_prefix s (d ∷ t) || is_infix s t

-- `'\n'.join(lines)`, with any separator.
abbrev pub join_more : Text → List Text → Text
join_more sep [] = []
join_more sep (l ∷ lines) = sep ++ (l ++ join_more sep lines)

abbrev pub join : Text → List Text → Text
join sep [] = []
join sep (l ∷ lines) = l ++ join_more sep lines
