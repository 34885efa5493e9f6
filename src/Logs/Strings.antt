-- ===== src/Logs/Strings.antt =====
-- The methods of `str` that the formatter calls, on texts as code points.
use mathlib.Core.List.{reverse, reverse-append}
use talisker.Common.{
  ℕ, ◌*◌, ◌≤◌, Bool, false, ◌&&◌, ◌||◌, [], ◌∷◌, ◌++◌, ◌≡◌, refl, ◌≢◌, arith, leb, nat_beq,
  Bool-cases, inl, inr, if◌then◌else◌,
}
use talisker.Common.Lists.{length, All, All-append}
use talisker.Common.Text.{Text}

abbrev pub newline : ℕ
newline = 10

abbrev pub quote : ℕ
quote = 34

abbrev pub backslash : ℕ
backslash = 92

-- `str.isspace` of one character.
unfoldable pub is_space : ℕ → Bool
is_space c =
    (leb 9 c && leb c 13)
    || (leb 28 c && leb c 32)
    || nat_beq c 133
    || nat_beq c 160
    || nat_beq c 5760
    || (leb 8192 c && leb c 8202)
    || (leb 8232 c && leb c 8233)
    || nat_beq c 8239
    || nat_beq c 8287
    || nat_beq c 12288

unfoldable pub lstrip : Text → Text
lstrip [] = []
lstrip (c ∷ s) = let rest = lstrip s in if is_space c then rest else c ∷ s

unfoldable pub strip : Text → Text
unfolding lstrip
strip s = reverse (lstrip (reverse (lstrip s)))

-- `s.replace(c, sub)` for a single character `c`.
unfoldable pub replace : ℕ → Text → Text → Text
replace c sub [] = []
replace c sub (d ∷ s) = (if nat_beq d c then sub else d ∷ []) ++ replace c sub s

-- `c in s`
unfoldable pub has : ℕ → Text → Bool
has c [] = false
has c (d ∷ s) = nat_beq d c || has c s

-- `s.split('\n', 1)[0]`
unfoldable pub first_line : Text → Text
first_line [] = []
first_line (c ∷ s) = let rest = first_line s in if nat_beq c newline then [] else c ∷ rest

abbrev pub Lacks : ℕ → Text → Type 0
Lacks b = All (λ c. c ≢ b)

-- What a replacement leaves of a character, and how long it makes a text.
pub Lacks-replace_self : (b : ℕ) (sub s : Text) → Lacks b sub → Lacks b (replace b sub s)
unfolding replace
Lacks-replace_self b sub [] h = tt
Lacks-replace_self b sub (d ∷ s) h =
    All-append (λ x. x ≢ b) _ _ (ground arith) (Lacks-replace_self b sub s h)

pub Lacks-first_line : (s : Text) → Lacks newline (first_line s)
unfolding first_line
Lacks-first_line [] = tt
Lacks-first_line (c ∷ s) = ground (arith, Lacks-first_line s)

pub Lacks-replace : (b c : ℕ) (sub s : Text) → Lacks b sub → Lacks b s → Lacks b (replace c sub s)
unfolding replace
Lacks-replace b c sub [] h k = tt
Lacks-replace b c sub (d ∷ s) h k =
    All-append (λ x. x ≢ b) _ _ (ground arith) (Lacks-replace b c sub s h k.1)

pub length-replace-le :
    (c : ℕ) (a b : ℕ) (s : Text) → length (replace c (a ∷ b ∷ []) s) ≤ 2 * length s
unfolding replace
length-replace-le c a b [] = omega arith
length-replace-le c a b (d ∷ s) = ground (arith, length-replace-le c a b s)

pub length-replace_one : (c a : ℕ) (s : Text) → length (replace c (a ∷ []) s) ≡ length s
unfolding replace
length-replace_one c a [] = refl
length-replace_one c a (d ∷ s) = ground (arith, length-replace_one c a s)

pub length-first_line-le : (s : Text) → length (first_line s) ≤ length s
unfolding first_line
length-first_line-le [] = omega arith
length-first_line-le (c ∷ s) = ground (arith, length-first_line-le s)

pub first_line_none : (s : Text) → has newline s ≡ false → first_line s ≡ s
unfolding first_line has
first_line_none [] h = refl
first_line_none (c ∷ s) h = ground (arith, first_line_none s)

pub Lacks-of_has : (b : ℕ) (s : Text) → has b s ≡ false → Lacks b s
unfolding has
Lacks-of_has b [] h = tt
Lacks-of_has b (c ∷ s) h = ground (arith, Lacks-of_has b s)

pub has_of_Lacks : (b : ℕ) (s : Text) → Lacks b s → has b s ≡ false
unfolding has
has_of_Lacks b [] h = refl
has_of_Lacks b (c ∷ s) h = ground (arith, has_of_Lacks b s h.1)

Lacks-lstrip : (b : ℕ) (s : Text) → Lacks b s → Lacks b (lstrip s)
unfolding lstrip
Lacks-lstrip b [] h = tt
Lacks-lstrip b (c ∷ s) h = elim (Bool-cases (is_space c)) [
  | inl e ↦ rw e (Lacks-lstrip b s h.1)
  | inr e ↦ rw e h
]

Lacks-reverse : (b : ℕ) (s : Text) → Lacks b s → Lacks b (reverse s)
Lacks-reverse b [] h = tt
Lacks-reverse b (c ∷ s) h =
    rw (reverse-append (c ∷ []) s)
      (All-append (λ x. x ≢ b) (reverse s) (c ∷ []) (Lacks-reverse b s h.1) (h.0, tt))

pub Lacks-strip : (b : ℕ) (s : Text) → Lacks b s → Lacks b (strip s)
unfolding strip
Lacks-strip b s h = Lacks-reverse b _ (Lacks-lstrip b _ (Lacks-reverse b _ (Lacks-lstrip b s h)))
