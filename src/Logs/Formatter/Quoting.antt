-- ===== src/Logs/Formatter/Quoting.antt =====
-- When a value is quoted, and how a quoted value reads.
use talisker.Common.{
  ℕ, zero, suc, ap, ◌∙◌, ◌+◌, ◌≤◌, Bool, true, false, ◌&&◌, ◌||◌, Option, none, some, [], ◌∷◌, ◌++◌,
  ◌≡◌, refl, arith, leb, ltb, nat_beq, if◌then◌else◌, append_assoc,
}
use talisker.Common.Lists.{length, take}
use talisker.Common.Text.{Text}
use talisker.Logs.Strings.{
  newline, quote, backslash, Lacks, strip, replace, first_line_none, has_of_Lacks,
}
use talisker.Logs.Formatter.{
  is_special, is_numeric, needs_quoting_from, string_needs_quoting, max_value_size, truncated_mark,
  escape_and_mark, safe_string, logfmt_string,
}

abbrev pub any_special : Text → Bool
any_special [] = false
any_special (c ∷ v) = is_special c || any_special v

abbrev pub all_numeric : Text → Bool
all_numeric [] = true
all_numeric (c ∷ v) = is_numeric c && all_numeric v

abbrev pub dots : Text → ℕ
dots [] = 0
dots (c ∷ v) = if nat_beq c b'.' then suc (dots v) else dots v

needs_quoting_from-lem :
    (v : Text) (numeric : Bool) (count : ℕ)
    → needs_quoting_from v numeric count
      ≡ (any_special v || ((numeric && all_numeric v) && leb (count + dots v) 1))
unfolding needs_quoting_from
needs_quoting_from-lem [] numeric count = ground arith
needs_quoting_from-lem (c ∷ v) numeric count = ground (
  arith,
  needs_quoting_from-lem v (numeric && is_numeric c)
      (if is_numeric c && nat_beq c b'.' then count + 1 else count),
)

-- A text is quoted exactly when it has one of the four special characters, or would read as a
-- number: digits with at most one dot.
pub string_needs_quoting_lem :
    (v : Text) → string_needs_quoting v ≡ (any_special v || (all_numeric v && leb (dots v) 1))
unfolding string_needs_quoting
string_needs_quoting_lem v = needs_quoting_from-lem v true 0 ∙ ground arith

-- A reader of quoted values: what follows the opening quote, up to the closing one, where a
-- backslash takes the next character as it is. `none` means that the quote is never closed.
abbrev keep : ℕ → Option (Text × Text) → Option (Text × Text)
keep c none = none
keep c (some (v, rest)) = some (c ∷ v, rest)

unfoldable pub read_quoted : Bool → Text → Option (Text × Text)
read_quoted escaped [] = none
read_quoted true (c ∷ s) = keep c (read_quoted false s)
read_quoted false (c ∷ s) =
    let plain = keep c (read_quoted false s) in
    let after = read_quoted true s in
    if nat_beq c quote then some ([], s) else if nat_beq c backslash then after else plain

abbrev pub escape : Text → Text
escape = replace quote (backslash ∷ quote ∷ [])

read_quoted-escape :
    (v rest : Text)
    → Lacks backslash v
    → read_quoted false (escape v ++ quote ∷ rest) ≡ some (v, rest)
unfolding read_quoted replace
read_quoted-escape [] rest h = refl
read_quoted-escape (c ∷ v) rest h = ground (arith, read_quoted-escape v rest h.1)

read_quoted-unclosed :
    (u : Text)
    → Lacks backslash u
    → read_quoted false (escape (u ++ backslash ∷ []) ++ quote ∷ []) ≡ none
unfolding read_quoted replace
read_quoted-unclosed [] h = refl
read_quoted-unclosed (c ∷ u) h = ground (arith, read_quoted-unclosed u h.1)

not_ltb : (a b : ℕ) → a ≤ b → ltb b a ≡ false
not_ltb a b h = ground arith

-- A value that is neither stripped, nor cut, nor marked.
pub record IsWhole (v : Text) : Type 0 where
  pub stripped : strip v ≡ v
  pub one_line : Lacks newline v
  pub short : length v ≤ max_value_size

take_of_length-le : (n : ℕ) (s : Text) → length s ≤ n → take n s ≡ s
take_of_length-le zero [] h = refl
take_of_length-le (suc n) [] h = refl
take_of_length-le zero (c ∷ s) h = absurd (omega arith)
take_of_length-le (suc n) (c ∷ s) h = ap (◌∷◌ c) (take_of_length-le n s (omega arith))

safe_string-IsWhole :
    (v : Text) → IsWhole v → safe_string v max_value_size (some truncated_mark) ≡ escape v
unfolding safe_string escape_and_mark
safe_string-IsWhole v h = rw (
  h.stripped,
  first_line_none v (has_of_Lacks newline v h.one_line),
  has_of_Lacks newline v h.one_line,
  take_of_length-le max_value_size v h.short,
  not_ltb (length v) max_value_size h.short,
)

-- A value that needs quotes, has no backslash and is not stripped, cut or marked is written so
-- that a reader gets it back, with whatever follows it.
pub read_quoted-logfmt_string :
    (v rest : Text)
    → IsWhole v
    → Lacks backslash v
    → string_needs_quoting (escape v) ≡ true
    → (body : Text) × (logfmt_string v ≡ quote ∷ body)
      × (read_quoted false (body ++ rest) ≡ some (v, rest))
unfolding logfmt_string
read_quoted-logfmt_string v rest h nb q = (
  escape v ++ quote ∷ [],
  rw (safe_string-IsWhole v h, q) refl,
  rw append_assoc (read_quoted-escape v rest nb),
)

any_special-escape-backslash : (u : Text) → any_special (escape (u ++ backslash ∷ [])) ≡ true
unfolding replace is_special
any_special-escape-backslash [] = refl
any_special-escape-backslash (c ∷ u) = ground (arith, any_special-escape-backslash u)

-- A value that ends in a backslash, has no other and is not stripped, cut or marked is written
-- with quotes that a reader never finds closed: the backslash is not escaped, so it escapes the
-- closing quote.
pub trailing_backslash_unclosed :
    (u : Text)
    → IsWhole (u ++ backslash ∷ [])
    → Lacks backslash u
    → (body : Text) × (logfmt_string (u ++ backslash ∷ []) ≡ quote ∷ body)
      × (read_quoted false body ≡ none)
unfolding logfmt_string
trailing_backslash_unclosed u h nb = (
  escape (u ++ backslash ∷ []) ++ quote ∷ [],
  rw
      (
        safe_string-IsWhole (u ++ backslash ∷ []) h,
        string_needs_quoting_lem (escape (u ++ backslash ∷ [])),
        any_special-escape-backslash u,
      )
      refl,
  read_quoted-unclosed u nb,
)
