-- ===== src/Logs/Formatter/Keys.antt =====
-- What `safe_string` and `logfmt_key` guarantee: the characters that are gone, and the length.
use talisker.Common.{
  ℕ, ◌+◌, ◌*◌, ◌≤◌, Bool, true, false, Option, none, some, [], ◌∷◌, ◌≡◌, refl, ◌≢◌, arith, ltb,
  ◌||◌,
}
use talisker.Common.Lists.{length, take, length-append, length-take-le, All-append, All-take}
use talisker.Common.Text.{Text, codes}
use talisker.Context.Stack.{returned}
use talisker.Logs.Strings.{
  newline, quote, backslash, Lacks, strip, replace, has, first_line, Lacks-first_line,
  Lacks-replace, Lacks-replace_self, Lacks-strip, length-replace-le,
}
use talisker.Logs.Formatter.{
  Key, str_key, bytes_key, bool_key, number_key, other_key, max_key_size, truncated_key,
  escape_and_mark, safe_string, logfmt_key,
}

Lacks-escape_and_mark :
    (b : ℕ) (s : Text) (truncated : Bool) (mark : Text)
    → b ≢ quote
    → b ≢ backslash
    → Lacks b s
    → Lacks b mark
    → Lacks b (escape_and_mark s truncated (some mark))
unfolding escape_and_mark
Lacks-escape_and_mark b s true mark hq hb hs hm =
    All-append (λ c. c ≢ b) _ mark (Lacks-replace b quote _ s (ground arith) hs) hm
Lacks-escape_and_mark b s false mark hq hb hs hm = Lacks-replace b quote _ s (ground arith) hs

length-escape_and_mark-le :
    (s : Text) (truncated : Bool) (mark : Text)
    → length (escape_and_mark s truncated (some mark)) ≤ 2 * length s + length mark
unfolding escape_and_mark
length-escape_and_mark-le s true mark = omega (
  arith,
  length-append {0} (replace quote (backslash ∷ quote ∷ []) s) mark,
  length-replace-le quote backslash quote s,
)
length-escape_and_mark-le s false mark = omega (arith, length-replace-le quote backslash quote s)

Lacks-lines : (b : ℕ) (t : Text) → Lacks b t → Lacks b (first_line t)
unfolding first_line
Lacks-lines b [] h = tt
Lacks-lines b (c ∷ t) h = ground (arith, Lacks-lines b t h.1)

-- A character that is neither the quote nor the backslash comes out of `safe_string` only if it
-- went in or stands in the mark.
pub Lacks-safe_string :
    (b : ℕ) (s : Text) (max : ℕ) (mark : Text)
    → b ≢ quote
    → b ≢ backslash
    → Lacks b s
    → Lacks b mark
    → Lacks b (safe_string s max (some mark))
unfolding safe_string
Lacks-safe_string b s max mark hq hb hs hm =
    Lacks-escape_and_mark b _ _ mark hq hb
      (All-take (λ c. c ≢ b) max _ (Lacks-lines b _ (Lacks-strip b s hs))) hm

-- The result is one line.
pub newline-safe_string :
    (s : Text) (max : ℕ) (mark : Text)
    → Lacks newline mark
    → Lacks newline (safe_string s max (some mark))
unfolding safe_string
newline-safe_string s max mark hm =
    Lacks-escape_and_mark newline _ _ mark (omega arith) (omega arith)
      (All-take (λ c. c ≢ newline) max _ (Lacks-first_line (strip s))) hm

-- The size counts characters before the quotes are escaped.
pub length-safe_string-le :
    (s : Text) (max : ℕ) (mark : Text)
    → length (safe_string s max (some mark)) ≤ 2 * max + length mark
unfolding safe_string
length-safe_string-le s max mark = omega (
  arith,
  length-escape_and_mark-le (take max (first_line (strip s)))
      (has newline (strip s) || ltb max (length (first_line (strip s)))) mark,
  length-take-le {0} max (first_line (strip s)),
)

abbrev pub key_text : Key → Option Text
key_text (str_key k) = some k
key_text (bytes_key k) = k
key_text _ = none

-- What a key of the output looks like.
pub record IsLogfmtKey (key : Text) : Type 0 where
  pub no_space : Lacks b' ' key
  pub no_dot : Lacks b'.' key
  pub no_equals : Lacks b'=' key
  pub no_newline : Lacks newline key
  pub short : length key ≤ 2 * max_key_size + 3

clean-IsLogfmtKey :
    (k : Text)
    → IsLogfmtKey (
        safe_string
          (replace b'=' (codes "_") (replace b'.' (codes "_") (replace b' ' (codes "_") k)))
          max_key_size
          (some truncated_key))
clean-IsLogfmtKey k = record {
  no_space =
      Lacks-safe_string b' ' _ _ _ (omega arith) (omega arith)
        (Lacks-replace _ _ _ _ (omega arith)
          (Lacks-replace _ _ _ _ (omega arith) (Lacks-replace_self b' ' _ k (omega arith))))
        (omega arith);
  no_dot =
      Lacks-safe_string b'.' _ _ _ (omega arith) (omega arith)
        (Lacks-replace _ _ _ _ (omega arith) (Lacks-replace_self b'.' _ _ (omega arith)))
        (omega arith);
  no_equals =
      Lacks-safe_string b'=' _ _ _ (omega arith) (omega arith)
        (Lacks-replace_self b'=' _ _ (omega arith)) (omega arith);
  no_newline = newline-safe_string _ _ _ (omega arith);
  short = length-safe_string-le _ _ _;
}

-- Every string key, and every bytes key that decodes, is formatted, and the result has no space,
-- dot, equals sign or newline and at most 2 · 256 + 3 characters.
pub logfmt_key-IsLogfmtKey :
    (k : Key) (text : Text)
    → key_text k ≡ some text
    → (key : Text) × (logfmt_key k ≡ returned (some key)) × IsLogfmtKey key
unfolding logfmt_key
logfmt_key-IsLogfmtKey (str_key k) text h = (_, refl, clean-IsLogfmtKey k)
logfmt_key-IsLogfmtKey (bytes_key (some k)) text h = (_, refl, clean-IsLogfmtKey k)
logfmt_key-IsLogfmtKey (bytes_key none) text h = cc
logfmt_key-IsLogfmtKey (bool_key b) text h = cc
logfmt_key-IsLogfmtKey (number_key n) text h = cc
logfmt_key-IsLogfmtKey other_key text h = cc
