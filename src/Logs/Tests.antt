-- ===== src/Logs/Tests.antt =====
-- The theorems on log records and their formatting at concrete values.
use Prim.Native.String.{◌++◌ as join}
use Prim.Native.Char.{code}
use text.Mathlib.TextLemmas.{nil-append, cons-append}
use talisker.Common.{
  ℕ, String, false, Option, none, some, [], ◌∷◌, ◌++◌, ◌≡◌, ◌≢◌, refl, if◌then◌else◌, string_eq,
  or_else, ne_of_beq, ap, ◌∙◌, sym, arith,
}
use talisker.Common.Dict.{Dict, get, contains, Distinct}
use talisker.Common.Text.{Text, codes}
use talisker.Logs.Record.{make_record, context_extra}
use talisker.Logs.Record.Merge.{IsPlain, get-make_record_suffix}
use talisker.Logs.Strings.{newline, quote, backslash, Lacks, strip, lstrip, replace, is_space}
use talisker.Logs.Formatter.{
  str, leaf, logfmt_string, string_needs_quoting, needs_quoting_from, is_special,
}
use talisker.Logs.Formatter.Quoting.{
  read_quoted, read_quoted-logfmt_string, trailing_backslash_unclosed,
}
use talisker.Logs.Format.{LogRecord, format, format_one_line}

-- The last code of a text.
last_code : Text → ℕ
last_code [] = 0
last_code (c ∷ []) = c
last_code (c ∷ d ∷ s) = last_code (d ∷ s)

last_code-append : (s : Text) (c : ℕ) → last_code (s ++ c ∷ []) ≡ c
unfolding last_code
last_code-append [] c = refl
last_code-append (d ∷ []) c = refl
last_code-append (d ∷ e ∷ s) c = last_code-append (e ∷ s) c

codes-join : (s t : String) → codes (join s t) ≡ codes s ++ codes t
codes-join String.[] t = ap codes (nil-append t)
codes-join (String.◌∷◌ c s) t = ap codes (cons-append c s t) ∙ ap (λ x. code c ∷ x) (codes-join s t)

user-IsPlain : IsPlain "user"
unfolding last_code
user-IsPlain j e =
    let u : 95 ≡ 114 =
      sym (last_code-append (codes j) 95) ∙ ap last_code (sym (codes-join j "_") ∙ ap codes e) in
    omega (arith, u)

abbrev call_extra : Dict String ℕ
call_extra = ("user", 1) ∷ []

abbrev context_dict : Dict String ℕ
context_dict = ("user", 2) ∷ []

abbrev in_context : Option (Dict String ℕ × Option String)
in_context = some (context_dict, none)

abbrev process_extra : Dict String ℕ
process_extra = ("user", 3) ∷ []

not_rid : ◌≢◌ {A = String} "user" "request_id"
not_rid = ne_of_beq "user" "request_id" refl

not_trailer : ◌≢◌ {A = String} "trailer" "user"
not_trailer = ne_of_beq "trailer" "user" refl

not_rid_suffix : join "user" "_" ≢ "request_id"
not_rid_suffix = ne_of_beq (join "user" "_") "request_id" refl

not_trailer_suffix : "trailer" ≢ join "user" "_"
not_trailer_suffix = ne_of_beq "trailer" (join "user" "_") refl

get-make_record_suffix_example :
    get (join "user" "_") (make_record (λ _. 0) in_context process_extra call_extra).structured ≡ (
      if contains "user" process_extra
      then or_else (get "user" (context_extra in_context)) (get "user" call_extra)
      else if contains "user" (context_extra in_context)
      then get "user" call_extra
      else none)
unfolding Distinct get
get-make_record_suffix_example =
    get-make_record_suffix (λ _. 0) in_context process_extra call_extra "user"
      (record { of_context = (refl, tt); of_global = (refl, tt); of_extra = (refl, tt) })
      (record { in_context = refl; in_global = refl; in_extra = refl }) not_rid_suffix not_trailer
      not_trailer_suffix

read_quoted-logfmt_string_example :
    (body : Text) × (logfmt_string (codes "a b") ≡ quote ∷ body)
    × (read_quoted false (body ++ codes " x") ≡ some (codes "a b", codes " x"))
unfolding strip lstrip replace string_needs_quoting needs_quoting_from is_space is_special
read_quoted-logfmt_string_example =
    read_quoted-logfmt_string (codes "a b") (codes " x")
      (record { stripped = refl; one_line = ground arith; short = omega arith }) (ground arith) refl

trailing_backslash_unclosed_example :
    (body : Text) × (logfmt_string (codes "C:" ++ backslash ∷ []) ≡ quote ∷ body)
    × (read_quoted false body ≡ none)
unfolding strip lstrip replace string_needs_quoting needs_quoting_from is_space is_special
trailing_backslash_unclosed_example =
    trailing_backslash_unclosed (codes "C:")
      (record { stripped = refl; one_line = ground arith; short = omega arith }) (ground arith)

abbrev log_record : LogRecord
log_record = record {
  message = codes "a\nb";
  level = 20;
  extra = ("k", leaf (str (codes "v"))) ∷ [];
  exc_info = none;
  trailer = none;
  exc_text = none;
}

format_one_line_example : Lacks newline (format (λ s. s) log_record).0
format_one_line_example = format_one_line (λ s. s) log_record (λ s h. h) (tt, tt) refl refl refl
