-- ===== src/Logs/Format.antt =====
-- `StructuredFormatter.format` of talisker/logs.py, without its fallback on an exception. What the
-- stdlib does with the format string is the argument `header`, a function of the message.
use talisker.Common.{
  ℕ, ◌≤◌, ◌+◌, String, Bool, false, Option, none, some, List, [], ◌∷◌, ◌++◌, ◌≡◌, ◌≢◌, arith, ltb,
  nat_beq, if◌then◌else◌, string_eq, Bool-cases, inl, inr,
}
use talisker.Common.Lists.{length, take, length-append, length-take-le, All, All-append, All-take}
use talisker.Common.Dict.{Dict, contains, update}
use talisker.Common.Text.{Text, codes}
use talisker.Logs.Strings.{newline, Lacks}
use talisker.Logs.Formatter.{
  Key, str_key, Value, clean_message, logfmt, max_msg_size, truncated_mark,
}
use talisker.Logs.Formatter.Lines.{
  IsPlainValue, IsPlainEntry, newline-clean_message, newline-logfmt,
}

-- The parts of a `LogRecord` that are read. An exception comes as its errno fields; `exc_text` is
-- the formatted traceback.
pub record LogRecord : Type 0 where
  pub message : Text
  pub level : ℕ
  pub extra : Dict String Value
  pub exc_info : Option (Dict String Value)
  pub trailer : Option Text
  pub exc_text : Option Text

abbrev pub debug_level : ℕ
debug_level = 10

unfoldable pub cut_at : ℕ → Text → Text
cut_at max s = if ltb max (length s) then take max s ++ truncated_mark else s

-- The message, cut at its maximum size after cleaning.
unfoldable pub format_message : Text → Text
format_message message = cut_at max_msg_size (clean_message message)

-- The structured data, with the errno fields of an exception.
unfoldable pub format_extra : LogRecord → Dict String Value
format_extra r = elim r.exc_info [
  | none ↦ r.extra
  | some errno_fields ↦ if contains "errno" r.extra then r.extra else update r.extra errno_fields
]

abbrev pub entries : Dict String Value → List (Key × Value)
entries [] = []
entries ((k, v) ∷ structured) = (str_key (codes k), v) ∷ entries structured

-- `s[-1:] != "\n"`
unfoldable pub ends_in_newline : Text → Bool
ends_in_newline [] = false
ends_in_newline (c ∷ []) = nat_beq c newline
ends_in_newline (c ∷ d ∷ s) = ends_in_newline (d ∷ s)

abbrev pub add_structured : Dict String Value → Text → Text
add_structured [] s = s
add_structured (kv ∷ structured) s = s ++ (codes " " ++ logfmt (entries (kv ∷ structured)))

abbrev pub add_trailer : Option Text → Text → Text
add_trailer none s = s
add_trailer (some trailer) s = s ++ (newline ∷ trailer)

unfoldable pub add_exc_text : Option Text → Text → Text
unfolding ends_in_newline
add_exc_text none s = s
add_exc_text (some []) s = s
add_exc_text (some (c ∷ exc_text)) s =
    (if ends_in_newline s then s else s ++ newline ∷ []) ++ (c ∷ exc_text)

-- The formatted text, and the message that goes to the sentry breadcrumb, if the level is above
-- DEBUG.
unfoldable pub format : (Text → Text) → LogRecord → Text × Option Text
unfolding add_exc_text
format header r =
    let s = add_structured (format_extra r) (header (format_message r.message)) in
    (
      add_exc_text r.exc_text (add_trailer r.trailer s),
      if ltb debug_level r.level then some (clean_message r.message) else none,
    )

newline-cut_at : (max : ℕ) (s : Text) → Lacks newline s → Lacks newline (cut_at max s)
unfolding cut_at
newline-cut_at max s h = elim (Bool-cases (ltb max (length s))) [
  | inl e ↦ rw e (
      All-append (λ c. c ≢ newline) (take max s) truncated_mark
        (All-take (λ c. c ≢ newline) max s h) (omega arith))
  | inr e ↦ rw e h
]

length-cut_at-le : (max : ℕ) (s : Text) → length (cut_at max s) ≤ max + 3
unfolding cut_at
length-cut_at-le max s =
    ground (arith, length-append (take max s) truncated_mark, length-take-le max s)

-- The message that is formatted is one line of at most 10240 characters and the mark of the cut.
pub format_message_bounds :
    (message : Text)
    → Lacks newline (format_message message) × (length (format_message message) ≤ max_msg_size + 3)
unfolding format_message
format_message_bounds message =
    (newline-cut_at max_msg_size _ (newline-clean_message message), length-cut_at-le max_msg_size _)

IsPlainEntry-entries :
    (structured : Dict String Value)
    → All (λ kv. IsPlainValue kv.1) structured
    → All IsPlainEntry (entries structured)
IsPlainEntry-entries [] h = tt
IsPlainEntry-entries ((k, v) ∷ structured) h = ((tt, h.0), IsPlainEntry-entries structured h.1)

newline-add_structured :
    (structured : Dict String Value) (s : Text)
    → All (λ kv. IsPlainValue kv.1) structured
    → Lacks newline s
    → Lacks newline (add_structured structured s)
newline-add_structured [] s h hs = hs
newline-add_structured (kv ∷ structured) s h hs =
    All-append (λ c. c ≢ newline) s _ hs
      (omega arith, newline-logfmt _ (IsPlainEntry-entries (kv ∷ structured) h))

-- A record with no exception, exception text or trailer is formatted as one line, whatever its
-- message, keys and texts are, if its numbers, keys among them, and the names of its types print without a newline
-- and the format string makes one line of a one-line message.
pub format_one_line :
    (header : Text → Text) (r : LogRecord)
    → ((s : Text) → Lacks newline s → Lacks newline (header s))
    → All (λ kv. IsPlainValue kv.1) r.extra
    → r.exc_info ≡ none
    → r.trailer ≡ none
    → r.exc_text ≡ none
    → Lacks newline (format header r).0
unfolding format format_extra
format_one_line header r hh hv e t x =
    rw (x, t, e) (newline-add_structured r.extra _ hv (hh _ (format_message_bounds r.message).0))
