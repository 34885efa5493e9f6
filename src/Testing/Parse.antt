-- ===== src/Testing/Parse.antt =====
-- `LogRecordList.parse` of talisker/testing.py. `shlex.split`, the date parser, the tests of a line and the
-- splits and joins of texts are the builtins'.
pub mod Groups
use talisker.Common.{
  ℕ, String, Bool, true, false, Option, none, some, List, [], ◌∷◌, ◌++◌, string_eq, if◌then◌else◌,
}
use talisker.Common.Dict.{Dict, update}
use talisker.Context.Stack.{Outcome, returned, raised}

-- The record that `_parse_line` creates; `created` is in seconds.
pub record ParsedLog : Type 0 where
  pub name : String
  pub level : String
  pub message : String
  pub extra : Dict String String
  pub created : ℕ
  pub trailer : String

pub data ParseError : Type 0 where
  index_error value_error assertion_error : ParseError

-- `blank` is `not line.strip()`, `timestamp` is `TIMESTAMP.match`, `split_once` is `split('=', 1)` if it
-- gives two parts, and `strptime` reads the date and the time of day; `none` is a `ValueError`.
pub record Builtins : Type 0 where
  pub blank : String → Bool
  pub timestamp : String → Bool
  pub shlex : String → Option (List String)
  pub split_once : String → Option (String × String)
  pub strptime : String → String → Option ℕ
  pub join_lines : List String → String

-- `parsed[:5]`, taken apart, and `parsed[5:]`.
pub record Fields : Type 0 where
  pub date : String
  pub tod : String
  pub level : String
  pub name : String
  pub msg : String
  pub rest : List String

abbrev pub fields : List String → Option Fields
fields (date ∷ tod ∷ level ∷ name ∷ msg ∷ rest) =
    some (record { date = date; tod = tod; level = level; name = name; msg = msg; rest = rest })
fields _ = none

module _ (b : Builtins) where
  abbrev pub cons_pair :
      Option (String × String) → Option (List (String × String)) → Option (List (String × String))
  cons_pair (some p) (some pairs) = some (p ∷ pairs)
  cons_pair _ _ = none

  unfoldable pub pairs : List String → Option (List (String × String))
  pairs [] = some []
  pairs (v ∷ words) = cons_pair (b.split_once v) (pairs words)

  abbrev pub dated :
      Option ℕ → Fields → Dict String String → List String → Outcome ParsedLog ParseError
  dated none f extra trailer = raised value_error
  dated (some ts) f extra trailer = returned (record {
    name = f.name;
    level = f.level;
    message = f.msg;
    extra = extra;
    created = ts;
    trailer = b.join_lines trailer;
  })

  abbrev pub with_extra :
      Fields → Option (List (String × String)) → List String → Outcome ParsedLog ParseError
  with_extra f none trailer = raised assertion_error
  with_extra f (some items) trailer = dated (b.strptime f.date f.tod) f (update [] items) trailer

  abbrev pub with_fields : Option Fields → List String → Outcome ParsedLog ParseError
  with_fields none trailer = raised assertion_error
  with_fields (some f) trailer = with_extra f (pairs f.rest) trailer

  abbrev pub with_words : Option (List String) → List String → Outcome ParsedLog ParseError
  with_words none trailer = raised value_error
  with_words (some words) trailer = with_fields (fields words) trailer

  unfoldable pub parse_line : List String → Outcome ParsedLog ParseError
  unfolding pairs
  parse_line [] = raised index_error
  parse_line (log ∷ trailer) = with_words (b.shlex log) trailer

  -- `if current: self.append(…)`
  abbrev pub flush : List String → List (List String) → List (List String)
  flush [] groups = groups
  flush (l ∷ current) groups = (l ∷ current) ∷ groups

  -- The loop over the lines: what it hands to `_parse_line`, given `current`.
  unfoldable pub groups : List String → List String → List (List String)
  groups current [] = flush current []
  groups current (line ∷ lines) =
      if b.blank line
      then groups current lines
      else if b.timestamp line
      then flush current (groups (line ∷ []) lines)
      else groups (current ++ line ∷ []) lines

  abbrev pub cons_parsed :
      Outcome ParsedLog ParseError
      → Outcome (List ParsedLog) ParseError
      → Outcome (List ParsedLog) ParseError
  cons_parsed (raised e) rest = raised e
  cons_parsed (returned log) (raised e) = raised e
  cons_parsed (returned log) (returned logs) = returned (log ∷ logs)

  unfoldable pub parse_groups : List (List String) → Outcome (List ParsedLog) ParseError
  unfolding parse_line
  parse_groups [] = returned []
  parse_groups (g ∷ gs) = cons_parsed (parse_line g) (parse_groups gs)

  unfoldable pub parse : List String → Outcome (List ParsedLog) ParseError
  unfolding groups parse_groups
  parse lines = parse_groups (groups [] lines)
