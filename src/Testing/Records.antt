-- ===== src/Testing/Records.antt =====
-- `LogRecordList` of talisker/testing.py, its searches and assertions. The values compared are texts and
-- whole numbers. An argument is `none` if a call raises an `AttributeError`.
pub mod Search
use mathlib.Core.Option
use talisker.Common.{
  ℕ, zero, suc, String, Bool, true, false, Option, none, some, List, [], ◌∷◌, ◌++◌, string_eq,
  nat_eq, ◌==◌, ◌||◌, ◌&&◌, not, if◌then◌else◌, is_some,
}
use talisker.Common.Text.{Text, text_beq, is_infix}
use talisker.Common.Lists.{length}
use talisker.Common.Dict.{Dict, get, contains, insert, erase}
use talisker.Context.Stack.{Outcome, returned, raised}

pub data Value : Type 0 where
  text : Text → Value
  number : ℕ → Value

-- A record of the logging module: its attributes, and its `extra` if it has that attribute.
pub record LogRecord : Type 0 where
  pub attributes : Dict String Value
  pub extra : Option (Dict String Value)

-- `cmp` of `_match`; `none` stands for `_sentinel`.
abbrev pub cmp : Option Value → Value → Bool
cmp none b = false
cmp (some (text a)) (text b) = text_beq a b || is_infix b a
cmp (some (text a)) (number b) = false
cmp (some (number a)) (text b) = false
cmp (some (number a)) (number b) = a == b

-- `all(cmp(get(k, _s), v) for k, v in terms.items())`
unfoldable pub all_cmp : Dict String Value → Dict String Value → Bool
all_cmp found [] = true
all_cmp found ((k, v) ∷ terms) = cmp (get k found) v && all_cmp found terms

-- An `extra` of `None` is as falsy as an empty one.
abbrev pub match_extra : Option (Dict String Value) → Dict String Value → Bool
match_extra found [] = true
match_extra none (t ∷ extra) = false
match_extra (some found) (t ∷ extra) = all_cmp found (t ∷ extra)

unfoldable pub match_record : Dict String Value → Dict String Value → LogRecord → Bool
unfolding all_cmp
match_record extra kwargs r =
    if all_cmp r.attributes kwargs then match_extra r.extra extra else false

-- The loops of `filter` and of `find`.
unfoldable pub matching : (LogRecord → Bool) → List LogRecord → List LogRecord
matching test [] = []
matching test (r ∷ records) = let rest = matching test records in if test r then r ∷ rest else rest

unfoldable pub first_match : (LogRecord → Bool) → List LogRecord → Option LogRecord
first_match test [] = none
first_match test (r ∷ records) = if test r then some r else first_match test records

-- An `AssertionError`: the number of records and the terms that it names.
pub data Term : Type 0 where
  attribute_term extra_term : String → Value → Term

pub data Failure : Type 0 where
  attribute_error : Failure
  not_found : ℕ → List Term → Failure
  found_log : Failure

module _ (upper : Text → Text) where
  abbrev pub clean_level : Option Value → Dict String Value → Dict String Value
  clean_level none kwargs = kwargs
  clean_level (some (text level)) kwargs = insert "levelname" (text (upper level)) kwargs
  clean_level (some (number level)) kwargs = insert "levelno" (number level) kwargs

  abbrev pub clean_levelname : Option Value → Dict String Value → Option (Dict String Value)
  clean_levelname none kwargs = some kwargs
  clean_levelname (some (text level)) kwargs = some (insert "levelname" (text (upper level)) kwargs)
  clean_levelname (some (number level)) kwargs = none

  -- A level of `None` is not modelled.
  unfoldable pub clean_kwargs : Dict String Value → Option (Dict String Value)
  clean_kwargs kwargs =
      if contains "level" kwargs
      then some (clean_level (get "level" kwargs) (erase "level" kwargs))
      else clean_levelname (get "levelname" kwargs) kwargs

  unfoldable pub filter :
      Dict String Value → Dict String Value → List LogRecord → Option (List LogRecord)
  unfolding clean_kwargs match_record matching
  filter extra kwargs records =
      Option.map (λ terms. matching (match_record extra terms) records) (clean_kwargs kwargs)

  unfoldable pub find :
      Dict String Value → Dict String Value → List LogRecord → Option (Option LogRecord)
  unfolding clean_kwargs match_record first_match
  find extra kwargs records =
      Option.map (λ terms. first_match (match_record extra terms) records) (clean_kwargs kwargs)

  unfoldable pub exists : Dict String Value → Dict String Value → List LogRecord → Option Bool
  unfolding find
  exists extra kwargs records = Option.map is_some (find extra kwargs records)

  -- A term is named if it alone is found in no record.
  abbrev pub name_if : Option (List LogRecord) → Term → Option (List Term) → Option (List Term)
  name_if none term rest = none
  name_if (some []) term rest = Option.map (λ terms. term ∷ terms) rest
  name_if (some (r ∷ records)) term rest = rest

  unfoldable pub missing_extras : List LogRecord → Dict String Value → Option (List Term)
  unfolding filter
  missing_extras records [] = some []
  missing_extras records ((k, v) ∷ extra) =
      name_if (filter ((k, v) ∷ []) [] records) (extra_term k v) (missing_extras records extra)

  -- The terms among the attributes, then those among the extras.
  unfoldable pub missing_terms :
      List LogRecord → Dict String Value → Dict String Value → Option (List Term)
  unfolding filter missing_extras
  missing_terms records extra [] = missing_extras records extra
  missing_terms records extra ((k, v) ∷ kwargs) =
      name_if (filter [] ((k, v) ∷ []) records) (attribute_term k v)
        (missing_terms records extra kwargs)

  abbrev pub failed : ℕ → Option (List Term) → Outcome (Unit {0}) Failure
  failed n none = raised attribute_error
  failed n (some terms) = raised (not_found n terms)

  abbrev pub asserted :
      Option Bool
      → Dict String Value
      → Dict String Value
      → List LogRecord
      → Outcome (Unit {0}) Failure
  asserted none extra kwargs records = raised attribute_error
  asserted (some true) extra kwargs records = returned tt
  asserted (some false) extra kwargs records =
      failed (length records) (missing_terms records extra kwargs)

  unfoldable pub assert_log :
      Dict String Value → Dict String Value → List LogRecord → Outcome (Unit {0}) Failure
  unfolding exists missing_terms
  assert_log extra kwargs records = asserted (exists extra kwargs records) extra kwargs records

  abbrev pub asserted_not : Option Bool → Outcome (Unit {0}) Failure
  asserted_not none = raised attribute_error
  asserted_not (some true) = raised found_log
  asserted_not (some false) = returned tt

  unfoldable pub assert_not_log :
      Dict String Value → Dict String Value → List LogRecord → Outcome (Unit {0}) Failure
  unfolding exists
  assert_not_log extra kwargs records = asserted_not (exists extra kwargs records)
