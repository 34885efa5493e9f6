-- ===== src/Testing/Records/Search.antt =====
-- How the searches of `LogRecordList` in talisker/testing.py agree with each other.
use mathlib.Core.Option
use talisker.Common.{
  ℕ, String, Bool, true, false, Option, none, some, List, [], ◌∷◌, ◌++◌, ◌≡◌, refl, ap, ◌∙◌, arith,
  string_eq, ◌&&◌, not, is_some, Bool-cases, Option-cases, inl, inr,
}
use talisker.Common.Dict.{Dict}
use talisker.Common.Text.{Text}
use talisker.Context.Stack.{Outcome, returned, raised}
use talisker.Testing.Records.{
  Value, LogRecord, Term, all_cmp, match_record, matching, first_match, Failure, clean_kwargs,
  filter, find, exists, missing_terms, failed, asserted, asserted_not, assert_log, assert_not_log,
}

abbrev pub head {ℓ} : {A : Type ℓ} → List A → Option A
head [] = none
head (a ∷ rest) = some a

first_match-matching :
    (test : LogRecord → Bool) (records : List LogRecord)
    → first_match test records ≡ head (matching test records)
unfolding first_match matching
first_match-matching test [] = refl
first_match-matching test (r ∷ records) = elim (Bool-cases (test r)) [
  | inl e ↦ rw (e) refl
  | inr e ↦ rw (e) (first_match-matching test records)
]

-- `list` is not empty.
abbrev pub is_cons {ℓ} : {A : Type ℓ} → List A → Bool
is_cons [] = false
is_cons (a ∷ rest) = true

is_some-head : (records : List LogRecord) → is_some (head records) ≡ is_cons records
is_some-head [] = refl
is_some-head (r ∷ records) = refl

-- Whether an assertion passes.
abbrev pub passes : Outcome (Unit {0}) Failure → Bool
passes (returned u) = true
passes (raised e) = false

module _ (upper : Text → Text) (extra kwargs : Dict String Value) where
  find-filter :
      (records : List LogRecord)
      → find upper extra kwargs records ≡ Option.map head (filter upper extra kwargs records)
  unfolding find filter
  find-filter records = elim (Option-cases (clean_kwargs upper kwargs)) [
    | inl e ↦ rw (e) refl
    | inr (terms, e) ↦ rw (e) (ap some (first_match-matching (match_record extra terms) records))
  ]

  passes-failed : (n : ℕ) (terms : Option (List Term)) → passes (failed upper n terms) ≡ false
  passes-failed n none = refl
  passes-failed n (some terms) = refl

  passes-asserted :
      (b : Bool) (records : List LogRecord)
      → passes (asserted upper (some b) extra kwargs records) ≡ b
  passes-asserted true records = refl
  passes-asserted false records = passes-failed _ (missing_terms upper records extra kwargs)

  passes-asserted_not : (b : Bool) → passes (asserted_not upper (some b)) ≡ not b
  passes-asserted_not true = refl
  passes-asserted_not false = refl

  exists-filter :
      (records found : List LogRecord)
      → filter upper extra kwargs records ≡ some found
      → exists upper extra kwargs records ≡ some (is_cons found)
  unfolding exists
  exists-filter records found h =
      ap (Option.map is_some) (find-filter records ∙ ap (Option.map head) h)
      ∙ ap some (is_some-head found)

  -- All searches agree with `filter`: `find` gives the first of what it gives, `exists` says whether
  -- there is any, `assert_log` passes exactly if there is, and `assert_not_log` exactly if there is
  -- none. This supposes that the query has no level of a wrong type, for which all of them raise.
  pub searches_agree :
      (records found : List LogRecord)
      → filter upper extra kwargs records ≡ some found
      → (find upper extra kwargs records ≡ some (head found))
        × (exists upper extra kwargs records ≡ some (is_cons found))
        × (passes (assert_log upper extra kwargs records) ≡ is_cons found)
        × (passes (assert_not_log upper extra kwargs records) ≡ not (is_cons found))
  unfolding assert_log assert_not_log
  searches_agree records found h =
      let e = exists-filter records found h in
      (
        find-filter records ∙ ap (Option.map head) h,
        e,
        ap (λ o. passes (asserted upper o extra kwargs records)) e
            ∙ passes-asserted (is_cons found) records,
        ap (λ o. passes (asserted_not upper o)) e ∙ passes-asserted_not (is_cons found),
      )

all_cmp-append :
    (found terms more : Dict String Value)
    → all_cmp found (terms ++ more) ≡ all_cmp found terms && all_cmp found more
unfolding all_cmp
all_cmp-append found [] more = refl
all_cmp-append found ((k, v) ∷ terms) more = ground (arith, all_cmp-append found terms more)

match_record-append :
    (extra terms more : Dict String Value) (r : LogRecord)
    → match_record extra (terms ++ more) r ≡ match_record extra terms r && match_record [] more r
unfolding match_record
match_record-append extra terms more r = ground (arith, all_cmp-append r.attributes terms more)

matching-and :
    (p q both : LogRecord → Bool) (records : List LogRecord)
    → ((r : LogRecord) → both r ≡ p r && q r)
    → matching both records ≡ matching q (matching p records)
unfolding matching
matching-and p q both [] h = refl
matching-and p q both (r ∷ records) h = elim (Bool-cases (p r)) [
  | inl e ↦ rw (h r, e) (rw (matching-and p q both records h) refl)
  | inr e ↦ rw (h r, e) (matching-and p q both records h)
]

-- The records that one search finds among those of another.
abbrev pub then_filter :
    (Text → Text) → Dict String Value → Option (List LogRecord) → Option (List LogRecord)
then_filter upper more none = none
then_filter upper more (some records) = filter upper [] more records

-- A search by the attributes of two queries finds what the second finds among the records that the
-- first has found, for queries in which there is no level to clean up.
pub filter-append :
    (upper : Text → Text) (extra kwargs more : Dict String Value) (records : List LogRecord)
    → clean_kwargs upper kwargs ≡ some kwargs
    → clean_kwargs upper more ≡ some more
    → clean_kwargs upper (kwargs ++ more) ≡ some (kwargs ++ more)
    → filter upper extra (kwargs ++ more) records
      ≡ then_filter upper more (filter upper extra kwargs records)
unfolding filter
filter-append upper extra kwargs more records a b c =
    rw (a, b, c)
      (ap some (
        matching-and (match_record extra kwargs) (match_record [] more)
          (match_record extra (kwargs ++ more)) records (match_record-append extra kwargs more)))
