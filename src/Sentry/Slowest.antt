-- ===== src/Sentry/Slowest.antt =====
-- That `sql_summary` of talisker/sentry.py reports the slowest of the queries.
use mathlib.Core.Option
use talisker.Common.{
  ℕ, ◌+◌, ◌≤◌, min, String, Bool, true, Option, none, some, List, [], ◌∷◌, ◌≡◌, refl, ap, ◌∙◌,
  arith, leb, if◌then◌else◌, is_some,
}
use talisker.Common.Lists.{length, take, All, All-take}
use talisker.Sentry.{
  Crumb, Summary, duration, sort_crumbs, sum_durations, entry, entries, sql_summary,
}
use talisker.Sentry.Sorting.{
  count_if, All-sort_crumbs, count_if-sort_crumbs, sum_durations-sort_crumbs,
  Descending-sort_crumbs, at_least, count_if-take, length-sort_crumbs, count_if-take_le,
}

-- What `sql_summary` needs of a crumb.
abbrev pub HasEntry : Crumb → Type 0
HasEntry c = (is_some c.duration_ms ≡ true) × (is_some c.query ≡ true)

-- The duration and the query of a crumb that has both.
abbrev pub entry_of : Crumb → ℕ × String
entry_of c = (duration c, Option.get_or c.query "")

entry-HasEntry :
    (d : Option ℕ) (q : Option String)
    → is_some d ≡ true
    → is_some q ≡ true
    → entry d q ≡ some (Option.get_or d 0, Option.get_or q "")
entry-HasEntry none q h k = cc
entry-HasEntry (some d) none h k = cc
entry-HasEntry (some d) (some q) h k = refl

-- The entries of crumbs are these.
abbrev entries_of : List Crumb → List (ℕ × String)
entries_of [] = []
entries_of (c ∷ crumbs) = entry_of c ∷ entries_of crumbs

entries-HasEntry :
    (crumbs : List Crumb) → All HasEntry crumbs → entries crumbs ≡ some (entries_of crumbs)
unfolding entries
entries-HasEntry [] h = refl
entries-HasEntry (c ∷ crumbs) h =
    rw (entry-HasEntry c.duration_ms c.query h.0.0 h.0.1, entries-HasEntry crumbs h.1) refl

count_if-entries_of :
    (test : ℕ × String → Bool) (crumbs : List Crumb)
    → count_if test (entries_of crumbs) ≡ count_if (λ c. test (entry_of c)) crumbs
unfolding count_if
count_if-entries_of test [] = refl
count_if-entries_of test (c ∷ crumbs) =
    ap (λ n. if test (entry_of c) then n + 1 else n) (count_if-entries_of test crumbs)

-- What a summary of crumbs should say.
pub record Summarises (crumbs : List Crumb) (s : Summary) : Type 0 where
  pub counted : s.sql_count ≡ length crumbs
  pub timed : s.sql_time ≡ sum_durations crumbs
  pub slowest :
      (t : ℕ)
      → count_if (λ (e : ℕ × String). leb t e.0) s.slowest_queries
        ≡ min 5 (count_if (at_least t) crumbs)
  pub among :
      (test : ℕ × String → Bool)
      → count_if test s.slowest_queries ≤ count_if (λ c. test (entry_of c)) crumbs

-- If every query's crumb has its duration and its query there is a summary: it has the number of the
-- queries and the sum of their durations; it lists queries of the report, each at most as often as
-- it occurs there; and of those that take at least any given time it lists all, or five.
pub sql_summary-Summarises :
    (now : ℕ) (crumbs : List Crumb) (start : Option ℕ)
    → All HasEntry crumbs
    → (s : Summary) × (sql_summary now crumbs start ≡ some s) × Summarises crumbs s
unfolding sql_summary
sql_summary-Summarises now crumbs start h =
    let sorted = sort_crumbs crumbs in
    let e =
      entries-HasEntry (take 5 sorted)
        (All-take HasEntry 5 sorted (All-sort_crumbs HasEntry crumbs h)) in
    (
      _,
      ap (Option.map _) e,
      record {
        counted = length-sort_crumbs crumbs;
        timed = sum_durations-sort_crumbs crumbs;
        slowest = λ t.
            count_if-entries_of _ (take 5 sorted)
            ∙ count_if-take t 5 sorted (Descending-sort_crumbs crumbs)
            ∙ ap (min 5) (count_if-sort_crumbs (at_least t) crumbs);
        among = λ test.
            let a = count_if-entries_of test (take 5 sorted) in
            let b = count_if-take_le (λ c. test (entry_of c)) 5 sorted in
            let c = count_if-sort_crumbs (λ c. test (entry_of c)) crumbs in omega (arith, a, b, c);
      },
    )
