-- ===== src/Sentry/Added.antt =====
-- What `add_talisker_context` of talisker/sentry.py does to a report.
use mathlib.Core.Option
use talisker.Common.{
  String, false, Option, none, some, List, [], ◌∷◌, ◌≡◌, string_eq, ◌==◌, or_else,
}
use talisker.Common.Dict.{Dict, get, erase, update}
use talisker.Util.Errors.{nonempty}
use talisker.Sentry.{Crumb, Summary, Extra, summary, Data, sql_crumbs, add_request_id}
use talisker.Sentry.Slowest.{Summarises}

-- The personal fields of a user.
abbrev pub IsPrivate : Option (Dict String String) → Type 0
IsPrivate none = Unit {0}
IsPrivate (some u) = (get "email" u ≡ none) × (get "username" u ≡ none)

-- What is under `sql summary`, for the queries of a report.
abbrev pub SummaryIn : List Crumb → Option Extra → Type 0
SummaryIn [] found = Unit {0}
SummaryIn (c ∷ crumbs) found =
    (s : Summary) × (found ≡ some (summary s)) × Summarises (c ∷ crumbs) s

-- What is added to a report.
pub record Added (rid : Option String) (logging : Dict String Extra) (d d' : Data) : Type 0 where
  pub user : IsPrivate d'.user
  pub request_id : get "request_id" d'.tags ≡ or_else (nonempty rid) (get "request_id" d.tags)
  pub tags : (k : String) → ("request_id" == k) ≡ false → get k d'.tags ≡ get k d.tags
  pub extra :
      (k : String)
      → ("sql summary" == k) ≡ false
      → get k d'.extra ≡ or_else (get k logging) (get k d.extra)
  pub summarised : SummaryIn (sql_crumbs d'.breadcrumbs) (get "sql summary" d'.extra)

-- A report as it is before the summary is added.
abbrev bare : Option String → Dict String Extra → List Crumb → Data → Data
bare rid logging crumbs d = record {
  tags = add_request_id rid d.tags;
  extra = update d.extra logging;
  user = Option.map (λ u. erase "username" (erase "email" u)) d.user;
  breadcrumbs = crumbs;
}
