-- ===== src/Sentry/Tests.antt =====
-- The theorems on reports to sentry at concrete reports.

use talisker.Common.{ℕ, String, true, none, some, List, [], ◌∷◌, ◌≡◌, refl, string_eq}
use talisker.Common.Dict.{Dict}
use talisker.Sentry.{Crumb, Summary, Extra, value, Data, sql_summary}
use talisker.Sentry.Slowest.{Summarises, sql_summary-Summarises}
use talisker.Sentry.Added.{Added}
use talisker.Sentry.Config.{Kwargs, Config}

abbrev query_crumb : ℕ → String → Crumb
query_crumb d q = record {
  category = "sql";
  timestamp = 1000;
  duration_ms = some d;
  query = some q;
  start = none;
}

abbrev log_crumb : Crumb
log_crumb = record {
  category = "log";
  timestamp = 900;
  duration_ms = none;
  query = none;
  start = none;
}

abbrev queries : List Crumb
queries =
    query_crumb 30 "a"
    ∷ query_crumb 10 "b"
    ∷ query_crumb 50 "c"
    ∷ query_crumb 30 "d"
    ∷ query_crumb 20 "e"
    ∷ query_crumb 40 "f"
    ∷ []

sql_summary-Summarises_example :
    (s : Summary) × (sql_summary 2000 queries (some 500) ≡ some s) × Summarises queries s
sql_summary-Summarises_example = sql_summary-Summarises 2000 queries (some 500) (
  (refl, refl),
  ((refl, refl), ((refl, refl), ((refl, refl), ((refl, refl), ((refl, refl), tt))))),
)

abbrev a_report : Data
a_report = record {
  tags = [];
  extra = ("start_time", value "500") ∷ ("a", value "old") ∷ [];
  user = some (("email", "me@host") ∷ ("id", "1") ∷ []);
  breadcrumbs = log_crumb ∷ query_crumb 30 "a" ∷ [];
}

abbrev a_logging : Dict String Extra
a_logging = ("a", value "new") ∷ []

abbrev a_config : Config
a_config = record {
  default_sanitise_keys = "sessionid" ∷ "csrftoken" ∷ [];
  sanitise_keys = "token" ∷ [];
  revision_id = some "r1";
  unit = some "app-1";
  environment = none;
  domain = none;
  sentry_dsn = none;
}

abbrev a_client : Kwargs
a_client = record {
  processors = some ("mine" ∷ []);
  sanitize_keys = none;
  install_logging_hook = true;
  release = none;
  hook_libraries = none;
  tags = some (("unit", "mine") ∷ []);
  dsn = some "";
}
