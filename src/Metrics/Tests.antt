-- ===== src/Metrics/Tests.antt =====
-- The theorem on the updates of a metric at concrete failures.
use talisker.Common.{true, none, some, List, [], ◌∷◌, refl, string_eq, ◌==◌, if◌then◌else◌, nat_eq}
use talisker.Common.Lists.{length}
use talisker.Common.Text.{codes}
use talisker.Metrics.{Metric, Backend, Recorded}
use talisker.Metrics.Protected.{Update, observed, incremented, apply_all, Seen, apply_all-Seen}

abbrev a_metric : Metric
a_metric = record {
  name = codes "wsgi_count";
  statsd_template = some "{name}.{view}";
  prometheus = true;
}

-- An amount of 7 is refused by prometheus, one of 8 by statsd.
abbrev a_backend : Backend
a_backend = record {
  format = λ t name labels. none;
  prometheus_error = λ labels amount. if amount == 7 then some "ValueError" else none;
  client_error = none;
  send_error = λ name amount. if amount == 8 then some "OSError" else none;
}

abbrev updates : List Update
updates = observed [] 5 ∷ incremented [] 7 ∷ incremented [] 8 ∷ []

abbrev nothing : Recorded
nothing = record { updates = []; sent = []; logged = [] }

apply_all-Seen_example :
    Seen (length updates) nothing (apply_all a_backend a_metric updates nothing)
apply_all-Seen_example = apply_all-Seen a_backend a_metric refl refl updates nothing
