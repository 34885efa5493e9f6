-- ===== src/Metrics.antt =====
-- talisker/metrics.py: the names of statsd metrics and the updates of a metric, which never raise. What
-- prometheus_client and the statsd client raise is an argument; a name is a text of code points.
pub mod Protected
mod Tests
use mathlib.Core.Option
use talisker.Common.{
  ℕ, String, Bool, true, false, Option, none, some, List, [], ◌∷◌, ◌++◌, string_eq, nat_eq, ◌==◌,
  map, if◌then◌else◌,
}
use talisker.Common.Text.{Text}
use talisker.Common.Dict.{Dict}
use talisker.Context.Stack.{Outcome, returned, raised}

-- A metric: its template for statsd, if statsd is there, and whether it is one of prometheus too.
pub record Metric : Type 0 where
  pub name : Text
  pub statsd_template : Option String
  pub prometheus : Bool

-- `format` is `template.format(name=name, **labels)`, `none` if that raises; the others are what an update
-- of prometheus, `get_client` and a call of the client raise.
pub record Backend : Type 0 where
  pub format : String → Text → Dict String String → Option Text
  pub prometheus_error : Dict String String → ℕ → Option String
  pub client_error : Option String
  pub send_error : Text → ℕ → Option String

-- What has been done: updates of prometheus, metrics sent to statsd, and failures logged.
pub record Recorded : Type 0 where
  pub updates : List (Dict String String × ℕ)
  pub sent : List (Text × ℕ)
  pub logged : List String

abbrev pub has_template : Option String → Bool
has_template none = false
has_template (some t) = if t == "" then false else true

-- `replace('_', '.')`
abbrev pub dot_underscore : ℕ → ℕ
dot_underscore c = if c == 95 then 46 else c

module _ (b : Backend) where
  abbrev pub formatted : Option String → Text → Dict String String → Text
  formatted none name labels = name
  formatted (some t) name labels =
      if t == "" then name else Option.get_or (b.format t name labels) name

  unfoldable pub get_statsd_name : Metric → Dict String String → Text
  get_statsd_name m labels = formatted m.statsd_template (map dot_underscore m.name) labels

  abbrev pub updated :
      Option String → Dict String String → ℕ → Recorded → Outcome (Unit {0}) String × Recorded
  updated (some e) labels amount w = (raised e, w)
  updated none labels amount w =
      (returned tt, record w { updates = w.updates ++ (labels, amount) ∷ [] })

  abbrev pub update_prometheus :
      Bool → Dict String String → ℕ → Recorded → Outcome (Unit {0}) String × Recorded
  update_prometheus false labels amount w = (returned tt, w)
  update_prometheus true labels amount w =
      updated (b.prometheus_error labels amount) labels amount w

  -- What the client's creation raises, and its call.
  abbrev pub sent_to :
      Option String → Option String → Text → ℕ → Recorded → Outcome (Unit {0}) String × Recorded
  sent_to (some e) send_error name amount w = (raised e, w)
  sent_to none (some e) name amount w = (raised e, w)
  sent_to none none name amount w = (returned tt, record w { sent = w.sent ++ (name, amount) ∷ [] })

  abbrev pub send_statsd : Text → ℕ → Recorded → Outcome (Unit {0}) String × Recorded
  send_statsd name amount w = sent_to b.client_error (b.send_error name amount) name amount w

  abbrev pub then_statsd :
      Metric
      → Dict String String
      → ℕ
      → Outcome (Unit {0}) String × Recorded
      → Outcome (Unit {0}) String × Recorded
  then_statsd m labels amount (raised e, w) = (raised e, w)
  then_statsd m labels amount (returned u, w) =
      if has_template m.statsd_template
      then send_statsd (get_statsd_name m labels) amount w
      else (returned tt, w)

  -- `protect`
  abbrev pub protect : String → Outcome (Unit {0}) String × Recorded → Recorded
  protect msg (returned u, w) = w
  protect msg (raised e, w) = record w { logged = w.logged ++ msg ∷ [] }

  -- The body of `observe` and of `inc`.
  unfoldable pub measure :
      Metric → Dict String String → ℕ → Recorded → Outcome (Unit {0}) String × Recorded
  unfolding get_statsd_name
  measure m labels amount w =
      then_statsd m labels amount (update_prometheus m.prometheus labels amount w)

  -- `Histogram.observe` and `Counter.inc`
  unfoldable pub observe : Metric → Dict String String → ℕ → Recorded → Recorded
  unfolding measure
  observe m labels amount w =
      protect "Failed to collect histogram metric" (measure m labels amount w)

  unfoldable pub inc_counter : Metric → Dict String String → ℕ → Recorded → Recorded
  unfolding measure
  inc_counter m labels amount w =
      protect "Failed to increment counter metric" (measure m labels amount w)
