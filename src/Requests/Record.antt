-- ===== src/Requests/Record.antt =====
-- `record_request` of talisker/requests.py: the metrics, logs, breadcrumb and tracking of one request.
-- Lists of what has been done are in the order in which it was done.
pub mod Accounts
use mathlib.Core.Option
use talisker.Common.{
  ℕ, String, Bool, true, false, Option, none, some, List, [], ◌∷◌, ◌++◌, string_eq, nat_eq, or_else,
  if◌then◌else◌, leb, map,
}
use talisker.Common.Int.{ℤ}
use talisker.Common.Dict.{Dict, get, insert, update}
use talisker.Context.Data.{ContextData, Contexts}
use talisker.Context.Api.{current, track}
use talisker.Util.Errors.{Raised, get_errno_fields}
use talisker.Wsgi.Types.{Meta, text, number, none_meta}
use talisker.Requests.Metadata.{HttpRequest, HttpResponse, Strings, collect_metadata}

-- The attributes `metric_api_name` and `metric_host_name` of a context.
pub record Names : Type 0 where
  pub api : Option String
  pub host : Option String

abbrev pub no_names : Names
no_names = record { api = none; host = none }

-- The labels `host` and `view`.
pub record Labels : Type 0 where
  pub host : Meta
  pub view : Meta

-- Calls of `RequestsMetric`: the duration, the label `type` and the label `status` come first.
pub data Event : Type 0 where
  count_inc : Labels → Event
  latency_observe : ℕ → Meta → Labels → Event
  errors_inc : String → Meta → Labels → Event

pub data Log : Type 0 where
  http_failure http_request : Dict String Meta → Log

-- The contexts, `HOSTS`, the names on the contexts by id and on `NULL_CONTEXT`, and what has been
-- recorded.
pub record World : Type 0 where
  pub contexts : Contexts String
  pub hosts : Dict String String
  pub names : Dict String Names
  pub null_names : Names
  pub breadcrumbs : List (Dict String Meta)
  pub logs : List Log
  pub metrics : List Event

-- `getattr(ctx, …, None)` for the two names.
abbrev pub names_of : Option (ContextData String) → World → Names
names_of none w = w.null_names
names_of (some ctx) w = Option.get_or (get ctx.id w.names) no_names

-- `metadata[name]`, which `record_request` does on names that are there.
abbrev pub item : String → Dict String Meta → Meta
item name metadata = Option.get_or (get name metadata) none_meta

module _ (s : Strings) where
  -- `.replace('.', '-')`; the host is a text.
  abbrev pub dashed : Meta → Meta
  dashed (text host) = text (s.dots_to_dashes host)
  dashed m = m

  unfoldable pub labels : Names → Dict String Meta → Labels
  labels names metadata = record {
    host = dashed (Option.get_or (Option.map text names.host) (item "host" metadata));
    view =
        Option.get_or (Option.map text names.api)
          (Option.get_or (get "view" metadata) (text "unknown"));
  }

unfoldable pub inc : Event → World → World
inc e w = record w { metrics = w.metrics ++ e ∷ [] }

unfoldable pub log : Log → World → World
log l w = record w { logs = w.logs ++ l ∷ [] }

unfoldable pub record_breadcrumb : Dict String Meta → World → World
record_breadcrumb d w = record w { breadcrumbs = w.breadcrumbs ++ d ∷ [] }

abbrev pub error_event : Bool → Meta → Labels → World → World
error_event true status l w = inc (errors_inc "http" status l) w
error_event false status l w = w

-- What follows the count, by the response.
unfoldable pub outcome : Option HttpResponse → Dict String Meta → Labels → World → World
unfolding inc log
outcome none metadata l w =
    inc (errors_inc "connection" (Option.get_or (get "errno" metadata) (text "unknown")) l)
      (log (http_failure metadata) w)
outcome (some r) metadata l w =
    error_event (leb 500 r.status_code) (number r.status_code) l
      (inc (latency_observe r.elapsed (number r.status_code) l) (log (http_request metadata) w))

-- `if response:`, by what `requests` says the truth of a response is.
unfoldable pub track_response : (HttpResponse → Bool) → Option HttpResponse → World → World
track_response ok none w = w
track_response ok (some r) w =
    if ok r then record w { contexts = track "http" r.elapsed w.contexts } else w

abbrev pub errno_items : Dict String String → List (String × Meta)
errno_items fields = map (λ (f : String × String). (f.0, text f.1)) fields

module _ (s : Strings) (ok : HttpResponse → Bool) (error_codes : ℤ → Option String)
    (str : ℤ → String) where
  abbrev pub with_errno : Option Raised → Dict String Meta → Dict String Meta
  with_errno none metadata = metadata
  with_errno (some exc) metadata =
      update metadata (errno_items (get_errno_fields error_codes str exc))

  unfoldable pub record_request : HttpRequest → Option HttpResponse → Option Raised → World → World
  unfolding inc outcome track_response record_breadcrumb
  record_request request response exc w =
      let metadata = with_errno exc (collect_metadata s w.hosts request response) in
      let w₁ = record_breadcrumb metadata (track_response ok response w) in
      let l = labels s (names_of (current w₁.contexts) w₁) metadata in
      outcome response metadata l (inc (count_inc l) w₁)

  -- The hook on a response. Its `except` branch, for what `record_request` raises, is not reached here.
  unfoldable pub run_response_hook : HttpRequest → HttpResponse → World → World
  unfolding record_request
  run_response_hook request response w = record_request request (some response) none w
