-- ===== src/Wsgi/Metadata.antt =====
-- `get_metadata` and `metrics` of TaliskerWSGIRequest in talisker/wsgi.py.
use Prim.Native.String.{◌++◌}
use talisker.Common.{
  ℕ, zero, suc, String, Option, none, some, List, [], ◌∷◌, string_eq, ◌==◌, if◌then◌else◌, leb,
  nat_beq,
}
use talisker.Common.Dict.{Dict, get, insert}
use talisker.Context.Data.{Tracker}
use talisker.Context.Api.{current}
use talisker.Util.Headers.{Headers}
use talisker.Wsgi.Types.{
  Exn, request_timeout, stop_iteration, generator_exit, other_base, error, system_exit, Meta, text,
  number, true_meta, none_meta, Request, Labels, MetricEvent, requests_inc, errors_inc,
  latency_observe, timeouts_inc, World, Outside,
}

abbrev pub or_none : Option String → Meta
or_none none = none_meta
or_none (some s) = text s

abbrev pub or_empty : Option String → String
or_empty none = ""
or_empty (some s) = s

-- `e.__name__` of the exception's type
unfoldable pub exn_name : Exn → String
exn_name request_timeout = "RequestTimeout"
exn_name stop_iteration = "StopIteration"
exn_name generator_exit = "GeneratorExit"
exn_name other_base = "BaseException"
exn_name (error name) = name
exn_name (system_exit code) = "SystemExit"

-- `extra[k] = v`, if there is a value.
abbrev pub put_some : String → Option Meta → Dict String Meta → Dict String Meta
put_some k none extra = extra
put_some k (some v) extra = insert k v extra

-- A value that is there and not the empty string.
unfoldable pub truthy : Option String → Option String
truthy none = none
truthy (some s) = if s == "" then none else some s

abbrev pub truthy_number : ℕ → Option Meta
truthy_number zero = none
truthy_number (suc n) = some (number (suc n))

abbrev pub to_text : Option String → Option Meta
to_text none = none
to_text (some s) = some (text s)

lower_from : (String → String) → Dict String String → Headers → Dict String String
lower_from lower d [] = d
lower_from lower d ((k, v) ∷ rest) = lower_from lower (insert (lower k) v d) rest

-- `dict((k.lower(), v) for k, v in headers)`
unfoldable pub lowered : (String → String) → Headers → Dict String String
unfolding lower_from
lowered lower headers = lower_from lower [] headers

abbrev pub add_tracking : Dict String Tracker → Dict String Meta → Dict String Meta
add_tracking [] extra = extra
add_tracking ((name, t) ∷ tracking) extra =
    add_tracking tracking (
      insert (name ++ "_time_ms") (number t.time)
        (insert (name ++ "_count") (number t.count) extra))

-- `if not tracking: …`, the trackers of the current context.
abbrev pub current_tracking : World → Dict String Tracker
current_tracking w = elim (current w.contexts) [ none ↦ [] | some ctx ↦ ctx.tracking ]

abbrev pub int_meta : (String → Option ℕ) → Option String → Option Meta
int_meta int none = none
int_meta int (some s) = elim (int s) [ none ↦ none | some n ↦ some (number n) ]

module _ (out : Outside) where
  -- The view name: of the environment, else of the response headers.
  unfoldable pub view_of : Request → Option Meta
  view_of req = elim (get "VIEW_NAME" req.environ.vars) [
    | some name ↦ some (text name)
    | none ↦ to_text (get "x-view-name" (lowered out.lower req.headers))
  ]

  unfoldable pub request_path : Request → String
  request_path req =
      or_empty (get "SCRIPT_NAME" req.environ.vars)
      ++ ("/" ++ out.lstrip_slash (or_empty (get "PATH_INFO" req.environ.vars)))

  abbrev pub exc_type : Option Exn → Option Meta
  exc_type none = none
  exc_type (some e) = some (text (exn_name e))

  abbrev pub exc_trailer : Option Exn → Option Meta
  exc_trailer none = none
  exc_trailer (some e) = some (text (out.traceback e))

  -- `duration_ms` is in microseconds here.
  unfoldable pub get_metadata : Request → World → Dict String Meta
  get_metadata req w =
      let env = req.environ.vars in
      let m₀ : Dict String Meta = insert "method" (or_none (get "REQUEST_METHOD" env)) [] in
      let m₁ = insert "path" (text (request_path req)) m₀ in
      let m₂ = put_some "qs" (to_text (truthy (get "QUERY_STRING" env))) m₁ in
      let m₃ = put_some "status" (truthy_number req.status_code) m₂ in
      let m₄ = put_some "view" (view_of req) m₃ in
      let m₅ = insert "duration_ms" (number req.duration) m₄ in
      let m₆ = insert "ip" (or_none (get "REMOTE_ADDR" env)) m₅ in
      let m₇ = insert "proto" (or_none (get "SERVER_PROTOCOL" env)) m₆ in
      let m₈ = put_some "length" (truthy_number req.content_length) m₇ in
      let m₉ = put_some "filepath" (to_text req.file_path) m₈ in
      let m₁₀ =
        put_some "request_length" (int_meta out.int (truthy (get "CONTENT_LENGTH" env))) m₉ in
      let m₁₁ = put_some "request_type" (to_text (truthy (get "CONTENT_TYPE" env))) m₁₀ in
      let m₁₂ = put_some "referrer" (to_text (get "HTTP_REFERER" env)) m₁₁ in
      let m₁₃ = put_some "forwarded" (to_text (get "HTTP_X_FORWARDED_FOR" env)) m₁₂ in
      let m₁₄ = put_some "ua" (to_text (get "HTTP_USER_AGENT" env)) m₁₃ in
      let m₁₅ = put_some "timeout" (if req.timedout then some true_meta else none) m₁₄ in
      let m₁₆ = put_some "exc_type" (exc_type req.exc_info) m₁₅ in
      let m₁₇ = put_some "trailer" (exc_trailer req.exc_info) m₁₆ in
      add_tracking (out.sorted (current_tracking w)) m₁₇

  -- `labels`; `none` for the status stands for 'timeout'.
  unfoldable pub labels : Request → Labels
  labels req = record {
    view = elim (view_of req) [ none ↦ text "unknown" | some v ↦ v ];
    method = or_none (get "REQUEST_METHOD" req.environ.vars);
    status = if nat_beq req.status_code 0 then none else some req.status_code;
  }

  -- The metric events of `metrics`, in order.
  unfoldable pub metric_events : Request → List MetricEvent
  unfolding labels
  metric_events req =
      requests_inc (labels req)
      ∷ latency_observe req.duration (labels req)
      ∷ (if req.timedout
          then timeouts_inc (labels req).view (labels req).method ∷ []
          else if leb 500 req.status_code
          then errors_inc (labels req) ∷ []
          else [])
