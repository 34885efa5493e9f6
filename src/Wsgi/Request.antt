-- ===== src/Wsgi/Request.antt =====
-- The methods of TaliskerWSGIRequest in talisker/wsgi.py, as actions on the request and the
-- process. What was written before an exception stays written.
pub mod Close
pub mod Closed
pub mod Iteration
pub mod Frames
pub mod Uses
pub mod Untrack
pub mod Once
pub mod Failure
use mathlib.Core.Option
use talisker.Common.{
  ℕ, ◌+◌, ◌-◌, ◌*◌, String, Bool, true, false, not, Option, none, some, List, [], ◌∷◌, ◌++◌,
  string_eq, nat_eq, ◌==◌, ◌||◌, ◌&&◌, if◌then◌else◌, ltb, is_some,
}
use talisker.Common.Int.{ℤ, pos, scale, ltb_ℤ}
use talisker.Common.Dict.{Dict, get, erase}
use talisker.Context.Stack.{Outcome, returned, raised}
use talisker.Context.Api.{clear, debug, soft_timeout}
use talisker.Util.Headers.{Headers, set_wsgi_header}
use talisker.Wsgi.Types.{
  Exn, request_timeout, stop_iteration, generator_exit, other_base, error, system_exit,
  is_exception, StartCall, Step, Iter, Meta, text, Environ, Request, exception, debug_message,
  Report, soft_timeout_message, World, State, Outside, Settings,
}
use talisker.Wsgi.Action.{M, ◌>>=◌, ◌>>◌, pure, raise, handle, update_req, when}
use talisker.Wsgi.Metadata.{get_metadata, metric_events, view_of, request_path, truthy}

abbrev pub add_headers : Headers → Headers → Headers
add_headers [] headers = headers
add_headers ((name, value) ∷ added) headers = add_headers added (set_wsgi_header headers name value)

abbrev pub set_from : Option String → String → Headers → Headers
set_from none name headers = headers
set_from (some value) name headers = set_wsgi_header headers name value

abbrev pub is_timeout : Exn → Bool
is_timeout request_timeout = true
is_timeout _ = false

abbrev pub is_exit : Exn → Bool
is_exit (system_exit code) = true
is_exit _ = false

-- The chunk is with the server.
abbrev pub sent_chunk : M (Unit {0})
sent_chunk s = (returned tt, record s { world = record s.world { sent = s.world.sent + 1 } })

module _ (out : Outside) (cfg : Settings) where
  -- The headers with the added ones and the request id.
  unfoldable pub base_headers : Request → Headers → Headers
  base_headers req headers =
      set_from (get "REQUEST_ID" req.environ.vars) cfg.id_header
        (add_headers req.added_headers headers)

  -- The headers that `start_response` stores: if a report will be sent, also the sentry id, without
  -- which the environment raises a `KeyError`.
  unfoldable pub response_headers : Request → Bool → Headers → Option Headers
  unfolding base_headers
  response_headers req debugging headers =
      let h = base_headers req headers in
      if is_some req.exc_info || debugging
      then Option.map (λ id. set_wsgi_header h "X-Sentry-Id" id) (get "SENTRY_ID" req.environ.vars)
      else some h

  abbrev pub first_time : Option ℕ → ℕ → Option ℕ
  first_time none now = some now
  first_time (some t) now = some t

  -- What `start_response` stores when nothing raises.
  abbrev pub store_response : String → Headers → Option Exn → ℕ → Request → Request
  store_response status headers exc_info code req = record req {
    status = some status;
    status_code = code;
    headers = headers;
    exc_info = exc_info;
  }

  -- A status that does not begin with a number is a `ValueError`, raised when the status is stored.
  unfoldable pub start_response : String → Headers → Option Exn → M (Unit {0})
  unfolding response_headers
  start_response status headers exc_info s =
      let req = record s.req {
        start_response_timestamp = first_time s.req.start_response_timestamp s.world.now;
      } in
      elim (response_headers s.req (debug s.world.contexts) headers) [
        | none ↦ (raised (error "KeyError"), record s { req = req })
        | some headers' ↦ elim (out.status_code status) [
          | none ↦
              (raised (error "ValueError"), record s { req = record req { status = some status } })
          | some code ↦
              (returned tt, record s { req = store_response status headers' exc_info code req })
        ]
      ]

  unfoldable pub call_start_response : M (Unit {0})
  call_start_response s =
      let call : StartCall = record {
        status = s.req.status;
        headers = s.req.headers;
        exc_info = s.req.exc_info;
      } in
      let w = record s.world { upstream = s.world.upstream ++ call ∷ [] } in
      elim (out.start_upstream s.world.upstream s.world.sent call) [
        | some e ↦ (raised e, record s { world = w })
        | none ↦
            (returned tt, record { req = record s.req { start_response_called = true }; world = w })
      ]

  -- The report that a finished request sends, if any.
  unfoldable pub report_of : Request → World → ℕ → List Report
  report_of req w latency =
      let metadata = get_metadata out req w in
      let view_or_path : Meta = elim (get "view" metadata) [
        | some v ↦ v
        | none ↦ text (request_path out req)
      ] in
      let soft = soft_timeout w.contexts in
      elim req.exc_info [
        | some e ↦ exception e ∷ []
        | none ↦
            if debug w.contexts
            then debug_message view_or_path ∷ []
            else if ltb_ℤ (pos 0) soft && ltb_ℤ (scale 1000 soft) (pos latency)
            then soft_timeout_message view_or_path latency soft ∷ []
            else []
      ]

  -- The request with its duration, and the latency of its response in microseconds. The clock is
  -- supposed not to go back, and the time of the start not to be zero.
  unfoldable pub timed : Bool → ℕ → Request → Request × ℕ
  timed timeout now req =
      let req' = record req { timedout = timeout || req.timedout } in
      elim req.environ.start_time [
        | none ↦ (req', 0)
        | some start ↦ (
          record req' { duration = now - start },
          elim req.start_response_timestamp [ none ↦ 0 | some t ↦ t - start ],
        )
      ]

  abbrev pub untrack : Option String → Dict String ℕ → Dict String ℕ
  untrack none requests = requests
  untrack (some rid) requests = erase rid requests

  unfoldable pub finish_request : Bool → M (Unit {0})
  unfolding timed
  finish_request timeout s =
      let (req, latency) = timed timeout s.world.now s.req in
      let w = s.world in
      (
        returned tt,
        record {
          req = req;
          world = record w {
            logs = w.logs ++ get_metadata out req w ∷ [];
            metrics = w.metrics ++ metric_events out req;
            reports = if w.sentry_enabled then w.reports ++ report_of req w latency else w.reports;
            contexts = clear w.contexts;
            requests = untrack (truthy (get "REQUEST_ID" req.environ.vars)) w.requests;
          };
        },
      )

  -- `iter_close()`, if the iterator has the method.
  unfoldable pub call_iter_close : Option (Option Exn) → M (Unit {0})
  call_iter_close none s = (returned tt, s)
  call_iter_close (some raises) s =
      let s' = record s { world = record s.world { iter_closes = s.world.iter_closes + 1 } } in
      elim raises [ none ↦ (returned tt, s') | some e ↦ (raised e, s') ]

  -- `getattr(self.iter, 'close', None)`
  abbrev pub close_method : Option Iter → Option (Option Exn)
  close_method none = none
  close_method (some it) = it.close

  unfoldable pub close_iter : M (Unit {0})
  unfolding call_iter_close
  close_iter s = call_iter_close (close_method s.req.iter) s

  -- The `finally` of `close` runs whether or not the iterator's `close` raises, and what that
  -- raised goes on.
  unfoldable pub finally_finish : Outcome (Unit {0}) Exn → M (Unit {0})
  finally_finish result =
      finish_request false >> (update_req (λ r. record r { closed = true }) >> λ s. (result, s))

  unfoldable pub close : M (Unit {0})
  unfolding close_iter finally_finish
  close s =
      let finished = let (result, s') = close_iter s in finally_finish result s' in
      if s.req.closed then (returned tt, s) else finished

  -- `error`: the length of the body of the error response.
  unfoldable pub error_response : Exn → M ℕ
  unfolding start_response call_start_response
  error_response e s =
      let (content_type, body) = out.error_body e s.req.headers in
      (start_response "500 Internal Server Error" (("Content-Type", content_type) ∷ []) (some e)
          >> (call_start_response >> pure body))
        s

  -- A call of `start_response` by the application.
  abbrev pub run_start : Option String → StartCall → M (Unit {0})
  run_start none c = pure tt
  run_start (some status) c = start_response status c.headers c.exc_info

  unfoldable pub run_starts : List StartCall → M (Unit {0})
  run_starts [] = pure tt
  run_starts (c ∷ starts) = run_start c.status c >> run_starts starts

  unfoldable pub next_step : Iter → List Step → M ℕ
  unfolding run_starts
  next_step it [] = raise stop_iteration
  next_step it (step ∷ steps) =
      update_req (λ r. record r { iter = some (record it { steps = steps }) })
      >> (run_starts step.starts >> λ s. (step.result, s))

  -- `next(self.iter)`
  unfoldable pub next_of : Option Iter → M ℕ
  unfolding next_step
  next_of none = raise (error "TypeError")
  next_of (some it) = next_step it it.steps

  unfoldable pub next_iter : M ℕ
  unfolding next_of
  next_iter s = next_of s.req.iter s

  abbrev pub ensure_started : M (Unit {0})
  ensure_started s = when (not s.req.start_response_called) call_start_response s

  abbrev pub with_error : Exn → Request → Request
  with_error e r = record r { exc_info = some e; timedout = is_timeout e || r.timedout }

  abbrev pub with_exit : ℕ → Request → Request
  with_exit code r = record r {
    exc_info = if code == 0 then r.exc_info else some (system_exit code);
  }

  -- The body of the error response has been taken from its iterator, a list of one chunk.
  abbrev pub answered : ℕ → M ℕ
  answered body =
      update_req (λ r. record r { iter = some (record { steps = []; close = none }) }) >> pure body

  -- `except Exception`: the switch to an error response.
  unfoldable pub failed : Exn → M ℕ
  unfolding error_response
  failed e = update_req (with_error e) >> (error_response e >>= answered)

  -- The handlers of the inner `try` of `__next__`.
  unfoldable pub on_error : Exn → M ℕ
  unfolding failed
  on_error stop_iteration = ensure_started >> raise stop_iteration
  on_error generator_exit = ensure_started >> raise generator_exit
  on_error (system_exit code) = update_req (with_exit code) >> raise (system_exit code)
  on_error other_base = raise other_base
  on_error e = failed e

  -- `except (Exception, SystemExit)`: close, and raise again.
  unfoldable pub on_end : Exn → M ℕ
  on_end e = when (is_exception e || is_exit e) close >> raise e

  -- The body of `__next__` from the outer `try` on.
  unfoldable pub advance : M ℕ
  unfolding next_iter on_error on_end
  advance = handle (handle (next_iter >>= λ n. (ensure_started >> pure n)) on_error) on_end

  unfoldable pub counted : ℕ → M ℕ
  counted n =
      update_req (λ r. record r { content_length = r.content_length + n }) >> (sent_chunk >> pure n)

  -- `__next__` once an iterator is set.
  unfoldable pub wrapped_next : M ℕ
  unfolding advance counted
  wrapped_next s =
      (when (is_some s.req.status && not s.req.start_response_called) call_start_response
          >> (advance >>= counted))
        s

  unfoldable pub next : M ℕ
  unfolding wrapped_next
  next s = if is_some s.req.iter then wrapped_next s else (raised (error "Exception"), s)
