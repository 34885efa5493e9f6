-- ===== src/Wsgi/Middleware.antt =====
-- TaliskerMiddleware of talisker/wsgi.py, with `wrap_response` of the request and the address test of
-- talisker/config.py.
pub mod Setup
pub mod Cycle
use talisker.Common.{
  ℕ, ◌+◌, String, Bool, true, false, not, Option, none, some, List, [], ◌∷◌, ◌++◌, string_eq,
  nat_eq, ◌==◌, ◌||◌, ◌&&◌, if◌then◌else◌, is_some,
}
use talisker.Common.Int.{ℤ}
use talisker.Common.Dict.{Dict, get, contains, insert, update}
use talisker.Context.Stack.{Outcome, returned, raised}
use talisker.Context.Data.{Contexts}
use talisker.Context.Api.{
  new, set_request_id, set_soft_timeout, set_debug, set_absolute_deadline, set_relative_deadline,
}
use talisker.Util.Headers.{Headers}
use talisker.Wsgi.Types.{
  Exn, system_exit, generator_exit, other_base, error, Iter, Step, Environ, Request, World, State,
  Outside, Settings, FileBody, Body, content, file, Response, wrapped, unwrapped, App, Ids,
  is_exception,
}
use talisker.Wsgi.Action.{M, ◌>>=◌, ◌>>◌, pure, raise, handle, update_req}
use talisker.Wsgi.Metadata.{truthy}
use talisker.Wsgi.Request.{
  call_start_response, error_response, finish_request, run_starts, with_error, with_exit,
}

-- `TaliskerWSGIRequest.__init__`
unfoldable pub request_init : ℕ → Environ → Headers → Request
request_init oid environ added_headers = record {
  oid = oid;
  environ = environ;
  added_headers = added_headers;
  status = none;
  headers = [];
  exc_info = none;
  iter = none;
  status_code = 0;
  content_length = 0;
  file_path = none;
  closed = false;
  start_response_called = false;
  start_response_timestamp = none;
  duration = 0;
  timedout = false;
}

abbrev pub any : {A : Type 0} → A → List (A → Bool) → Bool
any a [] = false
any a (test ∷ tests) = test a || any a tests

-- `Config.is_trusted_addr`; `ip_address` raises a `ValueError` on what it cannot read.
unfoldable pub is_trusted_addr : Settings → Option String → Outcome Bool Exn
unfolding truthy
is_trusted_addr cfg addr = elim (truthy addr) [
  | none ↦ returned false
  | some a ↦ elim (cfg.ip_address a) [
    | none ↦ raised (error "ValueError")
    | some ip ↦ returned (cfg.is_loopback ip || any ip cfg.networks)
  ]
]

abbrev pub last : List String → Option String
last [] = none
last (a ∷ []) = some a
last (a ∷ b ∷ route) = last (b ∷ route)

abbrev pub size_or : Option ℕ → ℕ → ℕ
size_or none n = n
size_or (some size) n = size

-- What is known of the file for the log.
abbrev pub file_request : Option (Option String × Option ℕ) → Request → Request
file_request none r = r
file_request (some (name, size)) r = record r {
  file_path = name;
  content_length = size_or size r.content_length;
}

module _ (out : Outside) (cfg : Settings) where
  unfoldable pub wrap_response : Body → M Response
  wrap_response (content it) = update_req (λ r. record r { iter = some it }) >> pure wrapped
  wrap_response (file body) =
      update_req (file_request body.filelike)
      >> (call_start_response out cfg >> pure (unwrapped body))

  -- The `close` that `wrap_response` gives to a file.
  unfoldable pub close_file : FileBody → M (Unit {0})
  close_file body s = elim body.close [
    | none ↦ finish_request out cfg false s
    | some e ↦ (raised e, s)
  ]

  -- `[body]`
  abbrev pub one_chunk : ℕ → Body
  one_chunk body =
      content (record { steps = record { starts = []; result = returned body } ∷ []; close = none })

  -- `except Exception` around the application.
  unfoldable pub app_failed : Exn → M Body
  app_failed e =
      update_req (with_error out cfg e)
      >> (error_response out cfg e >>= λ body. pure (one_chunk body))

  unfoldable pub app_error : Exn → M Body
  unfolding app_failed
  app_error (system_exit code) =
      (if code == 0
        then pure tt
        else update_req (with_exit out cfg code) >> finish_request out cfg false)
      >> raise (system_exit code)
  app_error generator_exit = raise generator_exit
  app_error other_base = raise other_base
  app_error e = app_failed e

  -- The application, with the handlers around its call.
  unfoldable pub run_app : App → M Body
  unfolding app_error
  run_app app = handle (run_starts out cfg app.starts >> λ s. (app.result, s)) app_error

  -- The container of the response, tracked unless its id is in flight already.
  unfoldable pub track_request : String → Request → World → State
  track_request rid req w = record {
    req = req;
    world =
        if contains rid w.requests
        then record w { warnings = w.warnings ++ "duplicate request id" ∷ [] }
        else record w { requests = insert rid req.oid w.requests };
  }

  unfoldable pub access_route : Dict String String → Option (List String)
  unfolding truthy
  access_route vars = elim (truthy (get "HTTP_X_FORWARDED_FOR" vars)) [
    | some forwarded ↦ some (cfg.split_route forwarded)
    | none ↦ elim (get "REMOTE_ADDR" vars) [ none ↦ none | some addr ↦ some (addr ∷ []) ]
  ]

  abbrev pub put_client : Option (List String) → Dict String String → Dict String String
  put_client none vars = vars
  put_client (some route) vars = elim (last route) [
    | none ↦ vars
    | some addr ↦ insert "CLIENT_ADDR" addr vars
  ]

  -- Without a route the warning raises a `TypeError`.
  unfoldable pub after_check :
      Outcome Bool Exn → Option (List String) → World → Outcome (Unit {0}) Exn × World
  after_check (raised e) route w = (raised e, w)
  after_check (returned true) route w = (returned tt, record w { contexts = set_debug w.contexts })
  after_check (returned false) none w = (raised (error "TypeError"), w)
  after_check (returned false) (some route) w =
      (returned tt, record w { warnings = w.warnings ++ "untrusted debug" ∷ [] })

  -- The `X-Debug` header.
  unfoldable pub check_debug :
      Dict String String → Option (List String) → World → Outcome (Unit {0}) Exn × World
  unfolding after_check is_trusted_addr
  check_debug vars route w =
      if contains "HTTP_X_DEBUG" vars
      then after_check (is_trusted_addr cfg (get "CLIENT_ADDR" vars)) route w
      else (returned tt, w)

  -- The deadline of the header, if it is one.
  unfoldable pub header_deadline : Dict String String → Option ℤ
  unfolding truthy
  header_deadline vars = elim (truthy (get "HTTP_X_REQUEST_DEADLINE" vars)) [
    | none ↦ none
    | some text ↦ cfg.parse_deadline text
  ]

  abbrev pub choose_deadline : Option ℤ → Option ℤ → Contexts String → Contexts String
  choose_deadline (some deadline) timeout contexts = set_absolute_deadline deadline contexts
  choose_deadline none none contexts = contexts
  choose_deadline none (some timeout) contexts = set_relative_deadline timeout contexts

  -- The deadline: the header's, else the configured timeout from the start of the request.
  unfoldable pub set_deadline : Dict String String → Contexts String → Contexts String
  unfolding header_deadline
  set_deadline vars contexts = choose_deadline (header_deadline vars) cfg.request_timeout contexts

  -- The environment with the middleware's own entries and the two ids. The middleware's own entries
  -- are supposed not to set `start_time`.
  unfoldable pub with_ids :
      Dict String String → Ids → Dict String String → String × Dict String String
  with_ids environ ids vars =
      let v₁ = update vars environ in
      let v₂ =
        if contains cfg.wsgi_id_header v₁ then v₁ else insert cfg.wsgi_id_header ids.uuid v₁ in
      let rid : String = elim (get cfg.wsgi_id_header v₁) [ none ↦ ids.uuid | some r ↦ r ] in
      (rid, insert "SENTRY_ID" ids.sentry_id (insert "REQUEST_ID" rid v₂))

  -- The process once the context of the request is there.
  unfoldable pub with_context : String → Ids → World → World
  with_context rid ids w = record w {
    contexts =
        set_soft_timeout cfg.soft_request_timeout
          (set_request_id (some rid) (new ids.context_id w.now w.contexts).1);
  }

-- How the middleware's call ends: before there is a request, or with one.
pub data CallResult : Type 0 where
  aborted : Exn → World → CallResult
  called : Outcome Response Exn → State → CallResult

module _ (out : Outside) (cfg : Settings) where
  -- The request, tracked, then the application and the wrapping of what it returns.
  unfoldable pub respond : App → State → Outcome Response Exn × State
  unfolding run_app wrap_response
  respond app = run_app out cfg app >>= wrap_response out cfg

  -- `TaliskerMiddleware.__call__`
  unfoldable pub call :
      Dict String String → Headers → App → Ids → Dict String String → World → CallResult
  unfolding with_ids with_context access_route check_debug set_deadline request_init track_request
      respond
  call environ headers app ids vars w =
      let (rid, v₁) = with_ids out cfg environ ids vars in
      let w₁ = with_context out cfg rid ids w in
      let route = access_route out cfg v₁ in
      let v₂ = put_client out cfg route v₁ in
      let (checked, w₂) = check_debug out cfg v₂ route w₁ in
      elim checked [
        | raised e ↦ aborted e w₂
        | returned _ ↦
            let w₃ = record w₂ { contexts = set_deadline out cfg v₂ w₂.contexts } in
            let env : Environ = record {
              vars = v₂;
              start_time = some w.now;
              access_route = route;
            } in
            let (result, s) =
              respond app (track_request out cfg rid (request_init ids.oid env headers) w₃) in
            called result s
      ]
