-- ===== src/Wsgi/Tests.antt =====
-- The theorems on requests at a concrete server, configuration, application and process.
use talisker.Common.{
  ℕ, zero, suc, String, true, false, Option, none, some, List, [], ◌∷◌, ◌≡◌, ◌≢◌, refl, ◌||◌, ◌&&◌,
  or_else, string_eq, Bool-cases, inl, inr, arith, ap, ◌∙◌, if◌then◌else◌, ne_of_beq, ◌==◌,
}
use talisker.Common.Int.{pos}
use talisker.Common.Dict.{Dict, get, contains, update, Distinct}
use talisker.Context.Stack.{returned, raised}
use talisker.Context.Data.{Contexts, context_data}
use talisker.Context.Api.{deadline_timeout, new, current, debug}
use talisker.Context.Api.Isolation.{current-new}
use talisker.Wsgi.Types.{
  Exn, request_timeout, error, StartCall, Request, World, State, Outside, Settings, App, Ids,
  content, wrapped,
}
use talisker.Wsgi.Request.{close, next, run_starts}
use talisker.Wsgi.Request.Closed.{Closed}
use talisker.Wsgi.Request.Uses.{run_uses, use_next, use_close}
use talisker.Wsgi.Request.Once.{LoggedOnce, run_uses-LoggedOnce}
use talisker.Wsgi.Request.Iteration.{playing, drain, Served, drain_lem}
use talisker.Wsgi.Request.Failure.{
  failing, failed_request, IsError, Answered, next-Answered, Refused, next-Refused,
}
use talisker.Gunicorn.Exit.{Process, worker_exit, Tracks, AllExited, worker_exit-AllExited}
use talisker.Wsgi.Middleware.{
  request_init, respond, track_request, check_debug, set_deadline, with_ids, is_trusted_addr,
  run_app, wrap_response,
}
use talisker.Wsgi.Middleware.Setup.{
  debug-check_debug, is_true, expected_deadline, TimeLeft, current-set_deadline, get-with_ids,
}
use talisker.Wsgi.Middleware.Cycle.{cycle_lem}

-- A server that refuses a second call once a chunk is sent.
abbrev refuse : List StartCall → ℕ → StartCall → Option Exn
refuse calls zero call = none
refuse calls (suc n) call = some (error "AssertionError")

abbrev builtins : Outside
builtins = record {
  status_code = λ s. if s == "200 OK" then some 200 else some 500;
  int = λ s. none;
  lower = λ s. s;
  lstrip_slash = λ s. s;
  sorted = λ d. d;
  traceback = λ e. "Traceback";
  error_body = λ e headers. ("text/plain", 20);
  start_upstream = refuse;
}

abbrev config : Settings
config = record {
  id_header = "X-Request-Id";
  wsgi_id_header = "HTTP_X_REQUEST_ID";
  soft_request_timeout = pos 5;
  request_timeout = some (pos 100);
  ip_address = λ s. some 1;
  is_loopback = λ n. true;
  networks = [];
  split_route = λ s. s ∷ [];
  parse_deadline = λ s. none;
}

abbrev vars : Dict String String
vars =
    ("REQUEST_ID", "r1")
    ∷ ("SENTRY_ID", "s1")
    ∷ ("HTTP_X_DEBUG", "1")
    ∷ ("CLIENT_ADDR", "127.0.0.1")
    ∷ []

abbrev request : Request
unfolding request_init
request =
    record (request_init 7 (record { vars = vars; start_time = some 90; access_route = none }) []) {
      status = some "200 OK";
      status_code = 200;
    }

empty_process : Contexts String
empty_process = record { context_map = []; current_id = none; warnings = [] }

abbrev contexts : Contexts String
contexts = (new "c1" 90 empty_process).1

abbrev world : World
world = record {
  now = 100;
  contexts = contexts;
  requests = ("r0", 3) ∷ [];
  sentry_enabled = true;
  upstream = [];
  sent = 0;
  logs = [];
  metrics = [];
  reports = [];
  iter_closes = 0;
  warnings = [];
}

abbrev state : State
state = playing (some none) request world false (10 ∷ 20 ∷ []) 0 0

run_uses-LoggedOnce_example :
    LoggedOnce state (run_uses builtins config (use_next ∷ use_close ∷ use_close ∷ []) state)
run_uses-LoggedOnce_example =
    run_uses-LoggedOnce builtins config (use_next ∷ use_close ∷ use_close ∷ []) state

drain_lem_example :
    ((drain builtins config 3
        (playing (some none) request world false (10 ∷ 20 ∷ []) request.content_length 0)).0
      ≡ returned tt)
    × Served builtins config
        (some none)
        request
        world
        (10 ∷ 20 ∷ [])
        (drain builtins config 3
          (playing (some none) request world false (10 ∷ 20 ∷ []) request.content_length 0)).1
unfolding request
drain_lem_example =
    drain_lem builtins config (some none) request world (10 ∷ 20 ∷ []) refl refl tt refl

next-Answered_example :
    ((next builtins config (failing request world request_timeout [] none)).0 ≡ returned 20)
    × Answered builtins config request_timeout
        (failed_request request [] none)
        world
        "s1"
        (next builtins config (failing request world request_timeout [] none)).1
unfolding IsError get request
next-Answered_example =
    next-Answered builtins config request_timeout request world [] none "s1" tt refl refl refl

abbrev sent_world : World
sent_world = record world { sent = 1 }

next-Refused_example :
    ((next builtins config (failing request sent_world (error "KeyError") [] (some none))).0
      ≡ raised (error "AssertionError"))
    × Refused builtins config
        (error "KeyError")
        request
        sent_world
        (next builtins config (failing request sent_world (error "KeyError") [] (some none))).1
unfolding IsError get request
next-Refused_example =
    next-Refused builtins config (error "KeyError") (error "AssertionError") request sent_world []
      (some none) "s1" tt tt tt refl refl refl refl

abbrev app : App
app = record { starts = []; result = returned (content (record { steps = []; close = none })) }

rid_is_not_empty : ◌≢◌ {A = String} "r1" ""
rid_is_not_empty = ne_of_beq "r1" "" refl

cycle_lem_example :
    let t = (respond builtins config app (track_request builtins config "r1" request world)).1 in
    let u = run_uses builtins config (use_next ∷ use_next ∷ []) t in
    (get "r1" u.world.requests ≡ (if u.req.closed then none else some request.oid))
    × (get "r1" (close builtins config u).1.world.requests ≡ get "r1" world.requests)
unfolding get request respond run_app run_starts wrap_response
cycle_lem_example =
    cycle_lem builtins config "r1" "r1" request app world wrapped (use_next ∷ use_next ∷ []) refl
      refl refl rid_is_not_empty refl

debug-check_debug_example :
    debug (check_debug builtins config vars none world).1.contexts
    ≡ debug world.contexts
      || (contains "HTTP_X_DEBUG" vars && is_true (is_trusted_addr config (get "CLIENT_ADDR" vars)))
debug-check_debug_example =
    debug-check_debug builtins config vars none world (context_data "c1" 90)
      (current-new "c1" 90 empty_process)

abbrev reading : Settings
reading = record config { parse_deadline = λ s. some (pos 120) }

abbrev with_deadline : Dict String String
with_deadline = ("HTTP_X_REQUEST_DEADLINE", "1970-01-01T00:00:00.000120Z") ∷ vars

current-set_deadline_example :
    let expected =
      expected_deadline builtins reading
        (get "HTTP_X_REQUEST_DEADLINE" with_deadline)
        (context_data "c1" 90) in
    (current (set_deadline builtins reading with_deadline contexts)
      ≡ some (record (context_data "c1" 90) { deadline = expected }))
    × TimeLeft builtins reading expected 95
        (deadline_timeout 95 (set_deadline builtins reading with_deadline contexts))
current-set_deadline_example =
    current-set_deadline builtins reading with_deadline contexts (context_data "c1" 90) 95
      (current-new "c1" 90 empty_process)

abbrev ids : Ids
ids = record { context_id = "c1"; uuid = "u1"; sentry_id = "s1"; oid = 7 }

sentry_is_not_header : ◌≢◌ {A = String} "SENTRY_ID" "HTTP_X_REQUEST_ID"
sentry_is_not_header = ne_of_beq "SENTRY_ID" "HTTP_X_REQUEST_ID" refl

request_is_not_header : ◌≢◌ {A = String} "REQUEST_ID" "HTTP_X_REQUEST_ID"
request_is_not_header = ne_of_beq "REQUEST_ID" "HTTP_X_REQUEST_ID" refl

get-with_ids_example :
    let (rid, v) = with_ids builtins config [] ids (("HTTP_X_REQUEST_ID", "r9") ∷ []) in
    (some rid
      ≡ or_else
          (get config.wsgi_id_header (update (("HTTP_X_REQUEST_ID", "r9") ∷ []) []))
          (some ids.uuid))
    × (get "REQUEST_ID" v ≡ some rid)
    × (get config.wsgi_id_header v ≡ some rid)
    × (get "SENTRY_ID" v ≡ some ids.sentry_id)
get-with_ids_example =
    get-with_ids builtins config [] ids (("HTTP_X_REQUEST_ID", "r9") ∷ []) sentry_is_not_header
      request_is_not_header

-- A worker with one request in flight.
abbrev busy_worker : Process
busy_worker = record {
  objects = λ oid. request;
  world = record world { requests = ("r1", 7) ∷ [] };
}

busy_worker-Tracks : Tracks builtins config busy_worker.objects busy_worker.world.requests
unfolding get request
busy_worker-Tracks rid oid e = elim (Bool-cases ("r1" == rid)) [
  | inl same ↦
      let eq : "r1" ≡ rid = (string_eq.beq_iff "r1" rid).0 same in
      (ap (λ r. some r) eq, λ empty. rid_is_not_empty (eq ∙ empty))
  | inr other ↦ absurd (ground (arith, e, other))
]

worker_exit-AllExited_example :
    ((worker_exit builtins config busy_worker).0 ≡ returned tt)
    × AllExited builtins config busy_worker busy_worker.world.requests
        (worker_exit builtins config busy_worker).1
worker_exit-AllExited_example =
    worker_exit-AllExited builtins config busy_worker (unfold Distinct get in (refl, tt))
      busy_worker-Tracks
