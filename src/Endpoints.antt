-- ===== src/Endpoints.antt =====
-- The endpoints of talisker/endpoints.py: the dispatch of a request and the check of its source
-- address. A path is a list of code points; what the protected endpoints show is an argument.
pub mod Access
pub mod Dispatch
mod Tests
use talisker.Common.{
  ℕ, zero, suc, ◌+◌, String, Bool, true, false, Option, none, some, List, [], ◌∷◌, ◌++◌, string_eq,
  nat_eq, ◌==◌, ◌&&◌, ◌||◌, not, or_else, if◌then◌else◌,
}
use talisker.Common.Text.{Text, codes, text_eq}
use talisker.Common.Lists.{length}
use talisker.Common.Dict.{Dict, get}
use talisker.Context.Stack.{Outcome, returned, raised}
use talisker.Util.Headers.{Headers}
use talisker.Wsgi.Types.{Exn, error, Settings}
use talisker.Wsgi.Middleware.{is_trusted_addr}

-- The status of a werkzeug response: a line or a code.
pub data Status : Type 0 where
  line : Text → Status
  code : ℕ → Status

pub record Response : Type 0 where
  pub status : Status
  pub headers : Headers
  pub body : List String

-- The methods decorated with `private`.
pub data Private : Type 0 where
  error_view test_statsd test_prometheus metrics logtree config packages workers objgraph : Private

pub data Endpoint : Type 0 where
  index ping check : Endpoint
  protected : Private → Endpoint

-- The optional packages that are there.
pub record Installed : Type 0 where
  pub prometheus : Bool
  pub logging_tree : Bool
  pub psutil : Bool
  pub objgraph : Bool

abbrev when_installed : Bool → Private → Option Endpoint
when_installed there p = if there then some (protected p) else none

-- `urlmap`, after `__init__`.
unfoldable pub urlmap : Installed → Dict Text (Option Endpoint)
urlmap i =
    (codes "", some index)
    ∷ (codes "/index", some index)
    ∷ (codes "/check", some check)
    ∷ (codes "/metrics", when_installed i.prometheus metrics)
    ∷ (codes "/ping", some ping)
    ∷ (codes "/info/config", some (protected config))
    ∷ (codes "/info/packages", some (protected packages))
    ∷ (codes "/info/workers", when_installed i.psutil workers)
    ∷ (codes "/info/logtree", when_installed i.logging_tree logtree)
    ∷ (codes "/info/objgraph", when_installed i.objgraph objgraph)
    ∷ (codes "/test/sentry", some (protected error_view))
    ∷ (codes "/test/statsd", some (protected test_statsd))
    ∷ (codes "/test/prometheus", when_installed i.prometheus test_prometheus)
    ∷ []

pub record WebRequest : Type 0 where
  pub path : Text
  pub environ : Dict String String
  pub access_route : List String
  pub sockname : String

-- A call of `start_response` by the application; `has_exc` says whether it passed `exc_info`.
pub record AppStart : Type 0 where
  pub status : Text
  pub headers : Headers
  pub has_exc : Bool

-- A run of the application: the calls it makes at once and while its chunks are read, and these.
pub record AppRun : Type 0 where
  pub early : List AppStart
  pub late : List AppStart
  pub chunks : List String

-- The counters of the test endpoints.
pub record Counters : Type 0 where
  pub statsd : ℕ
  pub prometheus : ℕ

abbrev pub starts_with : Text → Text → Bool
starts_with [] s = true
starts_with (c ∷ prefix) [] = false
starts_with (c ∷ prefix) (d ∷ s) = c == d && starts_with prefix s

abbrev pub drop : ℕ → Text → Text
drop zero s = s
drop (suc n) [] = []
drop (suc n) (c ∷ s) = drop n s

abbrev pub keep_slash : ℕ → Text → Text
keep_slash c [] = if c == 47 then [] else c ∷ []
keep_slash c (d ∷ rest) = c ∷ d ∷ rest

-- `s.rstrip('/')`
abbrev pub rstrip_slash : Text → Text
rstrip_slash [] = []
rstrip_slash (c ∷ s) = keep_slash c (rstrip_slash s)

abbrev pub last_of : List String → Option String
last_of [] = none
last_of (a ∷ []) = some a
last_of (a ∷ b ∷ route) = last_of (b ∷ route)

-- The address of the client; an empty route is an `IndexError`.
unfoldable pub client_addr : WebRequest → Option String
client_addr r = or_else (get "CLIENT_ADDR" r.environ) (last_of r.access_route)

abbrev pub forbidden : String → Response
forbidden body = record { status = line (codes "403 Forbidden"); headers = []; body = body ∷ [] }

-- `nagios_start`: the status and the headers of the last call, and whether any passed `exc_info`.
abbrev pub note_start : Option AppStart → AppStart → AppStart
note_start none s = s
note_start (some old) s = record s { has_exc = old.has_exc || s.has_exc }

abbrev pub note_all : Option AppStart → List AppStart → Option AppStart
note_all seen [] = seen
note_all seen (s ∷ starts) = note_all (some (note_start seen s)) starts

-- What `check` has seen of the application: its body is read only if it has not started before.
unfoldable pub seen_by_check : AppRun → Option AppStart
seen_by_check run = elim (note_all none run.early) [
  | none ↦ note_all none run.late
  | some s ↦ some s
]

abbrev pub plain : List String → Response
plain body = record { status = code 200; headers = []; body = body }

abbrev not_supported : Response
not_supported = record { status = code 501; headers = []; body = "Not Supported" ∷ [] }

-- The middleware and what it reads: the configuration, the packages, `'/' + namespace`, the body of a
-- refusal, the application and the page of the index.
pub record Server : Type 0 where
  pub cfg : Settings
  pub revision_id : String
  pub status_interface : String
  pub installed : Installed
  pub prefix : Text
  pub forbidden_body : WebRequest → String → String
  pub app : WebRequest → Outcome AppRun Exn
  pub index_view : WebRequest → Response

module _ (s : Server) where
  unfoldable pub ok_response : Response
  ok_response = plain (s.revision_id ∷ "\n" ∷ [])

  abbrev pub check_response : AppRun → Option AppStart → Response
  check_response run none = plain run.chunks
  check_response run (some seen) =
      if seen.has_exc
      then record { status = code 500; headers = []; body = "error" ∷ [] }
      else if starts_with (codes "404") seen.status
      then ok_response
      else record { status = line seen.status; headers = seen.headers; body = run.chunks }

  abbrev pub check_run : Outcome AppRun Exn → Outcome Response Exn
  check_run (raised e) = raised e
  check_run (returned run) = returned (check_response run (seen_by_check run))

  abbrev pub endpoint_of : Option (Option Endpoint) → Option Endpoint
  endpoint_of none = none
  endpoint_of (some e) = e

  -- The endpoint of a path below the prefix, if there is one.
  unfoldable pub find_endpoint : Text → Option Endpoint
  find_endpoint path =
      endpoint_of (get (rstrip_slash (drop (length s.prefix) path)) (urlmap s.installed))

  -- The endpoint that `__call__` and `process_request` choose; with `none` the request goes to the application.
  unfoldable pub choose : WebRequest → Option Endpoint
  unfolding find_endpoint
  choose r =
      if starts_with s.prefix r.path
      then (if s.status_interface == "" || r.sockname == s.status_interface
          then find_endpoint r.path
          else none)
      else none

module _ (s : Server) (views : Private → WebRequest → Outcome Response Exn) where
  -- The body of a protected method: those that count, and the others, which only show.
  unfoldable pub run_private : Private → WebRequest → Counters → Outcome Response Exn × Counters
  run_private error_view r n = (raised (error "TestException"), n)
  run_private test_statsd r n = (views test_statsd r, record n { statsd = n.statsd + 1 })
  run_private test_prometheus r n =
      if s.installed.prometheus
      then (views test_prometheus r, record n { prometheus = n.prometheus + 1 })
      else (returned not_supported, n)
  run_private metrics r n =
      if s.installed.prometheus then (views metrics r, n) else (returned not_supported, n)
  run_private p r n = (views p r, n)

  abbrev pub guard :
      Private → WebRequest → String → Outcome Bool Exn → Counters → Outcome Response Exn × Counters
  guard p r ip (raised e) n = (raised e, n)
  guard p r ip (returned true) n = run_private p r n
  guard p r ip (returned false) n = (returned (forbidden (s.forbidden_body r ip)), n)

  abbrev pub guard_addr :
      Private → WebRequest → Option String → Counters → Outcome Response Exn × Counters
  guard_addr p r none n = (raised (error "IndexError"), n)
  guard_addr p r (some ip) n = guard p r ip (is_trusted_addr s.cfg (some ip)) n

  -- The wrapper of `private`.
  unfoldable pub private : Private → WebRequest → Counters → Outcome Response Exn × Counters
  unfolding run_private
  private p r n = guard_addr p r (client_addr r) n

  unfoldable pub run_endpoint : Endpoint → WebRequest → Counters → Outcome Response Exn × Counters
  unfolding ok_response private
  run_endpoint index r n = (returned (s.index_view r), n)
  run_endpoint ping r n = (returned (ok_response s), n)
  run_endpoint check r n = (check_run s (s.app r), n)
  run_endpoint (protected p) r n = private p r n

  abbrev pub answered : Outcome Response Exn × Counters → Option (Outcome Response Exn) × Counters
  answered (result, n) = (some result, n)

  abbrev pub answer :
      Option Endpoint → WebRequest → Counters → Option (Outcome Response Exn) × Counters
  answer none r n = (none, n)
  answer (some e) r n = answered (run_endpoint e r n)

  -- `__call__`: the answer, or `none` when the request is passed on.
  unfoldable pub call : WebRequest → Counters → Option (Outcome Response Exn) × Counters
  unfolding choose run_endpoint
  call r n = answer (choose s r) r n
