-- ===== src/Wsgi/Types.antt =====
-- The state that talisker/wsgi.py works on, and what it calls that is not part of it: the server,
-- the application, Python's builtins and the configuration.
use talisker.Common.{ℕ, String, Bool, true, false, Option, List}
use talisker.Common.Int.{ℤ}
use talisker.Common.Dict.{Dict}
use talisker.Context.Stack.{Outcome}
use talisker.Context.Data.{Contexts, Tracker}
use talisker.Util.Headers.{Headers}

-- What can be raised. `error` is any other `Exception`, by the name of its type; `other_base` any
-- other `BaseException`. A `SystemExit` has a natural number as its code: the codes `None` and text are
-- not represented.
pub data Exn : Type 0 where
  request_timeout stop_iteration generator_exit other_base : Exn
  error : String → Exn
  system_exit : ℕ → Exn

-- `isinstance(e, Exception)`
abbrev pub is_exception : Exn → Bool
is_exception request_timeout = true
is_exception stop_iteration = true
is_exception (error name) = true
is_exception _ = false

-- One call of a `start_response`.
pub record StartCall : Type 0 where
  pub status : Option String
  pub headers : Headers
  pub exc_info : Option Exn

-- One `next` on an application's iterator: the calls of `start_response` that it makes, and the
-- length of the chunk that it yields, or what it raises.
pub record Step : Type 0 where
  pub starts : List StartCall
  pub result : Outcome ℕ Exn

-- An iterator: past its steps it raises `StopIteration`. `close` is `none` if it has no such
-- method, else what the method raises.
pub record Iter : Type 0 where
  pub steps : List Step
  pub close : Option (Option Exn)

-- A metadata value: text, a number (times in microseconds), `True` or `None`.
pub data Meta : Type 0 where
  text : String → Meta
  number : ℕ → Meta
  true_meta none_meta : Meta

pub record Environ : Type 0 where
  pub vars : Dict String String
  pub start_time : Option ℕ
  pub access_route : Option (List String)

-- `TaliskerWSGIRequest`. `oid` is the identity of the object.
pub record Request : Type 0 where
  pub oid : ℕ
  pub environ : Environ
  pub added_headers : Headers
  pub status : Option String
  pub headers : Headers
  pub exc_info : Option Exn
  pub iter : Option Iter
  pub status_code : ℕ
  pub content_length : ℕ
  pub file_path : Option String
  pub closed : Bool
  pub start_response_called : Bool
  pub start_response_timestamp : Option ℕ
  pub duration : ℕ
  pub timedout : Bool

pub record Labels : Type 0 where
  pub view : Meta
  pub method : Meta
  pub status : Option ℕ

pub data MetricEvent : Type 0 where
  requests_inc errors_inc : Labels → MetricEvent
  latency_observe : ℕ → Labels → MetricEvent
  timeouts_inc : Meta → Meta → MetricEvent

-- A sentry report of a request.
pub data Report : Type 0 where
  exception : Exn → Report
  debug_message : Meta → Report
  soft_timeout_message : Meta → ℕ → ℤ → Report

-- The process: the clock, the contexts, `REQUESTS` (the object under each id), whether sentry is
-- enabled, and what has been done so far: calls of the server's `start_response`, chunks handed to
-- the server, access logs, metrics, reports, calls of an iterator's `close` and warnings.
pub record World : Type 0 where
  pub now : ℕ
  pub contexts : Contexts String
  pub requests : Dict String ℕ
  pub sentry_enabled : Bool
  pub upstream : List StartCall
  pub sent : ℕ
  pub logs : List (Dict String Meta)
  pub metrics : List MetricEvent
  pub reports : List Report
  pub iter_closes : ℕ
  pub warnings : List String

pub record State : Type 0 where
  pub req : Request
  pub world : World

-- What the code calls and does not implement. `status_code` is `int(status.partition(' ')[0])`,
-- `start_upstream` says what the server's `start_response` raises, given its earlier calls and the
-- number of chunks sent, `error_body` is the error response handler: a content type and the
-- length of a body. `none` is a `ValueError` of the builtin.
pub record Outside : Type 0 where
  pub status_code : String → Option ℕ
  pub int : String → Option ℕ
  pub lower : String → String
  pub lstrip_slash : String → String
  pub sorted : Dict String Tracker → Dict String Tracker
  pub traceback : Exn → String
  pub error_body : Exn → Headers → String × ℕ
  pub start_upstream : List StartCall → ℕ → StartCall → Option Exn

-- The configuration that is read. `ip_address` reads an address, as a number, and `networks` are the
-- tests of membership in the configured networks.
pub record Settings : Type 0 where
  pub id_header : String
  pub wsgi_id_header : String
  pub soft_request_timeout : ℤ
  pub request_timeout : Option ℤ
  pub ip_address : String → Option ℕ
  pub is_loopback : ℕ → Bool
  pub networks : List (ℕ → Bool)
  pub split_route : String → List String
  pub parse_deadline : String → Option ℤ

-- What the application returns: an iterator, or a file for the server to send, with the name and
-- the size of what it reads and what its `close` raises.
pub record FileBody : Type 0 where
  pub filelike : Option (Option String × Option ℕ)
  pub close : Option Exn

pub data Body : Type 0 where
  content : Iter → Body
  file : FileBody → Body

-- What the middleware returns: the request, as an iterator, or the file.
pub data Response : Type 0 where
  wrapped : Response
  unwrapped : FileBody → Response

-- A run of the application: its calls of `start_response`, and what it returns or raises.
pub record App : Type 0 where
  pub starts : List StartCall
  pub result : Outcome Body Exn

-- The identifiers that a call draws: of the context, `uuid4`, `uuid4().hex` and the object.
pub record Ids : Type 0 where
  pub context_id : String
  pub uuid : String
  pub sentry_id : String
  pub oid : ℕ
