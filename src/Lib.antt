-- ===== src/Lib.antt =====
-- A verification library for talisker, the WSGI and logging library of the repository.
--
-- The program. A server calls the middleware of talisker/wsgi.py, which opens a context
-- (talisker/context.py), reads the ids, the debug header and the deadline, tracks the request in
-- `REQUESTS`, runs the application and wraps its iterator. The server then takes chunks from the
-- wrapped response and closes it; on close the request is logged (talisker/logs.py), counted,
-- reported and untracked, and its context is cleared.
--
-- Around it are the configuration (talisker/config.py), the status endpoints (talisker/endpoints.py),
-- the hooks of gunicorn (talisker/gunicorn.py), which clean up after dead workers with
-- talisker/prometheus.py, and the signal handlers of celery (talisker/celery.py), which take the id
-- of a request to the tasks that it publishes.
--
-- A request that a handler sends goes through a session of talisker/requests.py, whose wrappers put
-- the context's id and deadline on it and record it; the middleware of the service that receives it
-- reads them. talisker/sentry.py completes the reports, talisker/render.py makes the pages of the
-- endpoints, and talisker/testing.py searches and parses the logs.
--
-- The files.
--   Common: the names shared by all files. Common.Dict is Python's dict in insertion order, with
--     get, insert, erase and update; Common.Int the integers; Common.Text texts as code points.
--   Celery: the handlers of talisker/celery.py. Celery.Publish is about the headers of a message,
--     Celery.Run about the metrics of nested and repeated runs, Celery.Counters about the counters
--     that count once.
--   Config.Values: the values and the functions under the properties of `Config`. Config.Property:
--     `config_property` and the dict methods; Coherent and Refine hold its theorems. Config.Load:
--     `load_env_config` and `get_revision_id`.
--   Endpoints: `StandardEndpointMiddleware` and `private`. Access and Dispatch hold its theorems.
--   Gunicorn.Arbiter: the queue of dead workers, as steps of the arbiter; Steps and Drain hold its
--     theorems. Gunicorn.Exit: `gunicorn_worker_exit`.
--   Metrics: the updates of a metric of talisker/metrics.py; Protected holds its theorem.
--   Prometheus: the files of metrics and the clean-up of a worker; Written and Totals hold its theorems.
--   Context.Stack: `ContextStack` of talisker/context.py. Flat and Scope hold its theorems.
--   Context.Data: `ContextData`, `CONTEXT_MAP` and their functions. Context.Api: the methods of
--     `ContextAPI`; a method reads and returns the state of the process explicitly.
--   Logs.Record: `StructuredLogger.makeRecord` of talisker/logs.py. Logs.Formatter, Logs.Strings
--     and Logs.Format: `StructuredFormatter`.
--   Requests.Adapter: `TaliskerAdapter._send` of talisker/requests.py, with the choice of the
--     backend. Requests.Adapter.Send: its `send`; Requests.Adapter.Backends: the check of backends.
--     urllib3's `Retry` and the base class' `send` are arguments.
--   Requests.Metadata: `collect_metadata`. Requests.Record: `record_request`, on a `World` of metrics,
--     logs, breadcrumbs and contexts. Requests.Session: the sessions and the wrappers of their methods.
--     Redact, Accounts, Propagate and Scoped hold their theorems.
--   Render: `Content` and `Link` of talisker/render.py. Render.Table: its `Table`. Render.Page: `Head`
--     and `render_type`. Markup and Align hold the theorems.
--   Sentry: `add_talisker_context`, `sql_summary` and the global client of talisker/sentry.py. Sorting,
--     Slowest and Added hold their lemmas and theorems. Sentry.Config: `ensure_talisker_config`.
--   Start: `run` of talisker/__init__.py; Status holds its theorem.
--   Statsd: the DSN and the clients of talisker/statsd.py; Collect holds its theorem.
--   Testing.Records: the searches of `LogRecordList` of talisker/testing.py. Testing.Parse: its parser.
--     Search and Groups hold their theorems. Testing.Process: its `ServerProcess`, with the process as
--     an argument; Reading and Waiting hold its theorems.
--   Util.Headers: `set_wsgi_header` of talisker/util.py. Util.Early: its early logs. Util.Globals:
--     `module_cache`. Util.Errors: `get_root_exception` and `get_errno_fields`.
--   Wsgi.Types: the state of talisker/wsgi.py and what is outside it. Wsgi.Action: actions on the
--     request and the process, with exceptions as results; what was written before an exception
--     stays written. Wsgi.Metadata: `get_metadata` and `metrics`. Wsgi.Request: the methods of
--     `TaliskerWSGIRequest`. Wsgi.Middleware: `TaliskerMiddleware.__call__`, `wrap_response` and
--     `Config.is_trusted_addr` of talisker/config.py.
--
-- Conventions. Times are whole microseconds, and the clock, `uuid4` and the identity of an object
-- are arguments. `none` stands for Python's `None` and for a missing key; a raised exception is
-- the outcome `raised`. The application is the calls of `start_response` that it makes and what it
-- returns or raises; its iterator is a list of steps, past which it raises `StopIteration`. The
-- server's `start_response`, builtins, `strptime`, `ip_address` and the error page are fields of
-- `Outside` and `Settings`, arguments of the definitions.
--
-- Bounds. `drain`, a server's loop over a response, has fuel; one more than the number of chunks is
-- enough. `send_loop` has fuel too; one more than the number of retries left is enough, for every
-- measure that the increments of the retry lower. For `readline` more fuel than the timeout is
-- enough, and `wait_for_output` has a number of rounds, two more than the lines before the one
-- waited for. The sizes of messages, keys and values are those of the formatter. The arbiter's
-- steps are a relation and have no fuel.
--
-- Not modelled: the rest of talisker/util.py, the lock for async workers, the default that takes no
-- lock and the collection of talisker/prometheus.py, the set-up of gunicorn and of celery's signals, and the start of processes
-- in talisker/testing.py. Nor are the set-up of logging handlers, the subclasses of raven's classes
-- in talisker/sentry.py, the JSON of talisker/render.py, the glue to flask and django, and the
-- context variables of gevent and eventlet, which configure other libraries. The access log and the
-- report of a request are recorded as what is handed to the logger and to sentry. Of what the base
-- class' `send` raises only a `ConnectionError` is represented, and of the codes of a `SystemExit`
-- only numbers.
pub mod Celery
pub mod Common
pub mod Config
pub mod Context
pub mod Endpoints
pub mod Gunicorn
pub mod Logs
pub mod Metrics
pub mod Prometheus
pub mod Render
pub mod Requests
pub mod Sentry
pub mod Start
pub mod Statsd
pub mod Testing
pub mod Util
pub mod Wsgi
