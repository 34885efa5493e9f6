-- ===== src/Requests/CallTests.antt =====
-- The theorems on the metadata, the accounts and the headers of outgoing requests at concrete calls.
use talisker.Common.{
  ◌==◌, if◌then◌else◌, ◌%◌, or_else, nat_eq, ℕ, String, Bool, true, false, Option, none, some, List,
  [], ◌∷◌, ◌≡◌, refl, string_eq, ne_of_beq, not, leb,
}
use talisker.Common.Int.{ℤ, pos, negsuc}
use talisker.Common.Dict.{Dict, get, insert}
use talisker.Context.Data.{ContextData, Contexts, get_context}
use talisker.Context.Api.{current, request_id, debug}
use talisker.Util.Errors.{root_error}
use talisker.Wsgi.Types.{Outside, Settings, Ids}
use talisker.Wsgi.Middleware.Setup.{deadline_by}
use talisker.Wsgi.Middleware.{with_ids, set_deadline}
use talisker.Requests.Metadata.{Url, HttpRequest, HttpResponse, Strings, collect_metadata}
use talisker.Requests.Metadata.Redact.{with_query, collect_metadata-with_query}
use talisker.Requests.Record.{Names, no_names, World}
use talisker.Requests.Record.Accounts.{Call, Accounted, record_all, record_all-Accounted}
use talisker.Requests.Session.{HeaderNames, current_deadline, sent_headers, set_names}
use talisker.Requests.Session.Propagate.{set_deadline-sent_headers}

abbrev first_of : String → List String → String
first_of pattern [] = pattern
first_of pattern (t ∷ texts) = t

abbrev strings : Strings
strings = record {
  format = first_of;
  len = λ s. 4;
  str = λ n. "8080";
  join_amp = first_of "";
  int = λ s. none;
  is_in = λ s t. true;
  dots_to_dashes = λ s. s;
}

abbrev a_url : Url
a_url = record {
  scheme = "http";
  netloc = "h:80";
  hostname = "h";
  port = some 80;
  path = "/a";
  query = "k=ab";
  qsl = ("k", "ab") ∷ [];
}

abbrev a_request : HttpRequest
a_request = record { url = a_url; method = "GET"; headers = [] }

abbrev a_response : HttpResponse
a_response = record { status_code = 503; headers = []; elapsed = 12 }

collect_metadata-with_query_example :
    collect_metadata strings []
      (with_query strings "k=xy" (("k", "xy") ∷ []) a_request)
      (some a_response)
    ≡ collect_metadata strings [] a_request (some a_response)
collect_metadata-with_query_example =
    collect_metadata-with_query strings [] a_request (some a_response) "k=xy" (("k", "xy") ∷ [])
      refl (refl, refl, tt)

abbrev a_context : ContextData String
a_context = record {
  id = "c";
  start_time = 90;
  request_id = some "rid";
  logging = record { stack = []; cached = none };
  tracking = [];
  soft_timeout = negsuc 0;
  deadline = some (pos 120);
  debug = false;
}

abbrev contexts : Contexts String
contexts = record { context_map = ("c", a_context) ∷ []; current_id = some "c"; warnings = [] }

abbrev a_world : World
a_world = record {
  contexts = contexts;
  hosts = [];
  names = [];
  null_names = no_names;
  breadcrumbs = [];
  logs = [];
  metrics = [];
}

abbrev calls : List Call
calls =
    record { request = a_request; response = some a_response; exc = none }
    ∷ record {
      request = a_request;
      response = none;
      exc = some (
          root_error (record {
            errno = some (pos 111);
            strerror = none;
            filename = none;
            filename2 = none;
          }));
    }
    ∷ []

abbrev is_ok : HttpResponse → Bool
is_ok r = not (leb 400 r.status_code)

record_all-Accounted_example :
    Accounted calls a_world
      (record_all strings is_ok (λ n. some "ECONNREFUSED") (λ n. "") calls a_world)
record_all-Accounted_example =
    record_all-Accounted strings is_ok (λ n. some "ECONNREFUSED") (λ n. "") (λ r. refl) calls
      a_world

abbrev some_names : Names
some_names = record { api = some "api"; host = none }

-- A call that sets other names.
abbrev renaming : World → ℕ × World
renaming w = (7, set_names (some a_context) (record { api = none; host = some "x" }) w)

a_context-current : current contexts ≡ some a_context
unfolding current get_context get
a_context-current = refl

abbrev header_names : HeaderNames
header_names = record { id_header = "x-request-id"; deadline_header = "x-request-deadline" }

-- As `isoformat`, with no fraction on a whole second.
abbrev iso : ℤ → String
iso (pos n) = if n % 1000000 == 0 then "1970-01-01T00:00:00Z" else "1970-01-01T00:00:00.000120Z"
iso (negsuc n) = "1969-12-31T23:59:59.999999Z"

abbrev vars : Dict String String
vars =
    ("HTTP_X_REQUEST_ID", "rid") ∷ ("HTTP_X_REQUEST_DEADLINE", "1970-01-01T00:00:00.000120Z") ∷ []

abbrev builtins : Outside
builtins = record {
  status_code = λ s. none;
  int = λ s. none;
  lower = λ s. s;
  lstrip_slash = λ s. s;
  sorted = λ d. d;
  traceback = λ e. "";
  error_body = λ e headers. ("text/plain", 20);
  start_upstream = λ starts sent start. none;
}

abbrev config : Settings
config = record {
  id_header = "X-Request-Id";
  wsgi_id_header = "HTTP_X_REQUEST_ID";
  soft_request_timeout = pos 5;
  request_timeout = some (pos 100);
  ip_address = λ s. none;
  is_loopback = λ n. true;
  networks = [];
  split_route = λ s. [];
  parse_deadline = λ s. if s == "1970-01-01T00:00:00.000120Z" then some (pos 120) else none;
}

abbrev ids : Ids
ids = record { context_id = "n"; uuid = "u"; sentry_id = "s"; oid = 1 }

received_id :
    get "HTTP_X_REQUEST_ID" vars ≡ get "x-request-id" (sent_headers header_names iso contexts [])
unfolding get insert sent_headers current get_context request_id debug current_deadline
received_id = refl

received_deadline :
    get "HTTP_X_REQUEST_DEADLINE" vars
    ≡ get "x-request-deadline" (sent_headers header_names iso contexts [])
unfolding get insert sent_headers current get_context request_id debug current_deadline
received_deadline = refl

no_header : (name : String) → ◌≡◌ {A = Option String} (get name []) none
unfolding get
no_header name = refl

set_deadline-sent_headers_example :
    let (rid, v) = with_ids builtins config [] ids vars in
    (rid ≡ "rid")
    × (current (set_deadline builtins config v contexts)
        ≡ some (record a_context {
          deadline =
              or_else
                (config.parse_deadline (iso (pos 120)))
                (deadline_by builtins config config.request_timeout a_context);
        }))
set_deadline-sent_headers_example =
    set_deadline-sent_headers builtins config header_names iso contexts a_context "rid" (pos 120) []
      vars [] ids contexts a_context a_context-current refl refl refl refl
      (ne_of_beq "x-request-deadline" "x-request-id" refl) (ne_of_beq "x-debug" "x-request-id" refl)
      (ne_of_beq "x-debug" "x-request-deadline" refl) (no_header "x-request-id") received_id
      received_deadline (no_header "HTTP_X_REQUEST_ID") (no_header "HTTP_X_REQUEST_DEADLINE")
      (ne_of_beq "SENTRY_ID" "HTTP_X_REQUEST_ID" refl)
      (ne_of_beq "REQUEST_ID" "HTTP_X_REQUEST_ID" refl)
      (ne_of_beq "HTTP_X_REQUEST_ID" "HTTP_X_REQUEST_DEADLINE" refl) refl a_context-current
