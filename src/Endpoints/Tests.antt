-- ===== src/Endpoints/Tests.antt =====
-- The theorems on the endpoints at a concrete server and request.
use talisker.Common.{
  String, true, false, none, some, [], ◌∷◌, ◌≡◌, refl, string_eq, nat_eq, ◌==◌, if◌then◌else◌,
}
use talisker.Common.Int.{pos}
use talisker.Common.Dict.{get}
use talisker.Common.Text.{codes}
use talisker.Context.Stack.{Outcome, returned}
use talisker.Wsgi.Types.{Exn, Settings}
use talisker.Wsgi.Metadata.{truthy}
use talisker.Wsgi.Middleware.{is_trusted_addr}
use talisker.Endpoints.{
  Response, code, Private, WebRequest, Server, Counters, client_addr, choose, call,
}
use talisker.Endpoints.Access.{IsUntrusted, Refused, untrusted_call}

-- Only address 1 is local; other addresses are 2.
abbrev settings : Settings
settings = record {
  id_header = "X-Request-Id";
  wsgi_id_header = "HTTP_X_REQUEST_ID";
  soft_request_timeout = pos 5;
  request_timeout = none;
  ip_address = λ s. if s == "127.0.0.1" then some 1 else some 2;
  is_loopback = λ n. n == 1;
  networks = [];
  split_route = λ s. s ∷ [];
  parse_deadline = λ s. none;
}

abbrev page : String → Response
page body = record { status = code 200; headers = []; body = body ∷ [] }

abbrev server : Server
server = record {
  cfg = settings;
  revision_id = "r1";
  status_interface = "";
  installed = record { prometheus = true; logging_tree = false; psutil = false; objgraph = false };
  prefix = codes "/_status";
  forbidden_body = λ r ip. ip;
  app = λ r. returned (record { early = []; late = []; chunks = [] });
  index_view = λ r. page "index";
}

abbrev views : String → Private → WebRequest → Outcome Response Exn
views body p r = returned (page body)

-- A request for the configuration from outside.
abbrev visit : WebRequest
visit = record {
  path = codes "/_status/info/config";
  environ = ("CLIENT_ADDR", "10.0.0.1") ∷ [];
  access_route = [];
  sockname = "0.0.0.0";
}

abbrev counters : Counters
counters = record { statsd = 0; prometheus = 0 }

visit-IsUntrusted : IsUntrusted server visit "10.0.0.1"
unfolding client_addr is_trusted_addr truthy get
visit-IsUntrusted = (refl, refl)

untrusted_call_example :
    Refused server
      (choose server visit)
      visit
      "10.0.0.1"
      (call server (views "secret") visit counters).0
    × (call server (views "secret") visit counters ≡ call server (views "other") visit counters)
    × ((call server (views "secret") visit counters).1 ≡ counters)
untrusted_call_example =
    untrusted_call server (views "secret") (views "other") visit "10.0.0.1" counters
      visit-IsUntrusted
