-- ===== src/Wsgi/Request/Closed.antt =====
-- What the close of a request in talisker/wsgi.py does for the server, in terms of the request alone.
use talisker.Common.{
  ℕ, ◌+◌, String, Bool, true, false, not, Option, none, some, ◌≡◌, if◌then◌else◌, leb, string_eq,
  ◌==◌, ◌&&◌,
}
use talisker.Common.Lists.{length}
use talisker.Common.Dict.{Dict, get}
use talisker.Context.Stack.{Outcome, returned, raised}
use talisker.Context.Api.{clear}
use talisker.Wsgi.Types.{Exn, Iter, Request, State, Outside, Settings}
use talisker.Wsgi.Request.{close}

-- How often the `close` of an iterator is called, and how that ends.
abbrev close_calls : Option (Option Exn) → ℕ
close_calls none = 0
close_calls (some raises) = 1

abbrev close_end : Option (Option Exn) → Outcome (Unit {0}) Exn
close_end none = returned tt
close_end (some none) = returned tt
close_end (some (some e)) = raised e

abbrev pub calls_of : Option Iter → ℕ
calls_of none = 0
calls_of (some it) = close_calls it.close

abbrev pub end_of : Option Iter → Outcome (Unit {0}) Exn
end_of none = returned tt
end_of (some it) = close_end it.close

-- Whether a key of `REQUESTS` is the id of the request, which is not empty.
abbrev pub is_id : Option String → String → Bool
is_id none id = false
is_id (some rid) id = not (rid == "") && rid == id

-- The number of metrics of a request: a count and a latency, and one more if it timed out or failed.
abbrev count_metrics : Bool → ℕ → ℕ
count_metrics timedout status = if timedout then 3 else if leb 500 status then 3 else 2

abbrev pub metrics_of : Request → ℕ
metrics_of r = count_metrics r.timedout r.status_code

module _ (out : Outside) (cfg : Settings) where
  -- What the close of an open request does.
  pub record Closed (s : State) (result : Outcome (Unit {0}) Exn) (s' : State) : Type 0 where
    pub ends : result ≡ end_of s.req.iter
    pub iter_closes : s'.world.iter_closes ≡ s.world.iter_closes + calls_of s.req.iter
    pub closed : s'.req.closed ≡ true
    pub logs : length s'.world.logs ≡ length s.world.logs + 1
    pub metrics : length s'.world.metrics ≡ length s.world.metrics + metrics_of s.req
    pub contexts : s'.world.contexts ≡ clear s.world.contexts
    pub requests :
        (id : String)
        → get id s'.world.requests ≡ (
            if is_id (get "REQUEST_ID" s.req.environ.vars) id
            then none
            else get id s.world.requests)
    pub upstream : s'.world.upstream ≡ s.world.upstream
    pub sent : s'.world.sent ≡ s.world.sent
