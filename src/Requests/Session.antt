-- ===== src/Requests/Session.antt =====
-- Sessions in talisker/requests.py: `clear`, the endpoints' names, `get_session`, `configure` and the two
-- wrappers that `configure` puts on a session's methods. `send` is given the session's own method.
pub mod Propagate
pub mod Scoped
use mathlib.Core.Option
use talisker.Common.{
  ℕ, zero, suc, String, Bool, true, false, Option, none, some, List, [], ◌∷◌, string_eq, ◌==◌, ◌||◌,
  ◌&&◌, not, if◌then◌else◌,
}
use talisker.Common.Int.{ℤ, pos}
use talisker.Common.Dict.{Dict, get, contains, insert, erase}
use talisker.Context.Stack.{Outcome, returned, raised}
use talisker.Context.Data.{ContextData, Contexts}
use talisker.Context.Api.{current, request_id, debug}
use talisker.Util.Errors.{Raised}
use talisker.Requests.Metadata.{Url, HttpRequest, HttpResponse, Strings}
use talisker.Requests.Record.{Names, World, record_request}

-- A function in a session's list of response hooks.
pub data Hook : Type 0 where
  metrics_response_hook : Hook
  other_hook : String → Hook

abbrev pub is_metrics_hook : Hook → Bool
is_metrics_hook metrics_response_hook = true
is_metrics_hook (other_hook name) = false

abbrev pub has_metrics_hook : List Hook → Bool
has_metrics_hook [] = false
has_metrics_hook (h ∷ hooks) = is_metrics_hook h || has_metrics_hook hooks

-- A session: its response hooks, and how many wrappers are on its two methods.
pub record Session : Type 0 where
  pub hooks : List Hook
  pub send_wrappers : ℕ
  pub request_wrappers : ℕ

abbrev pub add_hook : List Hook → List Hook
add_hook hooks = if has_metrics_hook hooks then hooks else metrics_response_hook ∷ hooks

-- A method that has a wrapper gets no other.
abbrev pub wrap_once : ℕ → ℕ
wrap_once zero = 1
wrap_once (suc n) = suc n

unfoldable pub configure : Session → Session
configure s = record {
  hooks = add_hook s.hooks;
  send_wrappers = wrap_once s.send_wrappers;
  request_wrappers = wrap_once s.request_wrappers;
}

-- `STORAGE.sessions` of the running thread, by class, and `HOSTS`.
pub record Store : Type 0 where
  pub sessions : Option (Dict String Session)
  pub hosts : Dict String String

unfoldable pub clear : Store → Store
clear st = record { sessions = Option.map (λ _. []) st.sessions; hosts = [] }

-- `create` is the constructor of a session class.
unfoldable pub get_session : (String → Session) → String → Store → Session × Store
unfolding configure
get_session create cls st =
    let sessions : Dict String Session = Option.get_or st.sessions [] in
    elim (get cls sessions) [
      | some session ↦ (session, record st { sessions = some sessions })
      | none ↦
          let session = configure (create cls) in
          (session, record st { sessions = some (insert cls session sessions) })
    ]

unfoldable pub register_endpoint_name : Url → String → Store → Store
register_endpoint_name endpoint name st = record st { hosts = insert endpoint.netloc name st.hosts }

-- `warnings.DeprecationWarning` does not exist, so that the call raises before it registers.
unfoldable pub register_ip : Url → String → Store → Outcome (Unit {0}) String × Store
register_ip ip name st = (raised "AttributeError", st)

unfoldable pub get_endpoint_name : Url → Store → Option String
get_endpoint_name endpoint st = get endpoint.netloc st.hosts

-- What a call raises: an `Exception`, or another `BaseException`.
pub data Thrown : Type 0 where
  exception : Raised → Thrown
  base : String → Thrown

-- The configured names of headers, in lower case.
pub record HeaderNames : Type 0 where
  pub id_header : String
  pub deadline_header : String

abbrev pub put_absent : String → Option String → Dict String String → Dict String String
put_absent name none headers = headers
put_absent name (some value) headers =
    if value == "" || contains name headers then headers else insert name value headers

-- `isoformat() + 'Z'` of a deadline; a deadline of zero is falsy.
abbrev pub put_deadline : (ℤ → String) → String → Option ℤ → Dict String String → Dict String String
put_deadline iso name none headers = headers
put_deadline iso name (some (pos zero)) headers = headers
put_deadline iso name (some d) headers = insert name (iso d) headers

-- `Context.current().deadline`
unfoldable pub current_deadline : Contexts String → Option ℤ
current_deadline w = elim (current w) [ none ↦ none | some ctx ↦ ctx.deadline ]

-- The headers that `send` puts on a request.
unfoldable pub sent_headers :
    HeaderNames → (ℤ → String) → Contexts String → Dict String String → Dict String String
unfolding current_deadline
sent_headers cfg iso w headers =
    let h₁ = put_absent cfg.id_header (request_id w) headers in
    let h₂ = put_deadline iso cfg.deadline_header (current_deadline w) h₁ in
    if debug w then insert "x-debug" "1" h₂ else h₂

module _ (s : Strings) (ok : HttpResponse → Bool) (error_codes : ℤ → Option String)
    (str : ℤ → String) where
  -- What `send` does with the outcome of the session's own method.
  abbrev pub sent :
      HttpRequest → Outcome HttpResponse Thrown × World → Outcome HttpResponse Thrown × World
  sent request (returned r, w) = (returned r, w)
  sent request (raised (exception e), w) =
      (raised (exception e), record_request s ok error_codes str request none (some e) w)
  sent request (raised (base name), w) = (raised (base name), w)

  -- The wrapper on `send`, for the session's own method `func`.
  unfoldable pub send_wrapper :
      HeaderNames
      → (ℤ → String)
      → (HttpRequest → World → Outcome HttpResponse Thrown × World)
      → HttpRequest
      → World
      → Outcome HttpResponse Thrown × World
  unfolding sent_headers
  send_wrapper cfg iso func request w =
      let request' : HttpRequest = record request {
        headers = sent_headers cfg iso w.contexts request.headers;
      } in
      sent request' (func request' w)

-- The two attributes of a context, set and deleted.
abbrev pub set_names : Option (ContextData String) → Names → World → World
set_names none names w = record w { null_names = names }
set_names (some ctx) names w = record w { names = insert ctx.id names w.names }

abbrev pub del_names : Option (ContextData String) → World → World
del_names none w = record w { null_names = record { api = none; host = none } }
del_names (some ctx) w = record w { names = erase ctx.id w.names }

-- The wrapper on `request`, for a call `func` of the session's own method; `names` are the two
-- keyword arguments. The attributes are deleted from the context that was current at the start.
unfoldable pub request_wrapper {ℓ} : {A : Type ℓ} → (World → A × World) → Names → World → A × World
request_wrapper func names w =
    let ctx = current w.contexts in
    let (result, w') = func (set_names ctx names w) in (result, del_names ctx w')
