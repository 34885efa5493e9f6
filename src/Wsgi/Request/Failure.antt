-- ===== src/Wsgi/Request/Failure.antt =====
-- Errors of the application in `__next__` of talisker/wsgi.py: the switch to an error response.

use talisker.Common.{
  ◌∙◌, ℕ, ◌+◌, String, Bool, true, false, Option, none, some, List, [], ◌∷◌, ◌++◌, ◌≡◌, refl, arith,
  inl, inr, Bool-cases, is_some, ◌||◌, string_eq,
}
use talisker.Common.Dict.{get}
use talisker.Common.Lists.{length, length-append}
use talisker.Context.Stack.{returned, raised}
use talisker.Context.Api.{clear, debug}
use talisker.Util.Headers.{Headers, set_wsgi_header}
use talisker.Wsgi.Types.{
  Exn, request_timeout, stop_iteration, generator_exit, other_base, system_exit, error, StartCall,
  Step, Request, World, State, Outside, Settings,
}
use talisker.Wsgi.Action.{◌>>=◌, handle}
use talisker.Wsgi.Request.{
  base_headers, response_headers, start_response, store_response, first_time, call_start_response,
  error_response, run_starts, next_step, next_of, next_iter, failed, with_error, is_timeout,
  on_error, on_end, advance, next, close, close_iter, call_iter_close, timed, counted, wrapped_next,
}
use talisker.Wsgi.Request.Close.{Quiet, call_iter_close-Quiet, close-Finished}

-- A request whose server has been told the status, and whose iterator raises `e` next.
abbrev pub failing : Request → World → Exn → List Step → Option (Option Exn) → State
failing r w e rest c = record {
  req = record r {
    iter = some (record { steps = record { starts = []; result = raised e } ∷ rest; close = c });
    start_response_called = true;
  };
  world = w;
}

-- The request once its iterator has raised.
abbrev pub failed_request : Request → List Step → Option (Option Exn) → Request
failed_request r rest c = record r {
  iter = some (record { steps = rest; close = c });
  start_response_called = true;
}

-- What `except Exception` takes, but for the end of the iteration.
unfoldable pub IsError : Exn → Type 0
IsError request_timeout = Unit
IsError (error name) = Unit
IsError e = ⊥

module _ (out : Outside) (cfg : Settings) where
  -- The headers of the error response: the handler's content type and the ids.
  abbrev pub error_headers : Exn → Request → String → Headers
  error_headers e r sid =
      set_wsgi_header
        (base_headers out cfg r (("Content-Type", (out.error_body e r.headers).0) ∷ []))
        "X-Sentry-Id" sid

  -- The request after `error` has stored its response.
  abbrev pub error_request : Exn → Request → ℕ → String → Request
  error_request e r now sid =
      store_response out cfg "500 Internal Server Error" (error_headers e r sid) (some e) 500
        (record (with_error out cfg e r) {
          start_response_timestamp = first_time out cfg r.start_response_timestamp now;
        })

  abbrev pub error_call : Exn → Request → String → StartCall
  error_call e r sid = record {
    status = some "500 Internal Server Error";
    headers = error_headers e r sid;
    exc_info = some e;
  }

  start_response_ok :
      (status : String) (headers headers' : Headers) (e : Option Exn) (code : ℕ) (s : State)
      → response_headers out cfg s.req (debug s.world.contexts) headers ≡ some headers'
      → out.status_code status ≡ some code
      → start_response out cfg status headers e s ≡ (
        returned tt,
        record s {
          req = store_response out cfg status headers' e code (record s.req {
            start_response_timestamp =
                first_time out cfg s.req.start_response_timestamp s.world.now;
          });
        },
      )
  unfolding start_response
  start_response_ok status headers headers' e code s a b = rw (a, b, start_response) refl

  error_headers_lem :
      (e : Exn) (r : Request) (d : Bool) (sid : String)
      → get "SENTRY_ID" r.environ.vars ≡ some sid
      → response_headers out cfg
          (with_error out cfg e r)
          d
          (("Content-Type", (out.error_body e r.headers).0) ∷ [])
        ≡ some (error_headers e r sid)
  unfolding response_headers base_headers
  error_headers_lem e r d sid h = rw h refl

  error_accepted :
      (e : Exn) (r : Request) (w : World) (sid : String)
      → get "SENTRY_ID" r.environ.vars ≡ some sid
      → out.status_code "500 Internal Server Error" ≡ some 500
      → out.start_upstream w.upstream w.sent (error_call e r sid) ≡ none
      → error_response out cfg e (record { req = with_error out cfg e r; world = w }) ≡ (
        returned (out.error_body e r.headers).1,
        record {
          req = record (error_request e r w.now sid) { start_response_called = true };
          world = record w { upstream = w.upstream ++ error_call e r sid ∷ [] };
        },
      )
  unfolding error_response
  error_accepted e r w sid h code accepts =
      rw
        (start_response_ok "500 Internal Server Error" _ (error_headers e r sid) (some e) 500
          (record { req = with_error out cfg e r; world = w })
          (error_headers_lem e r (debug w.contexts) sid h) code)
        (unfold call_start_response in rw (accepts, call_start_response) refl)

  error_refused :
      (e e' : Exn) (r : Request) (w : World) (sid : String)
      → get "SENTRY_ID" r.environ.vars ≡ some sid
      → out.status_code "500 Internal Server Error" ≡ some 500
      → out.start_upstream w.upstream w.sent (error_call e r sid) ≡ some e'
      → error_response out cfg e (record { req = with_error out cfg e r; world = w }) ≡ (
        raised e',
        record {
          req = error_request e r w.now sid;
          world = record w { upstream = w.upstream ++ error_call e r sid ∷ [] };
        },
      )
  unfolding error_response
  error_refused e e' r w sid h code refuses =
      rw
        (start_response_ok "500 Internal Server Error" _ (error_headers e r sid) (some e) 500
          (record { req = with_error out cfg e r; world = w })
          (error_headers_lem e r (debug w.contexts) sid h) code)
        (unfold call_start_response in rw (refuses, call_start_response) refl)

  on_error-IsError : (e : Exn) → IsError e → on_error out cfg e ≡ failed out cfg e
  unfolding on_error IsError
  on_error-IsError request_timeout h = refl
  on_error-IsError (error name) h = refl
  on_error-IsError stop_iteration h = elim h [ ]
  on_error-IsError generator_exit h = elim h [ ]
  on_error-IsError other_base h = elim h [ ]
  on_error-IsError (system_exit code) h = elim h [ ]

  on_end-IsError :
      (e : Exn) (s : State)
      → IsError e
      → (close out cfg s).0 ≡ returned tt
      → on_end out cfg e s ≡ (raised e, (close out cfg s).1)
  unfolding on_end IsError
  on_end-IsError request_timeout s h c = rw c refl
  on_end-IsError (error name) s h c = rw c refl
  on_end-IsError stop_iteration s h c = elim h [ ]
  on_end-IsError generator_exit s h c = elim h [ ]
  on_end-IsError other_base s h c = elim h [ ]
  on_end-IsError (system_exit code) s h c = elim h [ ]

  next-failing :
      (e : Exn) (r : Request) (w : World) (rest : List Step) (c : Option (Option Exn))
      → IsError e
      → next out cfg (failing r w e rest c)
        ≡ (handle (failed out cfg e) (on_end out cfg) >>= counted out cfg)
            (record { req = failed_request r rest c; world = w })
  unfolding next wrapped_next advance next_iter next_of next_step run_starts
  next-failing e r w rest c err = elim (Bool-cases (is_some r.status)) [
    | inl h ↦ rw (h, on_error-IsError e err) refl
    | inr h ↦ rw (h, on_error-IsError e err) refl
  ]

  -- What an accepted switch to the error response has done; `r` is the request when the error was
  -- raised.
  pub record Answered (e : Exn) (r : Request) (w : World) (sid : String) (s : State) : Type 0 where
    pub upstream : s.world.upstream ≡ w.upstream ++ error_call e r sid ∷ []
    pub status_code : s.req.status_code ≡ 500
    pub exc_info : s.req.exc_info ≡ some e
    pub timedout : s.req.timedout ≡ is_timeout e || r.timedout
    pub iter : s.req.iter ≡ some (record { steps = []; close = none })
    pub content_length : s.req.content_length ≡ r.content_length + (out.error_body e r.headers).1
    pub closed : s.req.closed ≡ r.closed

  -- An application's iterator raises an error or `RequestTimeout` on a server that accepts a second
  -- call of `start_response`: the item is the body of the error response, the server got status 500
  -- with the error, the request stores the error and whether it is a timeout, and stays open.
  pub next-Answered :
      (e : Exn) (r : Request) (w : World) (rest : List Step) (c : Option (Option Exn))
      (sid : String)
      → IsError e
      → get "SENTRY_ID" r.environ.vars ≡ some sid
      → out.status_code "500 Internal Server Error" ≡ some 500
      → out.start_upstream w.upstream w.sent (error_call e (failed_request r rest c) sid) ≡ none
      → ((next out cfg (failing r w e rest c)).0 ≡ returned (out.error_body e r.headers).1)
        × Answered e (failed_request r rest c) w sid (next out cfg (failing r w e rest c)).1
  unfolding failed counted
  next-Answered e r w rest c sid err has code accepts =
      rw
        (
          next-failing e r w rest c err,
          error_accepted e (failed_request r rest c) w sid has code accepts,
        )
        (
          refl,
          record {
            upstream = refl;
            status_code = refl;
            exc_info = refl;
            timedout = refl;
            iter = refl;
            content_length = refl;
            closed = refl;
          },
        )

  -- What a refused switch to the error response has done.
  pub record Refused (e : Exn) (r : Request) (w : World) (s : State) : Type 0 where
    pub exc_info : s.req.exc_info ≡ some e
    pub closed : s.req.closed ≡ true
    pub content_length : s.req.content_length ≡ r.content_length
    pub sent : s.world.sent ≡ w.sent
    pub logs : length s.world.logs ≡ length w.logs + 1
    pub contexts : s.world.contexts ≡ clear w.contexts

  refused_state : Option (Option Exn) → Exn → Request → World → List Step → String → State
  refused_state c e r w rest sid = record {
    req = error_request e (failed_request r rest c) w.now sid;
    world = record w { upstream = w.upstream ++ error_call e (failed_request r rest c) sid ∷ [] };
  }

  timed-kept :
      (now : ℕ) (r : Request)
      → ((timed out cfg false now r).0.content_length ≡ r.content_length)
        × ((timed out cfg false now r).0.exc_info ≡ r.exc_info)
  unfolding timed
  timed-kept now r = ground arith

  close-Refused :
      (c : Option (Option Exn)) (e : Exn) (r : Request) (w : World) (rest : List Step)
      (sid : String)
      → Quiet c
      → r.closed ≡ false
      → ((close out cfg (refused_state c e r w rest sid)).0 ≡ returned tt)
        × Refused e r w (close out cfg (refused_state c e r w rest sid)).1
  unfolding refused_state close_iter call_iter_close
  close-Refused c e r w rest sid q h =
      let s = refused_state c e r w rest sid in
      let (ok, f) = close-Finished out cfg s h in
      (
        ok ∙ call_iter_close-Quiet out cfg c s q,
        record {
          exc_info = rw (f.req) ((timed-kept w.now s.req).1);
          closed = rw (f.req) refl;
          content_length = rw (f.req) ((timed-kept w.now s.req).0);
          sent = f.sent;
          logs = rw (f.logs) (length-append w.logs _);
          contexts = f.contexts;
        },
      )

  -- An application's iterator raises an error or `RequestTimeout`, its `close`, if any, does not
  -- raise, and the server refuses the second call of `start_response` with `e'`, an error or
  -- `RequestTimeout` too, because the headers are sent: `e'` goes on to the server, nothing more is
  -- sent or counted, and the request is closed and logged, with the application's error.
  pub next-Refused :
      (e e' : Exn) (r : Request) (w : World) (rest : List Step) (c : Option (Option Exn))
      (sid : String)
      → IsError e
      → IsError e'
      → Quiet c
      → r.closed ≡ false
      → get "SENTRY_ID" r.environ.vars ≡ some sid
      → out.status_code "500 Internal Server Error" ≡ some 500
      → out.start_upstream w.upstream w.sent (error_call e (failed_request r rest c) sid) ≡ some e'
      → ((next out cfg (failing r w e rest c)).0 ≡ raised e')
        × Refused e r w (next out cfg (failing r w e rest c)).1
  unfolding failed refused_state
  next-Refused e e' r w rest c sid err err' q h has code refuses =
      let (ok, refused) = close-Refused c e r w rest sid q h in
      rw
        (
          next-failing e r w rest c err,
          error_refused e e' (failed_request r rest c) w sid has code refuses,
          on_end-IsError e' (refused_state c e r w rest sid) err' ok,
        )
        (refl, refused)
