-- ===== src/Wsgi/Middleware/Cycle.antt =====
-- The life of a request in `REQUESTS` of talisker/wsgi.py: from the middleware's call to the close.
use talisker.Common.{
  ℕ, String, false, Option, none, some, ◌≡◌, ◌≢◌, refl, ◌∙◌, ap, arith, string_eq, nat_eq,
  if◌then◌else◌, ◌==◌, List, ◌&&◌, inl, inr,
}
use talisker.Common.Dict.{get, contains, get-insert, get-erase}
use talisker.Context.Stack.{Outcome, returned, raised}
use talisker.Wsgi.Types.{
  Exn, request_timeout, stop_iteration, generator_exit, other_base, error, system_exit, Request,
  World, State, Outside, Settings, Body, content, file, Response, unwrapped, App,
}
use talisker.Wsgi.Action.{
  M, and_then, or_catch, ◌>>=◌, ◌>>◌, pure, raise, update_req, Frame, Keeps, pure-Keeps, bind-Keeps,
}
use talisker.Wsgi.Request.{
  start_response, call_start_response, run_starts, error_response, with_error, with_exit,
  finish_request, close,
}
use talisker.Wsgi.Request.Frames.{Runs, run_starts-Keeps, error_response-Keeps}
use talisker.Wsgi.Request.Close.{untrack-some}
use talisker.Wsgi.Request.Uses.{Use, run_uses}
use talisker.Wsgi.Request.Untrack.{
  Untracked, Untracked-trans, close-Untracked, closed-close, run_uses-Untracked,
}
use talisker.Wsgi.Middleware.{
  wrap_response, file_request, one_chunk, app_failed, app_error, run_app, respond, track_request,
}

-- Nothing has been untracked or closed, and the environment is the same.
unfoldable pub InFlight : State → State → Type 0
InFlight s t =
    (t.world.requests ≡ s.world.requests)
    × (t.req.environ ≡ s.req.environ)
    × (t.req.closed ≡ s.req.closed)

parts :
    (s t : State)
    → InFlight s t
    → (t.world.requests ≡ s.world.requests)
      × (t.req.environ ≡ s.req.environ)
      × (t.req.closed ≡ s.req.closed)
unfolding InFlight
parts s t h = h

frame : Frame InFlight
unfolding InFlight
frame = record {
  same = λ s. (refl, refl, refl);
  trans = λ s t u (a, b, c) (a', b', c'). (a' ∙ a, b' ∙ b, c' ∙ c);
}

module _ (out : Outside) (cfg : Settings) where
  runs : Runs out cfg InFlight
  unfolding InFlight start_response call_start_response
  runs = record {
    frame = frame;
    start = λ status headers e s. ground arith;
    call = λ s. ground arith;
  }

  app_failed-Keeps : (e : Exn) → Keeps InFlight (app_failed out cfg e)
  unfolding app_failed
  app_failed-Keeps e =
      bind-Keeps frame (update_req (with_error out cfg e))
        (λ _. error_response out cfg e >>= λ body. pure (one_chunk out cfg body))
        (λ s. (unfold InFlight in (refl, refl, refl)))
        (λ _.
          bind-Keeps frame (error_response out cfg e) (λ body. pure (one_chunk out cfg body))
            (error_response-Keeps out cfg runs e)
            (λ body. pure-Keeps frame (one_chunk out cfg body)))

  file_request-InFlight :
      (f : Option (Option String × Option ℕ)) → Keeps InFlight (update_req (file_request f))
  unfolding InFlight
  file_request-InFlight none s = (refl, refl, refl)
  file_request-InFlight (some (name, size)) s = (refl, refl, refl)

  wrap_response-Keeps : (body : Body) → Keeps InFlight (wrap_response out cfg body)
  unfolding wrap_response
  wrap_response-Keeps (content it) s = unfold InFlight in (refl, refl, refl)
  wrap_response-Keeps (file f) s =
      bind-Keeps frame (update_req (file_request f.filelike))
        (λ _. call_start_response out cfg >> pure (unwrapped f)) (file_request-InFlight f.filelike)
        (λ _.
          bind-Keeps frame (call_start_response out cfg) (λ _. pure (unwrapped f)) runs.call
            (λ _. pure-Keeps frame (unwrapped f)))
        s

  raised_not_returned :
      (e : Exn) (r : Outcome (Unit {0}) Exn) (s : State) (body : Body)
      → (and_then (λ _. raise e) r s).0 ≡ returned body
      → ⊥
  raised_not_returned e (returned _) s body h = cc
  raised_not_returned e (raised x) s body h = cc

  -- The handlers around the application, if they go on.
  app_error-InFlight :
      (e : Exn) (s : State) (body : Body)
      → (app_error out cfg e s).0 ≡ returned body
      → InFlight s (app_error out cfg e s).1
  unfolding app_error
  app_error-InFlight request_timeout s body h = app_failed-Keeps request_timeout s
  app_error-InFlight stop_iteration s body h = app_failed-Keeps stop_iteration s
  app_error-InFlight (error name) s body h = app_failed-Keeps (error name) s
  app_error-InFlight generator_exit s body h = frame.same s
  app_error-InFlight other_base s body h = frame.same s
  app_error-InFlight (system_exit code) s body h =
      let m : M (Unit {0}) =
        if code == 0
        then pure tt
        else update_req (with_exit out cfg code) >> finish_request out cfg false in
      absurd (raised_not_returned (system_exit code) (m s).0 (m s).1 body h)

  or_catch-InFlight :
      (r : Outcome Body Exn) (s t : State) (body : Body)
      → InFlight s t
      → (or_catch (app_error out cfg) r t).0 ≡ returned body
      → InFlight s (or_catch (app_error out cfg) r t).1
  or_catch-InFlight (returned b) s t body h e = h
  or_catch-InFlight (raised x) s t body h e =
      frame.trans s t (app_error out cfg x t).1 h (app_error-InFlight x t body e)

  run_app-InFlight :
      (app : App) (s : State) (body : Body)
      → (run_app out cfg app s).0 ≡ returned body
      → InFlight s (run_app out cfg app s).1
  unfolding run_app
  run_app-InFlight app s body h =
      let m : M Body = run_starts out cfg app.starts >> λ t. (app.result, t) in
      or_catch-InFlight (m s).0 s (m s).1 body
        (bind-Keeps frame (run_starts out cfg app.starts) (λ _ t. (app.result, t))
          (run_starts-Keeps out cfg runs app.starts) (λ _. frame.same) s)
        h

  and_then-InFlight :
      (r : Outcome Body Exn) (s t : State) (resp : Response)
      → ((body : Body) → r ≡ returned body → InFlight s t)
      → (and_then (wrap_response out cfg) r t).0 ≡ returned resp
      → InFlight s (and_then (wrap_response out cfg) r t).1
  and_then-InFlight (returned body) s t resp h e =
      frame.trans s t (wrap_response out cfg body t).1 (h body refl) (wrap_response-Keeps body t)
  and_then-InFlight (raised x) s t resp h e = cc

  respond-InFlight :
      (app : App) (s : State) (resp : Response)
      → (respond out cfg app s).0 ≡ returned resp
      → InFlight s (respond out cfg app s).1
  unfolding respond
  respond-InFlight app s resp h =
      and_then-InFlight (run_app out cfg app s).0 s (run_app out cfg app s).1 resp
        (run_app-InFlight app s) h

  track_request-req :
      (rid : String) (req : Request) (w : World) → (track_request out cfg rid req w).req ≡ req
  unfolding track_request
  track_request-req rid req w = refl

  get-track_request :
      (rid id : String) (req : Request) (w : World)
      → contains rid w.requests ≡ false
      → get id (track_request out cfg rid req w).world.requests
        ≡ (if rid == id then some req.oid else get id w.requests)
  unfolding track_request
  get-track_request rid id req w h = rw h (get-insert rid id req.oid w.requests)

  untracked-kept :
      (rid : String) (t u : State)
      → t.req.closed ≡ false
      → get "REQUEST_ID" t.req.environ.vars ≡ some rid
      → rid ≢ ""
      → Untracked out cfg t u
      → (id : String)
      → get id u.world.requests
        ≡ (if u.req.closed && rid == id then none else get id t.world.requests)
  unfolding Untracked
  untracked-kept rid t u h e ne (_, inl (c, r)) id = rw (c, h, r) refl
  untracked-kept rid t u h e ne (_, inr (_, c, r)) id =
      rw (c, r, e, untrack-some out cfg rid t.world.requests ne) (get-erase rid id t.world.requests)

  -- An open request whose environment has an id that is not empty and not in flight, which the
  -- middleware answers with a response, and then any sequence of `__next__`, `close` and
  -- `start_response` calls on it, errors included: as long as these have not closed it, the request is
  -- in flight under its id, and once they have, nothing is; every other id is throughout as it was
  -- before the request. After a `close` at the end `REQUESTS` is at every id what it was before.
  pub cycle_lem :
      (rid id : String) (req : Request) (app : App) (w : World) (resp : Response) (uses : List Use)
      → contains rid w.requests ≡ false
      → req.closed ≡ false
      → get "REQUEST_ID" req.environ.vars ≡ some rid
      → rid ≢ ""
      → (respond out cfg app (track_request out cfg rid req w)).0 ≡ returned resp
      → let u = run_uses out cfg uses (respond out cfg app (track_request out cfg rid req w)).1 in
        (get id u.world.requests
          ≡ (if rid == id then if u.req.closed then none else some req.oid else get id w.requests))
        × (get id (close out cfg u).1.world.requests ≡ get id w.requests)
  cycle_lem rid id req app w resp uses fresh open_ has ne h =
      let s = track_request out cfg rid req w in
      let t = (respond out cfg app s).1 in
      let u = run_uses out cfg uses t in
      let (same, env, not_closed) = parts s t (respond-InFlight app s resp h) in
      let r = track_request-req rid req w in
      let shut : t.req.closed ≡ false = not_closed ∙ ap (λ x. x.closed) r ∙ open_ in
      let id_of : get "REQUEST_ID" t.req.environ.vars ≡ some rid = rw (env, r) has in
      let before : (k : String)
          → get k t.world.requests ≡ (if rid == k then some req.oid else get k w.requests) =
        λ k. ap (get k) same ∙ get-track_request rid k req w fresh in
      let kept = run_uses-Untracked out cfg uses t in
      let after = untracked-kept rid t u shut id_of ne kept in
      let v = (close out cfg u).1 in
      let end =
        untracked-kept rid t v shut id_of ne
          (Untracked-trans out cfg t u v kept (close-Untracked out cfg u)) in
      (
        rw (after id, before id) (ground (arith, string_eq.beq_iff rid id)),
        rw (end id, before id, closed-close out cfg u) (ground (arith, string_eq.beq_iff rid id)),
      )
