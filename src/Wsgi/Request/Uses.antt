-- ===== src/Wsgi/Request/Uses.antt =====
-- The uses that a server and an application make of a request of talisker/wsgi.py, and the relations
-- between states that all of them keep.
use talisker.Common.{
  ℕ, not, Option, none, some, List, [], ◌∷◌, ◌≡◌, refl, inl, inr, Bool-cases, is_some, ◌&&◌, ◌||◌,
}
use talisker.Wsgi.Types.{
  Exn, request_timeout, stop_iteration, generator_exit, other_base, error, system_exit, StartCall,
  Iter, Step, Request, State, Outside, Settings, is_exception,
}
use talisker.Wsgi.Action.{
  M, ◌>>=◌, ◌>>◌, pure, raise, handle, update_req, when, Keeps, pure-Keeps, raise-Keeps, when-Keeps,
  bind-Keeps, handle-Keeps,
}
use talisker.Wsgi.Request.{
  call_start_response, run_start, run_starts, next_step, next_of, next_iter, failed, with_error,
  with_exit, answered, counted, wrapped_next, error_response, on_error, on_end, advance, next,
  close, ensure_started, is_exit,
}
use talisker.Wsgi.Request.Frames.{Runs, run_start-Keeps, run_starts-Keeps, error_response-Keeps}

-- What the server and the application can do with a request: take the next chunk, close it, and
-- call its `start_response`.
pub data Use : Type 0 where
  use_next use_close : Use
  use_start : StartCall → Use

module _ (out : Outside) (cfg : Settings) where
  use_step : Use → State → State
  unfolding next close
  use_step use_next s = (next out cfg s).1
  use_step use_close s = (close out cfg s).1
  use_step (use_start c) s = (run_start out cfg c.status c s).1

  -- The state after a sequence of uses.
  unfoldable pub run_uses : List Use → State → State
  unfolding use_step
  run_uses [] s = s
  run_uses (u ∷ uses) s = run_uses uses (use_step u s)

  -- A relation that the parts of the methods keep.
  pub record Moves (R : State → State → Type 0) : Type 0 where
    pub runs : Runs out cfg R
    pub update :
        (f : Request → Request)
        → ((r : Request) → (f r).closed ≡ r.closed)
        → ((r : Request) → (f r).environ ≡ r.environ)
        → Keeps R (update_req f)
    pub counted : (n : ℕ) → Keeps R (counted out cfg n)
    pub close : Keeps R (close out cfg)

  module _ {R : State → State → Type 0} (mv : Moves R) where
    ensure_started-Keeps : Keeps R (ensure_started out cfg)
    ensure_started-Keeps s =
        when-Keeps mv.runs.frame (not s.req.start_response_called) (call_start_response out cfg)
          mv.runs.call s

    next_step-Keeps : (it : Iter) (steps : List Step) → Keeps R (next_step out cfg it steps)
    unfolding next_step
    next_step-Keeps it [] = raise-Keeps mv.runs.frame ℕ stop_iteration
    next_step-Keeps it (step ∷ steps) =
        bind-Keeps mv.runs.frame
          (update_req (λ r. record r { iter = some (record it { steps = steps }) }))
          (λ _. run_starts out cfg step.starts >> λ s. (step.result, s))
          (mv.update _ (λ r. refl) (λ r. refl))
          (λ _.
            bind-Keeps mv.runs.frame (run_starts out cfg step.starts) (λ _ s. (step.result, s))
              (run_starts-Keeps out cfg mv.runs step.starts) (λ _. mv.runs.frame.same))

    next_of-Keeps : (it : Option Iter) → Keeps R (next_of out cfg it)
    unfolding next_of
    next_of-Keeps none = raise-Keeps mv.runs.frame ℕ (error "TypeError")
    next_of-Keeps (some it) = next_step-Keeps it it.steps

    next_iter-Keeps : Keeps R (next_iter out cfg)
    unfolding next_iter
    next_iter-Keeps s = next_of-Keeps s.req.iter s

    then_raise-Keeps : (m : M (Unit {0})) (e : Exn) → Keeps R m → Keeps R (m >> raise {A = ℕ} e)
    then_raise-Keeps m e h =
        bind-Keeps mv.runs.frame m (λ _. raise e) h (λ _. raise-Keeps mv.runs.frame ℕ e)

    answered-Keeps : (body : ℕ) → Keeps R (answered out cfg body)
    answered-Keeps body =
        bind-Keeps mv.runs.frame
          (update_req (λ r. record r { iter = some (record { steps = []; close = none }) }))
          (λ _. pure body) (mv.update _ (λ r. refl) (λ r. refl))
          (λ _. pure-Keeps mv.runs.frame body)

    failed-Keeps : (e : Exn) → Keeps R (failed out cfg e)
    unfolding failed
    failed-Keeps e =
        bind-Keeps mv.runs.frame (update_req (with_error out cfg e))
          (λ _. error_response out cfg e >>= answered out cfg)
          (mv.update (with_error out cfg e) (λ r. refl) (λ r. refl))
          (λ _.
            bind-Keeps mv.runs.frame (error_response out cfg e) (answered out cfg)
              (error_response-Keeps out cfg mv.runs e) answered-Keeps)

    on_error-Keeps : (e : Exn) → Keeps R (on_error out cfg e)
    unfolding on_error
    on_error-Keeps stop_iteration =
        then_raise-Keeps (ensure_started out cfg) stop_iteration ensure_started-Keeps
    on_error-Keeps generator_exit =
        then_raise-Keeps (ensure_started out cfg) generator_exit ensure_started-Keeps
    on_error-Keeps (system_exit code) =
        then_raise-Keeps (update_req (with_exit out cfg code)) (system_exit code)
          (mv.update (with_exit out cfg code) (λ r. refl) (λ r. refl))
    on_error-Keeps other_base = raise-Keeps mv.runs.frame ℕ other_base
    on_error-Keeps request_timeout = failed-Keeps request_timeout
    on_error-Keeps (error name) = failed-Keeps (error name)

    on_end-Keeps : (e : Exn) → Keeps R (on_end out cfg e)
    unfolding on_end
    on_end-Keeps e =
        then_raise-Keeps (when (is_exception e || is_exit e) (close out cfg)) e
          (when-Keeps mv.runs.frame (is_exception e || is_exit e) (close out cfg) mv.close)

    advance-Keeps : Keeps R (advance out cfg)
    unfolding advance
    advance-Keeps =
        handle-Keeps mv.runs.frame
          (handle (next_iter out cfg >>= λ n. (ensure_started out cfg >> pure n))
            (on_error out cfg))
          (on_end out cfg)
          (handle-Keeps mv.runs.frame
            (next_iter out cfg >>= λ n. (ensure_started out cfg >> pure n)) (on_error out cfg)
            (bind-Keeps mv.runs.frame (next_iter out cfg) (λ n. (ensure_started out cfg >> pure n))
              next_iter-Keeps
              (λ n.
                bind-Keeps mv.runs.frame (ensure_started out cfg) (λ _. pure n) ensure_started-Keeps
                  (λ _. pure-Keeps mv.runs.frame n)))
            on_error-Keeps)
          on_end-Keeps

    wrapped_next-Keeps : Keeps R (wrapped_next out cfg)
    unfolding wrapped_next
    wrapped_next-Keeps s =
        bind-Keeps mv.runs.frame
          (when (is_some s.req.status && not s.req.start_response_called)
            (call_start_response out cfg))
          (λ _. advance out cfg >>= counted out cfg)
          (when-Keeps mv.runs.frame (is_some s.req.status && not s.req.start_response_called)
            (call_start_response out cfg) mv.runs.call)
          (λ _.
            bind-Keeps mv.runs.frame (advance out cfg) (counted out cfg) advance-Keeps mv.counted)
          s

    next-Keeps : Keeps R (next out cfg)
    unfolding next
    next-Keeps s = elim (Bool-cases (is_some s.req.iter)) [
      | inl h ↦ rw (h, next) (wrapped_next-Keeps s)
      | inr h ↦ rw (h, next) (mv.runs.frame.same s)
    ]

    use_step-Keeps : (u : Use) (s : State) → R s (use_step u s)
    unfolding use_step
    use_step-Keeps use_next s = next-Keeps s
    use_step-Keeps use_close s = mv.close s
    use_step-Keeps (use_start c) s = run_start-Keeps out cfg mv.runs c.status c s

    pub run_uses-Keeps : (uses : List Use) (s : State) → R s (run_uses uses s)
    unfolding run_uses
    run_uses-Keeps [] s = mv.runs.frame.same s
    run_uses-Keeps (u ∷ uses) s =
        mv.runs.frame.trans s (use_step u s) (run_uses uses (use_step u s)) (use_step-Keeps u s)
          (run_uses-Keeps uses (use_step u s))
