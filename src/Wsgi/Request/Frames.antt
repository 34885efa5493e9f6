-- ===== src/Wsgi/Request/Frames.antt =====
-- What `start_response` and the server's `start_response` keep, runs of the application's calls and
-- the error response of talisker/wsgi.py keep.
use talisker.Common.{String, Option, none, some, List, [], ◌∷◌}
use talisker.Util.Headers.{Headers}
use talisker.Wsgi.Types.{Exn, StartCall, State, Outside, Settings}
use talisker.Wsgi.Action.{◌>>◌, pure, Frame, Keeps, pure-Keeps, bind-Keeps}
use talisker.Wsgi.Request.{
  start_response, call_start_response, run_start, run_starts, error_response,
}

module _ (out : Outside) (cfg : Settings) where
  -- A frame that the two calls keep.
  pub record Runs (R : State → State → Type 0) : Type 0 where
    pub frame : Frame R
    pub start :
        (status : String) (headers : Headers) (e : Option Exn)
        → Keeps R (start_response out cfg status headers e)
    pub call : Keeps R (call_start_response out cfg)

  module _ {R : State → State → Type 0} (rs : Runs R) where
    pub run_start-Keeps :
        (status : Option String) (c : StartCall) → Keeps R (run_start out cfg status c)
    run_start-Keeps none c = pure-Keeps rs.frame tt
    run_start-Keeps (some status) c = rs.start status c.headers c.exc_info

    pub run_starts-Keeps : (starts : List StartCall) → Keeps R (run_starts out cfg starts)
    unfolding run_starts
    run_starts-Keeps [] = pure-Keeps rs.frame tt
    run_starts-Keeps (c ∷ starts) =
        bind-Keeps rs.frame (run_start out cfg c.status c) (λ _. run_starts out cfg starts)
          (run_start-Keeps c.status c) (λ _. run_starts-Keeps starts)

    pub error_response-Keeps : (e : Exn) → Keeps R (error_response out cfg e)
    unfolding error_response
    error_response-Keeps e s =
        let (content_type, body) = out.error_body e s.req.headers in
        bind-Keeps rs.frame
          (start_response out cfg "500 Internal Server Error" (("Content-Type", content_type) ∷ [])
            (some e))
          (λ _. call_start_response out cfg >> pure body) (rs.start _ _ _)
          (λ _.
            bind-Keeps rs.frame (call_start_response out cfg) (λ _. pure body) rs.call
              (λ _. pure-Keeps rs.frame body))
          s
