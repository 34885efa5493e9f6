-- ===== src/Wsgi/Request/Once.antt =====
-- However a server and an application use a request of talisker/wsgi.py, it is recorded once.
use talisker.Common.{
  ℕ, String, true, false, Option, List, [], ◌∷◌, ◌++◌, ◌≡◌, ◌⊎◌, refl, sym, ◌∙◌, arith, inl, inr,
  Bool-cases,
}
use talisker.Common.Dict.{Dict}
use talisker.Util.Headers.{Headers}
use talisker.Wsgi.Types.{Exn, Meta, Request, State, Outside, Settings}
use talisker.Wsgi.Action.{update_req, Frame, Keeps}
use talisker.Wsgi.Request.{start_response, call_start_response, counted, close}
use talisker.Wsgi.Request.Frames.{Runs}
use talisker.Wsgi.Request.Uses.{Use, run_uses, Moves, run_uses-Keeps}
use talisker.Wsgi.Request.Close.{close-Finished, close_closed}

-- From `s` to `t`, either the request was not closed and nothing was logged, or it was closed and
-- logged once.
unfoldable pub LoggedOnce : State → State → Type 0
LoggedOnce s t =
    ((t.req.closed ≡ s.req.closed) × (t.world.logs ≡ s.world.logs))
    ⊎ ((s.req.closed ≡ false)
        × (t.req.closed ≡ true)
        × ((m : Dict String Meta) × (t.world.logs ≡ s.world.logs ++ m ∷ [])))

LoggedOnce-trans : (s t u : State) → LoggedOnce s t → LoggedOnce t u → LoggedOnce s u
unfolding LoggedOnce
LoggedOnce-trans s t u (inl (a, b)) (inl (c, d)) = inl (c ∙ a, d ∙ b)
LoggedOnce-trans s t u (inl (a, b)) (inr (c, d, (m, e))) = inr (sym a ∙ c, d, (m, rw (e, b) refl))
LoggedOnce-trans s t u (inr (c, d, (m, e))) (inl (a, b)) = inr (c, a ∙ d, (m, b ∙ e))
LoggedOnce-trans s t u (inr (c, d, (m, e))) (inr (c', d', (m', e'))) = cc

frame : Frame LoggedOnce
frame = record { same = λ s. (unfold LoggedOnce in inl (refl, refl)); trans = LoggedOnce-trans }

module _ (out : Outside) (cfg : Settings) where
  update_req-Keeps :
      (f : Request → Request)
      → ((r : Request) → (f r).closed ≡ r.closed)
      → Keeps LoggedOnce (update_req f)
  unfolding LoggedOnce
  update_req-Keeps f h s = inl (h s.req, refl)

  start_response-Keeps :
      (status : String) (headers : Headers) (e : Option Exn)
      → Keeps LoggedOnce (start_response out cfg status headers e)
  unfolding LoggedOnce start_response
  start_response-Keeps status headers e s = ground arith

  call_start_response-Keeps : Keeps LoggedOnce (call_start_response out cfg)
  unfolding LoggedOnce call_start_response
  call_start_response-Keeps s = ground arith

  runs : Runs out cfg LoggedOnce
  runs = record { frame = frame; start = start_response-Keeps; call = call_start_response-Keeps }

  close-Keeps : Keeps LoggedOnce (close out cfg)
  close-Keeps s = elim (Bool-cases s.req.closed) [
    | inl h ↦ rw (close_closed out cfg s h) (frame.same s)
    | inr h ↦
        let f = (close-Finished out cfg s h).1 in
        unfold LoggedOnce in inr (h, rw (f.req) refl, (_, f.logs))
  ]

  counted-Keeps : (n : ℕ) → Keeps LoggedOnce (counted out cfg n)
  unfolding counted LoggedOnce
  counted-Keeps n s = inl (refl, refl)

  moves : Moves out cfg LoggedOnce
  moves = record {
    runs = runs;
    update = λ f h _. update_req-Keeps f h;
    counted = counted-Keeps;
    close = close-Keeps;
  }

  -- Whatever sequence of `__next__`, `close` and `start_response` calls a request gets, errors and
  -- exceptions included: it is logged once if they close it, and not at all if they do not.
  pub run_uses-LoggedOnce : (uses : List Use) (s : State) → LoggedOnce s (run_uses out cfg uses s)
  run_uses-LoggedOnce uses s = run_uses-Keeps out cfg moves uses s
