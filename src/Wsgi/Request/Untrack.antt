-- ===== src/Wsgi/Request/Untrack.antt =====
-- What the uses of a request of talisker/wsgi.py do to `REQUESTS`.
use talisker.Common.{
  ℕ, true, false, ◌≡◌, ◌⊎◌, refl, sym, ap, ◌∙◌, arith, inl, inr, Bool-cases, List, string_eq,
}
use talisker.Common.Dict.{get}
use talisker.Wsgi.Types.{Request, State, Outside, Settings}
use talisker.Wsgi.Action.{update_req, Frame, Keeps}
use talisker.Wsgi.Metadata.{truthy}
use talisker.Wsgi.Request.{start_response, call_start_response, counted, close, untrack}
use talisker.Wsgi.Request.Frames.{Runs}
use talisker.Wsgi.Request.Uses.{Use, run_uses, Moves, run_uses-Keeps}
use talisker.Wsgi.Request.Close.{close-Finished, close_closed, timed-environ}

module _ (out : Outside) (cfg : Settings) where
  -- From `s` to `t`, either the request was not closed and `REQUESTS` is the same, or it was closed
  -- and untracked.
  unfoldable pub Untracked : State → State → Type 0
  Untracked s t =
      (t.req.environ ≡ s.req.environ)
      × (((t.req.closed ≡ s.req.closed) × (t.world.requests ≡ s.world.requests))
          ⊎ ((s.req.closed ≡ false)
              × (t.req.closed ≡ true)
              × (t.world.requests
                  ≡ untrack out cfg (truthy (get "REQUEST_ID" s.req.environ.vars))
                      s.world.requests)))

  pub Untracked-trans : (s t u : State) → Untracked s t → Untracked t u → Untracked s u
  unfolding Untracked
  Untracked-trans s t u (e, inl (a, b)) (e', inl (c, d)) = (e' ∙ e, inl (c ∙ a, d ∙ b))
  Untracked-trans s t u (e, inl (a, b)) (e', inr (c, d, r)) =
      (e' ∙ e, inr (sym a ∙ c, d, rw (r, e, b) refl))
  Untracked-trans s t u (e, inr (a, b, r)) (e', inl (c, d)) = (e' ∙ e, inr (a, c ∙ b, d ∙ r))
  Untracked-trans s t u (e, inr (a, b, r)) (e', inr (a', b', r')) = cc

  frame : Frame Untracked
  frame = record {
    same = λ s. (unfold Untracked in (refl, inl (refl, refl)));
    trans = Untracked-trans;
  }

  runs : Runs out cfg Untracked
  unfolding Untracked start_response call_start_response
  runs = record {
    frame = frame;
    start = λ status headers e s. ground arith;
    call = λ s. ground arith;
  }

  pub close-Untracked : Keeps Untracked (close out cfg)
  close-Untracked s = elim (Bool-cases s.req.closed) [
    | inl h ↦ rw (close_closed out cfg s h) (frame.same s)
    | inr h ↦
        let f = (close-Finished out cfg s h).1 in
        unfold Untracked in
        (
          ap (λ x. x.environ) f.req ∙ timed-environ out cfg false s.world.now s.req,
          inr (h, ap (λ x. x.closed) f.req, f.requests),
        )
  ]

  pub closed-close : (s : State) → (close out cfg s).1.req.closed ≡ true
  closed-close s = elim (Bool-cases s.req.closed) [
    | inl h ↦ rw (close_closed out cfg s h) h
    | inr h ↦ ap (λ x. x.closed) (close-Finished out cfg s h).1.req
  ]

  counted-Keeps : (n : ℕ) → Keeps Untracked (counted out cfg n)
  unfolding counted Untracked
  counted-Keeps n s = (refl, inl (refl, refl))

  update-Keeps :
      (f : Request → Request)
      → ((r : Request) → (f r).closed ≡ r.closed)
      → ((r : Request) → (f r).environ ≡ r.environ)
      → Keeps Untracked (update_req f)
  unfolding Untracked
  update-Keeps f h e s = (e s.req, inl (h s.req, refl))

  moves : Moves out cfg Untracked
  moves = record {
    runs = runs;
    update = update-Keeps;
    counted = counted-Keeps;
    close = close-Untracked;
  }

  pub run_uses-Untracked : (uses : List Use) (s : State) → Untracked s (run_uses out cfg uses s)
  run_uses-Untracked uses s = run_uses-Keeps out cfg moves uses s
