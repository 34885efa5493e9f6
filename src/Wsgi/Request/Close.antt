-- ===== src/Wsgi/Request/Close.antt =====
-- Closing a request in talisker/wsgi.py: `close` and what `finish_request` does to the process.
use talisker.Common.{
  ℕ, ◌+◌, String, Bool, true, false, Option, none, some, [], ◌∷◌, ◌++◌, ◌≡◌, ◌≢◌, refl, arith, inl,
  inr, Bool-cases, string_eq, ◌==◌,
}
use talisker.Common.Dict.{Dict, get, erase}
use talisker.Context.Stack.{Outcome, returned}
use talisker.Context.Api.{clear}
use talisker.Wsgi.Types.{Exn, Request, World, State, Outside, Settings}
use talisker.Wsgi.Metadata.{get_metadata, metric_events, truthy}
use talisker.Wsgi.Request.{
  timed, finish_request, call_iter_close, close_method, close_iter, finally_finish, close, untrack,
}

-- An iterator's `close`, if it has one, does not raise.
abbrev pub Quiet : Option (Option Exn) → Type 0
Quiet none = Unit {0}
Quiet (some none) = Unit {0}
Quiet (some (some e)) = ⊥

module _ (out : Outside) (cfg : Settings) where
  pub call_iter_close-Quiet :
      (m : Option (Option Exn)) (s : State)
      → Quiet m
      → (call_iter_close out cfg m s).0 ≡ returned tt
  unfolding call_iter_close
  call_iter_close-Quiet none s q = refl
  call_iter_close-Quiet (some none) s q = refl
  call_iter_close-Quiet (some (some e)) s q = absurd q

  pub close_open :
      (s : State)
      → s.req.closed ≡ false
      → close out cfg s ≡ finally_finish out cfg (close_iter out cfg s).0 (close_iter out cfg s).1
  unfolding close
  close_open s h = ground arith

  with_closes : ℕ → State → State
  with_closes n s = record s { world = record s.world { iter_closes = n } }

  call_iter_close-frame :
      (m : Option (Option Exn)) (s : State)
      → (n : ℕ) × ((call_iter_close out cfg m s).1 ≡ with_closes n s)
  unfolding call_iter_close with_closes
  call_iter_close-frame none s = (s.world.iter_closes, refl)
  call_iter_close-frame (some none) s = (s.world.iter_closes + 1, refl)
  call_iter_close-frame (some (some e)) s = (s.world.iter_closes + 1, refl)

  pub close_closed : (s : State) → s.req.closed ≡ true → close out cfg s ≡ (returned tt, s)
  unfolding close
  close_closed s h = ground arith

  -- The `close` of an iterator changes no more than the count of such calls.
  close_iter-frame : (s : State) → (n : ℕ) × ((close_iter out cfg s).1 ≡ with_closes n s)
  unfolding close_iter
  close_iter-frame s = call_iter_close-frame (close_method out cfg s.req.iter) s

  metadata_contexts :
      (r : Request) (w : World) (n : ℕ)
      → get_metadata out r (record w { iter_closes = n }) ≡ get_metadata out r w
  unfolding get_metadata
  metadata_contexts r w n = refl

  -- What closing an open request does to the process.
  pub record Finished (s s' : State) : Type 0 where
    pub req : s'.req ≡ record (timed out cfg false s.world.now s.req).0 { closed = true }
    pub logs :
        s'.world.logs
        ≡ s.world.logs ++ get_metadata out (timed out cfg false s.world.now s.req).0 s.world ∷ []
    pub metrics :
        s'.world.metrics
        ≡ s.world.metrics ++ metric_events out (timed out cfg false s.world.now s.req).0
    pub contexts : s'.world.contexts ≡ clear s.world.contexts
    pub requests :
        s'.world.requests
        ≡ untrack out cfg (truthy (get "REQUEST_ID" s.req.environ.vars)) s.world.requests
    pub upstream : s'.world.upstream ≡ s.world.upstream
    pub sent : s'.world.sent ≡ s.world.sent

  pub timed-environ :
      (timeout : Bool) (now : ℕ) (r : Request) → (timed out cfg timeout now r).0.environ ≡ r.environ
  unfolding timed
  timed-environ timeout now r = ground arith

  finally-Finished :
      (n : ℕ) (r : Outcome (Unit {0}) Exn) (s : State)
      → ((finally_finish out cfg r (with_closes n s)).0 ≡ r)
        × Finished s (finally_finish out cfg r (with_closes n s)).1
  unfolding finally_finish finish_request with_closes
  finally-Finished n r s = (
    refl,
    record {
      req = refl;
      logs = rw (metadata_contexts (timed out cfg false s.world.now s.req).0 s.world n) refl;
      metrics = refl;
      contexts = refl;
      requests = rw (timed-environ false s.world.now s.req) refl;
      upstream = refl;
      sent = refl;
    },
  )

  -- Closing an open request runs the iterator's `close` and, whether or not that raises, finishes the
  -- request: one access log, the metrics, the context cleared and the id untracked; what the
  -- iterator's `close` raised goes on.
  pub close-Finished :
      (s : State)
      → s.req.closed ≡ false
      → ((close out cfg s).0 ≡ (close_iter out cfg s).0) × Finished s (close out cfg s).1
  close-Finished s h =
      let (n, frame) = close_iter-frame s in
      rw (close_open s h, frame) (finally-Finished n (close_iter out cfg s).0 s)

  -- A second `close` does nothing, whatever the first one returned or raised.
  pub close_twice :
      (s : State) → close out cfg (close out cfg s).1 ≡ (returned tt, (close out cfg s).1)
  close_twice s = elim (Bool-cases s.req.closed) [
    | inl closed ↦ rw (close_closed s closed) (close_closed s closed)
    | inr h ↦ close_closed (close out cfg s).1 (rw ((close-Finished s h).1.req) refl)
  ]

  pub untrack-some :
      (rid : String) (requests : Dict String ℕ)
      → rid ≢ ""
      → untrack out cfg (truthy (some rid)) requests ≡ erase rid requests
  unfolding truthy
  untrack-some rid requests ne = elim (Bool-cases (rid == "")) [
    | inl e ↦ absurd (ne ((string_eq.beq_iff rid "").0 e))
    | inr e ↦ rw e refl
  ]
