-- ===== src/Wsgi/Middleware/Setup.antt =====
-- What TaliskerMiddleware of talisker/wsgi.py sets up before it calls the application: the ids, the
-- context, the debug flag and the deadline.
use mathlib.Core.Option
use talisker.Common.{
  String, Bool, true, false, Option, none, some, List, ◌≡◌, ◌≢◌, ◌↔◌, ℕ, if◌then◌else◌, refl, sym,
  ap, ◌∙◌, arith, inl, inr, Bool-cases, Option-cases, string_eq, ◌&&◌, ◌||◌, or_else, ◌==◌, ==_refl,
}
use talisker.Common.Int.{ℤ, pos, ◌+ℤ◌, ◌-ℤ◌, ◌≤ℤ◌, scale}
use talisker.Common.Dict.{Dict, get, contains, insert, update, get-insert, dict_laws}
use talisker.Context.Stack.{Outcome, returned, raised}
use talisker.Context.Data.{ContextData, Contexts, context_data}
use talisker.Context.Api.{
  DeadlineExceeded, deadline_exceeded, deadline_timeout, current, debug, new, modify_current,
  set_request_id, set_soft_timeout, set_debug, set_absolute_deadline, set_relative_deadline,
}
use talisker.Context.Api.Isolation.{current-new}
use talisker.Context.Api.Deadline.{
  current-modify_current, deadline_timeout_exact, deadline_timeout-none,
}
use talisker.Wsgi.Metadata.{truthy}
use talisker.Wsgi.Types.{Exn, World, Outside, Settings, Ids}
use talisker.Wsgi.Middleware.{
  with_ids, with_context, is_trusted_addr, after_check, check_debug, choose_deadline,
  header_deadline, set_deadline,
}

-- The address is one that may use debug headers.
abbrev pub is_true : Outcome Bool Exn → Bool
is_true (returned b) = b
is_true (raised e) = false

or_false : (b : Bool) → b || false ≡ b
or_false b = ground arith

==_ne : (a b : String) → a ≢ b → (a == b) ≡ false
==_ne a b h = ground (arith, string_eq.beq_iff a b)

or_true : (b : Bool) → b || true ≡ true
or_true b = ground arith

module _ (out : Outside) (cfg : Settings) where
  -- The context of a request is a new one, with the request's id and the configured soft timeout.
  pub current-with_context :
      (rid : String) (ids : Ids) (w : World)
      → current (with_context out cfg rid ids w).contexts
        ≡ some (record (context_data ids.context_id w.now) {
          request_id = some rid;
          soft_timeout = cfg.soft_request_timeout;
        })
  unfolding with_context set_soft_timeout set_request_id
  current-with_context rid ids w =
      rw
        (
          current-modify_current _ (modify_current _ (new ids.context_id w.now w.contexts).1),
          current-modify_current _ (new ids.context_id w.now w.contexts).1,
          current-new ids.context_id w.now w.contexts,
        )
        refl

  debug-set_debug :
      (w : Contexts String) (ctx : ContextData String)
      → current w ≡ some ctx
      → debug (set_debug w) ≡ true
  unfolding debug set_debug
  debug-set_debug w ctx h = rw (debug, current-modify_current _ w, h) refl

  debug-after_check :
      (check : Outcome Bool Exn) (route : Option (List String)) (w : World)
      (ctx : ContextData String)
      → current w.contexts ≡ some ctx
      → debug (after_check out cfg check route w).1.contexts ≡ debug w.contexts || is_true check
  unfolding after_check
  debug-after_check (raised e) route w ctx h = sym (or_false (debug w.contexts))
  debug-after_check (returned true) route w ctx h =
      debug-set_debug w.contexts ctx h ∙ sym (or_true (debug w.contexts))
  debug-after_check (returned false) none w ctx h = sym (or_false (debug w.contexts))
  debug-after_check (returned false) (some r) w ctx h = sym (or_false (debug w.contexts))

  -- The debug check turns debugging on exactly if the header is there and the client's address is
  -- trusted, and never off, whether it returns or raises.
  pub debug-check_debug :
      (vars : Dict String String) (route : Option (List String)) (w : World)
      (ctx : ContextData String)
      → current w.contexts ≡ some ctx
      → debug (check_debug out cfg vars route w).1.contexts
        ≡ debug w.contexts
          || (contains "HTTP_X_DEBUG" vars
              && is_true (is_trusted_addr cfg (get "CLIENT_ADDR" vars)))
  unfolding check_debug
  debug-check_debug vars route w ctx h = elim (Bool-cases (contains "HTTP_X_DEBUG" vars)) [
    | inl e ↦
        rw (e, check_debug)
          (debug-after_check (is_trusted_addr cfg (get "CLIENT_ADDR" vars)) route w ctx h)
    | inr e ↦ rw (e, check_debug) (sym (or_false (debug w.contexts)))
  ]

  current-choose_deadline :
      (deadline timeout : Option ℤ) (w : Contexts String) (ctx : ContextData String)
      → current w ≡ some ctx
      → current (choose_deadline out cfg deadline timeout w)
        ≡ some (record ctx {
          deadline =
              or_else deadline (
                or_else
                  (Option.map (λ t. pos ctx.start_time +ℤ scale 1000 t) timeout)
                  ctx.deadline);
        })
  unfolding set_absolute_deadline set_relative_deadline
  current-choose_deadline (some d) timeout w ctx h = rw (current-modify_current _ w, h) refl
  current-choose_deadline none (some t) w ctx h = rw (current-modify_current _ w, h) refl
  current-choose_deadline none none w ctx h = h

  current-set_deadline_from :
      (vars : Dict String String) (w : Contexts String) (ctx : ContextData String)
      → current w ≡ some ctx
      → current (set_deadline out cfg vars w)
        ≡ some (record ctx {
          deadline = or_else (header_deadline out cfg vars) (
              or_else
                (Option.map (λ t. pos ctx.start_time +ℤ scale 1000 t) cfg.request_timeout)
                ctx.deadline);
        })
  unfolding set_deadline
  current-set_deadline_from vars w ctx h =
      current-choose_deadline (header_deadline out cfg vars) cfg.request_timeout w ctx h

  -- The deadline by the configured timeout in milliseconds, if there is one.
  abbrev pub deadline_by : Option ℤ → ContextData String → Option ℤ
  deadline_by none ctx = ctx.deadline
  deadline_by (some t) ctx = some (pos ctx.start_time +ℤ scale 1000 t)

  -- The deadline that a request should have, by what is in its header.
  abbrev pub expected_deadline : Option String → ContextData String → Option ℤ
  expected_deadline none ctx = deadline_by cfg.request_timeout ctx
  expected_deadline (some shown) ctx =
      if shown == ""
      then deadline_by cfg.request_timeout ctx
      else or_else (cfg.parse_deadline shown) (deadline_by cfg.request_timeout ctx)

  or_else-deadline_by :
      (timeout : Option ℤ) (ctx : ContextData String)
      → or_else (Option.map (λ t. pos ctx.start_time +ℤ scale 1000 t) timeout) ctx.deadline
        ≡ deadline_by timeout ctx
  or_else-deadline_by none ctx = refl
  or_else-deadline_by (some t) ctx = refl

  header_deadline-expected :
      (vars : Dict String String) (ctx : ContextData String)
      → or_else (header_deadline out cfg vars) (deadline_by cfg.request_timeout ctx)
        ≡ expected_deadline (get "HTTP_X_REQUEST_DEADLINE" vars) ctx
  unfolding header_deadline truthy
  header_deadline-expected vars ctx = elim (Option-cases (get "HTTP_X_REQUEST_DEADLINE" vars)) [
    | inl e ↦ rw (e, header_deadline) refl
    | inr (shown, e) ↦ elim (Bool-cases (shown == "")) [
      | inl empty ↦ rw (e, header_deadline) (rw (empty) refl)
      | inr full ↦ rw (e, header_deadline) (rw (full) refl)
    ]
  ]

  -- What is left of a deadline at a time.
  abbrev pub TimeLeft : Option ℤ → ℕ → Outcome (Option ℤ) DeadlineExceeded → Type 0
  TimeLeft none now result = result ≡ returned none
  TimeLeft (some d) now result =
      ((result ≡ returned (some (d -ℤ pos now))) ↔ (¬ (d ≤ℤ pos now)))
      × ((result ≡ raised deadline_exceeded) ↔ (d ≤ℤ pos now))

  deadline_timeout-TimeLeft :
      (o : Option ℤ) (w : Contexts String) (ctx : ContextData String) (now : ℕ)
      → current w ≡ some ctx
      → ctx.deadline ≡ o
      → TimeLeft o now (deadline_timeout now w)
  deadline_timeout-TimeLeft none w ctx now e h = (deadline_timeout-none w now).1 (rw (e) h)
  deadline_timeout-TimeLeft (some d) w ctx now e h = deadline_timeout_exact w ctx d now e h

  -- In a request's context the deadline is what the header says, if there is one that is not empty
  -- and parses, else the configured timeout from the start of the request, else what it was; the
  -- rest of the context stays. From then on a call of `deadline_timeout` gives what is left of that
  -- deadline, raises from the deadline on, and gives `None` if there is none.
  pub current-set_deadline :
      (vars : Dict String String) (w : Contexts String) (ctx : ContextData String) (now : ℕ)
      → current w ≡ some ctx
      → let expected = expected_deadline (get "HTTP_X_REQUEST_DEADLINE" vars) ctx in
        (current (set_deadline out cfg vars w) ≡ some (record ctx { deadline = expected }))
        × TimeLeft expected now (deadline_timeout now (set_deadline out cfg vars w))
  current-set_deadline vars w ctx now h =
      let shown = get "HTTP_X_REQUEST_DEADLINE" vars in
      let e =
        current-set_deadline_from vars w ctx h
        ∙ ap (λ o. some (record ctx { deadline = or_else (header_deadline out cfg vars) o }))
            (or_else-deadline_by cfg.request_timeout ctx)
        ∙ ap (λ o. some (record ctx { deadline = o })) (header_deadline-expected vars ctx) in
      (
        e,
        deadline_timeout-TimeLeft (expected_deadline shown ctx) (set_deadline out cfg vars w)
            (record ctx { deadline = expected_deadline shown ctx }) now e refl,
      )

  get-two_ids :
      (rid sid : String) (v : Dict String String)
      → "SENTRY_ID" ≢ cfg.wsgi_id_header
      → "REQUEST_ID" ≢ cfg.wsgi_id_header
      → get cfg.wsgi_id_header v ≡ some rid
      → let v' = insert "SENTRY_ID" sid (insert "REQUEST_ID" rid v) in
        (get "REQUEST_ID" v' ≡ some rid)
        × (get cfg.wsgi_id_header v' ≡ some rid)
        × (get "SENTRY_ID" v' ≡ some sid)
  get-two_ids rid sid v h₁ h₂ e = (
    simp dict_laws refl,
    simp
        (
          dict_laws,
          ==_ne "SENTRY_ID" cfg.wsgi_id_header h₁,
          ==_ne "REQUEST_ID" cfg.wsgi_id_header h₂,
        )
        e,
    simp dict_laws refl,
  )

  -- The ids in the environment: the request's id is the one that the client sent, else a new one,
  -- and is under both names; the sentry id is always new.
  pub get-with_ids :
      (environ : Dict String String) (ids : Ids) (vars : Dict String String)
      → "SENTRY_ID" ≢ cfg.wsgi_id_header
      → "REQUEST_ID" ≢ cfg.wsgi_id_header
      → let (rid, v) = with_ids out cfg environ ids vars in
        (some rid ≡ or_else (get cfg.wsgi_id_header (update vars environ)) (some ids.uuid))
        × (get "REQUEST_ID" v ≡ some rid)
        × (get cfg.wsgi_id_header v ≡ some rid)
        × (get "SENTRY_ID" v ≡ some ids.sentry_id)
  unfolding with_ids
  get-with_ids environ ids vars h₁ h₂ =
      let v = update vars environ in
      elim (Option-cases (get cfg.wsgi_id_header v)) [
        | inl e ↦
            let (a, b, c) =
              get-two_ids ids.uuid ids.sentry_id (insert cfg.wsgi_id_header ids.uuid v) h₁ h₂ (
                rw
                  (
                    get-insert cfg.wsgi_id_header cfg.wsgi_id_header ids.uuid v,
                    ==_refl cfg.wsgi_id_header,
                  )
                  refl) in
            rw (e, with_ids) (refl, a, b, c)
        | inr (rid, e) ↦
            let (a, b, c) = get-two_ids rid ids.sentry_id v h₁ h₂ e in
            rw (e, with_ids) (refl, a, b, c)
      ]
