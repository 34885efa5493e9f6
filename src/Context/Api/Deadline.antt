-- ===== src/Context/Api/Deadline.antt =====
-- The deadline of a request: what is set, what is left of it, and when it is exceeded.
use talisker.Common.{
  ℕ, ◌+◌, none, some, ◌≡◌, refl, arith, string_eq, ◌↔◌, ◌*◌, ◌-◌, ltb, if◌then◌else◌, Option-cases,
  inl, inr,
}
use mathlib.Core.Option
use talisker.Common.Int.{ℤ, pos, ◌+ℤ◌, ◌-ℤ◌, ◌≤ℤ◌, scale, int_laws}
use talisker.Common.Dict.{get, get-insert}
use talisker.Context.Stack.{returned, raised}
use talisker.Context.Data.{ContextData, Contexts, get_context}
use talisker.Context.Api.{
  deadline_exceeded, current, modify_current, set_relative_deadline, deadline_timeout,
}

module _ {V : Type 0} where
  -- A write changes the current context as asked, and leaves `NULL_CONTEXT` as it is.
  pub current-modify_current :
      (change : ContextData V → ContextData V) (w : Contexts V)
      → current (modify_current change w) ≡ Option.map change (current w)
  unfolding current modify_current get_context
  current-modify_current change w = elim (Option-cases w.current_id) [
    | inl e ↦ rw (e, current, modify_current) (rw (e, get_context) refl)
    | inr (i, e) ↦ elim (Option-cases (get i w.context_map)) [
      | inl missing ↦ ground arith
      | inr (ctx, found) ↦
          ground (arith, get-insert i i (change ctx) w.context_map, string_eq.beq_iff i i)
    ]
  ]

  -- With a context whose deadline is `deadline`, the time left at `now` is returned exactly while
  -- `now` is before the deadline; from the deadline on the call raises.
  pub deadline_timeout_exact :
      (w : Contexts V) (ctx : ContextData V) (deadline : ℤ) (now : ℕ)
      → current w ≡ some ctx
      → ctx.deadline ≡ some deadline
      → ((deadline_timeout now w ≡ returned (some (deadline -ℤ pos now)))
          ↔ (¬ (deadline ≤ℤ pos now)))
        × ((deadline_timeout now w ≡ raised deadline_exceeded) ↔ (deadline ≤ℤ pos now))
  unfolding deadline_timeout
  deadline_timeout_exact w ctx deadline now e d = grind int_laws

  -- The call returns `None` exactly when there is no current context, or one without a deadline.
  pub deadline_timeout-none :
      (w : Contexts V) (now : ℕ)
      → (deadline_timeout now w ≡ returned none)
        ↔ (Option.get_or (Option.map (λ ctx. ctx.deadline) (current w)) none ≡ none)
  unfolding deadline_timeout
  deadline_timeout-none w now = ground arith

  -- A request that is given `timeout` milliseconds from its start has, at any later time, exactly
  -- what is left of them, and is refused once they have passed.
  pub relative_deadline_left :
      (w : Contexts V) (ctx : ContextData V) (timeout elapsed : ℕ)
      → current w ≡ some ctx
      → deadline_timeout (ctx.start_time + elapsed) (set_relative_deadline (pos timeout) w) ≡ (
          if ltb elapsed (1000 * timeout)
          then returned (some (pos (1000 * timeout - elapsed)))
          else raised deadline_exceeded)
  unfolding deadline_timeout set_relative_deadline
  relative_deadline_left w ctx timeout elapsed e =
      rw (deadline_timeout, set_relative_deadline, current-modify_current _ w, e)
        (unfold ◌+ℤ◌ ◌-ℤ◌ scale in ground arith)
