-- ===== src/Context/Api.antt =====
-- The methods of `ContextAPI` in talisker/context.py. A method that writes an attribute of the
-- current context writes the context back under its id; on `NULL_CONTEXT` it writes nothing.
pub mod Isolation
pub mod Lifetime
pub mod Deadline
pub mod Tracking
use talisker.Common.{
  ℕ, zero, suc, ◌+◌, String, Bool, true, false, Option, none, some, List, [], ◌∷◌, string_eq,
  if◌then◌else◌,
}
use talisker.Common.Int.{ℤ, pos, negsuc, ◌+ℤ◌, ◌-ℤ◌, scale, ltb_ℤ}
use talisker.Common.Dict.{Dict, get, insert}
use talisker.Context.Stack.{ContextStack, Outcome, returned, raised}
use talisker.Context.Data.{
  Tracker, new_tracker, ContextData, Contexts, get_context, create_context, delete_context,
  warn_null_context,
}

pub data DeadlineExceeded : Type 0 where
  deadline_exceeded : DeadlineExceeded

-- `current.tracking[_type].count += 1` and `.time += duration`, on a `defaultdict(Tracker)`.
unfoldable pub bump : String → ℕ → Dict String Tracker → Dict String Tracker
bump name duration tracking =
    let t : Tracker = elim (get name tracking) [ none ↦ new_tracker | some old ↦ old ] in
    insert name (record { count = t.count + 1; time = t.time + duration }) tracking

abbrev pub is_zero : ℤ → Bool
is_zero (pos zero) = true
is_zero (pos (suc n)) = false
is_zero (negsuc n) = false

module _ {V : Type 0} where
  unfoldable pub current : Contexts V → Option (ContextData V)
  unfolding get_context
  current = get_context none

  -- `if current is not NULL_CONTEXT: …`, a write to the current context.
  unfoldable pub modify_current : (ContextData V → ContextData V) → Contexts V → Contexts V
  modify_current change w = elim w.current_id [
    | none ↦ w
    | some i ↦ elim (get i w.context_map) [
      | none ↦ w
      | some ctx ↦ record w { context_map = insert i (change ctx) w.context_map }
    ]
  ]

  unfoldable pub clear : Contexts V → Contexts V
  unfolding delete_context
  clear w = elim w.current_id [
    | none ↦ w
    | some i ↦ record (delete_context i w).1 { current_id = none }
  ]

  unfoldable pub new : String → ℕ → Contexts V → ContextData V × Contexts V
  unfolding clear create_context
  new uuid now w =
      let (ctx, w') = create_context none uuid now (clear w) in
      (ctx, record w' { current_id = some ctx.id })

  unfoldable pub request_id : Contexts V → Option String
  request_id w = elim (current w) [ none ↦ none | some ctx ↦ ctx.request_id ]

  unfoldable pub set_request_id : Option String → Contexts V → Contexts V
  set_request_id rid = modify_current (λ ctx. record ctx { request_id = rid })

  unfoldable pub debug : Contexts V → Bool
  debug w = elim (current w) [ none ↦ false | some ctx ↦ ctx.debug ]

  unfoldable pub set_debug : Contexts V → Contexts V
  set_debug = modify_current (λ ctx. record ctx { debug = true })

  unfoldable pub soft_timeout : Contexts V → ℤ
  soft_timeout w = elim (current w) [ none ↦ negsuc 0 | some ctx ↦ ctx.soft_timeout ]

  unfoldable pub set_soft_timeout : ℤ → Contexts V → Contexts V
  set_soft_timeout timeout = modify_current (λ ctx. record ctx { soft_timeout = timeout })

  -- `timeout` is in milliseconds.
  unfoldable pub set_relative_deadline : ℤ → Contexts V → Contexts V
  set_relative_deadline timeout =
      modify_current
        λ ctx. record ctx { deadline = some (pos ctx.start_time +ℤ scale 1000 timeout) }

  unfoldable pub set_absolute_deadline : ℤ → Contexts V → Contexts V
  set_absolute_deadline deadline = modify_current (λ ctx. record ctx { deadline = some deadline })

  -- The time left, at the time `now`.
  unfoldable pub deadline_timeout : ℕ → Contexts V → Outcome (Option ℤ) DeadlineExceeded
  deadline_timeout now w = elim (current w) [
    | none ↦ returned none
    | some ctx ↦ elim ctx.deadline [
      | none ↦ returned none
      | some deadline ↦
          let timeout = deadline -ℤ pos now in
          if ltb_ℤ (pos 0) timeout then returned (some timeout) else raised deadline_exceeded
    ]
  ]

  unfoldable pub track : String → ℕ → Contexts V → Contexts V
  unfolding warn_null_context
  track name duration w = elim (current w) [
    | none ↦ warn_null_context "track" w
    | some _ ↦ modify_current (λ ctx. record ctx { tracking = bump name duration ctx.tracking }) w
  ]

  -- The wrapper of `request_timeout`: the two timeouts are set before `f` runs. A timeout of zero
  -- is falsy, like none.
  unfoldable pub request_timeout : Option ℤ → Option ℤ → Contexts V → Contexts V
  request_timeout timeout soft w =
      let w' : Contexts V = elim timeout [
        | none ↦ w
        | some t ↦ if is_zero t then w else set_relative_deadline t w
      ] in
      elim soft [ none ↦ w' | some t ↦ if is_zero t then w' else set_soft_timeout t w' ]
