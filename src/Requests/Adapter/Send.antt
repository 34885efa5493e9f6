-- ===== src/Requests/Adapter/Send.antt =====
-- `TaliskerAdapter.send` and the validation of backends of talisker/requests.py.
use mathlib.Core.Option
use talisker.Common.{
  ◌⊎◌, inl, inr, Option-cases, ◌∙◌, ℕ, zero, suc, ◌≤◌, min, String, Option, none, some, List, [],
  ◌∷◌, ◌≡◌, refl, arith, string_eq,
}
use talisker.Common.Int.{ℤ, pos, pos_part}
use talisker.Common.Lists.{All}
use talisker.Context.Stack.{Outcome, returned, raised}
use talisker.Context.Data.{Contexts}
use talisker.Context.Api.{DeadlineExceeded, deadline_timeout}
use talisker.Requests.Adapter.{
  Reply, response, connection_error, SendError, connection_failed, RetryOps, Backend, Attempt,
  SendState, attempt, select_backend, send_loop,
}
use talisker.Requests.Adapter.Loop.{
  InBudget, ResultInTime, send_loop-ResultInTime, select_backend-frame,
}

-- The forms of the `timeout` argument; a tuple is its numbers and perhaps a retry behind them.
pub data Timeout (R : Type 0) : Type 0 where
  no_timeout : Timeout R
  number_timeout : ℕ → Timeout R
  retry_timeout : R → Timeout R
  tuple_timeout : List ℕ → Option R → Timeout R

pub record Limits (R : Type 0) : Type 0 where
  pub connect : ℕ
  pub read : ℕ
  pub retry : Option R

module _ {R : Type 0} where
  abbrev or_retry : Option R → Option R → Option R
  or_retry none r = r
  or_retry (some r) _ = some r

  -- The timeouts and the retry of a call; `none` is the `ValueError`. A number sets the read timeout
  -- to the adapter's connect timeout, and zero and the empty tuple are falsy.
  unfoldable pub parse_timeout : Timeout R → Limits R → Option (Limits R)
  parse_timeout no_timeout d = some d
  parse_timeout (number_timeout zero) d = some d
  parse_timeout (number_timeout (suc n)) d = some (record d { read = d.connect })
  parse_timeout (retry_timeout r) d = some (record d { retry = some r })
  parse_timeout (tuple_timeout [] none) d = some d
  parse_timeout (tuple_timeout [] (some r)) d = none
  parse_timeout (tuple_timeout (read ∷ []) r) d =
      some (record d { read = read; retry = or_retry r d.retry })
  parse_timeout (tuple_timeout (connect ∷ read ∷ []) r) d =
      some (record { connect = connect; read = read; retry = or_retry r d.retry })
  parse_timeout (tuple_timeout (a ∷ b ∷ c ∷ rest) r) d = none

  -- `if ctx_timeout is not None: …`
  unfoldable pub within_deadline : Option ℤ → Limits R → Limits R
  within_deadline none limits = limits
  within_deadline (some left) limits = record limits {
    connect = min limits.connect (pos_part left);
    read = min limits.read (pos_part left);
  }

pub data AdapterError : Type 0 where
  value_error deadline_error : AdapterError

module _ {R : Type 0} (ops : RetryOps R)
    (super_send : List Attempt → Option Backend → ℕ × ℕ → Reply × ℕ) where
  unfoldable pub as_result : Reply → Outcome Reply SendError
  as_result (connection_error e) = raised (connection_failed e)
  as_result (response status retry_after) = returned (response status retry_after)

  -- The base class' call or, with a retry, the loop, from the time `start`.
  unfoldable pub base_or_loop :
      ℕ → ℕ → Limits R → Option R → SendState R → Option (Outcome Reply SendError × SendState R)
  unfolding as_result
  base_or_loop start fuel limits none s =
      let (reply, t) = attempt ops super_send start limits.read (limits.connect, limits.read) s in
      some (as_result reply, t)
  base_or_loop start fuel limits (some r) s =
      send_loop ops super_send start limits.read fuel (limits.connect, limits.read)
        (record s { retry = r })

  -- What follows once the timeouts are known. `new_retry` is `Retry.new`.
  unfoldable pub start_send :
      (R → R) → ℕ → Limits R → SendState R → Option (Outcome Reply SendError × SendState R)
  unfolding base_or_loop
  start_send new_retry fuel limits s =
      base_or_loop s.now fuel limits (Option.map new_retry limits.retry) (select_backend ops s)

  abbrev pub after_deadline :
      (R → R)
      → ℕ
      → Limits R
      → Outcome (Option ℤ) DeadlineExceeded
      → SendState R
      → Outcome (Option (Outcome Reply SendError × SendState R)) AdapterError
  after_deadline new_retry fuel limits (raised e) s = raised deadline_error
  after_deadline new_retry fuel limits (returned left) s =
      returned (start_send new_retry fuel (within_deadline left limits) s)

  abbrev pub with_limits :
      (R → R)
      → ℕ
      → Option (Limits R)
      → Contexts String
      → SendState R
      → Outcome (Option (Outcome Reply SendError × SendState R)) AdapterError
  with_limits new_retry fuel none w s = raised value_error
  with_limits new_retry fuel (some limits) w s =
      after_deadline new_retry fuel limits (deadline_timeout s.now w) s

  -- `send`; `none` is fuel that ran out.
  unfoldable pub send :
      (R → R)
      → ℕ
      → Limits R
      → Timeout R
      → Contexts String
      → SendState R
      → Outcome (Option (Outcome Reply SendError × SendState R)) AdapterError
  unfolding parse_timeout within_deadline start_send
  send new_retry fuel defaults timeout w s =
      with_limits new_retry fuel (parse_timeout timeout defaults) w s

  base_or_loop-ResultInTime :
      (start fuel : ℕ) (limits : Limits R) (o : Option R) (s : SendState R)
      → s.now ≡ start
      → s.attempts ≡ []
      → ResultInTime ops super_send start limits.read (base_or_loop start fuel limits o s)
  unfolding base_or_loop
  base_or_loop-ResultInTime start fuel limits none s e h =
      unfold ResultInTime attempt in (omega (arith, e), rw h tt)
  base_or_loop-ResultInTime start fuel limits (some r) s e h =
      send_loop-ResultInTime ops super_send start limits.read fuel (limits.connect, limits.read)
        (record s { retry = r }) (record { started = omega (arith, e); attempts = rw h tt })
        (omega (arith, e))

  start_send-ResultInTime :
      (new_retry : R → R) (fuel : ℕ) (limits : Limits R) (s : SendState R)
      → s.attempts ≡ []
      → ResultInTime ops super_send s.now limits.read (start_send new_retry fuel limits s)
  unfolding start_send
  start_send-ResultInTime new_retry fuel limits s h =
      let (_, now, attempts) = select_backend-frame ops s in
      base_or_loop-ResultInTime s.now fuel limits (Option.map new_retry limits.retry)
        (select_backend ops s) now (attempts ∙ h)

  All-earlier :
      (now a b : ℕ) (as_ : List Attempt)
      → a ≤ b
      → All (InBudget ops super_send now a) as_
      → All (InBudget ops super_send now b) as_
  All-earlier now a b [] le h = tt
  All-earlier now a b (x ∷ as_) le h = (omega (arith, h.0), All-earlier now a b as_ le h.1)

  ResultInTime-earlier :
      (now a b : ℕ) (r : Option (Outcome Reply SendError × SendState R))
      → a ≤ b
      → ResultInTime ops super_send now a r
      → ResultInTime ops super_send now b r
  unfolding ResultInTime
  ResultInTime-earlier now a b none le h = tt
  ResultInTime-earlier now a b (some (x, s)) le h = All-earlier now a b s.attempts le h

  -- Under a deadline with `left` microseconds to go, whatever the timeout argument and the retry
  -- are: `send` refuses the argument, or every attempt it makes has a read timeout that runs out no
  -- later than the deadline.
  pub send-ResultInTime :
      (new_retry : R → R) (fuel : ℕ) (defaults : Limits R) (timeout : Timeout R)
      (w : Contexts String) (s : SendState R) (left : ℕ)
      → deadline_timeout s.now w ≡ returned (some (pos left))
      → s.attempts ≡ []
      → (send new_retry fuel defaults timeout w s ≡ raised value_error)
        ⊎ ((r : Option (Outcome Reply SendError × SendState R)) × (send new_retry fuel defaults
                timeout w s
              ≡ returned r)
            × ResultInTime ops super_send s.now left r)
  unfolding send
  send-ResultInTime new_retry fuel defaults timeout w s left d h =
      elim (Option-cases (parse_timeout timeout defaults)) [
        | inl e ↦ inl (rw e refl)
        | inr (limits, e) ↦
            let capped = within_deadline (some (pos left)) limits in
            inr (
              start_send new_retry fuel capped s,
              rw (e, d) refl,
              ResultInTime-earlier s.now capped.read left _ (unfold within_deadline in omega arith)
                  (start_send-ResultInTime new_retry fuel capped s h),
            )
      ]
