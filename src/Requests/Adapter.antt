-- ===== src/Requests/Adapter.antt =====
-- `TaliskerAdapter` of talisker/requests.py: the choice of a backend, the timeouts and the loop of
-- `_send`. urllib3's `Retry` and the base class' `send` are arguments. Times are microseconds.
pub mod Loop
pub mod Backends
pub mod Send
use talisker.Common.{
  ℕ, zero, suc, ◌+◌, ◌-◌, min, String, Bool, true, false, Option, none, some, List, [], ◌∷◌, ◌++◌,
  if◌then◌else◌, nat_beq,
}
use talisker.Context.Stack.{Outcome, returned, raised}

-- What the base class' `send` gives: a response, with its status and whether it has a Retry-After
-- header, or a `ConnectionError` by its cause. Another exception of the base class' `send`, which
-- `_send` does not catch, is not represented.
pub data Reply : Type 0 where
  response : ℕ → Bool → Reply
  connection_error : String → Reply

pub data SendError : Type 0 where
  connection_failed : String → SendError
  retry_error read_timeout : SendError
  other_error : String → SendError

-- How `Retry.increment` ends: a new retry, `MaxRetryError`, or another exception, with the test
-- whether it is of the class of the cause.
pub data Increment (R : Type 0) : Type 0 where
  incremented : R → Increment R
  exhausted : Increment R
  other : Bool → String → Increment R

pub record RetryOps (R : Type 0) : Type 0 where
  pub increment_error : R → String → Increment R
  pub increment_response : R → ℕ → Increment R
  pub is_retry : R → ℕ → Bool → Bool
  pub raise_on_status : R → Bool
  pub sleep_error : R → ℕ
  pub sleep_response : R → ℕ → ℕ

-- A backend's scheme and host.
abbrev pub Backend : Type 0
Backend = String × String

pub record Attempt : Type 0 where
  pub target : Option Backend
  pub connect : ℕ
  pub read : ℕ
  pub at : ℕ

-- The clock, the cycle of backends (`none` without backends), the backend in the request's url,
-- `request._retry`, and the attempts made, the last one first.
pub record SendState (R : Type 0) : Type 0 where
  pub now : ℕ
  pub cycle : Option (List Backend)
  pub target : Option Backend
  pub retry : R
  pub attempts : List Attempt

-- What `_send` decides after an attempt: to end, or to sleep and try again.
pub data Decision (R : Type 0) : Type 0 where
  finish : Outcome Reply SendError → Decision R
  again : R → ℕ → Decision R

module _ {R : Type 0} (ops : RetryOps R) where
  unfoldable pub after_error : String → Increment R → Decision R
  after_error e (incremented r) = again r (ops.sleep_error r)
  after_error e exhausted = finish (raised (connection_failed e))
  after_error e (other true x) = finish (raised (connection_failed e))
  after_error e (other false x) = finish (raised (other_error x))

  unfoldable pub after_response : R → Reply → ℕ → Increment R → Decision R
  after_response old reply status (incremented r) = again r (ops.sleep_response r status)
  after_response old reply status exhausted =
      if ops.raise_on_status old then finish (raised retry_error) else finish (returned reply)
  after_response old reply status (other same x) = finish (raised (other_error x))

  unfoldable pub decide : R → Reply → Decision R
  unfolding after_error after_response
  decide r (connection_error e) = after_error e (ops.increment_error r e)
  decide r (response status retry_after) =
      let next =
        after_response r (response status retry_after) status (ops.increment_response r status) in
      if ops.is_retry r status retry_after
      then next
      else finish (returned (response status retry_after))

  -- `next(self.backend_iter)` on `itertools.cycle`, and the url with it.
  unfoldable pub select_backend : SendState R → SendState R
  select_backend s = elim s.cycle [
    | none ↦ s
    | some [] ↦ s
    | some (b ∷ bs) ↦ record s { cycle = some (bs ++ b ∷ []); target = some b }
  ]

  -- The timeouts that are left of the budget since `start`.
  unfoldable pub calculate_timeouts : ℕ → ℕ → ℕ → ℕ × ℕ → ℕ × ℕ
  calculate_timeouts start budget now (connect, read) =
      let left = budget - (now - start) in (min connect left, min read left)

  module _ (super_send : List Attempt → Option Backend → ℕ × ℕ → Reply × ℕ) (start budget : ℕ) where
    abbrev pub attempt_of : ℕ × ℕ → SendState R → Attempt
    attempt_of (connect, read) s = record {
      target = s.target;
      connect = connect;
      read = read;
      at = s.now;
    }

    -- `super().send`: the base class sees the attempts before, the backend and the
    -- timeouts, and takes some time.
    unfoldable pub attempt : ℕ × ℕ → SendState R → Reply × SendState R
    attempt timeouts s =
        let (reply, took) = super_send s.attempts s.target timeouts in
        (reply, record s { now = s.now + took; attempts = attempt_of timeouts s ∷ s.attempts })

    -- After the decision to retry: the sleep, the next backend and the timeouts that are left.
    unfoldable pub retried : R → ℕ → SendState R → SendState R
    unfolding select_backend
    retried r pause s = select_backend (record s { retry = r; now = s.now + pause })

    unfoldable pub run_retry :
        (ℕ × ℕ → SendState R → Option (Outcome Reply SendError × SendState R))
        → ℕ × ℕ
        → SendState R
        → Option (Outcome Reply SendError × SendState R)
    run_retry loop (connect, read) s =
        if nat_beq read 0 then some (raised read_timeout, s) else loop (connect, read) s

    unfoldable pub continue_with :
        (ℕ × ℕ → SendState R → Option (Outcome Reply SendError × SendState R))
        → Decision R
        → ℕ × ℕ
        → SendState R
        → Option (Outcome Reply SendError × SendState R)
    unfolding run_retry retried calculate_timeouts
    continue_with loop (finish result) timeouts s = some (result, s)
    continue_with loop (again r pause) timeouts s =
        let s' = retried r pause s in
        run_retry loop (calculate_timeouts start budget s'.now timeouts) s'

    -- `_send`, on fuel: `none` if the fuel runs out.
    unfoldable pub send_loop :
        ℕ → ℕ × ℕ → SendState R → Option (Outcome Reply SendError × SendState R)
    unfolding attempt decide continue_with
    send_loop zero timeouts s = none
    send_loop (suc fuel) timeouts s =
        let (reply, s') = attempt timeouts s in
        continue_with (send_loop fuel) (decide s'.retry reply) timeouts s'
