-- ===== src/Requests/Adapter/Loop.antt =====
-- The loop of `_send` of talisker/requests.py ends, and keeps to its deadline.
use talisker.Common.{
  ℕ, zero, suc, ◌+◌, ◌-◌, ◌≤◌, ◌<◌, String, true, false, Option, none, some, List, ◌≡◌, ◌≢◌, refl,
  ap, arith, is_some, Bool-cases, inl, inr, nat_beq, nat_beq_iff,
}
use talisker.Common.Lists.{All}
use talisker.Context.Stack.{Outcome}
use talisker.Requests.Adapter.{
  Reply, response, connection_error, SendError, Increment, incremented, exhausted, other, RetryOps,
  Backend, Attempt, SendState, Decision, finish, again, after_error, after_response, decide,
  select_backend, calculate_timeouts, attempt, retried, run_retry, continue_with, send_loop,
}

-- A measure of how many retries are left, which each increment lowers.
pub record Lowers {R : Type 0} (ops : RetryOps R) (left : R → ℕ) : Type 0 where
  pub by_error :
      (r r' : R) (e : String) → ops.increment_error r e ≡ incremented r' → left r' < left r
  pub by_response :
      (r r' : R) (status : ℕ) → ops.increment_response r status ≡ incremented r' → left r' < left r

module _ {R : Type 0} (ops : RetryOps R) where
  pub select_backend-frame :
      (s : SendState R)
      → ((select_backend ops s).retry ≡ s.retry)
        × ((select_backend ops s).now ≡ s.now)
        × ((select_backend ops s).attempts ≡ s.attempts)
  unfolding select_backend
  select_backend-frame s = ground arith

  after_error_again :
      (e : String) (i : Increment R) (r' : R) (pause : ℕ)
      → after_error ops e i ≡ again r' pause
      → i ≡ incremented r'
  unfolding after_error
  after_error_again e (incremented r) r' pause h = cc
  after_error_again e exhausted r' pause h = cc
  after_error_again e (other true x) r' pause h = cc
  after_error_again e (other false x) r' pause h = cc

  after_response_again :
      (old : R) (reply : Reply) (status : ℕ) (i : Increment R) (r' : R) (pause : ℕ)
      → after_response ops old reply status i ≡ again r' pause
      → i ≡ incremented r'
  unfolding after_response
  after_response_again old reply status (incremented r) r' pause h = cc
  after_response_again old reply status exhausted r' pause h = ground arith
  after_response_again old reply status (other same x) r' pause h = cc

  module _ (left : R → ℕ) (lowers : Lowers ops left) where
    decide_again :
        (r r' : R) (reply : Reply) (pause : ℕ)
        → decide ops r reply ≡ again r' pause
        → left r' < left r
    unfolding decide
    decide_again r r' (connection_error e) pause h =
        lowers.by_error r r' e (after_error_again e (ops.increment_error r e) r' pause h)
    decide_again r r' (response status retry_after) pause h =
        elim (Bool-cases (ops.is_retry r status retry_after)) [
          | inl is_retried ↦ lowers.by_response r r' status (
              after_response_again r (response status retry_after) status
                (ops.increment_response r status) r' pause (ground arith))
          | inr not_retried ↦ absurd (ground arith)
        ]

  module _ (super_send : List Attempt → Option Backend → ℕ × ℕ → Reply × ℕ) (start budget : ℕ) where
    abbrev Loop : Type 0
    Loop = ℕ × ℕ → SendState R → Option (Outcome Reply SendError × SendState R)

    run_retry-ends :
        (loop : Loop) (timeouts : ℕ × ℕ) (s : SendState R)
        → is_some (loop timeouts s) ≡ true
        → is_some (run_retry ops super_send start budget loop timeouts s) ≡ true
    unfolding run_retry
    run_retry-ends loop (connect, read) s h = ground arith

    attempt-retry :
        (timeouts : ℕ × ℕ) (s : SendState R)
        → (attempt ops super_send start budget timeouts s).1.retry ≡ s.retry
    unfolding attempt
    attempt-retry timeouts s = refl

    continue_with-ends :
        (loop : Loop) (d : Decision R) (timeouts : ℕ × ℕ) (s : SendState R)
        → ((r' : R) (pause : ℕ) (ts : ℕ × ℕ) (t : SendState R)
            → d ≡ again r' pause
            → t.retry ≡ r'
            → is_some (loop ts t) ≡ true)
        → is_some (continue_with ops super_send start budget loop d timeouts s) ≡ true
    unfolding continue_with
    continue_with-ends loop (finish result) timeouts s h = refl
    continue_with-ends loop (again r pause) timeouts s h =
        let s' = retried ops super_send start budget r pause s in
        run_retry-ends loop (calculate_timeouts ops start budget s'.now timeouts) s'
          (h r pause _ s' refl (unfold retried in (select_backend-frame _).0))

    module _ (left : R → ℕ) (lowers : Lowers ops left) where
      -- The loop ends, in a result: with a retry that allows `left` more attempts, fuel above
      -- that number is enough, whatever the attempts give.
      pub send_loop-ends :
          (fuel : ℕ) (timeouts : ℕ × ℕ) (s : SendState R)
          → left s.retry < fuel
          → is_some (send_loop ops super_send start budget fuel timeouts s) ≡ true
      unfolding send_loop
      send_loop-ends zero timeouts s h = absurd (omega arith)
      send_loop-ends (suc fuel) timeouts s h =
          let (reply, s') = attempt ops super_send start budget timeouts s in
          continue_with-ends (send_loop ops super_send start budget fuel)
            (decide ops s'.retry reply) timeouts s'
            (λ r' pause ts t e same. send_loop-ends fuel ts t (
              rw same (
                omega (
                  arith,
                  decide_again left lowers s'.retry r' reply pause e,
                  ap left (attempt-retry timeouts s),
                ))))

    -- An attempt whose read timeout runs out no later than the budget.
    abbrev pub InBudget : Attempt → Type 0
    InBudget a = a.at + a.read ≤ start + budget

    -- What every state of the loop satisfies.
    pub record InTime (s : SendState R) : Type 0 where
      pub started : start ≤ s.now
      pub attempts : All InBudget s.attempts

    -- Every attempt of a result is in the budget.
    unfoldable pub ResultInTime : Option (Outcome Reply SendError × SendState R) → Type 0
    ResultInTime none = Unit
    ResultInTime (some (r, s)) = All InBudget s.attempts

    abbrev Guarded : Loop → Type 0
    Guarded loop =
        (ts : ℕ × ℕ) (s : SendState R)
        → InTime s
        → s.now + ts.1 ≤ start + budget
        → ResultInTime (loop ts s)

    in_budget_of :
        (now budget read : ℕ)
        → read ≢ 0
        → start ≤ now
        → read ≤ budget - (now - start)
        → now + read ≤ start + budget
    in_budget_of now budget read h a b = omega arith

    run_retry-ResultInTime :
        (loop : Loop) (ts : ℕ × ℕ) (s : SendState R)
        → Guarded loop
        → InTime s
        → ts.1 ≤ budget - (s.now - start)
        → ResultInTime (run_retry ops super_send start budget loop ts s)
    unfolding run_retry
    run_retry-ResultInTime loop (connect, read) s g h le = elim (Bool-cases (nat_beq read 0)) [
      | inl e ↦ rw e (unfold ResultInTime in h.attempts)
      | inr e ↦ rw e (
          g (connect, read) s h
            (in_budget_of s.now budget read (ground (arith, nat_beq_iff read 0)) h.started le))
    ]

    retried-InTime :
        (r : R) (pause : ℕ) (s : SendState R)
        → InTime s
        → InTime (retried ops super_send start budget r pause s)
    unfolding retried
    retried-InTime r pause s h =
        let u : SendState R = record s { retry = r; now = s.now + pause } in
        let (_, now, attempts) = select_backend-frame u in
        record { started = rw now (omega (arith, h.started)); attempts = rw attempts (h.attempts) }

    attempt-InTime :
        (ts : ℕ × ℕ) (s : SendState R)
        → InTime s
        → s.now + ts.1 ≤ start + budget
        → InTime (attempt ops super_send start budget ts s).1
    unfolding attempt
    attempt-InTime ts s h le = record {
      started = omega (arith, h.started);
      attempts = (le, h.attempts);
    }

    continue_with-ResultInTime :
        (loop : Loop) (d : Decision R) (ts : ℕ × ℕ) (s : SendState R)
        → Guarded loop
        → InTime s
        → ResultInTime (continue_with ops super_send start budget loop d ts s)
    unfolding continue_with
    continue_with-ResultInTime loop (finish result) ts s g h = unfold ResultInTime in h.attempts
    continue_with-ResultInTime loop (again r pause) ts s g h =
        let s' = retried ops super_send start budget r pause s in
        run_retry-ResultInTime loop (calculate_timeouts ops start budget s'.now ts) s' g
          (retried-InTime r pause s h) (unfold calculate_timeouts in omega arith)

    -- Whatever the attempts give and however long they and the sleeps take: each attempt is made
    -- with a read timeout that runs out no later than `budget` after the start.
    pub send_loop-ResultInTime :
        (fuel : ℕ) (ts : ℕ × ℕ) (s : SendState R)
        → InTime s
        → s.now + ts.1 ≤ start + budget
        → ResultInTime (send_loop ops super_send start budget fuel ts s)
    unfolding send_loop
    send_loop-ResultInTime zero ts s h le = unfold ResultInTime in tt
    send_loop-ResultInTime (suc fuel) ts s h le =
        let (reply, s') = attempt ops super_send start budget ts s in
        continue_with-ResultInTime (send_loop ops super_send start budget fuel)
          (decide ops s'.retry reply) ts s' (send_loop-ResultInTime fuel) (attempt-InTime ts s h le)
