-- ===== src/Requests/Tests.antt =====
-- The theorems on the loop of `_send` at a concrete retry, network and pair of backends.
use talisker.Common.{
  ◌⊎◌, string_eq, ℕ, zero, suc, ◌<◌, String, true, false, Option, none, some, List, [], ◌∷◌, ◌≡◌,
  refl, arith, is_some,
}
use talisker.Requests.Adapter.{
  Reply, response, connection_error, Increment, incremented, exhausted, RetryOps, Backend, Attempt,
  SendState, SendError, send_loop,
}
use talisker.Requests.Adapter.Loop.{Lowers, ResultInTime, send_loop-ends}
use talisker.Common.Int.{pos, negsuc, ◌-ℤ◌}
use talisker.Common.Dict.{get}
use talisker.Context.Stack.{Outcome, returned, raised}
use talisker.Context.Data.{ContextData, Contexts, get_context}
use talisker.Context.Api.{deadline_timeout, current}
use talisker.Requests.Adapter.Send.{Limits, number_timeout, value_error, send, send-ResultInTime}

-- A retry as the number of attempts that it still allows.
abbrev count_down : ℕ → Increment ℕ
count_down zero = exhausted
count_down (suc n) = incremented n

abbrev counted_retry : RetryOps ℕ
counted_retry = record {
  increment_error = λ n e. count_down n;
  increment_response = λ n status. count_down n;
  is_retry = λ n status retry_after. retry_after;
  raise_on_status = λ n. true;
  sleep_error = λ n. 5;
  sleep_response = λ n status. 5;
}

-- A network in which the first attempt fails.
abbrev network : List Attempt → Option Backend → ℕ × ℕ → Reply × ℕ
network [] target timeouts = (connection_error "refused", 3)
network (a ∷ as_) target timeouts = (response 200 false, 3)

count_down-lowers : (n m : ℕ) → count_down n ≡ incremented m → m < n
count_down-lowers zero m h = cc
count_down-lowers (suc n) m h = let e : n ≡ m = cc in omega (arith, e)

counted_retry-Lowers : Lowers counted_retry (λ n. n)
counted_retry-Lowers = record {
  by_error = λ n m e h. count_down-lowers n m h;
  by_response = λ n m status h. count_down-lowers n m h;
}

abbrev first : SendState ℕ
first = record {
  now = 100;
  cycle = some (("http", "a") ∷ ("http", "b") ∷ []);
  target = none;
  retry = 2;
  attempts = [];
}

send_loop-ends_example : is_some (send_loop counted_retry network 100 50 3 (10, 50) first) ≡ true
send_loop-ends_example =
    send_loop-ends counted_retry network 100 50 (λ n. n) counted_retry-Lowers 3 (10, 50) first
      (omega arith)

abbrev deadline_context : ContextData String
deadline_context = record {
  id = "a";
  start_time = 90;
  request_id = none;
  logging = record { stack = []; cached = none };
  tracking = [];
  soft_timeout = negsuc 0;
  deadline = some (pos 120);
  debug = false;
}

abbrev in_deadline : Contexts String
in_deadline = record {
  context_map = ("a", deadline_context) ∷ [];
  current_id = some "a";
  warnings = [];
}

abbrev defaults : Limits ℕ
defaults = record { connect = 10; read = 50; retry = some 2 }

twenty_left : deadline_timeout 100 in_deadline ≡ returned (some (pos 20))
unfolding deadline_timeout current get_context get ◌-ℤ◌
twenty_left = refl

send-ResultInTime_example :
    (send counted_retry network (λ n. n) 3 defaults (number_timeout 7) in_deadline first
      ≡ raised value_error)
    ⊎ ((r : Option (Outcome Reply SendError × SendState ℕ)) × (send counted_retry network
            (λ n. n)
            3
            defaults
            (number_timeout 7)
            in_deadline
            first
          ≡ returned r)
        × ResultInTime counted_retry network 100 20 r)
send-ResultInTime_example =
    send-ResultInTime counted_retry network (λ n. n) 3 defaults (number_timeout 7) in_deadline first
      20 twenty_left refl
