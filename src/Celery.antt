-- ===== src/Celery.antt =====
-- The celery signal handlers of talisker/celery.py. A handler takes the time of the call; a metric's
-- name stands for the metric, and times are whole microseconds.
pub mod Publish
pub mod Run
pub mod Counters
mod Tests
use talisker.Common.{
  ℕ, String, Bool, true, false, Option, none, some, List, [], ◌∷◌, ◌++◌, string_eq, ◌==◌, ◌||◌,
  if◌then◌else◌,
}
use talisker.Common.Int.{ℤ, sub_ℕ}
use talisker.Common.Dict.{Dict, get, insert}
use talisker.Context.Stack.{push, Outcome, returned, raised}
use talisker.Context.Data.{Contexts}
use talisker.Context.Api.{modify_current, new, clear, request_id, set_request_id}

-- The value of a header of a message.
pub data Value : Type 0 where
  text : String → Value
  time : ℕ → Value

pub data CeleryMetric : Type 0 where
  inc : String → String → CeleryMetric
  observe : String → ℤ → String → CeleryMetric

-- The body of a message: a tuple since celery 4.0, a dict before.
pub data Body : Type 0 where
  body_tuple : Body
  body_dict : Dict String Value → Body

pub record Message : Type 0 where
  pub body : Body
  pub headers : Dict String Value

-- What a worker's celery makes of a message: the request's attributes that are not `None`, and its
-- headers, if it has any.
pub record TaskRequest : Type 0 where
  pub attributes : Dict String Value
  pub headers : Option (Dict String Value)
  pub is_eager : Bool

-- A task object, which is also the sender of the signals about it: its name, the request it runs,
-- `talisker_timestamp`, and the `_talisker_sent_` attributes that it has, by metric.
pub record Task : Type 0 where
  pub name : String
  pub request : TaskRequest
  pub talisker_timestamp : Option ℕ
  pub sent : List String

-- The process: its contexts and the metrics it has sent.
pub record Process : Type 0 where
  pub contexts : Contexts String
  pub metrics : List CeleryMetric

abbrev pub key_id : String
key_id = "talisker_request_id"

abbrev pub enqueue_start : String
enqueue_start = "talisker_enqueue_start"

abbrev pub emit : CeleryMetric → Process → Process
emit m p = record p { metrics = p.metrics ++ m ∷ [] }

-- `_counter`
unfoldable pub count : String → String → Process → Process
count metric job = emit (inc metric job)

abbrev pub was_sent : String → List String → Bool
was_sent metric [] = false
was_sent metric (m ∷ sent) = m == metric || was_sent metric sent

-- `_protected_counter`
unfoldable pub protected_count : String → Task × Process → Task × Process
protected_count metric (sender, p) =
    if was_sent metric sender.sent
    then (sender, p)
    else (record sender { sent = metric ∷ sender.sent }, emit (inc metric sender.name) p)

unfoldable pub task_retry : String → Process → Process
unfolding count
task_retry = count "celery_retry"

-- The body or the headers, by the version of celery.
unfoldable pub get_store : Message → Dict String Value
get_store m = elim m.body [ body_tuple ↦ m.headers | body_dict d ↦ d ]

abbrev pub insert_into : Body → String → Value → Message → Message
insert_into body_tuple k v m = record m { headers = insert k v m.headers }
insert_into (body_dict d) k v m = record m { body = body_dict (insert k v d) }

-- `get_store(body, headers)[k] = v`
abbrev pub insert_store : String → Value → Message → Message
insert_store k v m = insert_into m.body k v m

unfoldable pub get_header : String → TaskRequest → Option Value
get_header header request = elim (get header request.attributes) [
  | some v ↦ some v
  | none ↦ elim request.headers [ none ↦ none | some headers ↦ get header headers ]
]

abbrev pub put_request_id : Option String → Message → Message
put_request_id none m = m
put_request_id (some rid) m = record m { headers = insert key_id (text rid) m.headers }

unfoldable pub before_task_publish : ℕ → String → Message × Process → Message × Process
before_task_publish now sender (m, p) = (
  put_request_id (request_id p.contexts) (insert_store enqueue_start (time now) m),
  emit (inc "celery_count" sender) p,
)

-- `(time.time() - start) * 1000`; `none` is the `TypeError` of a time that is not a number.
abbrev pub since : ℕ → Value → Option ℤ
since now (time t) = some (sub_ℕ now t)
since now (text s) = none

-- `after_task_publish`; an error is the `TypeError` above.
unfoldable pub after_task_publish :
    ℕ → String → Message → Process → Outcome (Unit {0}) String × Process
unfolding get_store
after_task_publish now sender m p = elim (get enqueue_start (get_store m)) [
  | none ↦ (returned tt, p)
  | some start ↦ elim (since now start) [
    | none ↦ (raised "TypeError", p)
    | some latency ↦ (returned tt, emit (observe "celery_latency_enqueue" latency sender) p)
  ]
]

unfoldable pub send_run_metric : ℕ → String → ℕ → Process → Process
send_run_metric now name start = emit (observe "celery_latency_run" (sub_ℕ now start) name)

module _ (str : ℕ → String) where
  -- A header as a request id; `str` is how a number is written.
  abbrev pub as_id : Value → String
  as_id (text s) = s
  as_id (time t) = str t

  abbrev pub adopt_id : Option Value → Contexts String → Contexts String
  adopt_id none contexts = contexts
  adopt_id (some rid) contexts = set_request_id (some (as_id rid)) contexts

  -- The start of `task_prerun`: a new context, with the id of the message.
  unfoldable pub new_task_context : String → ℕ → TaskRequest → Process → Process
  new_task_context uuid now request p = record p {
    contexts = adopt_id (get_header key_id request) (new uuid now p.contexts).1;
  }

  abbrev pub emit_latency : String → Option ℤ → Process → Option Process
  emit_latency sender none p = none
  emit_latency sender (some latency) p =
      some (emit (observe "celery_latency_queue" latency sender) p)

  abbrev pub queue_since : ℕ → String → Option Value → Process → Option Process
  queue_since now sender none p = some p
  queue_since now sender (some start) p = emit_latency sender (since now start) p

  -- The metric of the wait in the queue; `none` is a `TypeError`.
  unfoldable pub queue_metric : ℕ → String → TaskRequest → Process → Option Process
  queue_metric now sender request = queue_since now sender (get_header enqueue_start request)

  -- A nested run of an eager task: the retry and the latency of the run it interrupts.
  unfoldable pub retry_metrics : ℕ → String → Task → Process → Process
  unfolding task_retry send_run_metric
  retry_metrics now sender task p = elim task.talisker_timestamp [
    | none ↦ p
    | some start ↦
        if task.request.is_eager then send_run_metric now sender start (task_retry sender p) else p
  ]

  abbrev pub push_task : String → Task → Process → Process
  push_task task_id task p = record p {
    contexts =
        modify_current
          (λ ctx. record ctx {
            logging =
                (push none (("task_id", task_id) ∷ ("task_name", task.name) ∷ []) ctx.logging).1;
          })
          p.contexts;
  }

  -- The rest of `task_prerun`, given what comes of the queue's metric.
  abbrev pub start_task :
      ℕ
      → String
      → String
      → Task
      → Process
      → Option Process
      → Outcome (Unit {0}) String × Task × Process
  start_task now sender task_id task p none = (raised "TypeError", task, p)
  start_task now sender task_id task p (some q) = (
    returned tt,
    record task { talisker_timestamp = some now },
    push_task task_id task (retry_metrics now sender task q),
  )

  unfoldable pub task_prerun :
      String → ℕ → String → String → Task → Process → Outcome (Unit {0}) String × Task × Process
  unfolding new_task_context queue_metric retry_metrics
  task_prerun uuid now sender task_id task p =
      let p' = new_task_context uuid now task.request p in
      start_task now sender task_id task p' (queue_metric now sender task.request p')

unfoldable pub task_postrun : ℕ → String → Task → Process → Task × Process
unfolding send_run_metric
task_postrun now sender task p =
    let sent : Process = elim task.talisker_timestamp [
      | none ↦ p
      | some start ↦ send_run_metric now sender start p
    ] in
    (record task { talisker_timestamp = none }, record sent { contexts = clear sent.contexts })
