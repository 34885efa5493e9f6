-- ===== src/Celery/Tests.antt =====
-- The theorems on celery at a concrete message, task and worker.
use talisker.Common.{
  ℕ, ◌+◌, String, true, none, some, List, [], ◌∷◌, ◌≡◌, ◌≢◌, refl, string_eq, arith,
}
use talisker.Common.Dict.{get, insert}
use talisker.Context.Data.{Contexts, get_context, create_context, context_data}
use talisker.Context.Api.{new, request_id, set_request_id, current, modify_current, clear}
use talisker.Celery.{
  text, Message, body_tuple, TaskRequest, Task, Process, before_task_publish, get_header,
  task_prerun,
}
use talisker.Celery.Publish.{Carries, published_request_id, published_latency}
use talisker.Celery.Run.{Signal, prerun, postrun, send_all, starts, owed, send_all-owed}

abbrev str : ℕ → String
str n = "1"

abbrev no_contexts : Contexts String
no_contexts = record { context_map = []; current_id = none; warnings = [] }

-- A process that handles the request `r1`.
abbrev publisher : Process
publisher = record {
  contexts = set_request_id (some "r1") (new "c1" 90 no_contexts).1;
  metrics = [];
}

abbrev worker : Process
worker = record { contexts = no_contexts; metrics = [] }

abbrev message : Message
message = record { body = body_tuple; headers = [] }

abbrev delivered : TaskRequest
delivered = record {
  attributes = [];
  headers = some (before_task_publish 100 "job" (message, publisher)).0.headers;
  is_eager = true;
}

abbrev task : Task
task = record { name = "job"; request = delivered; talisker_timestamp = none; sent = [] }

publisher-request_id : request_id publisher.contexts ≡ some "r1"
publisher-request_id =
    unfold request_id set_request_id new current modify_current get_context create_context
      context_data clear get insert in
    refl

delivered-Carries : Carries str (before_task_publish 100 "job" (message, publisher)).0 delivered
delivered-Carries k v e = unfold get_header get in e

published_request_id_example :
    request_id (task_prerun str "c2" 120 "job" "t1" task worker).2.contexts ≡ some "r1"
published_request_id_example =
    published_request_id str 100 120 "job" "r1" "c2" "t1" message task publisher worker
      publisher-request_id delivered-Carries
      ((published_latency str 100 120 "job" "c2" "t1" message task publisher worker refl refl
        delivered-Carries).0)

-- An eager task that is called again while it runs.
abbrev eager : TaskRequest
eager = record { attributes = []; headers = none; is_eager = true }

abbrev nested : List Signal
nested =
    prerun "c2" 120 "t1" eager
    ∷ prerun "c3" 130 "t1" eager
    ∷ postrun 140 "t1"
    ∷ postrun 150 "t1"
    ∷ []

eager_start : (s : String) → get_header "talisker_enqueue_start" eager ≢ some (text s)
unfolding get_header get
eager_start s e = ground (arith, e)

send_all-owed_example :
    owed str (send_all str nested "job" (task, worker))
    ≡ owed str (task, worker) + starts str nested
send_all-owed_example =
    send_all-owed str nested "job" task worker (refl, eager_start, (refl, eager_start, tt))

abbrev signals : List String
signals = "success" ∷ "failure" ∷ "success" ∷ []
