-- ===== src/Celery/Publish.antt =====
-- How the id of a request goes with a task from talisker/celery.py's publisher to its worker.
use mathlib.Core.Option
use talisker.Common.{
  ℕ, String, Option, none, some, [], ◌∷◌, ◌++◌, ◌≡◌, refl, sym, ap, ◌∙◌, arith, string_eq, ==_refl,
}
use talisker.Common.Int.{sub_ℕ}
use talisker.Common.Dict.{Dict, get, insert, get-insert}
use talisker.Context.Stack.{push, returned}
use talisker.Context.Data.{Contexts, ContextData, context_data}
use talisker.Context.Api.{modify_current, new, request_id, set_request_id, current}
use talisker.Context.Api.Deadline.{current-modify_current}
use talisker.Context.Api.Isolation.{current-new}
use talisker.Celery.{
  Value, text, time, CeleryMetric, observe, body_tuple, Message, TaskRequest, Task, Process, key_id,
  enqueue_start, get_header, put_request_id, insert_into, insert_store, before_task_publish, as_id,
  adopt_id, queue_since, push_task, start_task, emit, new_task_context, queue_metric, retry_metrics,
  task_prerun,
}

-- The id of a context.
abbrev id_of : Option (ContextData String) → Option String
id_of none = none
id_of (some ctx) = ctx.request_id

request_id-current : (w : Contexts String) → request_id w ≡ id_of (current w)
unfolding request_id
request_id-current w = refl

id_of-map :
    (change : ContextData String → ContextData String) (c : Option (ContextData String))
    → ((ctx : ContextData String) → (change ctx).request_id ≡ ctx.request_id)
    → id_of (Option.map change c) ≡ id_of c
id_of-map change none same = refl
id_of-map change (some ctx) same = same ctx

module _ (str : ℕ → String) where
  new_id : (uuid : String) (now : ℕ) → (context_data {V = String} uuid now).request_id ≡ none
  unfolding context_data
  new_id uuid now = refl

  request_id-adopt_id :
      (uuid : String) (now : ℕ) (found : Option Value) (w : Contexts String)
      → request_id (adopt_id str found (new uuid now w).1) ≡ Option.map (as_id str) found
  unfolding set_request_id
  request_id-adopt_id uuid now none w =
      request_id-current (new uuid now w).1 ∙ ap id_of (current-new uuid now w) ∙ new_id uuid now
  request_id-adopt_id uuid now (some rid) w =
      let w' = (new uuid now w).1 in
      let change : ContextData String → ContextData String =
        λ ctx. record ctx { request_id = some (as_id str rid) } in
      request_id-current (modify_current change w')
      ∙ ap id_of (current-modify_current change w')
      ∙ ap (λ c. id_of (Option.map change c)) (current-new uuid now w)

  request_id-push_task :
      (task_id : String) (task : Task) (p : Process)
      → request_id (push_task str task_id task p).contexts ≡ request_id p.contexts
  request_id-push_task task_id task p =
      let change : ContextData String → ContextData String = λ ctx. record ctx {
        logging = (push none (("task_id", task_id) ∷ ("task_name", task.name) ∷ []) ctx.logging).1;
      } in
      request_id-current (modify_current change p.contexts)
      ∙ ap id_of (current-modify_current change p.contexts)
      ∙ id_of-map change (current p.contexts) (λ ctx. refl)
      ∙ sym (request_id-current p.contexts)

  contexts-retry_metrics :
      (now : ℕ) (sender : String) (task : Task) (p : Process)
      → (retry_metrics str now sender task p).contexts ≡ p.contexts
  unfolding retry_metrics
  contexts-retry_metrics now sender task p = ground arith

  abbrev contexts_or : Process → Option Process → Contexts String
  contexts_or p none = p.contexts
  contexts_or p (some q) = q.contexts

  contexts-queue_since :
      (now : ℕ) (sender : String) (found : Option Value) (p q : Process)
      → queue_since str now sender found p ≡ some q
      → q.contexts ≡ p.contexts
  contexts-queue_since now sender none p q e = ap (contexts_or p) (sym e)
  contexts-queue_since now sender (some (time t)) p q e = ap (contexts_or p) (sym e)
  contexts-queue_since now sender (some (text s)) p q e = absurd (ground (arith, e))

  request_id-start_task :
      (now : ℕ) (sender task_id : String) (task : Task) (p : Process) (o : Option Process)
      (rid : Option String)
      → ((q : Process) → o ≡ some q → request_id q.contexts ≡ rid)
      → (start_task str now sender task_id task p o).0 ≡ returned tt
      → request_id (start_task str now sender task_id task p o).2.contexts ≡ rid
  request_id-start_task now sender task_id task p none rid same ok = absurd (ground (arith, ok))
  request_id-start_task now sender task_id task p (some q) rid same ok =
      request_id-push_task task_id task (retry_metrics str now sender task q)
      ∙ ap request_id (contexts-retry_metrics now sender task q)
      ∙ same q refl

  -- A task that starts has the request id of its message, and none if the message has none: nothing is
  -- left of an earlier task's.
  pub task_prerun-request_id :
      (uuid : String) (now : ℕ) (sender task_id : String) (task : Task) (p : Process)
      → (task_prerun str uuid now sender task_id task p).0 ≡ returned tt
      → request_id (task_prerun str uuid now sender task_id task p).2.contexts
        ≡ Option.map (as_id str) (get_header key_id task.request)
  unfolding task_prerun queue_metric new_task_context
  task_prerun-request_id uuid now sender task_id task p ok =
      let p' = new_task_context str uuid now task.request p in
      request_id-start_task now sender task_id task p' (queue_metric str now sender task.request p')
        (Option.map (as_id str) (get_header key_id task.request))
        (λ q e.
          ap request_id
            (contexts-queue_since now sender (get_header enqueue_start task.request) p' q e)
          ∙ request_id-adopt_id uuid now (get_header key_id task.request) p.contexts)
        ok

  -- Celery hands the headers of a message to the worker, as attributes of the request or as its headers.
  abbrev pub Carries : Message → TaskRequest → Type 0
  Carries m request =
      (k : String) (v : Value) → get k m.headers ≡ some v → get_header k request ≡ some v

  get_inserted : (k : String) (v : Value) (d : Dict String Value) → get k (insert k v d) ≡ some v
  get_inserted k v d = rw (get-insert k k v d, ==_refl k) refl

  published_header :
      (now : ℕ) (sender rid : String) (m : Message) (p : Process)
      → request_id p.contexts ≡ some rid
      → get key_id (before_task_publish now sender (m, p)).0.headers ≡ some (text rid)
  unfolding before_task_publish
  published_header now sender rid m p e =
      let m' : Message = insert_store enqueue_start (time now) m in
      ap (λ o. get key_id (put_request_id o m').headers) e
      ∙ get_inserted key_id (text rid) m'.headers

  -- A task that is published while a request is handled runs under the id of that request.
  pub published_request_id :
      (now now' : ℕ) (sender rid uuid task_id : String) (m : Message) (task : Task) (p p' : Process)
      → request_id p.contexts ≡ some rid
      → Carries (before_task_publish now sender (m, p)).0 task.request
      → (task_prerun str uuid now' sender task_id task p').0 ≡ returned tt
      → request_id (task_prerun str uuid now' sender task_id task p').2.contexts ≡ some rid
  published_request_id now now' sender rid uuid task_id m task p p' e carries ok =
      task_prerun-request_id uuid now' sender task_id task p' ok
      ∙ ap (Option.map (as_id str))
          (carries key_id (text rid) (published_header now sender rid m p e))

  get-put_request_id :
      (o : Option String) (m : Message)
      → get enqueue_start (put_request_id o m).headers ≡ get enqueue_start m.headers
  get-put_request_id none m = refl
  get-put_request_id (some rid) m = rw (get-insert key_id enqueue_start (text rid) m.headers) refl

  published_start :
      (now : ℕ) (sender : String) (m : Message) (p : Process)
      → m.body ≡ body_tuple
      → get enqueue_start (before_task_publish now sender (m, p)).0.headers ≡ some (time now)
  unfolding before_task_publish
  published_start now sender m p b =
      get-put_request_id (request_id p.contexts) (insert_store enqueue_start (time now) m)
      ∙ ap (λ x. get enqueue_start (insert_into x enqueue_start (time now) m).headers) b
      ∙ get_inserted enqueue_start (time now) m.headers

  retry_metrics-idle :
      (now : ℕ) (sender : String) (task : Task) (p : Process)
      → task.talisker_timestamp ≡ none
      → retry_metrics str now sender task p ≡ p
  unfolding retry_metrics
  retry_metrics-idle now sender task p e = rw (e) refl

  -- What a worker that starts the task observes.
  abbrev pub queue_latency : ℕ → ℕ → String → CeleryMetric
  queue_latency now now' sender = observe "celery_latency_queue" (sub_ℕ now' now) sender

  -- A task whose message has a tuple for its body, as since celery 4.0, starts without an error, and
  -- the time between its publication and its start is observed, once.
  pub published_latency :
      (now now' : ℕ) (sender uuid task_id : String) (m : Message) (task : Task) (p p' : Process)
      → m.body ≡ body_tuple
      → task.talisker_timestamp ≡ none
      → Carries (before_task_publish now sender (m, p)).0 task.request
      → ((task_prerun str uuid now' sender task_id task p').0 ≡ returned tt)
        × ((task_prerun str uuid now' sender task_id task p').2.metrics
            ≡ p'.metrics ++ queue_latency now now' sender ∷ [])
  unfolding task_prerun queue_metric new_task_context
  published_latency now now' sender uuid task_id m task p p' b idle carries =
      let start = carries enqueue_start (time now) (published_start now sender m p b) in
      let p0 = new_task_context str uuid now' task.request p' in
      let q : Process = emit (queue_latency now now' sender) p0 in
      let e : queue_metric str now' sender task.request p0 ≡ some q =
        ap (λ o. queue_since str now' sender o p0) start in
      (
        ap (λ o. (start_task str now' sender task_id task p0 o).0) e,
        ap (λ o. (start_task str now' sender task_id task p0 o).2.metrics) e
            ∙ ap (λ r. r.metrics) (retry_metrics-idle now' sender task q idle),
      )
