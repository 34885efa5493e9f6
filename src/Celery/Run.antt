-- ===== src/Celery/Run.antt =====
-- The runs of a task in talisker/celery.py: how many latencies nested and repeated runs leave.
use talisker.Common.{
  ℕ, ◌+◌, String, true, Option, none, some, List, [], ◌∷◌, ◌++◌, ◌≡◌, ◌≢◌, refl, ap, ◌∙◌, arith,
  string_eq, ◌==◌, if◌then◌else◌, Option-cases, inl, inr,
}
use talisker.Common.Int.{sub_ℕ}
use talisker.Celery.{
  Value, text, time, CeleryMetric, inc, observe, TaskRequest, Task, Process, emit, enqueue_start,
  get_header, queue_since, start_task, retry_metrics, queue_metric, new_task_context, task_prerun,
  task_postrun, send_run_metric, task_retry, count,
}

-- The number of latencies of runs among metrics.
unfoldable pub runs : List CeleryMetric → ℕ
runs [] = 0
runs (observe histogram ms job ∷ ms') =
    runs ms' + (if histogram == "celery_latency_run" then 1 else 0)
runs (inc counter job ∷ ms') = runs ms'

runs-append :
    (ms : List CeleryMetric) (m : CeleryMetric) → runs (ms ++ m ∷ []) ≡ runs ms + runs (m ∷ [])
unfolding runs
runs-append [] m = omega arith
runs-append (observe histogram ms job ∷ rest) m = omega (arith, runs-append rest m)
runs-append (inc counter job ∷ rest) m = omega (arith, runs-append rest m)

abbrev pub is_running : Option ℕ → ℕ
is_running none = 0
is_running (some start) = 1

-- A signal to a task: that a run starts, with its request, or ends.
pub data Signal : Type 0 where
  prerun : String → ℕ → String → TaskRequest → Signal
  postrun : ℕ → String → Signal

module _ (str : ℕ → String) where
  -- Celery goes on after a handler that raises.
  abbrev pub receive : Signal → String → Task × Process → Task × Process
  receive (prerun uuid now task_id request) sender (task, p) =
      let r = task_prerun str uuid now sender task_id (record task { request = request }) p in
      (r.1, r.2)
  receive (postrun now task_id) sender (task, p) = task_postrun now sender task p

  unfoldable pub send_all : List Signal → String → Task × Process → Task × Process
  send_all [] sender s = s
  send_all (g ∷ signals) sender s = send_all signals sender (receive g sender s)

  -- The number of runs that start.
  abbrev pub starts : List Signal → ℕ
  starts [] = 0
  starts (prerun uuid now task_id request ∷ signals) = starts signals + 1
  starts (postrun now task_id ∷ signals) = starts signals

  -- Each run is eager, and the time of its publication, if it has one, is a number.
  abbrev pub AreEager : List Signal → Type 0
  AreEager [] = Unit {0}
  AreEager (prerun uuid now task_id request ∷ signals) =
      (request.is_eager ≡ true)
      × ((s : String) → get_header enqueue_start request ≢ some (text s))
      × AreEager signals
  AreEager (postrun now task_id ∷ signals) = AreEager signals

  -- The latencies observed so far, and the one that a run under way will leave.
  abbrev pub owed : Task × Process → ℕ
  owed (task, p) = runs p.metrics + is_running task.talisker_timestamp

  runs-queue_since :
      (now : ℕ) (sender : String) (found : Option Value) (p : Process)
      → ((s : String) → found ≢ some (text s))
      → (q : Process) × (queue_since str now sender found p ≡ some q)
        × (runs q.metrics ≡ runs p.metrics)
  unfolding runs
  runs-queue_since now sender none p ok = (p, refl, refl)
  runs-queue_since now sender (some (text s)) p ok = absurd (ok s refl)
  runs-queue_since now sender (some (time t)) p ok = (
    emit (observe "celery_latency_queue" (sub_ℕ now t) sender) p,
    refl,
    omega (arith, runs-append p.metrics (observe "celery_latency_queue" (sub_ℕ now t) sender)),
  )

  runs-send_run_metric :
      (now start : ℕ) (sender : String) (p : Process)
      → runs (send_run_metric now sender start p).metrics ≡ runs p.metrics + 1
  unfolding send_run_metric runs
  runs-send_run_metric now start sender p =
      omega (arith, runs-append p.metrics (observe "celery_latency_run" (sub_ℕ now start) sender))

  runs-task_retry :
      (sender : String) (p : Process) → runs (task_retry sender p).metrics ≡ runs p.metrics
  unfolding task_retry count runs
  runs-task_retry sender p = omega (arith, runs-append p.metrics (inc "celery_retry" sender))

  runs-retry_metrics :
      (now : ℕ) (sender : String) (task : Task) (p : Process)
      → task.request.is_eager ≡ true
      → runs (retry_metrics str now sender task p).metrics
        ≡ runs p.metrics + is_running task.talisker_timestamp
  unfolding retry_metrics
  runs-retry_metrics now sender task p eager = elim (Option-cases task.talisker_timestamp) [
    | inl e ↦ rw (e) (omega arith)
    | inr (start, e) ↦
        rw (e, eager)
          (omega (
            arith,
            runs-send_run_metric now start sender (task_retry sender p),
            runs-task_retry sender p,
          ))
  ]

  owed-task_prerun :
      (uuid : String) (now : ℕ) (sender task_id : String) (task : Task) (p : Process)
      → task.request.is_eager ≡ true
      → ((s : String) → get_header enqueue_start task.request ≢ some (text s))
      → runs (task_prerun str uuid now sender task_id task p).2.metrics
          + is_running (task_prerun str uuid now sender task_id task p).1.talisker_timestamp
        ≡ runs p.metrics + is_running task.talisker_timestamp + 1
  unfolding task_prerun queue_metric new_task_context
  owed-task_prerun uuid now sender task_id task p eager ok =
      let p0 = new_task_context str uuid now task.request p in
      let (q, e, same) =
        runs-queue_since now sender (get_header enqueue_start task.request) p0 ok in
      ap
        (λ o.
          runs (start_task str now sender task_id task p0 o).2.metrics
          + is_running (start_task str now sender task_id task p0 o).1.talisker_timestamp)
        e
      ∙ omega (arith, runs-retry_metrics now sender task q eager, same)

  owed-task_postrun :
      (now : ℕ) (sender : String) (task : Task) (p : Process)
      → owed (task_postrun now sender task p) ≡ owed (task, p)
  unfolding task_postrun
  owed-task_postrun now sender task p = elim (Option-cases task.talisker_timestamp) [
    | inl e ↦ rw (e) refl
    | inr (start, e) ↦ rw (e) (omega (arith, runs-send_run_metric now start sender p))
  ]

  -- Whatever the order in which the runs of an eager task start and end, nested or one after the
  -- other: the latencies observed, with the one that is still to come, grow by as many as the runs
  -- that start. Where a run is published with a time, that is a number.
  pub send_all-owed :
      (signals : List Signal) (sender : String) (task : Task) (p : Process)
      → AreEager signals
      → owed (send_all signals sender (task, p)) ≡ owed (task, p) + starts signals
  unfolding send_all
  send_all-owed [] sender task p eager = omega arith
  send_all-owed (prerun uuid now task_id request ∷ signals) sender task p eager =
      let r = task_prerun str uuid now sender task_id (record task { request = request }) p in
      omega (
        arith,
        send_all-owed signals sender r.1 r.2 eager.2,
        owed-task_prerun uuid now sender task_id (record task { request = request }) p eager.0
            eager.1,
      )
  send_all-owed (postrun now task_id ∷ signals) sender task p eager =
      let r = task_postrun now sender task p in
      omega (arith, send_all-owed signals sender r.0 r.1 eager, owed-task_postrun now sender task p)
