-- ===== src/Celery/Counters.antt =====
-- The protected counters of talisker/celery.py: how often they count.
use talisker.Common.{
  ℕ, ◌+◌, String, true, false, List, [], ◌∷◌, ◌++◌, ◌≡◌, refl, sym, ap, ◌∙◌, arith, string_eq, ◌==◌,
  if◌then◌else◌, Bool-cases, inl, inr, ==_refl,
}
use talisker.Celery.{CeleryMetric, inc, observe, Task, Process, emit, protected_count, was_sent}

-- The number of times that a counter has counted a job.
unfoldable pub times_counted : String → String → List CeleryMetric → ℕ
times_counted metric job [] = 0
times_counted metric job (observe histogram ms j ∷ rest) = times_counted metric job rest
times_counted metric job (inc m j ∷ rest) =
    times_counted metric job rest + (if m == metric then (if j == job then 1 else 0) else 0)

times_counted-append :
    (metric job : String) (ms : List CeleryMetric) (m : CeleryMetric)
    → times_counted metric job (ms ++ m ∷ [])
      ≡ times_counted metric job ms + times_counted metric job (m ∷ [])
unfolding times_counted
times_counted-append metric job [] m = omega arith
times_counted-append metric job (observe histogram ms j ∷ rest) m =
    omega (arith, times_counted-append metric job rest m)
times_counted-append metric job (inc c j ∷ rest) m =
    omega (arith, times_counted-append metric job rest m)

-- The signals of protected counters to one sender.
unfoldable pub protect_all : List String → Task × Process → Task × Process
unfolding protected_count
protect_all [] s = s
protect_all (metric ∷ metrics) s = protect_all metrics (protected_count metric s)

abbrev allowance : String → List String → List String → ℕ
allowance metric sent signals =
    if was_sent metric sent then 0 else if was_sent metric signals then 1 else 0

protected_count-skip :
    (metric : String) (task : Task) (p : Process)
    → was_sent metric task.sent ≡ true
    → protected_count metric (task, p) ≡ (task, p)
unfolding protected_count
protected_count-skip metric task p e = rw (e) refl

protected_count-first :
    (metric : String) (task : Task) (p : Process)
    → was_sent metric task.sent ≡ false
    → protected_count metric (task, p)
      ≡ (record task { sent = metric ∷ task.sent }, emit (inc metric task.name) p)
unfolding protected_count
protected_count-first metric task p e = rw (e) refl

times_counted-emit :
    (metric signal job : String) (p : Process)
    → times_counted metric job (emit (inc signal job) p).metrics
      ≡ times_counted metric job p.metrics + (if signal == metric then 1 else 0)
unfolding times_counted
times_counted-emit metric signal job p =
    rw (times_counted-append metric job p.metrics (inc signal job), ==_refl job) (ground arith)

-- A signal that has been counted changes nothing for the others.
allowance-skip :
    (metric signal : String) (sent signals : List String)
    → was_sent signal sent ≡ true
    → allowance metric sent (signal ∷ signals) ≡ allowance metric sent signals
allowance-skip metric signal sent signals e = elim (Bool-cases (signal == metric)) [
  | inl same ↦
      let counted_metric =
        sym (ap (λ m. was_sent m sent) ((string_eq.beq_iff signal metric).0 same)) ∙ e in
      rw (counted_metric) refl
  | inr other ↦ rw (other) refl
]

allowance-first :
    (metric signal : String) (sent signals : List String)
    → was_sent signal sent ≡ false
    → allowance metric sent (signal ∷ signals)
      ≡ (if signal == metric then 1 else 0) + allowance metric (signal ∷ sent) signals
allowance-first metric signal sent signals e = elim (Bool-cases (signal == metric)) [
  | inl same ↦
      let uncounted =
        sym (ap (λ m. was_sent m sent) ((string_eq.beq_iff signal metric).0 same)) ∙ e in
      rw (uncounted, same) refl
  | inr other ↦ rw (other) (omega arith)
]

-- However often the signals of its protected counters come, and in whatever order, a task object is
-- counted by each of them at most once: exactly once if a signal comes and the object has not been
-- counted before.
pub protect_all-times_counted :
    (signals : List String) (metric : String) (task : Task) (p : Process)
    → times_counted metric task.name (protect_all signals (task, p)).1.metrics
      ≡ times_counted metric task.name p.metrics
        + (if was_sent metric task.sent then 0 else if was_sent metric signals then 1 else 0)
unfolding protect_all
protect_all-times_counted [] metric task p = ground arith
protect_all-times_counted (signal ∷ signals) metric task p =
    elim (Bool-cases (was_sent signal task.sent)) [
      | inl e ↦
          ap (λ s. times_counted metric task.name (protect_all signals s).1.metrics)
            (protected_count-skip signal task p e)
          ∙ protect_all-times_counted signals metric task p
          ∙ ap (λ n. times_counted metric task.name p.metrics + n)
              (sym (allowance-skip metric signal task.sent signals e))
      | inr e ↦
          let task' = record task { sent = signal ∷ task.sent } in
          let p' = emit (inc signal task.name) p in
          ap (λ s. times_counted metric task.name (protect_all signals s).1.metrics)
            (protected_count-first signal task p e)
          ∙ omega (
            arith,
            protect_all-times_counted signals metric task' p',
            times_counted-emit metric signal task.name p,
            allowance-first metric signal task.sent signals e,
          )
    ]
