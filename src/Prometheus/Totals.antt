-- ===== src/Prometheus/Totals.antt =====
-- The totals of talisker/prometheus.py's files: what merging a dead worker's files keeps.
use talisker.Common.{
  ℕ, ◌+◌, String, Bool, true, false, Option, none, some, List, [], ◌∷◌, ◌++◌, ◌≡◌, refl, sym, ap,
  ◌∙◌, arith, string_eq, nat_eq, ◌==◌, ◌&&◌, not, if◌then◌else◌, Bool-cases, inl, inr, ==_refl,
}
use talisker.Common.Dict.{Dict, get, erase, Distinct, get-erase}
use talisker.Context.Stack.{Outcome, raised}
use talisker.Prometheus.{
  Values, Sample, Directory, write_metrics, existing, release, try_prometheus_lock_normal, archive,
  collected, merge_files, merge_any, prometheus_cleanup_worker,
}
use talisker.Prometheus.Written.{at, at-absent, sum, IsMerge, both, write_metrics-at}

-- The sum over the files of the workers.
abbrev pub sum_workers : String → Dict ℕ Values → ℕ
sum_workers k [] = 0
sum_workers k ((pid, v) ∷ d) = at k v + sum_workers k d

-- What a reader of all the files adds up to.
abbrev pub total : String → Directory → ℕ
total k d =
    sum_workers k d.histograms
    + sum_workers k d.counters
    + (sum k (existing d.histogram_archive) + sum k (existing d.counter_archive))

sum-append : (k : String) (xs ys : List Values) → sum k (xs ++ ys) ≡ sum k xs + sum k ys
sum-append k [] ys = omega arith
sum-append k (v ∷ xs) ys = omega (arith, sum-append k xs ys)

sum_workers-erase_absent :
    (k : String) (pid : ℕ) (d : Dict ℕ Values)
    → get pid d ≡ none
    → sum_workers k (erase pid d) ≡ sum_workers k d
unfolding get erase
sum_workers-erase_absent k pid [] e = refl
sum_workers-erase_absent k pid ((j, v) ∷ d) e = ground (arith, sum_workers-erase_absent k pid d)

-- The values of a worker leave the sum when its file is unlinked.
sum_workers-erase :
    (k : String) (pid : ℕ) (d : Dict ℕ Values)
    → Distinct d
    → sum k (existing (get pid d)) + sum_workers k (erase pid d) ≡ sum_workers k d
unfolding get erase Distinct
sum_workers-erase k pid [] distinct = refl
sum_workers-erase k pid ((j, v) ∷ d) distinct = elim (Bool-cases (j == pid)) [
  | inl same ↦
      let gone : get pid d ≡ none =
        sym (ap (λ n. get n d) ((nat_eq.beq_iff j pid).0 same)) ∙ distinct.0 in
      rw (same) (omega (arith, sum_workers-erase_absent k pid d gone))
  | inr other ↦ rw (other) (omega (arith, sum_workers-erase k pid d distinct.1))
]

-- The directory after the renames and unlinks.
archived : ℕ → Values × Values → Directory → Directory
archived pid files d = record d {
  histogram_archive = some files.0;
  counter_archive = some files.1;
  histograms = erase pid d.histograms;
  counters = erase pid d.counters;
  locked = false;
}

-- The files of a worker after the clean-up.
abbrev pub left_over : Bool → Option Values → Option Values
left_over archives file = if archives then none else file

left_over-none : (archives : Bool) → left_over archives none ≡ none
left_over-none archives = ground arith

module _ (merge : List Values → List Sample) (mark_process_dead : ℕ → List String → List String)
    (is_merge : IsMerge merge) where
  abbrev merged : ℕ → Directory → Values × Values
  merged pid d = write_metrics (merge (collected merge mark_process_dead pid d)) ([], [])

  locked_out :
      (free : Bool) (pid : ℕ) (d : Directory)
      → (free && not d.locked) ≡ false
      → merge_files merge mark_process_dead free pid d
        ≡ record d { temporary = d.temporary ++ (merged pid d).0 ∷ (merged pid d).1 ∷ [] }
  unfolding try_prometheus_lock_normal
  locked_out free pid d e = rw (e) refl

  merge_files-archived :
      (free : Bool) (pid : ℕ) (d : Directory)
      → (free && not d.locked) ≡ true
      → merge_files merge mark_process_dead free pid d ≡ archived pid (merged pid d) d
  unfolding try_prometheus_lock_normal archive archived
  merge_files-archived free pid d e = rw (e) refl

  both-merged :
      (k : String) (pid : ℕ) (d : Directory)
      → both k (merged pid d) ≡ sum k (collected merge mark_process_dead pid d)
  both-merged k pid d =
      let files = collected merge mark_process_dead pid d in
      let nothing : at k [] ≡ 0 = unfold get in at-absent k [] refl in
      omega (
        arith,
        write_metrics-at k (merge files) ([], []) (is_merge.known files) (is_merge.distinct files)
            (λ e. (nothing, nothing)),
        is_merge.sums k files,
        nothing,
      )

  sum-collected :
      (k : String) (pid : ℕ) (d : Directory)
      → sum k (collected merge mark_process_dead pid d)
        ≡ sum k (existing (get pid d.histograms))
          + sum k (existing (get pid d.counters))
          + (sum k (existing d.histogram_archive) + sum k (existing d.counter_archive))
  sum-collected k pid d =
      let h = existing (get pid d.histograms) in
      let c = existing (get pid d.counters) in
      let a = existing d.histogram_archive in
      let b = existing d.counter_archive in
      omega (arith, sum-append k h (c ++ (a ++ b)), sum-append k c (a ++ b), sum-append k a b)

  total-archived :
      (k : String) (pid : ℕ) (d : Directory)
      → Distinct d.histograms
      → Distinct d.counters
      → total k (archived pid (merged pid d) d) ≡ total k d
  unfolding archived
  total-archived k pid d hist count = omega (
    arith,
    both-merged k pid d,
    sum-collected k pid d,
    sum_workers-erase k pid d.histograms hist,
    sum_workers-erase k pid d.counters count,
  )

  total-merge_files :
      (k : String) (free : Bool) (pid : ℕ) (d : Directory)
      → Distinct d.histograms
      → Distinct d.counters
      → total k (merge_files merge mark_process_dead free pid d) ≡ total k d
  total-merge_files k free pid d hist count = elim (Bool-cases (free && not d.locked)) [
    | inl e ↦ ap (total k) (merge_files-archived free pid d e) ∙ total-archived k pid d hist count
    | inr e ↦ ap (total k) (locked_out free pid d e)
  ]

  total-merge_any :
      (k : String) (free : Bool) (pid : ℕ) (h c : Option Values) (d : Directory)
      → Distinct d.histograms
      → Distinct d.counters
      → total k (merge_any merge mark_process_dead free pid h c d) ≡ total k d
  total-merge_any k free pid none none d hist count = refl
  total-merge_any k free pid none (some c) d hist count = total-merge_files k free pid d hist count
  total-merge_any k free pid (some h) c d hist count = total-merge_files k free pid d hist count

  record Unlinked (archives : Bool) (pid : ℕ) (d d' : Directory) : Type 0 where
    histograms : get pid d'.histograms ≡ left_over archives (get pid d.histograms)
    counters : get pid d'.counters ≡ left_over archives (get pid d.counters)

  get-erase_same : (pid : ℕ) (d : Dict ℕ Values) → get pid (erase pid d) ≡ none
  get-erase_same pid d = rw (get-erase pid pid d, ==_refl pid) refl

  Unlinked-files :
      (free : Bool) (pid : ℕ) (d : Directory)
      → Unlinked (free && not d.locked) pid d (merge_files merge mark_process_dead free pid d)
  unfolding archived
  Unlinked-files free pid d = elim (Bool-cases (free && not d.locked)) [
    | inl e ↦
        rw (merge_files-archived free pid d e, e)
          (record {
            histograms = get-erase_same pid d.histograms;
            counters = get-erase_same pid d.counters;
          })
    | inr e ↦ rw (locked_out free pid d e, e) (record { histograms = refl; counters = refl })
  ]

  Unlinked-any :
      (free : Bool) (pid : ℕ) (h c : Option Values) (d : Directory)
      → get pid d.histograms ≡ h
      → get pid d.counters ≡ c
      → Unlinked (free && not d.locked) pid d (merge_any merge mark_process_dead free pid h c d)
  Unlinked-any free pid none none d e f =
      let archives = free && not d.locked in
      record {
        histograms = e ∙ sym (left_over-none archives) ∙ ap (left_over archives) (sym e);
        counters = f ∙ sym (left_over-none archives) ∙ ap (left_over archives) (sym f);
      }
  Unlinked-any free pid none (some c) d e f = Unlinked-files free pid d
  Unlinked-any free pid (some h) c d e f = Unlinked-files free pid d

  -- If the library's merge adds up the values of each key, the clean-up of a worker keeps the
  -- total of every key over all files, with the lock or without it, so that nothing is lost or
  -- counted twice; the worker's files are gone if the lock could be taken, and are there as before
  -- if not.
  pub total-prometheus_cleanup_worker :
      (k : String) (free : Bool) (pid : ℕ) (d : Directory)
      → Distinct d.histograms
      → Distinct d.counters
      → (total k (prometheus_cleanup_worker merge mark_process_dead free pid d) ≡ total k d)
        × (get pid (prometheus_cleanup_worker merge mark_process_dead free pid d).histograms
            ≡ left_over (free && not d.locked) (get pid d.histograms))
        × (get pid (prometheus_cleanup_worker merge mark_process_dead free pid d).counters
            ≡ left_over (free && not d.locked) (get pid d.counters))
  unfolding prometheus_cleanup_worker
  total-prometheus_cleanup_worker k free pid d hist count =
      let d' : Directory = record d { gauges = mark_process_dead pid d.gauges } in
      let gone = Unlinked-any free pid (get pid d.histograms) (get pid d.counters) d' refl refl in
      (
        total-merge_any k free pid (get pid d.histograms) (get pid d.counters) d' hist count,
        gone.histograms,
        gone.counters,
      )

-- After a body that raises, the lock stays taken, so that the next attempt times out.
pub lock_after_raise :
    (free : Bool) (e : String) (body other : Directory → Outcome (Unit {0}) String × Directory)
    (d : Directory)
    → d.locked ≡ false
    → ((x : Directory) → (body x).0 ≡ raised e)
    → ((x : Directory) → (body x).1.locked ≡ x.locked)
    → (try_prometheus_lock_normal free other (try_prometheus_lock_normal true body d).1).0
      ≡ raised "PrometheusLockTimeout"
unfolding try_prometheus_lock_normal
lock_after_raise free e body other d unlocked fails keeps =
    let x : Directory = record d { locked = true } in
    let taken : (try_prometheus_lock_normal true body d).1.locked ≡ true =
      rw (unlocked) (ap (λ o. (release o (body x).1).locked) (fails x) ∙ keeps x) in
    rw (taken) (ground arith)
