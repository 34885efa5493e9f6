-- ===== src/Prometheus.antt =====
-- The files of metrics of talisker/prometheus.py: those of the workers, and the two archives into which
-- the files of a dead worker are merged. A value is a number of units.
pub mod Written
pub mod Totals
mod Tests
use talisker.Common.{
  ℕ, ◌+◌, String, Bool, true, false, Option, none, some, List, [], ◌∷◌, ◌++◌, string_eq, nat_eq,
  ◌==◌, ◌&&◌, not, if◌then◌else◌,
}
use talisker.Common.Dict.{Dict, get, insert, erase}
use talisker.Context.Stack.{Outcome, returned, raised}

-- The values of a file, by `mmap_key`.
abbrev pub Values : Type 0
Values = Dict String ℕ

pub data Kind : Type 0 where
  histogram counter other_kind : Kind

pub record Sample : Type 0 where
  pub kind : Kind
  pub key : String
  pub value : ℕ

-- The directory: `histogram_<pid>.db`, `counter_<pid>.db`, the two archives and the names of the
-- files of gauges; the temporary files that are left; and whether this process holds the lock.
pub record Directory : Type 0 where
  pub histograms : Dict ℕ Values
  pub counters : Dict ℕ Values
  pub histogram_archive : Option Values
  pub counter_archive : Option Values
  pub gauges : List String
  pub temporary : List Values
  pub locked : Bool

-- The sample in the file of its type, if it has one.
abbrev pub write_sample : Kind → Sample → Values × Values → Values × Values
write_sample histogram s files = (insert s.key s.value files.0, files.1)
write_sample counter s files = (files.0, insert s.key s.value files.1)
write_sample other_kind s files = files

-- `write_metrics`: what the two files hold.
unfoldable pub write_metrics : List Sample → Values × Values → Values × Values
write_metrics [] files = files
write_metrics (s ∷ samples) files = write_metrics samples (write_sample s.kind s files)

abbrev pub existing : Option Values → List Values
existing none = []
existing (some v) = v ∷ []

-- The end of the context manager, which a body that raises does not reach.
abbrev pub release : Outcome (Unit {0}) String → Directory → Directory
release (returned x) d = record d { locked = false }
release (raised e) d = d

-- `with try_prometheus_lock():` in its normal form: `free` says whether other processes leave the lock
-- within the timeout; nothing releases it when the body raises. `try_prometheus_lock_noop`, the default
-- until the lock is set up, is not modelled.
unfoldable pub try_prometheus_lock_normal :
    Bool
    → (Directory → Outcome (Unit {0}) String × Directory)
    → Directory
    → Outcome (Unit {0}) String × Directory
try_prometheus_lock_normal free body d =
    let inside = body (record d { locked = true }) in
    if free && not d.locked
    then (inside.0, release inside.0 inside.1)
    else (raised "PrometheusLockTimeout", d)

-- The renames and unlinks under the lock.
unfoldable pub archive : ℕ → Values × Values → Directory → Outcome (Unit {0}) String × Directory
archive pid (histograms, counters) d = (
  returned tt,
  record d {
    histogram_archive = some histograms;
    counter_archive = some counters;
    histograms = erase pid d.histograms;
    counters = erase pid d.counters;
  },
)

-- A lock timeout is logged; the temporary files stay.
abbrev pub keep_temporary : Values × Values → Outcome (Unit {0}) String × Directory → Directory
keep_temporary (histograms, counters) (returned x, d) = d
keep_temporary (histograms, counters) (raised e, d) = record d {
  temporary = d.temporary ++ histograms ∷ counters ∷ [];
}

module _ (merge : List Values → List Sample)
    (mark_process_dead : ℕ → List String → List String) where
  abbrev pub collected : ℕ → Directory → List Values
  collected pid d =
      existing (get pid d.histograms)
      ++ (existing (get pid d.counters)
          ++ (existing d.histogram_archive ++ existing d.counter_archive))

  abbrev pub merge_files : Bool → ℕ → Directory → Directory
  merge_files free pid d =
      let files = write_metrics (merge (collected pid d)) ([], []) in
      keep_temporary files (try_prometheus_lock_normal free (archive pid files) d)

  abbrev pub merge_any : Bool → ℕ → Option Values → Option Values → Directory → Directory
  merge_any free pid none none d = d
  merge_any free pid none (some v) d = merge_files free pid d
  merge_any free pid (some v) c d = merge_files free pid d

  unfoldable pub prometheus_cleanup_worker : Bool → ℕ → Directory → Directory
  unfolding write_metrics try_prometheus_lock_normal archive
  prometheus_cleanup_worker free pid d =
      let d' : Directory = record d { gauges = mark_process_dead pid d.gauges } in
      merge_any free pid (get pid d.histograms) (get pid d.counters) d'
