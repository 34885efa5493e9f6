-- ===== src/Prometheus/Tests.antt =====
-- The theorem on the clean-up of a worker at a concrete merge and directory.
use talisker.Common.{
  ℕ, ◌+◌, String, true, false, not, ◌&&◌, none, some, List, [], ◌∷◌, ◌≡◌, refl, ap, ◌∙◌, arith,
  string_eq, nat_eq,
}
use talisker.Common.Dict.{get, insert, Distinct, get-insert, Distinct-insert}
use talisker.Prometheus.{Values, counter, Sample, Directory, prometheus_cleanup_worker}
use talisker.Prometheus.Written.{at, sum, table, Known, IsMerge}
use talisker.Prometheus.Totals.{total, left_over, total-prometheus_cleanup_worker}

-- The values of a file, added to totals, by key.
abbrev add : Values → Values → Values
add [] totals = totals
add ((k, n) ∷ v) totals = insert k (n + at k totals) (add v totals)

abbrev add_all : List Values → Values
add_all [] = []
add_all (v ∷ files) = add v (add_all files)

abbrev samples_of : Values → List Sample
samples_of [] = []
samples_of ((k, n) ∷ v) = record { kind = counter; key = k; value = n } ∷ samples_of v

abbrev merge : List Values → List Sample
merge files = samples_of (add_all files)

table-samples_of : (v : Values) → table (samples_of v) ≡ v
table-samples_of [] = refl
table-samples_of ((k, n) ∷ v) = ap (λ t. (k, n) ∷ t) (table-samples_of v)

samples_of-Known : (v : Values) → Known (samples_of v)
samples_of-Known [] = tt
samples_of-Known ((k, n) ∷ v) = (tt, samples_of-Known v)

add-Distinct : (v totals : Values) → Distinct totals → Distinct (add v totals)
add-Distinct [] totals h = h
add-Distinct ((k, n) ∷ v) totals h =
    Distinct-insert k (n + at k totals) (add v totals) (add-Distinct v totals h)

add_all-Distinct : (files : List Values) → Distinct (add_all files)
unfolding Distinct
add_all-Distinct [] = tt
add_all-Distinct (v ∷ files) = add-Distinct v (add_all files) (add_all-Distinct files)

at-add : (k : String) (v totals : Values) → at k (add v totals) ≡ at k v + at k totals
unfolding at get
at-add k [] totals = omega arith
at-add k ((j, n) ∷ v) totals =
    rw (get-insert j k (n + at j totals) (add v totals))
      (ground (arith, string_eq.beq_iff j k, at-add k v totals))

at-add_all : (k : String) (files : List Values) → at k (add_all files) ≡ sum k files
unfolding at get
at-add_all k [] = refl
at-add_all k (v ∷ files) = omega (arith, at-add k v (add_all files), at-add_all k files)

merge-IsMerge : IsMerge merge
merge-IsMerge = record {
  known = λ files. samples_of-Known (add_all files);
  distinct = λ files. rw (table-samples_of (add_all files)) (add_all-Distinct files);
  sums = λ k files. ap (at k) (table-samples_of (add_all files)) ∙ at-add_all k files;
}

-- A worker's counters and an archive.
abbrev directory : Directory
directory = record {
  histograms = [];
  counters = (7, ("requests", 3) ∷ []) ∷ (8, ("requests", 1) ∷ []) ∷ [];
  histogram_archive = none;
  counter_archive = some (("requests", 10) ∷ []);
  gauges = [];
  temporary = [];
  locked = false;
}

abbrev keep_gauges : ℕ → List String → List String
keep_gauges pid gauges = gauges

workers-Distinct : Distinct directory.counters
workers-Distinct = unfold Distinct get in (refl, (refl, tt))

total-prometheus_cleanup_worker_example :
    (total "requests" (prometheus_cleanup_worker merge keep_gauges true 7 directory)
      ≡ total "requests" directory)
    × (get 7 (prometheus_cleanup_worker merge keep_gauges true 7 directory).histograms
        ≡ left_over (true && not directory.locked) (get 7 directory.histograms))
    × (get 7 (prometheus_cleanup_worker merge keep_gauges true 7 directory).counters
        ≡ left_over (true && not directory.locked) (get 7 directory.counters))
total-prometheus_cleanup_worker_example =
    total-prometheus_cleanup_worker merge keep_gauges merge-IsMerge "requests" true 7 directory
      (unfold Distinct in tt) workers-Distinct
