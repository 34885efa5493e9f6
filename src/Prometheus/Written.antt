-- ===== src/Prometheus/Written.antt =====
-- What `write_metrics` of talisker/prometheus.py puts into the two files.
use talisker.Common.{
  ℕ, ◌+◌, String, true, Option, none, some, List, [], ◌∷◌, ◌≡◌, refl, sym, ap, ◌∙◌, arith,
  string_eq, nat_eq, ◌==◌, if◌then◌else◌, Bool-cases, inl, inr,
}
use talisker.Common.Dict.{get, insert, contains, Distinct, get-insert}
use talisker.Prometheus.{
  Values, Kind, histogram, counter, other_kind, Sample, write_sample, write_metrics,
}

-- The value under a key, and the sum over files.
abbrev pub or_zero : Option ℕ → ℕ
or_zero none = 0
or_zero (some n) = n

unfoldable pub at : String → Values → ℕ
at k v = or_zero (get k v)

abbrev pub sum : String → List Values → ℕ
sum k [] = 0
sum k (v ∷ vs) = at k v + sum k vs

abbrev pub table : List Sample → Values
table [] = []
table (s ∷ samples) = (s.key, s.value) ∷ table samples

abbrev pub KnownKind : Kind → Type 0
KnownKind histogram = Unit {0}
KnownKind counter = Unit {0}
KnownKind other_kind = ⊥

abbrev pub Known : List Sample → Type 0
Known [] = Unit {0}
Known (s ∷ samples) = KnownKind s.kind × Known samples

-- `MultiProcessCollector.merge` on files of histograms and counters: a sample for each key, with the
-- sum of its values.
pub record IsMerge (merge : List Values → List Sample) : Type 0 where
  pub known : (files : List Values) → Known (merge files)
  pub distinct : (files : List Values) → Distinct (table (merge files))
  pub sums : (k : String) (files : List Values) → at k (table (merge files)) ≡ sum k files

at-insert :
    (k j : String) (n : ℕ) (v : Values) → at k (insert j n v) ≡ (if j == k then n else at k v)
unfolding at
at-insert k j n v = rw (get-insert j k n v) (ground arith)

pub at-absent : (k : String) (v : Values) → get k v ≡ none → at k v ≡ 0
unfolding at
at-absent k v e = rw (e) refl

at_first :
    (k : String) (s : Sample) (samples : List Sample)
    → at k (table (s ∷ samples)) ≡ (if s.key == k then s.value else at k (table samples))
unfolding at get
at_first k s samples = ground arith

-- The value that one sample adds to a file.
step_value :
    (k : String) (s : Sample) (samples : List Sample) (h : Values)
    → get s.key (table samples) ≡ none
    → (contains k (table (s ∷ samples)) ≡ true → at k h ≡ 0)
    → at k (table samples) + at k (insert s.key s.value h) ≡ at k (table (s ∷ samples)) + at k h
unfolding get
step_value k s samples h new fresh = elim (Bool-cases (s.key == k)) [
  | inl same ↦
      let eq : s.key ≡ k = (string_eq.beq_iff s.key k).0 same in
      let gone : at k (table samples) ≡ 0 =
        at-absent k (table samples) (sym (ap (λ j. get j (table samples)) eq) ∙ new) in
      let zero_value : at k h ≡ 0 = fresh (rw (same) refl) in
      rw (at-insert k s.key s.value h, at_first k s samples, same, gone, zero_value) (omega arith)
  | inr other ↦ rw (at-insert k s.key s.value h, at_first k s samples, other) refl
]

fresh_rest :
    (k : String) (s : Sample) (samples : List Sample) (h : Values)
    → get s.key (table samples) ≡ none
    → (contains k (table (s ∷ samples)) ≡ true → at k h ≡ 0)
    → (contains k (table samples) ≡ true → (at k h ≡ 0) × (at k (insert s.key s.value h) ≡ 0))
unfolding get
fresh_rest k s samples h new fresh there = elim (Bool-cases (s.key == k)) [
  | inl same ↦
      let eq : s.key ≡ k = (string_eq.beq_iff s.key k).0 same in
      let gone : get k (table samples) ≡ none = sym (ap (λ j. get j (table samples)) eq) ∙ new in
      absurd (ground (arith, there, gone))
  | inr other ↦
      let zero_value : at k h ≡ 0 = fresh (rw (other) there) in
      (zero_value, rw (at-insert k s.key s.value h, other) zero_value)
]

abbrev pub both : String → Values × Values → ℕ
both k files = at k files.0 + at k files.1

-- A key that is still to be written is in neither file.
abbrev pub Fresh : String → List Sample → Values × Values → Type 0
Fresh k samples files = contains k (table samples) ≡ true → (at k files.0 ≡ 0) × (at k files.1 ≡ 0)

write_sample-at :
    (kind : Kind) (k : String) (s : Sample) (samples : List Sample) (files : Values × Values)
    → KnownKind kind
    → get s.key (table samples) ≡ none
    → Fresh k (s ∷ samples) files
    → (at k (table samples) + both k (write_sample kind s files)
        ≡ at k (table (s ∷ samples)) + both k files)
      × Fresh k samples (write_sample kind s files)
write_sample-at histogram k s samples files known new fresh = (
  omega (arith, step_value k s samples files.0 new (λ e. (fresh e).0)),
  λ e. (
    (fresh_rest k s samples files.0 new (λ there. (fresh there).0) e).1,
    (fresh_rest k s samples files.1 new (λ there. (fresh there).1) e).0,
  ),
)
write_sample-at counter k s samples files known new fresh = (
  omega (arith, step_value k s samples files.1 new (λ e. (fresh e).1)),
  λ e. (
    (fresh_rest k s samples files.0 new (λ there. (fresh there).0) e).0,
    (fresh_rest k s samples files.1 new (λ there. (fresh there).1) e).1,
  ),
)
write_sample-at other_kind k s samples files known new fresh = absurd known

pub write_metrics-at :
    (k : String) (samples : List Sample) (files : Values × Values)
    → Known samples
    → Distinct (table samples)
    → Fresh k samples files
    → both k (write_metrics samples files) ≡ at k (table samples) + both k files
unfolding write_metrics Distinct get
write_metrics-at k [] files known distinct fresh = omega (arith, at-absent k [] refl)
write_metrics-at k (s ∷ samples) files known distinct fresh =
    let (one, rest) = write_sample-at s.kind k s samples files known.0 distinct.0 fresh in
    omega
      (arith, write_metrics-at k samples (write_sample s.kind s files) known.1 distinct.1 rest, one)
