-- ===== src/Sentry/Sorting.antt =====
-- The sorting of breadcrumbs in `sql_summary` of talisker/sentry.py: what it keeps, and its order.

use talisker.Common.{
  ℕ, zero, suc, ◌+◌, ◌≤◌, min, Bool, true, false, List, [], ◌∷◌, ◌≡◌, refl, ap, ◌∙◌, arith, leb,
  if◌then◌else◌, Bool-cases, inl, inr,
}
use talisker.Common.Lists.{length, take, All, All-take}
use talisker.Sentry.{Crumb, duration, insert_crumb, sort_crumbs, sum_durations}

-- How many elements pass a test.
unfoldable pub count_if {ℓ} : {A : Type ℓ} → (A → Bool) → List A → ℕ
count_if test [] = 0
count_if test (a ∷ rest) = let n = count_if test rest in if test a then n + 1 else n

count_if-insert_crumb :
    (test : Crumb → Bool) (c : Crumb) (crumbs : List Crumb)
    → count_if test (insert_crumb c crumbs) ≡ count_if test (c ∷ crumbs)
unfolding count_if insert_crumb
count_if-insert_crumb test c [] = refl
count_if-insert_crumb test c (d ∷ crumbs) = ground (arith, count_if-insert_crumb test c crumbs)

pub count_if-sort_crumbs :
    (test : Crumb → Bool) (crumbs : List Crumb)
    → count_if test (sort_crumbs crumbs) ≡ count_if test crumbs
unfolding count_if sort_crumbs
count_if-sort_crumbs test [] = refl
count_if-sort_crumbs test (c ∷ crumbs) =
    count_if-insert_crumb test c (sort_crumbs crumbs)
    ∙ ground (arith, count_if-sort_crumbs test crumbs)

sum_durations-insert_crumb :
    (c : Crumb) (crumbs : List Crumb)
    → sum_durations (insert_crumb c crumbs) ≡ duration c + sum_durations crumbs
unfolding sum_durations insert_crumb
sum_durations-insert_crumb c [] = refl
sum_durations-insert_crumb c (d ∷ crumbs) = ground (arith, sum_durations-insert_crumb c crumbs)

pub sum_durations-sort_crumbs :
    (crumbs : List Crumb) → sum_durations (sort_crumbs crumbs) ≡ sum_durations crumbs
unfolding sum_durations sort_crumbs
sum_durations-sort_crumbs [] = refl
sum_durations-sort_crumbs (c ∷ crumbs) =
    sum_durations-insert_crumb c (sort_crumbs crumbs)
    ∙ ap (λ n. duration c + n) (sum_durations-sort_crumbs crumbs)

-- Ordered from the longest duration.
abbrev pub Descending : List Crumb → Type 0
Descending [] = Unit {0}
Descending (c ∷ crumbs) = All (λ d. duration d ≤ duration c) crumbs × Descending crumbs

All-weaken :
    (a b : ℕ) (crumbs : List Crumb)
    → a ≤ b
    → All (λ d. duration d ≤ a) crumbs
    → All (λ d. duration d ≤ b) crumbs
All-weaken a b [] h all = tt
All-weaken a b (c ∷ crumbs) h all = (omega (arith, h, all.0), All-weaken a b crumbs h all.1)

pub All-insert_crumb {ℓ} :
    (P : Crumb → Type ℓ) (c : Crumb) (crumbs : List Crumb)
    → P c
    → All P crumbs
    → All P (insert_crumb c crumbs)
unfolding insert_crumb
All-insert_crumb P c [] h all = (h, tt)
All-insert_crumb P c (d ∷ crumbs) h all = elim (Bool-cases (leb (duration d) (duration c))) [
  | inl e ↦ rw (e) (h, all)
  | inr e ↦ rw (e) (all.0, All-insert_crumb P c crumbs h all.1)
]

pub All-sort_crumbs {ℓ} :
    (P : Crumb → Type ℓ) (crumbs : List Crumb) → All P crumbs → All P (sort_crumbs crumbs)
unfolding sort_crumbs
All-sort_crumbs P [] h = tt
All-sort_crumbs P (c ∷ crumbs) h =
    All-insert_crumb P c (sort_crumbs crumbs) h.0 (All-sort_crumbs P crumbs h.1)

le_of_leb : (a b : ℕ) → leb a b ≡ true → a ≤ b
le_of_leb a b h = ground arith

ge_of_leb : (a b : ℕ) → leb a b ≡ false → b ≤ a
ge_of_leb a b h = ground arith

Descending-insert_crumb :
    (c : Crumb) (crumbs : List Crumb) → Descending crumbs → Descending (insert_crumb c crumbs)
unfolding insert_crumb
Descending-insert_crumb c [] h = (tt, tt)
Descending-insert_crumb c (d ∷ crumbs) h = elim (Bool-cases (leb (duration d) (duration c))) [
  | inl e ↦
      let le = le_of_leb (duration d) (duration c) e in
      rw (e) ((le, All-weaken (duration d) (duration c) crumbs le h.0), h)
  | inr e ↦ rw (e) (
    All-insert_crumb (λ x. duration x ≤ duration d) c crumbs (ge_of_leb (duration d) (duration c) e)
        h.0,
    Descending-insert_crumb c crumbs h.1,
  )
]

pub Descending-sort_crumbs : (crumbs : List Crumb) → Descending (sort_crumbs crumbs)
unfolding sort_crumbs
Descending-sort_crumbs [] = tt
Descending-sort_crumbs (c ∷ crumbs) =
    Descending-insert_crumb c (sort_crumbs crumbs) (Descending-sort_crumbs crumbs)

-- The crumbs that take at least `t`.
abbrev pub at_least : ℕ → Crumb → Bool
at_least t c = leb t (duration c)

count_if-short :
    (t n : ℕ) (crumbs : List Crumb)
    → leb t n ≡ false
    → All (λ d. duration d ≤ n) crumbs
    → count_if (at_least t) crumbs ≡ 0
unfolding count_if
count_if-short t n [] h all = refl
count_if-short t n (c ∷ crumbs) h all = ground (arith, all.0, count_if-short t n crumbs h all.1)

pub count_if-take :
    (t n : ℕ) (crumbs : List Crumb)
    → Descending crumbs
    → count_if (at_least t) (take n crumbs) ≡ min n (count_if (at_least t) crumbs)
unfolding count_if
count_if-take t zero crumbs h = omega arith
count_if-take t (suc n) [] h = omega arith
count_if-take t (suc n) (c ∷ crumbs) h = elim (Bool-cases (leb t (duration c))) [
  | inl e ↦ rw (e) (let r = count_if-take t n crumbs h.1 in omega (arith, r))
  | inr e ↦
      let short = count_if-short t (duration c) crumbs e h.0 in
      let short_take =
        count_if-short t (duration c) (take n crumbs) e
          (All-take (λ d. duration d ≤ duration c) n crumbs h.0) in
      rw (e) (omega (arith, short, short_take))
]

length-insert_crumb :
    (c : Crumb) (crumbs : List Crumb) → length (insert_crumb c crumbs) ≡ suc (length crumbs)
unfolding insert_crumb
length-insert_crumb c [] = refl
length-insert_crumb c (d ∷ crumbs) = ground (arith, length-insert_crumb c crumbs)

pub length-sort_crumbs : (crumbs : List Crumb) → length (sort_crumbs crumbs) ≡ length crumbs
unfolding sort_crumbs
length-sort_crumbs [] = refl
length-sort_crumbs (c ∷ crumbs) =
    length-insert_crumb c (sort_crumbs crumbs) ∙ ap (λ n. suc n) (length-sort_crumbs crumbs)

pub count_if-take_le :
    (test : Crumb → Bool) (n : ℕ) (crumbs : List Crumb)
    → count_if test (take n crumbs) ≤ count_if test crumbs
unfolding count_if
count_if-take_le test zero crumbs = omega arith
count_if-take_le test (suc n) [] = omega arith
count_if-take_le test (suc n) (c ∷ crumbs) = ground (arith, count_if-take_le test n crumbs)
