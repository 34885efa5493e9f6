-- ===== src/Metrics/Protected.antt =====
-- That no update of a metric of talisker/metrics.py is lost unseen.

use talisker.Common.{
  ℕ, suc, ◌+◌, ◌≤◌, String, true, List, [], ◌∷◌, ◌++◌, ◌≡◌, arith, Option-cases, inl, inr,
}
use talisker.Common.Text.{Text}
use talisker.Common.Lists.{length, length-append}
use talisker.Common.Dict.{Dict}
use talisker.Metrics.{
  Metric, Backend, Recorded, has_template, get_statsd_name, protect, measure, observe, inc_counter,
}

-- An update of a metric of prometheus and statsd, of a histogram or of a counter.
pub data Update : Type 0 where
  observed incremented : Dict String String → ℕ → Update

-- What a number of updates does.
pub record Seen (n : ℕ) (w w' : Recorded) : Type 0 where
  pub seen : length w'.sent + length w'.logged ≡ (length w.sent + length w.logged) + n
  pub updated : length w'.sent + length w.updates ≤ length w'.updates + length w.sent

Seen-cons : (k : ℕ) (u v w : Recorded) → Seen 1 u v → Seen k v w → Seen (suc k) u w
Seen-cons k u v w a b = record {
  seen = omega (arith, a.seen, b.seen);
  updated = omega (arith, a.updated, b.updated);
}

logged-Seen : (msg : String) (w : Recorded) → Seen 1 w (record w { logged = w.logged ++ msg ∷ [] })
logged-Seen msg w = record {
  seen = omega (arith, length-append w.logged (msg ∷ []));
  updated = omega arith;
}

updated-Seen :
    (msg : String) (u : Dict String String × ℕ) (w : Recorded)
    → Seen 1 w (record w { logged = w.logged ++ msg ∷ []; updates = w.updates ++ u ∷ [] })
updated-Seen msg u w = record {
  seen = omega (arith, length-append w.logged (msg ∷ []));
  updated = omega (arith, length-append w.updates (u ∷ []));
}

sent-Seen :
    (t : Text × ℕ) (u : Dict String String × ℕ) (w : Recorded)
    → Seen 1 w (record w { sent = w.sent ++ t ∷ []; updates = w.updates ++ u ∷ [] })
sent-Seen t u w = record {
  seen = omega (arith, length-append w.sent (t ∷ []));
  updated = omega (arith, length-append w.sent (t ∷ []), length-append w.updates (u ∷ []));
}

module _ (b : Backend) (m : Metric) where
  unfoldable pub apply_all : List Update → Recorded → Recorded
  unfolding observe inc_counter
  apply_all [] w = w
  apply_all (observed labels amount ∷ updates) w = apply_all updates (observe b m labels amount w)
  apply_all (incremented labels amount ∷ updates) w =
      apply_all updates (inc_counter b m labels amount w)

  module _ (both : m.prometheus ≡ true) (named : has_template m.statsd_template ≡ true) where
    protect-Seen :
        (msg : String) (labels : Dict String String) (amount : ℕ) (w : Recorded)
        → Seen 1 w (protect b msg (measure b m labels amount w))
    unfolding measure
    protect-Seen msg labels amount w = elim (Option-cases (b.prometheus_error labels amount)) [
      | inr (x, e) ↦ rw (both, e) (logged-Seen msg w)
      | inl p ↦ elim (Option-cases b.client_error) [
        | inr (x, e) ↦ rw (both, p, named, e) (updated-Seen msg (labels, amount) w)
        | inl c ↦ elim (Option-cases (b.send_error (get_statsd_name b m labels) amount)) [
          | inr (x, e) ↦ rw (both, p, named, c, e) (updated-Seen msg (labels, amount) w)
          | inl e ↦
              rw (both, p, named, c, e)
                (sent-Seen (get_statsd_name b m labels, amount) (labels, amount) w)
        ]
      ]
    ]

    -- Of the updates of a metric that goes to prometheus and to statsd, each is either sent to statsd
    -- or logged as a failure, and prometheus is updated at least as often as statsd. This supposes
    -- that the metric is one of prometheus and has a template for statsd.
    pub apply_all-Seen :
        (updates : List Update) (w : Recorded) → Seen (length updates) w (apply_all updates w)
    unfolding apply_all observe inc_counter
    apply_all-Seen [] w = record { seen = omega arith; updated = omega arith }
    apply_all-Seen (observed labels amount ∷ updates) w =
        let v = observe b m labels amount w in
        Seen-cons (length updates) w v (apply_all updates v) (protect-Seen _ labels amount w)
          (apply_all-Seen updates v)
    apply_all-Seen (incremented labels amount ∷ updates) w =
        let v = inc_counter b m labels amount w in
        Seen-cons (length updates) w v (apply_all updates v) (protect-Seen _ labels amount w)
          (apply_all-Seen updates v)
