-- ===== src/Requests/Record/Accounts.antt =====
-- What a sequence of outgoing requests adds to the metrics, the logs and the context's tracking.

use talisker.Common.{
  ℕ, suc, ◌+◌, String, Bool, not, Option, none, some, List, [], ◌∷◌, ◌++◌, string_eq, ◌≡◌, refl,
  sym, ap, ◌∙◌, arith, if◌then◌else◌, leb, Bool-cases, inl, inr, append_assoc,
}
use talisker.Common.Int.{ℤ}
use talisker.Common.Lists.{length, length-append}
use talisker.Common.Dict.{Dict}
use talisker.Context.Api.Tracking.{track_all}
use talisker.Util.Errors.{Raised}
use talisker.Wsgi.Types.{Meta}
use talisker.Requests.Metadata.{HttpRequest, HttpResponse, Strings, collect_metadata}
use talisker.Requests.Record.{
  Labels, Event, count_inc, latency_observe, errors_inc, World, inc, log, record_breadcrumb,
  outcome, track_response, record_request, with_errno,
}

-- One call of `record_request`.
pub record Call : Type 0 where
  pub request : HttpRequest
  pub response : Option HttpResponse
  pub exc : Option Raised

-- The numbers of counts, latencies and errors.
pub record Tally : Type 0 where
  pub counts : ℕ
  pub latencies : ℕ
  pub errors : ℕ

abbrev add_event : Event → Tally → Tally
add_event (count_inc l) t = record t { counts = suc t.counts }
add_event (latency_observe d st l) t = record t { latencies = suc t.latencies }
add_event (errors_inc type status l) t = record t { errors = suc t.errors }

unfoldable pub tally : List Event → Tally
tally [] = record { counts = 0; latencies = 0; errors = 0 }
tally (e ∷ events) = add_event e (tally events)

abbrev pub plus : Tally → Tally → Tally
plus a b = record {
  counts = a.counts + b.counts;
  latencies = a.latencies + b.latencies;
  errors = a.errors + b.errors;
}

Tally-equal :
    {a b : Tally} → a.counts ≡ b.counts → a.latencies ≡ b.latencies → a.errors ≡ b.errors → a ≡ b
Tally-equal p q r i = record { counts = p i; latencies = q i; errors = r i }

plus_assoc : (a b c : Tally) → plus (plus a b) c ≡ plus a (plus b c)
plus_assoc a b c = Tally-equal (omega arith) (omega arith) (omega arith)

plus-add_event : (e : Event) (a b : Tally) → add_event e (plus a b) ≡ plus (add_event e a) b
plus-add_event (count_inc l) a b = Tally-equal (omega arith) (omega arith) (omega arith)
plus-add_event (latency_observe d st l) a b = Tally-equal (omega arith) (omega arith) (omega arith)
plus-add_event (errors_inc type status l) a b =
    Tally-equal (omega arith) (omega arith) (omega arith)

tally-append : (es fs : List Event) → tally (es ++ fs) ≡ plus (tally es) (tally fs)
unfolding tally
tally-append [] fs = Tally-equal (omega arith) (omega arith) (omega arith)
tally-append (e ∷ es) fs =
    ap (add_event e) (tally-append es fs) ∙ plus-add_event e (tally es) (tally fs)

-- What a call should count as: always one request, a latency if there is a response, and an error
-- if there is none or it is a server's error.
abbrev pub expected_of : Option HttpResponse → Tally
expected_of none = record { counts = 1; latencies = 0; errors = 1 }
expected_of (some r) = record {
  counts = 1;
  latencies = 1;
  errors = if leb 500 r.status_code then 1 else 0;
}

unfoldable pub expected : List Call → Tally
expected [] = record { counts = 0; latencies = 0; errors = 0 }
expected (c ∷ calls) = plus (expected_of c.response) (expected calls)

-- The measurements of the responses with a status below 400.
abbrev pub measured_of : Option HttpResponse → List (String × ℕ) → List (String × ℕ)
measured_of none rest = rest
measured_of (some r) rest = if leb 400 r.status_code then rest else ("http", r.elapsed) ∷ rest

unfoldable pub measured : List Call → List (String × ℕ)
measured [] = []
measured (c ∷ calls) = measured_of c.response (measured calls)

-- What the calls have done to the world.
pub record Accounted (calls : List Call) (w w' : World) : Type 0 where
  pub metrics : tally w'.metrics ≡ plus (tally w.metrics) (expected calls)
  pub logs : length w'.logs ≡ length w.logs + length calls
  pub breadcrumbs : length w'.breadcrumbs ≡ length w.breadcrumbs + length calls
  pub contexts : w'.contexts ≡ track_all (measured calls) w.contexts

-- The worlds differ in what a count and an outcome write.
record Extended (response : Option HttpResponse) (w w' : World) : Type 0 where
  metrics : tally w'.metrics ≡ plus (tally w.metrics) (expected_of response)
  logs : length w'.logs ≡ length w.logs + 1
  breadcrumbs : w'.breadcrumbs ≡ w.breadcrumbs
  contexts : w'.contexts ≡ w.contexts

tally_2 :
    (es : List Event) (a b : Event)
    → tally ((es ++ a ∷ []) ++ b ∷ []) ≡ plus (tally es) (tally (a ∷ b ∷ []))
tally_2 es a b = ap tally (append_assoc es (a ∷ []) (b ∷ [])) ∙ tally-append es (a ∷ b ∷ [])

tally_3 :
    (es : List Event) (a b c : Event)
    → tally (((es ++ a ∷ []) ++ b ∷ []) ++ c ∷ []) ≡ plus (tally es) (tally (a ∷ b ∷ c ∷ []))
tally_3 es a b c =
    ap tally (append_assoc (es ++ a ∷ []) (b ∷ []) (c ∷ []) ∙ append_assoc es (a ∷ []) (b ∷ c ∷ []))
    ∙ tally-append es (a ∷ b ∷ c ∷ [])

outcome-Extended :
    (response : Option HttpResponse) (metadata : Dict String Meta) (l : Labels) (w : World)
    → Extended response w (outcome response metadata l (inc (count_inc l) w))
unfolding outcome inc log tally
outcome-Extended none metadata l w = record {
  metrics = tally_2 w.metrics _ _;
  logs = length-append w.logs _;
  breadcrumbs = refl;
  contexts = refl;
}
outcome-Extended (some r) metadata l w = elim (Bool-cases (leb 500 r.status_code)) [
  | inl e ↦ rw (e) (record {
    metrics = rw (e) (tally_3 w.metrics _ _ _);
    logs = length-append w.logs _;
    breadcrumbs = refl;
    contexts = refl;
  })
  | inr e ↦ rw (e) (record {
    metrics = rw (e) (tally_2 w.metrics _ _);
    logs = length-append w.logs _;
    breadcrumbs = refl;
    contexts = refl;
  })
]

module _ (s : Strings) (ok : HttpResponse → Bool) (error_codes : ℤ → Option String)
    (str : ℤ → String) where
  unfoldable pub record_all : List Call → World → World
  unfolding record_request
  record_all [] w = w
  record_all (c ∷ calls) w =
      record_all calls (record_request s ok error_codes str c.request c.response c.exc w)

  module _ (truth : (r : HttpResponse) → ok r ≡ not (leb 400 r.status_code)) where
    contexts-track_response :
        (response : Option HttpResponse) (rest : List (String × ℕ)) (w : World)
        → track_all (measured_of response rest) w.contexts
          ≡ track_all rest (track_response ok response w).contexts
    unfolding track_response track_all
    contexts-track_response none rest w = refl
    contexts-track_response (some r) rest w = elim (Bool-cases (leb 400 r.status_code)) [
      | inl e ↦ rw (truth r, e) refl
      | inr e ↦ rw (truth r, e) refl
    ]

    -- What one call does.
    record Recorded (c : Call) (w w' : World) : Type 0 where
      metrics : tally w'.metrics ≡ plus (tally w.metrics) (expected_of c.response)
      logs : length w'.logs ≡ length w.logs + 1
      breadcrumbs : length w'.breadcrumbs ≡ length w.breadcrumbs + 1
      contexts : w'.contexts ≡ (track_response ok c.response w).contexts

    track_response-kept :
        (response : Option HttpResponse) (w : World)
        → ((track_response ok response w).metrics ≡ w.metrics)
          × ((track_response ok response w).logs ≡ w.logs)
          × ((track_response ok response w).breadcrumbs ≡ w.breadcrumbs)
    unfolding track_response
    track_response-kept none w = (refl, refl, refl)
    track_response-kept (some r) w = elim (Bool-cases (ok r)) [
      | inl e ↦ rw (e) (refl, refl, refl)
      | inr e ↦ rw (e) (refl, refl, refl)
    ]

    record_request-Recorded :
        (c : Call) (w : World)
        → Recorded c w (record_request s ok error_codes str c.request c.response c.exc w)
    unfolding record_request record_breadcrumb
    record_request-Recorded c w =
        let h = outcome-Extended c.response _ _ (
          record_breadcrumb
            (with_errno s ok error_codes str c.exc
              (collect_metadata s w.hosts c.request c.response))
            (track_response ok c.response w)) in
        let k = track_response-kept c.response w in
        record {
          metrics = h.metrics ∙ ap (λ es. plus (tally es) (expected_of c.response)) k.0;
          logs = h.logs ∙ ap (λ ls. length ls + 1) k.1;
          breadcrumbs =
              ap length h.breadcrumbs
              ∙ length-append (track_response ok c.response w).breadcrumbs _
              ∙ ap (λ bs. length bs + 1) k.2;
          contexts = h.contexts;
        }

    -- For any sequence of requests: each counts once and leaves one log and one breadcrumb, the
    -- latencies are as many as the responses, the errors as many as the failures and the responses of
    -- status 500 and above, and of the durations those of statuses below 400, in order, are tracked in
    -- the context. This supposes that a response is true if its status is below 400.
    pub record_all-Accounted :
        (calls : List Call) (w : World) → Accounted calls w (record_all calls w)
    unfolding record_all expected measured
    record_all-Accounted [] w = record {
      metrics = Tally-equal (omega arith) (omega arith) (omega arith);
      logs = omega arith;
      breadcrumbs = omega arith;
      contexts = unfold track_all in refl;
    }
    record_all-Accounted (c ∷ calls) w =
        let w₁ = record_request s ok error_codes str c.request c.response c.exc w in
        let h = record_all-Accounted calls w₁ in
        let m = record_request-Recorded c w in
        record {
          metrics =
              h.metrics
              ∙ ap (λ t. plus t (expected calls)) m.metrics
              ∙ plus_assoc _ _ (expected calls);
          logs = h.logs ∙ ap (λ n. n + length calls) m.logs ∙ omega arith;
          breadcrumbs = h.breadcrumbs ∙ ap (λ n. n + length calls) m.breadcrumbs ∙ omega arith;
          contexts =
              h.contexts
              ∙ ap (track_all (measured calls)) m.contexts
              ∙ sym (contexts-track_response c.response (measured calls) w);
        }
