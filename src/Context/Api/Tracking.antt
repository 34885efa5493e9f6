-- ===== src/Context/Api/Tracking.antt =====
-- What `track` accumulates in the current context.
use mathlib.Core.Option
use talisker.Common.{
  ℕ, ◌+◌, String, none, some, List, [], ◌∷◌, ◌++◌, ◌≡◌, refl, arith, string_eq, ◌==◌, if◌then◌else◌,
  Option-cases, inl, inr, map, append_assoc, append-nil, sym, ap,
}
use talisker.Common.Dict.{Dict, get, get-insert}
use talisker.Context.Data.{Tracker, new_tracker, ContextData, Contexts, warn_null_context}
use talisker.Context.Api.{current, bump, track}
use talisker.Context.Api.Isolation.{tracked}
use talisker.Context.Api.Deadline.{current-modify_current}

-- The tracker of a name, that of `defaultdict(Tracker)`.
abbrev pub tracker : String → Dict String Tracker → Tracker
tracker name tracking = Option.get_or (get name tracking) new_tracker

-- What a list of measurements adds up to for one name.
unfoldable pub total_count : String → List (String × ℕ) → ℕ
total_count name [] = 0
total_count name ((n, d) ∷ events) =
    let rest = total_count name events in if n == name then rest + 1 else rest

unfoldable pub total_time : String → List (String × ℕ) → ℕ
total_time name [] = 0
total_time name ((n, d) ∷ events) =
    let rest = total_time name events in if n == name then d + rest else rest

tracker-bump :
    (name : String) (n : String) (d : ℕ) (t : Dict String Tracker)
    → tracker name (bump n d t) ≡ (
        if n == name
        then record { count = (tracker name t).count + 1; time = (tracker name t).time + d }
        else tracker name t)
unfolding bump
tracker-bump name n d t = elim (Option-cases (get n t)) [
  | inl missing ↦
      ground (arith, get-insert n name (record { count = 1; time = d }) t, string_eq.beq_iff n name)
  | inr (old, found) ↦ ground (
    arith,
    get-insert n name (record { count = old.count + 1; time = old.time + d }) t,
    string_eq.beq_iff n name,
  )
]

module _ {V : Type 0} where
  unfoldable pub track_all : List (String × ℕ) → Contexts V → Contexts V
  unfolding track
  track_all [] w = w
  track_all ((n, d) ∷ events) w = track_all events (track n d w)

  current-warned :
      (w : Contexts V) (api : String) → current w ≡ none → current (warn_null_context api w) ≡ none
  unfolding current warn_null_context
  current-warned w api e = e

  current-track :
      (name : String) (d : ℕ) (w : Contexts V)
      → current (track name d w) ≡ Option.map (tracked name d) (current w)
  unfolding track
  current-track name d w = elim (Option-cases (current w)) [
    | inl e ↦ rw (e, track) (current-warned w "track" e)
    | inr (ctx, e) ↦ rw (e, track) (rw (current-modify_current _ w, e) refl)
  ]

  -- What measurements add to a tracker.
  pub record Grown (name : String) (events : List (String × ℕ)) (ctx ctx' : ContextData V)
      : Type 0 where
    pub counted :
        (tracker name ctx'.tracking).count
        ≡ (tracker name ctx.tracking).count + total_count name events
    pub timed :
        (tracker name ctx'.tracking).time
        ≡ (tracker name ctx.tracking).time + total_time name events

  Grown-cons :
      (name n : String) (d : ℕ) (events : List (String × ℕ)) (ctx ctx' : ContextData V)
      → Grown name events (tracked n d ctx) ctx'
      → Grown name ((n, d) ∷ events) ctx ctx'
  unfolding total_count total_time
  Grown-cons name n d events ctx ctx' h = record {
    counted = ground (arith, h.counted, tracker-bump name n d ctx.tracking);
    timed = ground (arith, h.timed, tracker-bump name n d ctx.tracking);
  }

  -- After any measurements, each name's tracker in the current context has grown by the number of
  -- measurements with that name and by the sum of their durations.
  pub track_all-totals :
      (events : List (String × ℕ)) (w : Contexts V) (ctx : ContextData V) (name : String)
      → current w ≡ some ctx
      → (ctx' : ContextData V) × (current (track_all events w) ≡ some ctx')
        × Grown name events ctx ctx'
  unfolding track_all total_count total_time
  track_all-totals [] w ctx name e = (ctx, e, record { counted = omega arith; timed = omega arith })
  track_all-totals ((n, d) ∷ events) w ctx name e =
      let h : (ctx' : ContextData V) × (current (track_all events (track n d w)) ≡ some ctx')
          × Grown name events (tracked n d ctx) ctx' =
        track_all-totals events (track n d w) (tracked n d ctx) name
          (rw (current-track n d w, e) refl) in
      (h.0, h.1, Grown-cons name n d events ctx h.0 h.2)

  -- With no current context nothing is stored, and each measurement gives one warning.
  pub track_all-null :
      (events : List (String × ℕ)) (w : Contexts V)
      → current w ≡ none
      → track_all events w ≡ record w { warnings = w.warnings ++ map (λ _. "track") events }
  unfolding track_all
  track_all-null [] w e = ap (λ ws. record w { warnings = ws }) (sym (append-nil w.warnings))
  track_all-null ((n, d) ∷ events) w e =
      rw (e, track)
        (rw (track_all-null events (warn_null_context "track" w) (current-warned w "track" e))
          (unfold warn_null_context in rw append_assoc refl))
