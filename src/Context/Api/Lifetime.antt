-- ===== src/Context/Api/Lifetime.antt =====
-- The lifetime of a request's context: from `new` to `clear`.
use talisker.Common.{
  ℕ, String, none, some, List, [], ◌∷◌, ◌≡◌, refl, ◌≢◌, ◌⊎◌, inl, inr, arith, string_eq, ◌==◌,
  if◌then◌else◌, Bool-cases, Option, ==_refl,
}
use talisker.Common.Lists.{All}
use talisker.Common.Dict.{get}
use talisker.Context.Data.{ContextData, Contexts}
use talisker.Context.Api.{
  modify_current, clear, new, set_request_id, set_debug, set_soft_timeout, set_relative_deadline,
  set_absolute_deadline,
}
use talisker.Context.Api.Isolation.{
  Call, clear_call, new_call, request_id_call, debug_call, soft_timeout_call,
  relative_deadline_call, absolute_deadline_call, track_call, apply, apply_all, fresh_id,
  is_current, apply-get_ne, get-clear, get-new, current_id-modify_current, current_id-track,
  context_map-track, tracked,
}

abbrev pub StartsNone : Call → Type 0
StartsNone call = fresh_id call ≡ none

module _ {V : Type 0} (uuid : String) (base : String → Option (ContextData V)) where
  -- Inside a request: its context is current, or has been cleared; the others are as at its start.
  record InRequest (w : Contexts V) : Type 0 where
    owner : (w.current_id ≡ some uuid) ⊎ ((w.current_id ≡ none) × (get uuid w.context_map ≡ none))
    others : (j : String) → uuid ≢ j → get j w.context_map ≡ base j

  not_owner : (w : Contexts V) (j : String) → InRequest w → uuid ≢ j → w.current_id ≢ some j
  not_owner w j h ne e = elim h.owner [ inl o ↦ ne (cc) | inr (o, _) ↦ cc ]

  owner-modify :
      (change : ContextData V → ContextData V) (w : Contexts V)
      → InRequest w
      → ((modify_current change w).current_id ≡ some uuid)
        ⊎ (((modify_current change w).current_id ≡ none)
            × (get uuid (modify_current change w).context_map ≡ none))
  owner-modify change w h = elim h.owner [
    | inl o ↦ inl (rw (current_id-modify_current change w) o)
    | inr (o, missing) ↦ inr (
      rw (current_id-modify_current change w) o,
      unfold modify_current in rw (o, modify_current) missing,
    )
  ]

  owner-apply :
      (call : Call) (w : Contexts V)
      → StartsNone call
      → InRequest w
      → ((apply call w).current_id ≡ some uuid)
        ⊎ (((apply call w).current_id ≡ none) × (get uuid (apply call w).context_map ≡ none))
  unfolding apply
  owner-apply clear_call w s h =
      inr (
        unfold clear in ground arith,
        ground (arith, get-clear w uuid, string_eq.beq_iff uuid uuid),
      )
  owner-apply (new_call i now) w s h = cc
  owner-apply (request_id_call rid) w s h = unfold set_request_id in owner-modify _ w h
  owner-apply debug_call w s h = unfold set_debug in owner-modify _ w h
  owner-apply (soft_timeout_call t) w s h = unfold set_soft_timeout in owner-modify _ w h
  owner-apply (relative_deadline_call t) w s h = unfold set_relative_deadline in owner-modify _ w h
  owner-apply (absolute_deadline_call t) w s h = unfold set_absolute_deadline in owner-modify _ w h
  owner-apply (track_call name duration) w s h =
      rw (current_id-track name duration w, context_map-track name duration w)
        (rw (current_id-modify_current (tracked name duration) w) at
          (owner-modify (tracked name duration) w h))

  apply-InRequest :
      (call : Call) (w : Contexts V) → StartsNone call → InRequest w → InRequest (apply call w)
  apply-InRequest call w s h = record {
    owner = owner-apply call w s h;
    others = λ j ne. rw (apply-get_ne call w j (not_owner w j h ne) (λ e. cc)) (h.others j ne);
  }

  apply_all-InRequest :
      (calls : List Call) (w : Contexts V)
      → All StartsNone calls
      → InRequest w
      → InRequest (apply_all calls w)
  unfolding apply_all
  apply_all-InRequest [] w s h = h
  apply_all-InRequest (c ∷ calls) w s h =
      apply_all-InRequest calls (apply c w) s.1 (apply-InRequest c w s.0 h)

  get-clear-InRequest :
      (w : Contexts V) (j : String)
      → InRequest w
      → get j (clear w).context_map ≡ (if uuid == j then none else base j)
  get-clear-InRequest w j h = elim (Bool-cases (uuid == j)) [
    | inl same ↦
        let e = (string_eq.beq_iff uuid j).0 same in
        rw (same, get-clear w j, ← e)
          (elim h.owner [
            | inl o ↦ rw (o, is_current, ==_refl uuid) refl
            | inr (o, missing) ↦ rw (o, is_current) missing
          ])
    | inr other ↦
        let ne : uuid ≢ j = λ e. ground (arith, string_eq.beq_iff uuid j) in
        rw (other, get-clear w j, h.others j ne)
          (elim h.owner [
            | inl o ↦ rw (o, is_current, other) refl
            | inr (o, missing) ↦ rw (o, is_current) refl
          ])
  ]

module _ {V : Type 0} where
  -- The contexts of the process before a request: without the one that `new` clears.
  abbrev pub without_current : Contexts V → String → Option (ContextData V)
  without_current w j = if is_current j w then none else get j w.context_map

  InRequest-new :
      (uuid : String) (now : ℕ) (w : Contexts V)
      → InRequest uuid (without_current w) (new uuid now w).1
  InRequest-new uuid now w = record {
    owner = inl (unfold new in refl);
    others = λ k ne. rw (get-new uuid now w k) (ground (arith, string_eq.beq_iff uuid k));
  }

  -- A request that begins with `new` and ends with `clear` leaves no context of its own, whatever
  -- calls it makes between that begin no other context; every other context is as it was before,
  -- but for the one that `new` cleared.
  pub clear-new :
      (uuid : String) (now : ℕ) (calls : List Call) (w : Contexts V) (j : String)
      → All StartsNone calls
      → get j (clear (apply_all calls (new uuid now w).1)).context_map
        ≡ (if uuid == j then none else without_current w j)
  clear-new uuid now calls w j s =
      get-clear-InRequest uuid (without_current w) (apply_all calls (new uuid now w).1) j (
        apply_all-InRequest uuid (without_current w) calls (new uuid now w).1 s
          (InRequest-new uuid now w))
