-- ===== src/Context/Api/Isolation.antt =====
-- Which contexts a call of the API touches: the current one, and no other.
use talisker.Common.{
  ℕ, String, Bool, false, Option, none, some, List, [], ◌∷◌, ◌≡◌, refl, ◌≢◌, arith, string_eq, ◌==◌,
  if◌then◌else◌, Option-cases, inl, inr,
}
use mathlib.Core.Option
use talisker.Common.Int.{ℤ}
use talisker.Common.Dict.{get, get-insert, get-erase}
use talisker.Context.Data.{ContextData, Contexts, context_data}
use talisker.Context.Api.{
  current, modify_current, clear, new, set_request_id, set_debug, set_soft_timeout,
  set_relative_deadline, set_absolute_deadline, bump, track,
}

-- The calls of the API that may write.
pub data Call : Type 0 where
  clear_call : Call
  new_call : String → ℕ → Call
  request_id_call : Option String → Call
  debug_call : Call
  soft_timeout_call : ℤ → Call
  relative_deadline_call absolute_deadline_call : ℤ → Call
  track_call : String → ℕ → Call

module _ {V : Type 0} where
  unfoldable pub apply : Call → Contexts V → Contexts V
  apply clear_call w = clear w
  apply (new_call uuid now) w = (new uuid now w).1
  apply (request_id_call rid) w = set_request_id rid w
  apply debug_call w = set_debug w
  apply (soft_timeout_call t) w = set_soft_timeout t w
  apply (relative_deadline_call t) w = set_relative_deadline t w
  apply (absolute_deadline_call t) w = set_absolute_deadline t w
  apply (track_call name duration) w = track name duration w

  unfoldable pub apply_all : List Call → Contexts V → Contexts V
  unfolding apply
  apply_all [] w = w
  apply_all (c ∷ calls) w = apply_all calls (apply c w)

  -- Every context is stored under its own id.
  pub record IsKeyed (w : Contexts V) : Type 0 where
    pub keyed : (k : String) (ctx : ContextData V) → get k w.context_map ≡ some ctx → ctx.id ≡ k

-- The ids that a call may write to, beside the current one.
abbrev pub fresh_id : Call → Option String
fresh_id (new_call uuid now) = some uuid
fresh_id _ = none

module _ {V : Type 0} where
  abbrev pub is_current : String → Contexts V → Bool
  is_current j w = elim w.current_id [ none ↦ false | some i ↦ i == j ]

  -- A write through the API changes the current context, if there is one, and no other.
  pub get-modify_current :
      (change : ContextData V → ContextData V) (w : Contexts V) (j : String)
      → get j (modify_current change w).context_map
        ≡ (if is_current j w then Option.map change (get j w.context_map) else get j w.context_map)
  unfolding modify_current
  get-modify_current change w j = elim (Option-cases w.current_id) [
    | inl e ↦ rw (e, modify_current) refl
    | inr (i, e) ↦ elim (Option-cases (get i w.context_map)) [
      | inl missing ↦ ground (arith, string_eq.beq_iff i j)
      | inr (ctx, found) ↦
          ground (arith, get-insert i j (change ctx) w.context_map, string_eq.beq_iff i j)
    ]
  ]

  pub current_id-modify_current :
      (change : ContextData V → ContextData V) (w : Contexts V)
      → (modify_current change w).current_id ≡ w.current_id
  unfolding modify_current
  current_id-modify_current change w = ground arith

  not_current : (w : Contexts V) (j : String) → w.current_id ≢ some j → is_current j w ≡ false
  not_current w j h = elim (Option-cases w.current_id) [
    | inl e ↦ rw (e, is_current) refl
    | inr (i, e) ↦ ground (arith, string_eq.beq_iff i j)
  ]

  get-modify_current_ne :
      (change : ContextData V → ContextData V) (w : Contexts V) (j : String)
      → w.current_id ≢ some j
      → get j (modify_current change w).context_map ≡ get j w.context_map
  get-modify_current_ne change w j h = rw (get-modify_current change w j, not_current w j h)

  pub get-clear :
      (w : Contexts V) (j : String)
      → get j (clear w).context_map ≡ (if is_current j w then none else get j w.context_map)
  unfolding clear
  get-clear w j = elim (Option-cases w.current_id) [
    | inl e ↦ rw (e, clear) refl
    | inr (i, e) ↦ ground (arith, get-erase i j w.context_map)
  ]

  -- After `new` the map holds the new context, and loses the one that was current.
  pub get-new :
      (uuid : String) (now : ℕ) (w : Contexts V) (j : String)
      → get j (new uuid now w).1.context_map ≡ (
          if uuid == j
          then some (context_data uuid now)
          else if is_current j w
          then none
          else get j w.context_map)
  unfolding new
  get-new uuid now w j =
      ground (arith, get-insert uuid j (context_data uuid now) (clear w).context_map, get-clear w j)

  -- `new` makes a fresh context current, with no request id, no deadline, no debug flag and no
  -- logging data.
  pub current-new :
      (uuid : String) (now : ℕ) (w : Contexts V)
      → current (new uuid now w).1 ≡ some (context_data uuid now)
  unfolding new current
  current-new uuid now w = ground (
    arith,
    get-insert uuid uuid (context_data uuid now) (clear w).context_map,
    string_eq.beq_iff uuid uuid,
  )

  -- The write that `track` makes, if there is a current context.
  abbrev pub tracked : String → ℕ → ContextData V → ContextData V
  tracked name duration ctx = record ctx { tracking = bump name duration ctx.tracking }

  pub context_map-track :
      (name : String) (duration : ℕ) (w : Contexts V)
      → (track name duration w).context_map ≡ (modify_current (tracked name duration) w).context_map
  unfolding track current modify_current
  context_map-track name duration w = ground arith

  pub current_id-track :
      (name : String) (duration : ℕ) (w : Contexts V)
      → (track name duration w).current_id ≡ w.current_id
  unfolding track current modify_current
  current_id-track name duration w = ground arith

  -- A call leaves every context alone but the current one and the one that it creates.
  pub apply-get_ne :
      (call : Call) (w : Contexts V) (j : String)
      → w.current_id ≢ some j
      → fresh_id call ≢ some j
      → get j (apply call w).context_map ≡ get j w.context_map
  unfolding apply
  apply-get_ne clear_call w j h hf = rw (get-clear w j, not_current w j h)
  apply-get_ne (new_call uuid now) w j h hf =
      rw (get-new uuid now w j) (ground (arith, string_eq.beq_iff uuid j, not_current w j h))
  apply-get_ne (request_id_call rid) w j h hf =
      unfold set_request_id in get-modify_current_ne _ w j h
  apply-get_ne debug_call w j h hf = unfold set_debug in get-modify_current_ne _ w j h
  apply-get_ne (soft_timeout_call t) w j h hf =
      unfold set_soft_timeout in get-modify_current_ne _ w j h
  apply-get_ne (relative_deadline_call t) w j h hf =
      unfold set_relative_deadline in get-modify_current_ne _ w j h
  apply-get_ne (absolute_deadline_call t) w j h hf =
      unfold set_absolute_deadline in get-modify_current_ne _ w j h
  apply-get_ne (track_call name duration) w j h hf =
      rw (context_map-track name duration w) (get-modify_current_ne _ w j h)

  -- The contexts of the map under their own ids stay so.
  modify_current-IsKeyed :
      (change : ContextData V → ContextData V) (w : Contexts V)
      → ((ctx : ContextData V) → (change ctx).id ≡ ctx.id)
      → IsKeyed w
      → IsKeyed (modify_current change w)
  modify_current-IsKeyed change w same h = record {
    keyed = λ k ctx e. elim (Option-cases (get k w.context_map)) [
      | inl missing ↦ ground (arith, get-modify_current change w k)
      | inr (old, found) ↦
          ground (arith, get-modify_current change w k, h.keyed k old found, same old)
    ];
  }

  -- Every call keeps each context of the process under its own id.
  pub apply-IsKeyed : (call : Call) (w : Contexts V) → IsKeyed w → IsKeyed (apply call w)
  unfolding apply
  apply-IsKeyed clear_call w h = record {
    keyed = λ k ctx e. h.keyed k ctx (ground (arith, get-clear w k));
  }
  apply-IsKeyed (new_call uuid now) w h = record {
    keyed = λ k ctx e.
        unfold context_data in
        ground (arith, get-new uuid now w k, string_eq.beq_iff uuid k, h.keyed k ctx);
  }
  apply-IsKeyed (request_id_call rid) w h =
      unfold set_request_id in modify_current-IsKeyed _ w (λ ctx. refl) h
  apply-IsKeyed debug_call w h = unfold set_debug in modify_current-IsKeyed _ w (λ ctx. refl) h
  apply-IsKeyed (soft_timeout_call t) w h =
      unfold set_soft_timeout in modify_current-IsKeyed _ w (λ ctx. refl) h
  apply-IsKeyed (relative_deadline_call t) w h =
      unfold set_relative_deadline in modify_current-IsKeyed _ w (λ ctx. refl) h
  apply-IsKeyed (absolute_deadline_call t) w h =
      unfold set_absolute_deadline in modify_current-IsKeyed _ w (λ ctx. refl) h
  apply-IsKeyed (track_call name duration) w h = record {
    keyed =
        rw (context_map-track name duration w)
          ((modify_current-IsKeyed (tracked name duration) w (λ ctx. refl) h).keyed);
  }
