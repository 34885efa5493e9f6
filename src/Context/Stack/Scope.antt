-- ===== src/Context/Stack/Scope.antt =====
-- How pushes, pops and unwinds of a `ContextStack` nest, and what keeps it valid.
use talisker.Common.{
  ℕ, String, Option, none, some, List, [], ◌∷◌, ◌++◌, ◌≡◌, refl, arith, ◌≤◌, string_eq,
  append_assoc, Option-cases, inl, inr, or_else, ap,
}
use talisker.Common.Lists.{All, length, length-append}
use talisker.Common.Dict.{Dict, get, update, Distinct, Distinct-update, get-update, update-append}
use talisker.Context.Stack.{
  ContextStack, Outcome, returned, raised, init, flat, push, pop, drop_top, unwind, unwind_stack,
  within, get_item, iterate,
}
use talisker.Context.Stack.Flat.{IsValid, Distinct-iterate, get_item-resolve}

module _ {V : Type 0} where
  -- The dict that a `push` puts on top.
  abbrev pub pushed : Option (Dict String V) → Dict String V → Dict String V
  pushed none kwargs = update [] kwargs
  pushed (some extra) kwargs = update extra kwargs

  unwind_stack-length : (stack : List (Dict String V)) → unwind_stack (length stack) stack ≡ stack
  unfolding unwind_stack
  unwind_stack-length [] = refl
  unwind_stack-length (d ∷ stack) = ground arith

  unwind_stack-append :
      (above stack : List (Dict String V)) → unwind_stack (length stack) (above ++ stack) ≡ stack
  unfolding unwind_stack
  unwind_stack-append [] stack = unwind_stack-length stack
  unwind_stack-append (d ∷ above) stack =
      ground (arith, unwind_stack-append above stack, length-append above stack)

  length-unwind_stack-le :
      (level : ℕ) (stack : List (Dict String V)) → length (unwind_stack level stack) ≤ level
  unfolding unwind_stack
  length-unwind_stack-le level [] = omega arith
  length-unwind_stack-le level (d ∷ stack) = ground (arith, length-unwind_stack-le level stack)

  -- Unwinding to the level that a `push` returned restores the stack from before the `push`,
  -- whatever was pushed since and not popped.
  pub unwind-push :
      (extra : Option (Dict String V)) (kwargs : Dict String V) (s t : ContextStack V)
      (above : List (Dict String V))
      → t.stack ≡ above ++ (push extra kwargs s).1.stack
      → (unwind (push extra kwargs s).0 t).stack ≡ s.stack
  unfolding unwind push
  unwind-push none kwargs s t above h =
      rw (h, ← append_assoc above (update [] kwargs ∷ []) s.stack)
        (unwind_stack-append (above ++ update [] kwargs ∷ []) s.stack)
  unwind-push (some extra) kwargs s t above h =
      rw (h, ← append_assoc above (update extra kwargs ∷ []) s.stack)
        (unwind_stack-append (above ++ update extra kwargs ∷ []) s.stack)

  All-drop_top : (stack : List (Dict String V)) → All Distinct stack → All Distinct (drop_top stack)
  All-drop_top [] h = tt
  All-drop_top (d ∷ stack) h = h.1

  All-unwind_stack :
      (level : ℕ) (stack : List (Dict String V))
      → All Distinct stack
      → All Distinct (unwind_stack level stack)
  unfolding unwind_stack
  All-unwind_stack level [] h = tt
  All-unwind_stack level (d ∷ stack) h = ground (arith, All-unwind_stack level stack h.1)

  pub init-IsValid : (dicts : List (Dict String V)) → All Distinct dicts → IsValid (init dicts)
  unfolding init
  init-IsValid dicts h = record { distinct = h; coherent = λ d e. cc }

  pub push-IsValid :
      (extra : Option (Dict String V)) (kwargs : Dict String V) (s : ContextStack V)
      → ((d : Dict String V) → extra ≡ some d → Distinct d)
      → IsValid s
      → IsValid (push extra kwargs s).1
  unfolding push
  push-IsValid none kwargs s he h = record {
    distinct = (Distinct-update [] kwargs (unfold Distinct in tt), h.distinct);
    coherent = λ d e. cc;
  }
  push-IsValid (some extra) kwargs s he h = record {
    distinct = (Distinct-update extra kwargs (he extra refl), h.distinct);
    coherent = λ d e. cc;
  }

  pub pop-IsValid : (s : ContextStack V) → IsValid s → IsValid (pop s)
  unfolding pop
  pop-IsValid s h = record { distinct = All-drop_top s.stack h.distinct; coherent = λ d e. cc }

  pub unwind-IsValid : (level : ℕ) (s : ContextStack V) → IsValid s → IsValid (unwind level s)
  unfolding unwind
  unwind-IsValid level s h = record {
    distinct = All-unwind_stack level s.stack h.distinct;
    coherent = λ d e. cc;
  }

  pub flat-stack : (s : ContextStack V) → (flat s).1.stack ≡ s.stack
  unfolding flat
  flat-stack s = ground arith

  pub flat-IsValid : (s : ContextStack V) → IsValid s → IsValid (flat s).1
  unfolding flat
  flat-IsValid s h = elim (Option-cases s.cached) [
    | inl empty ↦
        let same = update-append [] (iterate s.stack) (Distinct-iterate s.stack h.distinct) in
        rw (empty, flat) (record { distinct = h.distinct; coherent = λ d e. cc same })
    | inr (d, full) ↦ rw (full, flat) h
  ]

  -- A lookup after a `push` finds the keyword's value, else that of the extra dict, else what the
  -- stack showed before.
  pub get_item-push :
      (k : String) (extra : Option (Dict String V)) (kwargs : Dict String V) (s : ContextStack V)
      → ((d : Dict String V) → extra ≡ some d → Distinct d)
      → Distinct kwargs
      → IsValid s
      → (get_item k (push extra kwargs s).1).0
        ≡ or_else (get k kwargs) (or_else (get k (pushed extra [])) (get_item k s).0)
  get_item-push k none kwargs s he hk h =
      rw
        (
          get_item-resolve k (push none kwargs s).1 (push-IsValid none kwargs s he h),
          get_item-resolve k s h,
        )
        (unfold push get update in ground (arith, get-update k [] kwargs hk))
  get_item-push k (some extra) kwargs s he hk h =
      rw
        (
          get_item-resolve k (push (some extra) kwargs s).1
              (push-IsValid (some extra) kwargs s he h),
          get_item-resolve k s h,
        )
        (unfold push update in ground (arith, get-update k extra kwargs hk))

  module _ {A E : Type 0} where
    -- A `with` block that returns, with what it pushed popped again, leaves the stack as it was
    -- and passes its result on.
    pub within_returns :
        (extra : Option (Dict String V)) (kwargs : Dict String V)
        (block : ContextStack V → Outcome A E × ContextStack V) (s : ContextStack V) (a : A)
        → (block (push extra kwargs s).1).0 ≡ returned a
        → (block (push extra kwargs s).1).1.stack ≡ (push extra kwargs s).1.stack
        → ((within extra kwargs block s).0 ≡ returned a)
          × ((within extra kwargs block s).1.stack ≡ s.stack)
    unfolding within
    within_returns extra kwargs block s a r b = rw (r, within) (refl, ap drop_top b)

    -- A `with` block that raises leaves its dict on the stack: what was pushed for the block is
    -- still there when the exception has left it.
    pub within_raises :
        (extra : Option (Dict String V)) (kwargs : Dict String V)
        (block : ContextStack V → Outcome A E × ContextStack V) (s : ContextStack V) (error : E)
        → (block (push extra kwargs s).1).0 ≡ raised error
        → (block (push extra kwargs s).1).1.stack ≡ (push extra kwargs s).1.stack
        → ((within extra kwargs block s).0 ≡ raised error)
          × ((within extra kwargs block s).1.stack ≡ pushed extra kwargs ∷ s.stack)
    unfolding within
    within_raises none kwargs block s error r b = rw (r, within) (refl, b)
    within_raises (some extra) kwargs block s error r b = rw (r, within) (refl, b)
