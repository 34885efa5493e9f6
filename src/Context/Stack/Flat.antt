-- ===== src/Context/Stack/Flat.antt =====
-- What a `ContextStack` shows: its flat view is the lookup from the top of the stack down.
use talisker.Common.{
  String, Option, none, some, List, [], ◌∷◌, ◌++◌, ◌≡◌, refl, arith, string_eq, if◌then◌else◌, ◌||◌,
  or_else, Option-cases, inl, inr,
}
use talisker.Common.Lists.{All}
use talisker.Common.Dict.{Dict, get, contains, Distinct, get-append, Distinct-append, update-append}
use talisker.Context.Stack.{
  ContextStack, keys, member, unseen, iterate_from, iterate, flat, get_item,
}

-- The value of a key: that of the topmost dict which holds it.
abbrev pub resolve : {V : Type 0} → String → List (Dict String V) → Option V
resolve k [] = none
resolve k (d ∷ stack) = or_else (get k d) (resolve k stack)

member-append :
    (k : String) (xs ys : List String) → member k (xs ++ ys) ≡ (member k xs || member k ys)
unfolding member
member-append k [] ys = refl
member-append k (x ∷ xs) ys = ground (arith, member-append k xs ys)

module _ {V : Type 0} where
  member-keys : (k : String) (d : Dict String V) → member k (keys d) ≡ contains k d
  unfolding member get
  member-keys k [] = refl
  member-keys k ((j, v) ∷ d) = ground (arith, member-keys k d)

  get-unseen :
      (k : String) (seen : List String) (d : Dict String V)
      → get k (unseen seen d) ≡ (if member k seen then none else get k d)
  unfolding get unseen
  get-unseen k seen [] = ground arith
  get-unseen k seen ((j, v) ∷ d) = ground (arith, get-unseen k seen d, string_eq.beq_iff j k)

  Distinct-unseen : (seen : List String) (d : Dict String V) → Distinct d → Distinct (unseen seen d)
  unfolding Distinct unseen
  Distinct-unseen seen [] h = tt
  Distinct-unseen seen ((j, v) ∷ d) h =
      ground (arith, Distinct-unseen seen d h.1, get-unseen j seen d)

  get-iterate_from :
      (k : String) (seen : List String) (stack : List (Dict String V))
      → get k (iterate_from seen stack) ≡ (if member k seen then none else resolve k stack)
  unfolding iterate_from
  get-iterate_from k seen [] = unfold get in ground arith
  get-iterate_from k seen (d ∷ stack) = rw get-append (
      ground (
        arith,
        get-unseen k seen d,
        get-iterate_from k (seen ++ keys d) stack,
        member-append k seen (keys d),
        member-keys k d,
      ))

  Distinct-iterate_from :
      (seen : List String) (stack : List (Dict String V))
      → All Distinct stack
      → Distinct (iterate_from seen stack)
  unfolding iterate_from
  Distinct-iterate_from seen [] h = unfold Distinct in tt
  Distinct-iterate_from seen (d ∷ stack) (hd, hs) =
      Distinct-append (unseen seen d) (iterate_from (seen ++ keys d) stack)
        (Distinct-unseen seen d hd) (Distinct-iterate_from (seen ++ keys d) stack hs)
        (λ j m. ground (
          arith,
          get-unseen j seen d,
          get-iterate_from j (seen ++ keys d) stack,
          member-append j seen (keys d),
          member-keys j d,
        ))

-- The dicts have distinct keys, and a cached view is the one that would be computed.
pub record IsValid {V : Type 0} (s : ContextStack V) : Type 0 where
  pub distinct : All Distinct s.stack
  pub coherent : (d : Dict String V) → s.cached ≡ some d → d ≡ iterate s.stack

module _ {V : Type 0} where
  pub Distinct-iterate :
      (stack : List (Dict String V)) → All Distinct stack → Distinct (iterate stack)
  unfolding iterate
  Distinct-iterate stack = Distinct-iterate_from [] stack

  pub get-iterate :
      (k : String) (stack : List (Dict String V)) → get k (iterate stack) ≡ resolve k stack
  unfolding iterate member
  get-iterate k stack = get-iterate_from k [] stack

  -- On a valid stack the flat view lists the pairs from the top of the stack down, whether or not
  -- it was cached.
  pub flat-iterate : (s : ContextStack V) → IsValid s → (flat s).0 ≡ iterate s.stack
  unfolding flat
  flat-iterate s h = elim (Option-cases s.cached) [
    | inl empty ↦
        rw (empty, flat) (update-append [] (iterate s.stack) (Distinct-iterate s.stack h.distinct))
    | inr (d, full) ↦ rw (full, flat) (h.coherent d full)
  ]

  -- A lookup in a valid stack finds the value of the topmost dict that holds the key, and nothing
  -- exactly when no dict holds it.
  pub get_item-resolve :
      (k : String) (s : ContextStack V) → IsValid s → (get_item k s).0 ≡ resolve k s.stack
  unfolding get_item
  get_item-resolve k s h = rw (flat-iterate s h) (get-iterate k s.stack)
