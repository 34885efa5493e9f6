-- ===== src/Context/Stack.antt =====
-- `ContextStack` of talisker/context.py. The source keeps the top of the stack at the end of a
-- Python list; here the top is the head, so `append` is `∷`, `pop` the tail, and `reversed` nothing.
pub mod Flat
pub mod Scope
use talisker.Common.{
  ℕ, String, Bool, true, Option, none, some, List, [], ◌∷◌, ◌++◌, map, ltb, if◌then◌else◌, ◌==◌,
  ◌||◌, false, string_eq,
}
use talisker.Common.Lists.{length}
use talisker.Common.Dict.{Dict, get, update}

pub record ContextStack (V : Type 0) : Type 0 where
  pub stack : List (Dict String V)
  pub cached : Option (Dict String V)

-- What a `with` block, or any call of user code, comes back with.
pub data Outcome (A E : Type 0) : Type 0 where
  returned : A → Outcome A E
  raised : E → Outcome A E

abbrev pub keys : {V : Type 0} → Dict String V → List String
keys = map (λ kv. kv.0)

unfoldable pub member : String → List String → Bool
member k [] = false
member k (j ∷ seen) = j == k || member k seen

module _ {V : Type 0} where
  unfoldable pub init : List (Dict String V) → ContextStack V
  init dicts = record { stack = dicts; cached = none }

  -- The inner loop of `_iterate`.
  unfoldable pub unseen : List String → Dict String V → Dict String V
  unfolding member
  unseen seen [] = []
  unseen seen ((k, v) ∷ d) =
      let rest = unseen seen d in if member k seen then rest else (k, v) ∷ rest

  unfoldable pub iterate_from : List String → List (Dict String V) → Dict String V
  unfolding unseen
  iterate_from seen [] = []
  iterate_from seen (d ∷ stack) = unseen seen d ++ iterate_from (seen ++ keys d) stack

  unfoldable pub iterate : List (Dict String V) → Dict String V
  unfolding iterate_from
  iterate stack = iterate_from [] stack

  -- The property `flat`, which fills the cache: the dict, and the stack after the call.
  unfoldable pub flat : ContextStack V → Dict String V × ContextStack V
  flat s = elim s.cached [
    | some d ↦ (d, s)
    | none ↦ let d = update [] (iterate s.stack) in (d, record s { cached = some d })
  ]

  -- `push(_dict, **kwargs)`: the level before, and the new stack.
  unfoldable pub push : Option (Dict String V) → Dict String V → ContextStack V → ℕ × ContextStack V
  push extra kwargs s =
      let d : Dict String V = elim extra [ none ↦ [] | some extra_dict ↦ extra_dict ] in
      (length s.stack, record { stack = update d kwargs ∷ s.stack; cached = none })

  abbrev pub drop_top : List (Dict String V) → List (Dict String V)
  drop_top [] = []
  drop_top (d ∷ stack) = stack

  unfoldable pub pop : ContextStack V → ContextStack V
  pop s = record { stack = drop_top s.stack; cached = none }

  -- The `while` loop of `unwind`.
  unfoldable pub unwind_stack : ℕ → List (Dict String V) → List (Dict String V)
  unwind_stack level [] = []
  unwind_stack level (d ∷ stack) =
      let rest = unwind_stack level stack in
      if ltb level (length (d ∷ stack)) then rest else d ∷ stack

  unfoldable pub unwind : ℕ → ContextStack V → ContextStack V
  unfolding unwind_stack
  unwind level s = record { stack = unwind_stack level s.stack; cached = none }

  -- `__call__`, the context manager: push, run the block, pop. There is no `try` around the
  -- `yield`, so the `pop` runs only if the block returns.
  unfoldable pub within :
      {A E : Type 0}
      → Option (Dict String V)
      → Dict String V
      → (ContextStack V → Outcome A E × ContextStack V)
      → ContextStack V
      → Outcome A E × ContextStack V
  unfolding push pop
  within extra kwargs block s =
      let (result, after) = block (push extra kwargs s).1 in
      elim result [ returned a ↦ (returned a, pop after) | raised error ↦ (raised error, after) ]

  -- `__getitem__`; a missing key is a `KeyError`, here `none`.
  unfoldable pub get_item : String → ContextStack V → Option V × ContextStack V
  unfolding flat
  get_item k s = let (d, after) = flat s in (get k d, after)

  -- `__len__`
  unfoldable pub len : ContextStack V → ℕ × ContextStack V
  unfolding flat
  len s = let (d, after) = flat s in (length d, after)

  -- `__iter__`
  unfoldable pub iter : ContextStack V → List String × ContextStack V
  unfolding flat
  iter s = let (d, after) = flat s in (keys d, after)
