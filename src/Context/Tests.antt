-- ===== src/Context/Tests.antt =====
-- The theorems on contexts at concrete stacks and processes.
use talisker.Common.{
  ℕ, String, false, Option, none, some, [], ◌∷◌, ◌≡◌, ◌≢◌, refl, if◌then◌else◌, string_eq, ap,
  ne_of_beq, ◌==◌,
}
use talisker.Common.Int.{pos, negsuc}
use talisker.Common.Dict.{Dict, get, update, Distinct}
use talisker.Context.Stack.{ContextStack, Outcome, raised, init, push, unwind, get_item}
use talisker.Context.Stack.Flat.{resolve, get_item-resolve}
use talisker.Context.Stack.Scope.{unwind-push, init-IsValid}
use talisker.Context.Data.{ContextData, Contexts, context_data}
use talisker.Context.Api.{new, current, clear}
use talisker.Context.Api.Isolation.{track_call, request_id_call, apply_all, current-new}
use talisker.Context.Api.Lifetime.{clear-new, without_current}
use talisker.Context.Api.Tracking.{track_all, Grown, track_all-totals}

abbrev base : Dict String String
base = ("app", "web") ∷ ("env", "prod") ∷ []

abbrev over : Dict String String
over = ("env", "test") ∷ []

abbrev stack : ContextStack String
unfolding init
stack = init (base ∷ [])

base-Distinct : Distinct base
unfolding Distinct get
base-Distinct = (refl, (refl, tt))

over-Distinct : Distinct over
unfolding Distinct get
over-Distinct = (refl, tt)

unwind-push_example :
    (unwind (push none over stack).0 (push none base (push none over stack).1).1).stack
    ≡ stack.stack
unwind-push_example =
    unwind-push none over stack (push none base (push none over stack).1).1 (update [] base ∷ [])
      (unfold push in refl)

get_item-resolve_example : (get_item "env" stack).0 ≡ resolve "env" stack.stack
unfolding stack init
get_item-resolve_example =
    get_item-resolve "env" stack (init-IsValid (base ∷ []) (base-Distinct, tt))

abbrev raising : ContextStack String → Outcome ℕ String × ContextStack String
raising s = (raised "KeyError", s)

-- A process with one context, `b`, that no task of ours is in.
abbrev process : Contexts String
process = record { context_map = ("b", context_data "b" 5) ∷ []; current_id = none; warnings = [] }

clear-new_example :
    get "b"
      (clear (
        apply_all
          (track_call "sql" 7 ∷ request_id_call (some "r") ∷ [])
          (new "a" 100 process).1)).context_map
    ≡ (if ◌==◌ {A = String} "a" "b" then none else without_current process "b")
clear-new_example =
    clear-new "a" 100 (track_call "sql" 7 ∷ request_id_call (some "r") ∷ []) process "b"
      (refl, (refl, tt))

none_is_not : process.current_id ≢ some "b"
none_is_not = λ e. cc

a_is_not_b : ◌≢◌ {A = Option String} (some "a") (some "b")
a_is_not_b = λ e. ne_of_beq "a" "b" refl (ap (λ o. elim o [ none ↦ "a" | some x ↦ x ]) e)

abbrev in_request : Contexts String
in_request = (new "a" 100 process).1

abbrev late : ContextData String
late = record {
  id = "a";
  start_time = 100;
  request_id = none;
  logging = record { stack = []; cached = none };
  tracking = [];
  soft_timeout = negsuc 0;
  deadline = some (pos 109);
  debug = false;
}

abbrev at_deadline : Contexts String
at_deadline = record { context_map = ("a", late) ∷ []; current_id = some "a"; warnings = [] }

track_all-totals_example :
    (ctx' : ContextData String) × (current (track_all (("sql", 3) ∷ ("sql", 4) ∷ []) in_request)
      ≡ some ctx')
    × Grown "sql" (("sql", 3) ∷ ("sql", 4) ∷ []) (context_data "a" 100) ctx'
track_all-totals_example =
    track_all-totals (("sql", 3) ∷ ("sql", 4) ∷ []) in_request (context_data "a" 100) "sql"
      (current-new "a" 100 process)
