-- ===== src/Context/Data.antt =====
-- `ContextData`, the process global `CONTEXT_MAP` and its functions in talisker/context.py.
-- Times are whole microseconds; `time.time()` and `uuid.uuid4()` are arguments.
use talisker.Common.{
  ℕ, String, Bool, false, Option, none, some, List, [], ◌∷◌, ◌++◌, or_else, string_eq,
}
use talisker.Common.Int.{ℤ, negsuc}
use talisker.Common.Dict.{Dict, get, insert, erase}
use talisker.Context.Stack.{ContextStack, init}

pub record Tracker : Type 0 where
  pub count : ℕ
  pub time : ℕ

abbrev pub new_tracker : Tracker
new_tracker = record { count = 0; time = 0 }

pub record ContextData (V : Type 0) : Type 0 where
  pub id : String
  pub start_time : ℕ
  pub request_id : Option String
  pub logging : ContextStack V
  pub tracking : Dict String Tracker
  pub soft_timeout : ℤ
  pub deadline : Option ℤ
  pub debug : Bool

-- The module's state: `CONTEXT_MAP`, the value of `ContextId` in the running task, and the APIs
-- about which `warn_null_context` has warned.
pub record Contexts (V : Type 0) : Type 0 where
  pub context_map : Dict String (ContextData V)
  pub current_id : Option String
  pub warnings : List String

module _ {V : Type 0} where
  -- `ContextData.__init__`
  unfoldable pub context_data : String → ℕ → ContextData V
  unfolding init
  context_data context_id now = record {
    id = context_id;
    start_time = now;
    request_id = none;
    logging = init [];
    tracking = [];
    soft_timeout = negsuc 0;
    deadline = none;
    debug = false;
  }

  -- `get_context`; `none` stands for `NULL_CONTEXT`.
  unfoldable pub get_context : Option String → Contexts V → Option (ContextData V)
  get_context context_id w = elim (or_else context_id w.current_id) [
    | none ↦ none
    | some i ↦ get i w.context_map
  ]

  add_context : String → ℕ → Contexts V → ContextData V × Contexts V
  unfolding context_data
  add_context i now w =
      let ctx = context_data i now in (ctx, record w { context_map = insert i ctx w.context_map })

  -- `create_context`; `uuid` is what `uuid4` yields.
  unfoldable pub create_context :
      Option String → String → ℕ → Contexts V → ContextData V × Contexts V
  unfolding add_context
  create_context none uuid now w = add_context uuid now w
  create_context (some i) uuid now w = elim (get i w.context_map) [
    | some ctx ↦ (ctx, w)
    | none ↦ add_context i now w
  ]

  unfoldable pub delete_context : String → Contexts V → Option (ContextData V) × Contexts V
  delete_context i w = (get i w.context_map, record w { context_map = erase i w.context_map })

  unfoldable pub warn_null_context : String → Contexts V → Contexts V
  warn_null_context api w = record w { warnings = w.warnings ++ api ∷ [] }
