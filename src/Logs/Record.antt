-- ===== src/Logs/Record.antt =====
-- `StructuredLogger.makeRecord` of talisker/logs.py: how the extra data of a call, of the context
-- and of the process are merged. Keys are strings; the values are not looked into.
pub mod Merge
use Prim.Native.String.{◌++◌}
use talisker.Common.{
  String, Bool, true, false, Option, none, some, List, [], ◌∷◌, ◌||◌, string_eq, if◌then◌else◌, not,
  ◌==◌,
}
use talisker.Common.Dict.{Dict, get, contains, insert, erase, update}

-- What `makeRecord` stores on the record: `extra` and `_trailer`. The dict that the caller passed
-- comes back too, since the trailer is popped from it.
pub record Structured (V : Type 0) : Type 0 where
  pub structured : Dict String V
  pub trailer : Option V
  pub caller_extra : Dict String V

module _ {V : Type 0} where
  -- One of the two loops: `k = k + '_'` if the key is taken, then `structured[k] = v`.
  unfoldable pub add_renamed : (String → Bool) → Dict String V → Dict String V → Dict String V
  add_renamed taken [] structured = structured
  add_renamed taken ((k, v) ∷ items) structured =
      add_renamed taken items (insert (if taken k then k ++ "_" else k) v structured)

  -- The two loops and the update: the data of the call, of the context and of the process.
  unfoldable pub merge_extras : Dict String V → Dict String V → Dict String V → Dict String V
  merge_extras context_extra global_extra extra =
      let from_call =
        add_renamed (λ k. contains k context_extra || contains k global_extra) extra [] in
      let from_context = add_renamed (λ k. contains k global_extra) context_extra from_call in
      update from_context global_extra

  -- `if request_id: structured['request_id'] = request_id`
  unfoldable pub add_request_id : (String → V) → Option String → Dict String V → Dict String V
  add_request_id of_rid none structured = structured
  add_request_id of_rid (some rid) structured =
      if rid == "" then structured else insert "request_id" (of_rid rid) structured

  abbrev pub context_extra : Option (Dict String V × Option String) → Dict String V
  context_extra none = []
  context_extra (some (flat, _)) = flat

  abbrev pub context_request_id : Option (Dict String V × Option String) → Option String
  context_request_id none = none
  context_request_id (some (_, rid)) = rid

  -- The `try` block. `context` is the flat logging context and the request id, if a context id is
  -- set; `of_rid` makes a value of the request id.
  unfoldable pub make_record :
      (String → V)
      → Option (Dict String V × Option String)
      → Dict String V
      → Dict String V
      → Structured V
  make_record of_rid context global_extra extra =
      let extra' : Dict String V = erase "trailer" extra in
      record {
        structured =
            add_request_id of_rid (context_request_id context)
              (merge_extras (context_extra context) global_extra extra');
        trailer = get "trailer" extra;
        caller_extra = extra';
      }
