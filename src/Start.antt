-- ===== src/Start.antt =====
-- `run` of talisker/__init__.py, once talisker is initialised: a script, its failures and its exit.
mod Status
use mathlib.Core.Option
use talisker.Common.{zero, suc, String, Bool, true, false, Option, none, some, List, [], ◌∷◌, ◌++◌}
use talisker.Common.Int.{ℤ, pos, negsuc}

-- The code of a `SystemExit`.
pub data Code : Type 0 where
  status : ℤ → Code
  message : String → Code

-- How a script ends: it returns, or raises an `Exception`, a `SystemExit` or another `BaseException`.
pub data Ending : Type 0 where
  finished : Ending
  exception : String → Ending
  system_exit : Option Code → Ending
  base_exception : String → Ending

-- What `run` does in the end.
pub data Exit : Type 0 where
  returns : Exit
  exits : Code → Exit
  raises : String → Exit

-- What is logged: the message, and the script in its extra data.
pub record Failure : Type 0 where
  pub message : String
  pub script : Option String

-- `argv` and what is at the front of `sys.path` while the script runs, the logs and the exit.
pub record Run : Type 0 where
  pub argv : List String
  pub path : Option String
  pub logs : List Failure
  pub exit : Exit

-- `e.code or 0`
abbrev pub code_or_0 : (String → Bool) → Option Code → Code
code_or_0 is_empty none = status (pos 0)
code_or_0 is_empty (some (status n)) = status n
code_or_0 is_empty (some (message s)) = elim (is_empty s) [
  | true ↦ status (pos 0)
  | false ↦ message s
]

abbrev pub is_zero_code : Code → Bool
is_zero_code (status (pos zero)) = true
is_zero_code (status (pos (suc n))) = false
is_zero_code (status (negsuc n)) = false
is_zero_code (message s) = false

abbrev pub failure : String → Option String → List Failure
failure msg script = record { message = msg; script = script } ∷ []

-- `if code != 0: logger.exception(…)`
abbrev pub exit_logs : Bool → Option String → List Failure
exit_logs true script = []
exit_logs false script = failure "SystemExit" script

-- The two `except` clauses.
unfoldable pub end_run : (String → Bool) → Option String → Ending → List Failure × Exit
end_run is_empty script finished = ([], returns)
end_run is_empty script (exception e) =
    (failure "Unhandled exception" script, exits (status (pos 1)))
end_run is_empty script (system_exit code) =
    let c = code_or_0 is_empty code in (exit_logs (is_zero_code c) script, exits c)
end_run is_empty script (base_exception e) = ([], raises e)

-- `runpy` runs a script with the arguments that are left; `dirname` is that of `os.path`.
unfoldable pub run :
    (String → Bool) → (String → String) → (String → List String → Ending) → List String → Run
unfolding end_run
run is_empty dirname runpy [] = record {
  argv = [];
  path = none;
  logs = [];
  exit = raises "IndexError";
}
run is_empty dirname runpy (name ∷ []) = record {
  argv = name ∷ [];
  path = none;
  logs = failure "Unhandled exception" none;
  exit = exits (status (pos 1));
}
run is_empty dirname runpy (name ∷ script ∷ args) =
    let (logs, exit) = end_run is_empty (some script) (runpy script (script ∷ args)) in
    record { argv = script ∷ args; path = some (dirname script); logs = logs; exit = exit }
