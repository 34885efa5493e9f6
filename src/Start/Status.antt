-- ===== src/Start/Status.antt =====
-- That `run` of talisker/__init__.py logs exactly the failures that its exit tells.
use talisker.Common.{String, Bool, true, false, not, Option, some, List, [], ◌∷◌, ◌≡◌, refl}
use talisker.Start.{
  exit_logs, Ending, finished, exception, system_exit, base_exception, Exit, returns, exits, raises,
  Failure, code_or_0, is_zero_code, end_run, run,
}

-- An exit that the shell sees as a failure, and that talisker handles.
abbrev is_failure : Exit → Bool
is_failure returns = false
is_failure (exits c) = not (is_zero_code c)
is_failure (raises e) = false

abbrev is_logged : List Failure → Bool
is_logged [] = false
is_logged (f ∷ logs) = true

is_logged-exit_logs : (b : Bool) (script : Option String) → is_logged (exit_logs b script) ≡ not b
is_logged-exit_logs true script = refl
is_logged-exit_logs false script = refl

is_logged-end_run :
    (is_empty : String → Bool) (script : Option String) (ending : Ending)
    → is_logged (end_run is_empty script ending).0 ≡ is_failure (end_run is_empty script ending).1
unfolding end_run
is_logged-end_run is_empty script finished = refl
is_logged-end_run is_empty script (exception e) = refl
is_logged-end_run is_empty script (system_exit code) =
    is_logged-exit_logs (is_zero_code (code_or_0 is_empty code)) script
is_logged-end_run is_empty script (base_exception e) = refl

-- A run is logged as a failure exactly if it exits with a status that is not zero.
is_logged-run :
    (is_empty : String → Bool) (dirname : String → String) (runpy : String → List String → Ending)
    (argv : List String)
    → is_logged (run is_empty dirname runpy argv).logs
      ≡ is_failure (run is_empty dirname runpy argv).exit
unfolding run
is_logged-run is_empty dirname runpy [] = refl
is_logged-run is_empty dirname runpy (name ∷ []) = refl
is_logged-run is_empty dirname runpy (name ∷ script ∷ args) =
    is_logged-end_run is_empty (some script) (runpy script (script ∷ args))
