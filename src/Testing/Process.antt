-- ===== src/Testing/Process.antt =====
-- `ServerProcess` of talisker/testing.py: the check, the reading of lines and the wait for an output. Times
-- are whole microseconds. What the process does is an argument: `poll` is its return code at a time,
-- `read` is what the n-th `readline` of its output gives and `took` how long that takes, and `rest` is
-- what is left of the output after n reads.
pub mod Reading
pub mod Waiting
use talisker.Common.{
  ℕ, zero, suc, ◌+◌, ◌-◌, String, Bool, true, false, Option, none, some, List, [], ◌∷◌, ◌++◌,
  string_eq, ◌==◌, ◌&&◌, not, ltb, map, if◌then◌else◌,
}
use talisker.Common.Int.{ℤ, pos, ◌-ℤ◌, ltb_ℤ}
use talisker.Context.Stack.{Outcome, returned, raised}

pub record Server : Type 0 where
  pub poll : ℕ → Option ℤ
  pub read : ℕ → String
  pub took : ℕ → ℕ
  pub rest : ℕ → List String
  pub rstrip : String → String
  pub contains : String → String → Bool

-- The clock, the number of reads, the output so far, whether the process has been terminated and the
-- reader closed, and whether the output has been written to stderr.
pub record Process : Type 0 where
  pub now : ℕ
  pub reads : ℕ
  pub output : List String
  pub terminated : Bool
  pub closed : Bool
  pub dumped : Bool

pub data ProcessError : Type 0 where
  server_process_error no_line index_error : ProcessError

module _ (s : Server) where
  -- `raise ServerProcessError`, for a positive return code.
  abbrev pub is_error : Option ℤ → Bool
  is_error none = false
  is_error (some rc) = ltb_ℤ (pos 0) rc

  unfoldable pub check : Process → Bool
  check p = not (is_error (s.poll p.now))

  abbrev pub is_finished : Option ℤ → Bool
  is_finished none = false
  is_finished (some rc) = true

  -- A process that has not finished is terminated and waited for.
  unfoldable pub close : Bool → Process → Process
  close error p = record p {
    terminated = if is_finished (s.poll p.now) then p.terminated else true;
    output = if p.closed then p.output else p.output ++ map s.rstrip (s.rest p.reads);
    closed = true;
    dumped = if error then true else p.dumped;
  }

  -- `self.reader.readline()`
  abbrev pub read_line : Process → String × Process
  read_line p = (s.read p.reads, record p { now = p.now + s.took p.reads; reads = suc p.reads })

  abbrev pub sleep : ℕ → Process → Process
  sleep delay p = record p { now = p.now + delay }

  -- The loop of `readline`: `none` if the fuel is out.
  unfoldable pub read_loop :
      ℕ → ℕ → ℕ → ℕ → String → Process → Option (Outcome String ProcessError × Process)
  unfolding check
  read_loop zero start timeout delay line p = none
  read_loop (suc fuel) start timeout delay line p =
      let (next, p') = read_line (sleep delay p) in
      let rest = read_loop fuel start timeout delay next p' in
      if ltb (p.now - start) timeout && line == ""
      then if check p then rest else some (raised server_process_error, p)
      else some (returned line, p)

  -- What `readline` returns is the time left.
  abbrev pub end_line :
      ℕ
      → ℕ
      → Option (Outcome String ProcessError × Process)
      → Option (Outcome ℤ ProcessError × Process)
  end_line start timeout none = none
  end_line start timeout (some (raised e, p)) = some (raised e, p)
  end_line start timeout (some (returned line, p)) =
      if line == ""
      then some (raised no_line, p)
      else some (
        returned (pos timeout -ℤ pos (p.now - start)),
        record p { output = p.output ++ s.rstrip line ∷ [] },
      )

  unfoldable pub readline : ℕ → ℕ → ℕ → Process → Option (Outcome ℤ ProcessError × Process)
  unfolding read_loop
  readline fuel timeout delay p =
      let (line, p') = read_line p in
      end_line p.now timeout (read_loop fuel p.now timeout delay line p')

  abbrev pub any_contains : String → List String → Bool
  any_contains target [] = false
  any_contains target (line ∷ lines) =
      if s.contains target line then true else any_contains target lines

  abbrev pub last_contains : String → List String → Bool
  last_contains target [] = false
  last_contains target (line ∷ []) = s.contains target line
  last_contains target (line ∷ next ∷ lines) = last_contains target (next ∷ lines)

  -- What an exception does to the wait.
  abbrev pub stopped : ProcessError → Process → Outcome (Unit {0}) ProcessError × Process
  stopped e p = (raised e, close true p)

  -- `while target not in self.output[-1]: self.readline(timeout, delay)`
  unfoldable pub wait_loop :
      ℕ → ℕ → String → ℕ → ℕ → Process → Option (Outcome (Unit {0}) ProcessError × Process)
  unfolding readline close
  wait_loop zero fuel target timeout delay p = none
  wait_loop (suc rounds) fuel target timeout delay p =
      if last_contains target p.output
      then some (returned tt, p)
      else elim (readline fuel timeout delay p) [
        | none ↦ none
        | some r ↦ elim r.0 [
          | raised e ↦ some (stopped e r.1)
          | returned left ↦ wait_loop rounds fuel target timeout delay r.1
        ]
      ]

  abbrev pub first_read :
      Option (Outcome ℤ ProcessError × Process) → Option (Outcome (Unit {0}) ProcessError × Process)
  first_read none = none
  first_read (some (raised e, p)) = some (stopped e p)
  first_read (some (returned left, p)) = some (returned tt, p)

  -- The first line is read if there is none.
  abbrev pub first_line :
      List String → ℕ → ℕ → ℕ → Process → Option (Outcome (Unit {0}) ProcessError × Process)
  first_line (line ∷ lines) fuel timeout delay p = some (returned tt, p)
  first_line [] fuel timeout delay p = first_read (readline fuel timeout delay p)

  -- The target may be in the output already.
  abbrev pub then_wait :
      ℕ
      → ℕ
      → String
      → ℕ
      → ℕ
      → Option (Outcome (Unit {0}) ProcessError × Process)
      → Option (Outcome (Unit {0}) ProcessError × Process)
  then_wait rounds fuel target timeout delay none = none
  then_wait rounds fuel target timeout delay (some (raised e, p)) = some (raised e, p)
  then_wait rounds fuel target timeout delay (some (returned u, p)) =
      if any_contains target p.output
      then some (returned tt, p)
      else wait_loop rounds fuel target timeout delay p

  unfoldable pub wait_for_output :
      ℕ → ℕ → String → ℕ → ℕ → Process → Option (Outcome (Unit {0}) ProcessError × Process)
  unfolding wait_loop
  wait_for_output rounds fuel target timeout delay p =
      then_wait rounds fuel target timeout delay (first_line p.output fuel timeout delay p)
