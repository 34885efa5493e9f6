-- ===== src/Testing/Tests.antt =====
-- The theorems on the searches and the parser of logs at concrete records and lines.

use talisker.Common.{
  ℕ, zero, suc, arith, false, String, not, none, some, List, [], ◌∷◌, ◌++◌, ◌≡◌, refl, string_eq,
  ◌==◌,
}
use talisker.Common.Int.{ℤ}
use talisker.Context.Stack.{Outcome}
use talisker.Testing.Process.{Server, Process, ProcessError, readline}
use talisker.Testing.Process.Reading.{ReadEnd, readline-ReadEnd}
use talisker.Common.Text.{Text, codes, text_beq}
use talisker.Common.Dict.{Dict, get}
use talisker.Testing.Records.{
  Value, text, number, LogRecord, clean_kwargs, all_cmp, match_record, matching, filter, find,
  exists, assert_log, assert_not_log,
}
use talisker.Testing.Records.Search.{head, is_cons, passes, searches_agree}
use talisker.Testing.Parse.{Builtins, groups, parse, parse_groups}
use talisker.Testing.Parse.Groups.{concat, without_blanks, parse-concat}

abbrev same_case : Text → Text
same_case t = t

abbrev a_record : LogRecord
a_record = record {
  attributes =
      ("message", text (codes "hello"))
      ∷ ("name", text (codes "app"))
      ∷ ("levelno", number 20)
      ∷ [];
  extra = some (("foo", text (codes "bar")) ∷ []);
}

abbrev no_message : LogRecord
no_message = record { attributes = ("name", text (codes "app")) ∷ []; extra = none }

abbrev records : List LogRecord
records = no_message ∷ a_record ∷ []

abbrev by_message : Dict String Value
by_message = ("message", text (codes "ell")) ∷ []

abbrev by_extra : Dict String Value
by_extra = ("foo", text (codes "bar")) ∷ []

filtered : filter same_case by_extra by_message records ≡ some (a_record ∷ [])
unfolding filter clean_kwargs matching match_record all_cmp get text_beq
filtered = refl

searches_agree_example :
    (find same_case by_extra by_message records ≡ some (head (a_record ∷ [])))
    × (exists same_case by_extra by_message records ≡ some (is_cons (a_record ∷ [])))
    × (passes (assert_log same_case by_extra by_message records) ≡ is_cons (a_record ∷ []))
    × (passes (assert_not_log same_case by_extra by_message records)
        ≡ not (is_cons (a_record ∷ [])))
searches_agree_example =
    searches_agree same_case by_extra by_message records (a_record ∷ []) filtered

abbrev by_name : Dict String Value
by_name = ("name", text (codes "app")) ∷ []

clean_message : clean_kwargs same_case by_message ≡ some by_message
unfolding clean_kwargs get
clean_message = refl

clean_name : clean_kwargs same_case by_name ≡ some by_name
unfolding clean_kwargs get
clean_name = refl

clean_both : clean_kwargs same_case (by_name ++ by_message) ≡ some (by_name ++ by_message)
unfolding clean_kwargs get
clean_both = refl

abbrev builtins : Builtins
builtins = record {
  blank = λ s. s == "";
  timestamp = λ s. s == "2016-01-02 03:04:05.678Z INFO app msg";
  shlex = λ s. some ("2016-01-02" ∷ "03:04:05.678Z" ∷ "INFO" ∷ "app" ∷ "msg" ∷ []);
  split_once = λ s. none;
  strptime = λ date tod. some 1451703845;
  join_lines = λ lines. "";
}

abbrev a_log : List String
a_log = "2016-01-02 03:04:05.678Z INFO app msg" ∷ "Traceback" ∷ []

abbrev lines : List String
lines =
    "" ∷ "2016-01-02 03:04:05.678Z INFO app msg" ∷ "" ∷ "Traceback"
    ∷ "2016-01-02 03:04:05.678Z INFO app msg" ∷ "Traceback" ∷ []

nonblank : without_blanks builtins lines ≡ concat builtins (a_log ∷ a_log ∷ [])
unfolding without_blanks concat
nonblank = refl

parse-concat_example :
    (groups builtins [] lines ≡ a_log ∷ a_log ∷ [])
    × (parse builtins lines ≡ parse_groups builtins (a_log ∷ a_log ∷ []))
parse-concat_example =
    parse-concat builtins (a_log ∷ a_log ∷ []) lines
      ((refl, refl, ((refl, refl), tt)), ((refl, refl, ((refl, refl), tt)), tt)) nonblank

-- The lines that a process writes: another one, then the one waited for.
abbrev line_of : ℕ → String
line_of zero = "starting"
line_of (suc n) = "Booting worker"

abbrev a_server : Server
a_server = record {
  poll = λ t. none;
  read = line_of;
  took = λ n. 1;
  rest = λ n. [];
  rstrip = λ s. s;
  contains = λ s t. s == t;
}

abbrev a_process : Process
a_process = record {
  now = 100;
  reads = 0;
  output = [];
  terminated = false;
  closed = false;
  dumped = false;
}

line_of-nonempty : (n : ℕ) → (line_of n == "") ≡ false
line_of-nonempty zero = refl
line_of-nonempty (suc n) = refl

-- A process that writes nothing.
abbrev silent : Server
silent = record {
  poll = λ t. none;
  read = λ n. "";
  took = λ n. 0;
  rest = λ n. [];
  rstrip = λ s. s;
  contains = λ s t. false;
}

readline-ReadEnd_example :
    (r : Outcome ℤ ProcessError × Process) × (readline silent 31 30 10 a_process ≡ some r)
    × ReadEnd silent 30 a_process r.0 r.1
readline-ReadEnd_example = readline-ReadEnd silent 31 30 10 a_process (omega arith) (omega arith)
