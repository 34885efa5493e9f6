-- ===== src/Config/Tests.antt =====
-- The theorems on the configuration at a concrete environment, file and object.
use talisker.Common.{
  String, true, Option, none, some, List, [], ◌∷◌, ◌≡◌, ◌≢◌, refl, string_eq, ◌==◌, if◌then◌else◌,
  ne_of_beq,
}
use talisker.Common.Int.{pos}
use talisker.Common.Dict.{Dict}
use talisker.Context.Stack.{Outcome, returned}
use talisker.Config.Values.{Setting, text, flag, request_timeout, networks, colour, Builtins}
use talisker.Config.Property.{read, value, Use, use_read, use_set, use_all}
use talisker.Config.Property.Refine.{raw_after, new_config, read-use_all}

abbrev builtins : Builtins
builtins = record {
  int = λ s. if s == "5" then some (pos 5) else none;
  lower = λ s. s;
  split = λ s. s ∷ [];
  split_comma = λ s. s ∷ [];
  strip = λ s. s;
  str = λ v. "1";
  ip_network = λ s. none;
  term = none;
  isatty = true;
  revision = "r1";
}

-- Networks that cannot be read.
abbrev raw_values : Dict String Setting
raw_values = ("TALISKER_NETWORKS", text "bad") ∷ ("DEVEL", text "on") ∷ []

abbrev uses : List Use
uses =
    use_read networks
    ∷ use_read request_timeout
    ∷ use_set "TALISKER_REQUEST_TIMEOUT" (text "5")
    ∷ use_read colour
    ∷ []

timeout_not_devel : ◌≢◌ {A = String} "TALISKER_REQUEST_TIMEOUT" "DEVEL"
timeout_not_devel = ne_of_beq "TALISKER_REQUEST_TIMEOUT" "DEVEL" refl

read-use_all_example :
    (read builtins request_timeout (use_all builtins uses (new_config raw_values))).0
    ≡ value builtins request_timeout (raw_after uses raw_values)
read-use_all_example =
    read-use_all builtins raw_values uses request_timeout (tt, (tt, (timeout_not_devel, (tt, tt))))

abbrev names : List String
names = "TALISKER_COLOUR" ∷ "DEVEL" ∷ []

abbrev environ : Dict String String
environ = ("TALISKER_CONFIG", "config.py") ∷ ("TALISKER_COLOR", "simple") ∷ []

abbrev config_py : Dict String Setting
config_py = ("DEVEL", flag true) ∷ []

abbrev file_at : String → Option (Outcome (Dict String Setting) String)
file_at path = some (returned config_py)

config_path_not_empty : ◌≢◌ {A = String} "config.py" ""
config_path_not_empty = ne_of_beq "config.py" "" refl
