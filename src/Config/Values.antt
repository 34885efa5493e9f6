-- ===== src/Config/Values.antt =====
-- The values of talisker/config.py and the functions under its properties. A function reads one raw
-- value, under the property's own name; `colour` also reads the value of `devel`.
use talisker.Common.{
  zero, String, Bool, true, false, not, Option, none, some, List, [], ◌∷◌, string_eq, ◌==◌, ◌||◌,
  if◌then◌else◌,
}
use talisker.Common.Int.{ℤ, pos, negsuc}
use talisker.Common.Dict.{Dict, get}
use talisker.Context.Stack.{Outcome, returned, raised}

-- A configuration value: what the environment or the config file has, or what a property makes of
-- it. Networks are numbered. A set of texts is a list here.
pub data Setting : Type 0 where
  text : String → Setting
  flag : Bool → Setting
  number : ℤ → Setting
  texts : List String → Setting
  networks_value : List ℤ → Setting
  none_value : Setting

-- The properties, in the order of the source.
pub data Property : Type 0 where
  config_file devel colour debuglog slowquery_threshold explain_sql : Property
  soft_request_timeout request_timeout logstatus networks status_interface : Property
  revision_id unit environment domain statsd_dsn sentry_dsn sanitise_keys : Property
  id_header deadline_header : Property

unfoldable pub raw_name : Property → String
raw_name config_file = "TALISKER_CONFIG"
raw_name devel = "DEVEL"
raw_name colour = "TALISKER_COLOUR"
raw_name debuglog = "DEBUGLOG"
raw_name slowquery_threshold = "TALISKER_SLOWQUERY_THRESHOLD"
raw_name explain_sql = "TALISKER_EXPLAIN_SQL"
raw_name soft_request_timeout = "TALISKER_SOFT_REQUEST_TIMEOUT"
raw_name request_timeout = "TALISKER_REQUEST_TIMEOUT"
raw_name logstatus = "TALISKER_LOGSTATUS"
raw_name networks = "TALISKER_NETWORKS"
raw_name status_interface = "TALISKER_STATUS_INTERFACE"
raw_name revision_id = "TALISKER_REVISION_ID"
raw_name unit = "TALISKER_UNIT"
raw_name environment = "TALISKER_ENV"
raw_name domain = "TALISKER_DOMAIN"
raw_name statsd_dsn = "STATSD_DSN"
raw_name sentry_dsn = "SENTRY_DSN"
raw_name sanitise_keys = "TALISKER_SANITISE_KEYS"
raw_name id_header = "TALISKER_ID_HEADER"
raw_name deadline_header = "TALISKER_DEADLINE_HEADER"

abbrev pub defaults : Dict String Setting
defaults =
    ("DEVEL", flag false)
    ∷ ("TALISKER_COLOUR", flag false)
    ∷ ("TALISKER_LOGSTATUS", flag false)
    ∷ ("TALISKER_SLOWQUERY_THRESHOLD", number (negsuc 0))
    ∷ ("TALISKER_SOFT_REQUEST_TIMEOUT", number (negsuc 0))
    ∷ ("TALISKER_NETWORKS", networks_value [])
    ∷ ("TALISKER_ID_HEADER", text "X-Request-Id")
    ∷ ("TALISKER_DEADLINE_HEADER", text "X-Request-Deadline")
    ∷ ("TALISKER_EXPLAIN_SQL", flag false)
    ∷ []

-- `DEFAULTS.get(name)`
abbrev pub or_none_value : Option Setting → Setting
or_none_value none = none_value
or_none_value (some v) = v

unfoldable pub default_of : String → Setting
default_of name = or_none_value (get name defaults)

-- Python's truth of a value.
unfoldable pub is_true : Setting → Bool
is_true (text s) = not (s == "")
is_true (flag b) = b
is_true (number (pos zero)) = false
is_true (number n) = true
is_true (texts []) = false
is_true (texts (t ∷ ts)) = true
is_true (networks_value []) = false
is_true (networks_value (n ∷ ns)) = true
is_true none_value = false

-- What the properties call: `int`, `str.lower`, `str.split`, `str.split(',')`, `str.strip`, `str` of
-- another value, `ip_network`, the environment's TERM, whether stderr is a terminal, and the
-- revision that is detected. `none` is a `ValueError`.
pub record Builtins : Type 0 where
  pub int : String → Option ℤ
  pub lower : String → String
  pub split : String → List String
  pub split_comma : String → List String
  pub strip : String → String
  pub str : Setting → String
  pub ip_network : String → Option ℤ
  pub term : Option String
  pub isatty : Bool
  pub revision : String

abbrev pub one_of : String → List String → Bool
one_of s [] = false
one_of s (t ∷ ts) = s == t || one_of s ts

abbrev pub active_words : List String
active_words = "true" ∷ "1" ∷ "yes" ∷ "on" ∷ []

abbrev pub inactive_words : List String
inactive_words = "false" ∷ "0" ∷ "no" ∷ "off" ∷ []

abbrev pub keep_nonblank : (String → String) → List String → List String
keep_nonblank strip [] = []
keep_nonblank strip (s ∷ ss) =
    let rest = keep_nonblank strip ss in if strip s == "" then rest else s ∷ rest

abbrev pub cons_network : Option ℤ → Option (List ℤ) → Option (List ℤ)
cons_network (some n) (some ns) = some (n ∷ ns)
cons_network _ _ = none

abbrev pub all_networks : (String → Option ℤ) → List String → Option (List ℤ)
all_networks ip_network [] = some []
all_networks ip_network (s ∷ ss) = cons_network (ip_network s) (all_networks ip_network ss)

module _ (b : Builtins) where
  -- `self[raw_name]`, given `self.raw.get(raw_name)`
  unfoldable pub raw_item : String → Option Setting → Setting
  unfolding default_of
  raw_item name none = default_of name
  raw_item name (some v) = v

  abbrev pub active : Setting → Setting
  active (text s) = flag (one_of (b.lower s) active_words)
  active v = v

  -- `is_active`
  unfoldable pub is_active : String → Option Setting → Setting
  unfolding raw_item
  is_active name raw = active (raw_item name raw)

  unfoldable pub force_int : Setting → Outcome Setting String
  force_int (text s) = elim (b.int s) [ none ↦ raised "Exception" | some n ↦ returned (number n) ]
  force_int (number n) = returned (number n)
  force_int (flag true) = returned (number (pos 1))
  force_int (flag false) = returned (number (pos 0))
  force_int _ = raised "TypeError"

  abbrev pub colour_scheme : String → Outcome Setting String
  colour_scheme c =
      if one_of c active_words
      then returned (text "default")
      else if one_of c inactive_words
      then returned (flag false)
      else if one_of c ("default" ∷ "simple" ∷ [])
      then returned (text c)
      else raised "Exception"

  abbrev pub chosen_colour : Option Setting → Outcome Setting String
  chosen_colour (some (text s)) = colour_scheme (b.lower s)
  chosen_colour (some v) = raised "AttributeError"
  chosen_colour none = returned (if b.isatty then text "default" else flag false)

  abbrev pub is_dumb : Option String → Bool
  is_dumb none = false
  is_dumb (some term) = b.lower term == "dumb"

  unfoldable pub colour_of : Option Setting → Setting → Outcome Setting String
  unfolding is_true
  colour_of raw devel_value =
      if not (is_true devel_value)
      then returned (flag false)
      else if is_dumb b.term
      then returned (flag false)
      else chosen_colour raw

  unfoldable pub networks_of : Option Setting → Outcome Setting String
  networks_of none = returned (networks_value [])
  networks_of (some (text s)) = elim (all_networks b.ip_network (b.split s)) [
    | none ↦ raised "ValueError"
    | some ns ↦ returned (networks_value ns)
  ]
  networks_of (some v) = raised "AttributeError"

  unfoldable pub sanitise_keys_of : Option Setting → Outcome Setting String
  sanitise_keys_of none = returned (texts (keep_nonblank b.strip (b.split_comma "")))
  sanitise_keys_of (some (text s)) = returned (texts (keep_nonblank b.strip (b.split_comma s)))
  sanitise_keys_of (some v) = raised "AttributeError"

  abbrev pub str_unless_none : Setting → Setting
  str_unless_none none_value = none_value
  str_unless_none (text s) = text s
  str_unless_none v = text (b.str v)

  abbrev pub int_unless_none : Setting → Outcome Setting String
  int_unless_none none_value = returned none_value
  int_unless_none v = force_int v

  abbrev pub revision_of : Option Setting → Setting
  revision_of (some v) = v
  revision_of none = text b.revision

  -- The function under each property, of its raw value; only `colour` looks at the second value,
  -- that of `devel`.
  unfoldable pub func : Property → Option Setting → Setting → Outcome Setting String
  unfolding is_active force_int colour_of networks_of sanitise_keys_of
  func devel raw _ = returned (is_active (raw_name devel) raw)
  func explain_sql raw _ = returned (is_active (raw_name explain_sql) raw)
  func logstatus raw _ = returned (is_active (raw_name logstatus) raw)
  func colour raw devel_value = colour_of raw devel_value
  func debuglog raw _ = returned (str_unless_none (raw_item (raw_name debuglog) raw))
  func slowquery_threshold raw _ = force_int (raw_item (raw_name slowquery_threshold) raw)
  func soft_request_timeout raw _ = force_int (raw_item (raw_name soft_request_timeout) raw)
  func request_timeout raw _ = int_unless_none (raw_item (raw_name request_timeout) raw)
  func networks raw _ = networks_of raw
  func revision_id raw _ = returned (revision_of raw)
  func sanitise_keys raw _ = sanitise_keys_of raw
  func p raw _ = returned (raw_item (raw_name p) raw)
