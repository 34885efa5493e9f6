-- ===== src/Config/Property.antt =====
-- `config_property` and the dict methods of `Config` in talisker/config.py: values are computed on
-- the first read and cached, and what their functions raise is collected.
pub mod Coherent
pub mod Refine
use talisker.Common.{
  String, Bool, true, false, Option, none, some, List, [], ◌∷◌, ◌≡◌, ◌≢◌, refl, sym, ap, ◌∙◌, arith,
  string_eq, ◌==◌, if◌then◌else◌, Option-cases, Bool-cases, inl, inr, ne_of_beq,
}
use talisker.Common.Dict.{Dict, get, insert, erase, get-insert, get-erase}
use talisker.Context.Stack.{Outcome, returned, raised}
use talisker.Config.Values.{
  Setting, none_value, Property, config_file, devel, colour, debuglog, slowquery_threshold,
  explain_sql, soft_request_timeout, request_timeout, logstatus, networks, status_interface,
  revision_id, unit, environment, domain, statsd_dsn, sentry_dsn, sanitise_keys, id_header,
  deadline_header, raw_name, default_of, Builtins, func,
}

-- The object and the module's two dicts, `CONFIG_CACHE` and `CONFIG_ERRORS`.
pub record Config : Type 0 where
  pub raw : Dict String Setting
  pub cache : Dict String Setting
  pub errors : Dict String String

-- `clear`
unfoldable pub clear_config : Config → Config
clear_config c = record c { cache = []; errors = [] }

-- `__setitem__`
unfoldable pub set_item : String → Setting → Config → Config
set_item name v c = record c { cache = erase name c.cache; raw = insert name v c.raw }

-- The end of `__get__` on a miss: the value, or the default and the error.
unfoldable pub store_result : String → Outcome Setting String → Config → Setting × Config
store_result name (returned v) c = (v, record c { cache = insert name v c.cache })
store_result name (raised e) c = (
  default_of name,
  record c { errors = insert name e c.errors; cache = insert name (default_of name) c.cache },
)

-- `__get__` of a property: `compute` is the call of the function under it.
unfoldable pub cached :
    String → (Config → Outcome Setting String × Config) → Config → Setting × Config
unfolding store_result
cached name compute c = elim (get name c.cache) [
  | some v ↦ (v, c)
  | none ↦ let (r, c') = compute c in store_result name r c'
]

module _ (b : Builtins) where
  -- A function that looks at no other property.
  abbrev pub plain_call : Property → Config → Outcome Setting String × Config
  plain_call p c = (func b p (get (raw_name p) c.raw) none_value, c)

  -- The call of the function under a property; that of `colour` reads `self.devel`.
  unfoldable pub call_func : Property → Config → Outcome Setting String × Config
  unfolding cached
  call_func colour c =
      let (d, c') = cached (raw_name devel) (plain_call devel) c in
      (func b colour (get (raw_name colour) c'.raw) d, c')
  call_func p c = plain_call p c

  -- A read of a property.
  unfoldable pub read : Property → Config → Setting × Config
  unfolding cached call_func
  read p c = cached (raw_name p) (call_func p) c

  -- What a property is worth with no cache: the value of its function, or its default.
  abbrev pub or_default : String → Outcome Setting String → Setting
  or_default name (returned v) = v
  or_default name (raised e) = default_of name

  unfoldable pub devel_value : Dict String Setting → Setting
  devel_value raw = or_default (raw_name devel) (func b devel (get (raw_name devel) raw) none_value)

  unfoldable pub value : Property → Dict String Setting → Setting
  value p raw = or_default (raw_name p) (func b p (get (raw_name p) raw) (devel_value raw))

  -- Each cached value is the one that its property is worth.
  pub record IsCoherent (c : Config) : Type 0 where
    pub coherent :
        (p : Property) (v : Setting) → get (raw_name p) c.cache ≡ some v → v ≡ value p c.raw

-- What is done to the object: reads, writes of raw values, and `clear`.
pub data Use : Type 0 where
  use_read : Property → Use
  use_set : String → Setting → Use
  use_clear : Use

module _ (b : Builtins) where
  abbrev pub use_config : Use → Config → Config
  use_config (use_read p) c = (read b p c).1
  use_config (use_set name v) c = set_item name v c
  use_config use_clear c = clear_config c

  unfoldable pub use_all : List Use → Config → Config
  use_all [] c = c
  use_all (u ∷ uses) c = use_all uses (use_config u c)
