-- ===== src/Sentry/Config.antt =====
-- `ensure_talisker_config` of talisker/sentry.py: the arguments of a client, completed from the configuration.
-- A Python set is a list, read by membership. Tags that are explicitly `None` are not modelled.
pub mod Sets
use mathlib.Core.Option
use talisker.Common.{
  String, Bool, true, false, Option, none, some, List, [], ◌∷◌, string_eq, ◌==◌, ◌||◌,
  if◌then◌else◌, or_else,
}
use talisker.Common.Dict.{Dict, insert}

-- The arguments that are read or written; `none` is one that is absent or `None`.
pub record Kwargs : Type 0 where
  pub processors : Option (List String)
  pub sanitize_keys : Option (List String)
  pub install_logging_hook : Bool
  pub release : Option String
  pub hook_libraries : Option (List String)
  pub tags : Option (Dict String String)
  pub dsn : Option String

-- The configuration, with `DEFAULT_SANITISE_KEYS`.
pub record Config : Type 0 where
  pub default_sanitise_keys : List String
  pub sanitise_keys : List String
  pub revision_id : Option String
  pub unit : Option String
  pub environment : Option String
  pub domain : Option String
  pub sentry_dsn : Option String

abbrev pub default_processors : List String
default_processors =
    "raven.processors.RemovePostDataProcessor" ∷ "raven.processors.SanitizePasswordsProcessor"
    ∷ "raven.processors.RemoveStackLocalsProcessor" ∷ "raven.processors.SanitizeKeysProcessor" ∷ []

-- `x in set`
abbrev pub elem : String → List String → Bool
elem x [] = false
elem x (y ∷ set) = y == x || elem x set

-- `a | b`
unfoldable pub union : List String → List String → List String
union [] b = b
union (x ∷ a) b = let rest = union a b in if elem x rest then rest else x ∷ rest

abbrev pub put_tag : String → Option String → Dict String String → Dict String String
put_tag name none tags = tags
put_tag name (some value) tags = insert name value tags

-- An empty DSN is falsy.
abbrev pub choose_dsn : Option String → Option String → Option String
choose_dsn none configured = configured
choose_dsn (some dsn) configured = if dsn == "" then configured else some dsn

unfoldable pub ensure_talisker_config : Config → Kwargs → Kwargs
unfolding union
ensure_talisker_config config kwargs = record {
  processors = some (union default_processors (Option.get_or kwargs.processors []));
  sanitize_keys = some (
      union (union (Option.get_or kwargs.sanitize_keys []) config.default_sanitise_keys)
        config.sanitise_keys);
  install_logging_hook = false;
  release = or_else kwargs.release config.revision_id;
  hook_libraries = some (Option.get_or kwargs.hook_libraries []);
  tags = some (
      put_tag "domain" config.domain (
        put_tag "environment" config.environment
          (put_tag "unit" config.unit (Option.get_or kwargs.tags []))));
  dsn = choose_dsn kwargs.dsn config.sentry_dsn;
}
