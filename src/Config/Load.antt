-- ===== src/Config/Load.antt =====
-- `load_env_config` and `get_revision_id` of talisker/config.py. The environment and what a config
-- file holds are arguments.
use mathlib.Core.Option
use talisker.Common.{
  ne_of_beq, String, Bool, true, false, not, Option, none, some, List, [], ◌∷◌, ◌≡◌, ◌≢◌, refl,
  arith, string_eq, ◌==◌, ◌&&◌, if◌then◌else◌, or_else, is_some, Option-cases, Bool-cases, inl, inr,
}
use talisker.Common.Dict.{Dict, get, insert, erase, get-insert, get-erase}
use talisker.Context.Stack.{Outcome, returned, raised}
use talisker.Config.Values.{Setting, text, none_value}

-- `env[name] = env.pop(alias)`, if only the alias is there.
unfoldable pub apply_alias : String → String → Dict String String → Dict String String
apply_alias name alias env = elim (get name env) [
  | some v ↦ env
  | none ↦ elim (get alias env) [ none ↦ env | some v ↦ insert name v (erase alias env) ]
]

-- CONFIG_ALIASES
unfoldable pub apply_aliases : Dict String String → Dict String String
unfolding apply_alias
apply_aliases env = apply_alias "TALISKER_COLOUR" "TALISKER_COLOR" env

-- A value that is not `None`.
abbrev pub unless_none : Setting → Option Setting
unless_none none_value = none
unless_none v = some v

abbrev first_setting : Option String → Option Setting → Option Setting
first_setting (some v) in_file = some (text v)
first_setting none none = none
first_setting none (some v) = unless_none v

-- `env.get(name, file_cfg.get(name, None))`
unfoldable pub env_or_file : Dict String String → Dict String Setting → String → Option Setting
env_or_file env file name = first_setting (get name env) (get name file)

abbrev pub put_some : String → Option Setting → Dict String Setting → Dict String Setting
put_some name none raw = raw
put_some name (some v) raw = insert name v raw

-- The loop over CONFIG_META.
unfoldable pub collect_raw :
    List String
    → Dict String String
    → Dict String Setting
    → Dict String Setting
    → Dict String Setting
collect_raw [] env file raw = raw
collect_raw (name ∷ names) env file raw =
    collect_raw names env file (put_some name (env_or_file env file name) raw)

module _ (names : List String)
    (file_at : String → Option (Outcome (Dict String Setting) String)) where
  abbrev run_file :
      Dict String String
      → Option (Outcome (Dict String Setting) String)
      → Outcome (Dict String Setting) String
  run_file env none = raised "RuntimeError"
  run_file env (some (raised e)) = raised e
  run_file env (some (returned file)) = returned (collect_raw names env file [])

  abbrev load_path : Dict String String → Option String → Outcome (Dict String Setting) String
  load_path env none = returned (collect_raw names env [] [])
  load_path env (some path) =
      if path == "" then returned (collect_raw names env [] []) else run_file env (file_at path)

  -- `file_at` is what the file at a path holds: `none` if there is none, or what running it raises.
  -- The result comes with the environment, in which the aliases are renamed.
  unfoldable pub load_env_config :
      Dict String String → Outcome (Dict String Setting) String × Dict String String
  load_env_config env =
      let env' = apply_aliases env in (load_path env' (get "TALISKER_CONFIG" env'), env')

abbrev pub one_of_names : String → List String → Bool
one_of_names k [] = false
one_of_names k (n ∷ names) = if n == k then true else one_of_names k names

get-put_some :
    (n k : String) (o : Option Setting) (raw : Dict String Setting)
    → get k (put_some n o raw) ≡ (if n == k then or_else o (get k raw) else get k raw)
get-put_some n k none raw = ground arith
get-put_some n k (some v) raw = get-insert n k v raw

or_else_twice : (o r : Option Setting) → or_else o (or_else o r) ≡ or_else o r
or_else_twice none r = refl
or_else_twice (some v) r = refl

get-collect_raw :
    (names : List String) (env : Dict String String) (file raw : Dict String Setting) (k : String)
    → get k (collect_raw names env file raw)
      ≡ (if one_of_names k names then or_else (env_or_file env file k) (get k raw) else get k raw)
unfolding collect_raw
get-collect_raw [] env file raw k = refl
get-collect_raw (n ∷ names) env file raw k =
    let o = env_or_file env file n in
    elim (Bool-cases (n == k)) [
      | inl e ↦
          let same : n ≡ k = (string_eq.beq_iff n k).0 e in
          rw
            (get-collect_raw names env file (put_some n o raw) k, get-put_some n k o raw, e, ← same)
            (ground (arith, or_else_twice o (get n raw)))
      | inr e ↦
          rw (get-collect_raw names env file (put_some n o raw) k, get-put_some n k o raw, e) refl
    ]

get-apply_alias :
    (name alias k : String) (env : Dict String String)
    → name ≢ alias
    → get k (apply_alias name alias env) ≡ (
        if name == k
        then or_else (get name env) (get alias env)
        else if alias == k && not (is_some (get name env))
        then none
        else get k env)
unfolding apply_alias
get-apply_alias name alias k env ne = elim (Option-cases (get name env)) [
  | inr (v, e) ↦ rw (e, apply_alias) (ground (arith, string_eq.beq_iff name k))
  | inl e ↦ elim (Option-cases (get alias env)) [
    | inl f ↦
        rw (e, f, apply_alias) (ground (arith, string_eq.beq_iff name k, string_eq.beq_iff alias k))
    | inr (v, f) ↦
        rw (e, f, apply_alias)
          (rw (get-insert name k v (erase alias env), get-erase alias k env) (ground arith))
  ]
]

-- What the environment says of a name, under its own name or its alias.
abbrev pub from_env : Dict String String → String → Option String
from_env env k =
    if ◌==◌ {A = String} "TALISKER_COLOUR" k
    then or_else (get "TALISKER_COLOUR" env) (get "TALISKER_COLOR" env)
    else get k env

-- What the file says of a name, a `None` set aside.
abbrev pub from_file : Dict String Setting → String → Option Setting
from_file file k = elim (get k file) [ none ↦ none | some v ↦ unless_none v ]

get-apply_aliases :
    (k : String) (env : Dict String String)
    → "TALISKER_COLOR" ≢ k
    → get k (apply_aliases env) ≡ from_env env k
unfolding apply_aliases
get-apply_aliases k env ne =
    rw
      (get-apply_alias "TALISKER_COLOUR" "TALISKER_COLOR" k env
        (ne_of_beq "TALISKER_COLOUR" "TALISKER_COLOR" refl))
      (ground (arith, string_eq.beq_iff "TALISKER_COLOR" k))

first_setting-or_else :
    (o : Option String) (in_file : Option Setting)
    → first_setting o in_file
      ≡ or_else (Option.map text o) (elim in_file [ none ↦ none | some v ↦ unless_none v ])
first_setting-or_else (some v) in_file = refl
first_setting-or_else none none = refl
first_setting-or_else none (some v) = refl

path_not_alias : ◌≢◌ {A = String} "TALISKER_COLOR" "TALISKER_CONFIG"
path_not_alias = ne_of_beq "TALISKER_COLOR" "TALISKER_CONFIG" refl

path_test : (path : String) → path ≢ "" → (path == "") ≡ false
path_test path ne = ground (arith, string_eq.beq_iff path "")

env_or_file-apply_aliases :
    (k : String) (env : Dict String String) (file : Dict String Setting)
    → "TALISKER_COLOR" ≢ k
    → env_or_file (apply_aliases env) file k
      ≡ or_else (Option.map text (from_env env k)) (from_file file k)
unfolding env_or_file
env_or_file-apply_aliases k env file ne =
    rw (get-apply_aliases k env ne) (first_setting-or_else (from_env env k) (get k file))

-- With a config file that can be run, the configuration of each known name is the environment's
-- value, under the name or its alias, else the file's; no other name has one.
pub get-load_env_config :
    (names : List String) (file_at : String → Option (Outcome (Dict String Setting) String))
    (env : Dict String String) (path : String) (file : Dict String Setting)
    → get "TALISKER_CONFIG" env ≡ some path
    → path ≢ ""
    → file_at path ≡ some (returned file)
    → (raw : Dict String Setting) × ((load_env_config names file_at env).0 ≡ returned raw)
      × ((k : String)
          → "TALISKER_COLOR" ≢ k
          → get k raw ≡ (
              if one_of_names k names
              then or_else (Option.map text (from_env env k)) (from_file file k)
              else none))
unfolding load_env_config
get-load_env_config names file_at env path file e ne found =
    let env' = apply_aliases env in
    (
      collect_raw names env' file [],
      rw (get-apply_aliases "TALISKER_CONFIG" env path_not_alias, e, path_test path ne, found) refl,
      λ k other.
          rw (get-collect_raw names env' file [] k, env_or_file-apply_aliases k env file other)
            (unfold get in ground arith),
    )

-- A path with no file is an error, whatever the environment has.
pub load_env_config_missing :
    (names : List String) (file_at : String → Option (Outcome (Dict String Setting) String))
    (env : Dict String String) (path : String)
    → get "TALISKER_CONFIG" env ≡ some path
    → path ≢ ""
    → file_at path ≡ none
    → (load_env_config names file_at env).0 ≡ raised "RuntimeError"
unfolding load_env_config
load_env_config_missing names file_at env path e ne missing =
    rw (get-apply_aliases "TALISKER_CONFIG" env path_not_alias, e, path_test path ne, missing) refl

module _ (strip : String → String) where
  -- The result of one of the revision functions: bytes, by whether there are any and what they are
  -- stripped and decoded, or a text.
  pub data Revision : Type 0 where
    bytes : Bool → Option String → Revision
    str : String → Revision
    failed : Revision

  abbrev pub revision_text : Revision → Option String
  revision_text (bytes true decoded) = decoded
  revision_text (bytes false decoded) = none
  revision_text (str s) = if s == "" then none else some (strip s)
  revision_text failed = none

  -- `get_revision_id`: each function is tried in turn, and what it raises is dropped.
  unfoldable pub get_revision_id : List Revision → String
  get_revision_id [] = "unknown"
  get_revision_id (r ∷ rest) =
      let later = get_revision_id rest in elim (revision_text r) [ none ↦ later | some s ↦ s ]
