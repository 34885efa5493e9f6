-- ===== src/Sentry/Config/Sets.antt =====
-- What `ensure_talisker_config` of talisker/sentry.py ensures.
use mathlib.Core.Option
use talisker.Common.{
  String, false, Option, none, some, List, [], ◌∷◌, ◌≡◌, refl, ap, ◌∙◌, arith, string_eq, ◌==◌,
  ◌||◌, or_else, if◌then◌else◌,
}
use talisker.Common.Dict.{Dict, get, get-insert}
use talisker.Sentry.Config.{
  Kwargs, Config, default_processors, elem, union, put_tag, ensure_talisker_config,
}

elem-union : (x : String) (a b : List String) → elem x (union a b) ≡ elem x a || elem x b
unfolding union
elem-union x [] b = refl
elem-union x (y ∷ a) b = ground (arith, elem-union x a b, elem-union y a b, string_eq.beq_iff y x)

get-put_tag :
    (name k : String) (v : Option String) (tags : Dict String String)
    → get k (put_tag name v tags) ≡ (if name == k then or_else v (get k tags) else get k tags)
get-put_tag name k none tags = ground arith
get-put_tag name k (some v) tags = get-insert name k v tags

-- What a client's arguments should be.
pub record Ensured (config : Config) (before after : Kwargs) : Type 0 where
  pub processors :
      (x : String)
      → elem x (Option.get_or after.processors [])
        ≡ elem x default_processors || elem x (Option.get_or before.processors [])
  pub sanitised :
      (x : String)
      → elem x (Option.get_or after.sanitize_keys [])
        ≡ (elem x (Option.get_or before.sanitize_keys []) || elem x config.default_sanitise_keys)
          || elem x config.sanitise_keys
  pub unhooked : after.install_logging_hook ≡ false
  pub unit :
      get "unit" (Option.get_or after.tags [])
      ≡ or_else config.unit (get "unit" (Option.get_or before.tags []))
  pub environment :
      get "environment" (Option.get_or after.tags [])
      ≡ or_else config.environment (get "environment" (Option.get_or before.tags []))
  pub domain :
      get "domain" (Option.get_or after.tags [])
      ≡ or_else config.domain (get "domain" (Option.get_or before.tags []))
  pub others :
      (k : String)
      → ("unit" == k) ≡ false
      → ("environment" == k) ≡ false
      → ("domain" == k) ≡ false
      → get k (Option.get_or after.tags []) ≡ get k (Option.get_or before.tags [])

get-put_tag_ne :
    (name k : String) (v : Option String) (tags : Dict String String)
    → (name == k) ≡ false
    → get k (put_tag name v tags) ≡ get k tags
get-put_tag_ne name k v tags ne = get-put_tag name k v tags ∙ rw (ne) refl

-- A client gets the default processors and those that it is given, and no others; the keys to
-- sanitise are those that it is given, the default ones and the configured ones; it hooks no
-- logging; and the configured unit, environment and domain win over its tags, which stay else.
pub ensure_talisker_config-Ensured :
    (config : Config) (kwargs : Kwargs)
    → Ensured config kwargs (ensure_talisker_config config kwargs)
unfolding ensure_talisker_config
ensure_talisker_config-Ensured config kwargs =
    let t = Option.get_or kwargs.tags [] in
    let t₁ = put_tag "unit" config.unit t in
    let t₂ = put_tag "environment" config.environment t₁ in
    record {
      processors = λ x. elem-union x default_processors (Option.get_or kwargs.processors []);
      sanitised = λ x.
          elem-union x (union (Option.get_or kwargs.sanitize_keys []) config.default_sanitise_keys)
            config.sanitise_keys
          ∙ ap (λ b. b || elem x config.sanitise_keys)
              (elem-union x (Option.get_or kwargs.sanitize_keys []) config.default_sanitise_keys);
      unhooked = refl;
      unit =
          get-put_tag_ne "domain" "unit" config.domain t₂ refl
          ∙ get-put_tag_ne "environment" "unit" config.environment t₁ refl
          ∙ get-put_tag "unit" "unit" config.unit t;
      environment =
          get-put_tag_ne "domain" "environment" config.domain t₂ refl
          ∙ get-put_tag "environment" "environment" config.environment t₁
          ∙ ap (or_else config.environment)
              (get-put_tag_ne "unit" "environment" config.unit t refl);
      domain =
          get-put_tag "domain" "domain" config.domain t₂
          ∙ ap (or_else config.domain) (
              get-put_tag_ne "environment" "domain" config.environment t₁ refl
              ∙ get-put_tag_ne "unit" "domain" config.unit t refl);
      others = λ k a b c.
          get-put_tag_ne "domain" k config.domain t₂ c
          ∙ get-put_tag_ne "environment" k config.environment t₁ b
          ∙ get-put_tag_ne "unit" k config.unit t a;
    }
