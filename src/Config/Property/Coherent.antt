-- ===== src/Config/Property/Coherent.antt =====
-- The cache of `config_property` in talisker/config.py against the values that it stands for.
use talisker.Common.{
  String, Bool, true, Option, some, [], ◌∷◌, ◌≡◌, refl, sym, ap, ◌∙◌, arith, string_eq, ◌==◌,
  if◌then◌else◌, Option-cases, Bool-cases, inl, inr,
}
use talisker.Common.Dict.{Dict, get, insert, get-insert}
use talisker.Context.Stack.{Outcome, returned, raised}
use talisker.Config.Values.{
  Setting, none_value, Property, config_file, devel, colour, debuglog, slowquery_threshold,
  explain_sql, soft_request_timeout, request_timeout, logstatus, networks, status_interface,
  revision_id, unit, environment, domain, statsd_dsn, sentry_dsn, sanitise_keys, id_header,
  deadline_header, raw_name, default_of, Builtins, func,
}
use talisker.Config.Property.{
  Config, store_result, cached, plain_call, call_func, read, or_default, devel_value, value,
  IsCoherent,
}

-- The properties by their raw names.
abbrev named : Dict String Property
named =
    (raw_name config_file, config_file)
    ∷ (raw_name devel, devel)
    ∷ (raw_name colour, colour)
    ∷ (raw_name debuglog, debuglog)
    ∷ (raw_name slowquery_threshold, slowquery_threshold)
    ∷ (raw_name explain_sql, explain_sql)
    ∷ (raw_name soft_request_timeout, soft_request_timeout)
    ∷ (raw_name request_timeout, request_timeout)
    ∷ (raw_name logstatus, logstatus)
    ∷ (raw_name networks, networks)
    ∷ (raw_name status_interface, status_interface)
    ∷ (raw_name revision_id, revision_id)
    ∷ (raw_name unit, unit)
    ∷ (raw_name environment, environment)
    ∷ (raw_name domain, domain)
    ∷ (raw_name statsd_dsn, statsd_dsn)
    ∷ (raw_name sentry_dsn, sentry_dsn)
    ∷ (raw_name sanitise_keys, sanitise_keys)
    ∷ (raw_name id_header, id_header)
    ∷ (raw_name deadline_header, deadline_header)
    ∷ []

get-named : (p : Property) → get (raw_name p) named ≡ some p
unfolding get raw_name
get-named config_file = refl
get-named p = refl

raw_name_injective : (p q : Property) → raw_name p ≡ raw_name q → p ≡ q
raw_name_injective p q e = cc (get-named p, get-named q)

module _ (b : Builtins) where
  -- What a call leaves, which found the value of `p` in a coherent object.
  pub record Read (p : Property) (c c' : Config) (v : Setting) : Type 0 where
    pub is_value : v ≡ value b p c.raw
    pub coherent : IsCoherent b c'
    pub raw : c'.raw ≡ c.raw

  get-inserted :
      (p q : Property) (v : Setting) (c c' : Config)
      → c'.cache ≡ insert (raw_name p) v c.cache
      → get (raw_name q) c'.cache
        ≡ (if raw_name p == raw_name q then some v else get (raw_name q) c.cache)
  get-inserted p q v c c' cache =
      ap (get (raw_name q)) cache ∙ get-insert (raw_name p) (raw_name q) v c.cache

  if_true :
      (t : Bool) (v w : Setting) (o : Option Setting)
      → (if t then some v else o) ≡ some w
      → t ≡ true
      → v ≡ w
  if_true t v w o h e = ground arith

  insert-IsCoherent :
      (p : Property) (c c' : Config) (v : Setting)
      → IsCoherent b c
      → v ≡ value b p c.raw
      → c'.cache ≡ insert (raw_name p) v c.cache
      → c'.raw ≡ c.raw
      → IsCoherent b c'
  insert-IsCoherent p c c' v h e cache raw = record {
    coherent = λ q w found. elim (Bool-cases (raw_name p == raw_name q)) [
      | inl same ↦
          let equal : p ≡ q =
            raw_name_injective p q ((string_eq.beq_iff (raw_name p) (raw_name q)).0 same) in
          let is_v : v ≡ w = if_true _ v w _ (sym (get-inserted p q v c c' cache) ∙ found) same in
          rw (raw, ← equal) (sym is_v ∙ e)
      | inr differ ↦
          rw raw (h.coherent q w (sym (get-inserted p q v c c' cache ∙ rw differ refl) ∙ found))
    ];
  }

  store_result-Read :
      (p : Property) (r : Outcome Setting String) (c : Config)
      → IsCoherent b c
      → or_default b (raw_name p) r ≡ value b p c.raw
      → Read p c (store_result (raw_name p) r c).1 (store_result (raw_name p) r c).0
  unfolding store_result
  store_result-Read p (returned v) c h e = record {
    is_value = e;
    coherent = insert-IsCoherent p c _ v h e refl refl;
    raw = refl;
  }
  store_result-Read p (raised x) c h e = record {
    is_value = e;
    coherent = insert-IsCoherent p c _ (default_of (raw_name p)) h e refl refl;
    raw = refl;
  }

  -- What a call of a function has to do for the read to be right.
  record Computes (p : Property) (c : Config) (r : Outcome Setting String) (c' : Config)
      : Type 0 where
    result : or_default b (raw_name p) r ≡ value b p c.raw
    coherent : IsCoherent b c'
    raw : c'.raw ≡ c.raw

  cached-Read :
      (p : Property) (compute : Config → Outcome Setting String × Config) (c : Config)
      → IsCoherent b c
      → Computes p c (compute c).0 (compute c).1
      → Read p c (cached (raw_name p) compute c).1 (cached (raw_name p) compute c).0
  unfolding cached
  cached-Read p compute c h k = elim (Option-cases (get (raw_name p) c.cache)) [
    | inr (v, e) ↦ rw (e, cached) (record { is_value = h.coherent p v e; coherent = h; raw = refl })
    | inl e ↦
        let found =
          store_result-Read p (compute c).0 (compute c).1 k.coherent (rw k.raw k.result) in
        rw (e, cached)
          (record {
            is_value = found.is_value ∙ ap (value b p) k.raw;
            coherent = found.coherent;
            raw = found.raw ∙ k.raw;
          })
  ]

  plain-Computes :
      (p : Property) (c : Config)
      → IsCoherent b c
      → ((d : Setting)
          → func b p (get (raw_name p) c.raw) none_value ≡ func b p (get (raw_name p) c.raw) d)
      → Computes p c (plain_call b p c).0 (plain_call b p c).1
  unfolding value
  plain-Computes p c h same = record {
    result = ap (or_default b (raw_name p)) (same (devel_value b c.raw));
    coherent = h;
    raw = refl;
  }

  -- Only `colour` looks at the value of `devel`.
  call_func-Computes :
      (p : Property) (c : Config)
      → IsCoherent b c
      → Computes p c (call_func b p c).0 (call_func b p c).1
  unfolding call_func func value devel_value
  call_func-Computes colour c h =
      let r = cached-Read devel (plain_call b devel) c h (plain-Computes devel c h (λ d. refl)) in
      let (d, c') = cached (raw_name devel) (plain_call b devel) c in
      let result_of = λ (raw : Dict String Setting) (v : Setting).
        or_default b (raw_name colour) (func b colour (get (raw_name colour) raw) v) in
      record {
        result = ap (λ w. result_of w d) r.raw ∙ ap (result_of c.raw) r.is_value;
        coherent = r.coherent;
        raw = r.raw;
      }
  call_func-Computes p c h = plain-Computes p c h (λ d. refl)

  -- A read of a coherent object gives the property's value, leaves the raw values alone and keeps
  -- the object coherent.
  pub read-Read :
      (p : Property) (c : Config) → IsCoherent b c → Read p c (read b p c).1 (read b p c).0
  unfolding read
  read-Read p c h = cached-Read p (call_func b p) c h (call_func-Computes p c h)
