-- ===== src/Util/Globals.antt =====
-- `module_cache` of talisker/util.py: one dict for the globals of all modules, by the name of the function
-- that makes them.
use talisker.Common.{
  arith, String, Option, none, some, List, [], ◌∷◌, ◌++◌, ◌≡◌, refl, ap, ◌∙◌, string_eq, ==_refl,
}
use talisker.Common.Dict.{Dict, get, insert, get-insert}
use talisker.Context.Stack.{Outcome, returned, raised}

-- `_global_cache` and the functions that have been run, by their names.
pub record Globals (V : Type 0) : Type 0 where
  pub cache : Dict String V
  pub runs : List String

-- `clear_globals`, of the cache.
unfoldable pub clear_globals : {V : Type 0} → Globals V → Globals V
clear_globals g = record g { cache = [] }

-- `raw_update`
unfoldable pub raw_update : {V : Type 0} → String → V → Globals V → Option V × Globals V
raw_update id item g = (get id g.cache, record g { cache = insert id item g.cache })

abbrev value_of : {V E : Type 0} → Outcome V E → Option V
value_of (returned v) = some v
value_of (raised e) = none

module _ {V E : Type 0} where
  abbrev pub store : String → Outcome V E → Globals V → Outcome V E × Globals V
  store id (returned v) g =
      (returned v, record { cache = insert id v g.cache; runs = g.runs ++ id ∷ [] })
  store id (raised e) g = (raised e, record g { runs = g.runs ++ id ∷ [] })

  abbrev pub found_or : Option V → String → Outcome V E → Globals V → Outcome V E × Globals V
  found_or none id made g = store id made g
  found_or (some v) id made g = (returned v, g)

  -- The function that takes the place of one which makes `made`.
  unfoldable pub cached_get : String → Outcome V E → Globals V → Outcome V E × Globals V
  cached_get id made g = found_or (get id g.cache) id made g

  -- Its `update`.
  unfoldable pub cached_update : String → Outcome V E → Globals V → Outcome V E × Globals V
  cached_update id made g = store id made g

  found :
      (id : String) (made : Outcome V E) (g : Globals V) (v : V)
      → get id g.cache ≡ some v
      → cached_get id made g ≡ (returned v, g)
  unfolding cached_get
  found id made g v e = ap (λ o. found_or o id made g) e

  get-found_or :
      (o : Option V) (id : String) (v : V) (made : Outcome V E) (g : Globals V)
      → get id g.cache ≡ o
      → (found_or o id made g).0 ≡ returned v
      → get id (found_or o id made g).1.cache ≡ some v
  get-found_or none id v (returned w) g e r =
      get-insert id id w g.cache ∙ rw (==_refl id) (ap value_of r)
  get-found_or none id v (raised x) g e r = absurd (ground (arith, r))
  get-found_or (some w) id v made g e r = e ∙ ap value_of r

  -- The value that a function has made is the one that every later call returns, and the function is
  -- not run again.
  pub cached_get_again :
      (id : String) (v : V) (made other : Outcome V E) (g : Globals V)
      → (cached_get id made g).0 ≡ returned v
      → cached_get id other (cached_get id made g).1 ≡ (returned v, (cached_get id made g).1)
  unfolding cached_get
  cached_get_again id v made other g r =
      found id other (cached_get id made g).1 v (get-found_or (get id g.cache) id v made g refl r)
