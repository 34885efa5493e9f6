-- ===== src/Config/Property/Refine.antt =====
-- The configuration of talisker/config.py against an object without a cache.
use talisker.Common.{
  String, false, some, List, [], ◌∷◌, ◌≡◌, ◌≢◌, refl, sym, ap, ◌∙◌, arith, string_eq, ◌==◌,
  Option-cases, inl, inr, ==_refl,
}
use talisker.Common.Lists.{All}
use talisker.Common.Dict.{Dict, get, insert, erase, get-insert, get-erase}
use talisker.Context.Stack.{Outcome, returned, raised}
use talisker.Config.Values.{Setting, Property, colour, raw_name, Builtins}
use talisker.Config.Property.{
  Config, set_item, clear_config, cached, store_result, read, value, devel_value, IsCoherent, Use,
  use_read, use_set, use_clear, use_config, use_all, call_func,
}
use talisker.Config.Property.Coherent.{read-Read}

-- A write that no other property's value depends on.
abbrev pub IsLocal : Use → Type 0
IsLocal (use_set name v) = name ≢ "DEVEL"
IsLocal u = Unit

-- The raw values after the uses.
abbrev pub raw_after : List Use → Dict String Setting → Dict String Setting
raw_after [] raw = raw
raw_after (use_set name v ∷ uses) raw = raw_after uses (insert name v raw)
raw_after (use_read p ∷ uses) raw = raw_after uses raw
raw_after (use_clear ∷ uses) raw = raw_after uses raw

abbrev pub new_config : Dict String Setting → Config
new_config raw = record { raw = raw; cache = []; errors = [] }

==_ne : (a b : String) → a ≢ b → (a == b) ≡ false
==_ne a b h = ground (arith, string_eq.beq_iff a b)

get-insert_ne :
    (k j : String) (v : Setting) (d : Dict String Setting) → k ≢ j → get j (insert k v d) ≡ get j d
get-insert_ne k j v d ne = get-insert k j v d ∙ rw (==_ne k j ne) refl

get-erase-some :
    (k j : String) (v : Setting) (d : Dict String Setting)
    → get j (erase k d) ≡ some v
    → (k ≢ j) × (get j d ≡ some v)
get-erase-some k j v d h = ground (arith, get-erase k j d, string_eq.beq_iff k j)

module _ (b : Builtins) where
  value-insert :
      (p : Property) (name : String) (v : Setting) (raw : Dict String Setting)
      → name ≢ "DEVEL"
      → name ≢ raw_name p
      → value b p (insert name v raw) ≡ value b p raw
  unfolding value devel_value raw_name
  value-insert p name v raw ne_devel ne =
      rw (get-insert_ne name "DEVEL" v raw ne_devel, get-insert_ne name (raw_name p) v raw ne) refl

  use-IsCoherent :
      (u : Use) (c : Config) → IsLocal u → IsCoherent b c → IsCoherent b (use_config b u c)
  unfolding set_item clear_config get
  use-IsCoherent (use_read p) c local h = (read-Read b p c h).coherent
  use-IsCoherent (use_set name v) c local h = record {
    coherent = λ p w found.
        let (ne, before) = get-erase-some name (raw_name p) w c.cache found in
        h.coherent p w before ∙ sym (value-insert p name v c.raw local ne);
  }
  use-IsCoherent use_clear c local h = record { coherent = λ p v found. cc }

  raw-use_all :
      (uses : List Use) (c : Config)
      → All IsLocal uses
      → IsCoherent b c
      → ((use_all b uses c).raw ≡ raw_after uses c.raw) × IsCoherent b (use_all b uses c)
  unfolding use_all set_item clear_config
  raw-use_all [] c local h = (refl, h)
  raw-use_all (use_read p ∷ uses) c local h =
      let r = read-Read b p c h in
      let (raw, coherent) = raw-use_all uses (read b p c).1 local.1 r.coherent in
      (raw ∙ ap (raw_after uses) r.raw, coherent)
  raw-use_all (use_set name v ∷ uses) c local h =
      raw-use_all uses (set_item name v c) local.1 (use-IsCoherent (use_set name v) c local.0 h)
  raw-use_all (use_clear ∷ uses) c local h =
      raw-use_all uses (clear_config c) local.1 (use-IsCoherent use_clear c tt h)

  new_config-IsCoherent : (raw : Dict String Setting) → IsCoherent b (new_config raw)
  unfolding get
  new_config-IsCoherent raw = record { coherent = λ p v found. cc }

  -- The cached object refines the one without a cache: after any reads, writes and clears, but
  -- writes of DEVEL, a read of any property raises nothing and gives what its function makes of
  -- the raw values as they are now, or its default where the function raises.
  pub read-use_all :
      (raw : Dict String Setting) (uses : List Use) (p : Property)
      → All IsLocal uses
      → (read b p (use_all b uses (new_config raw))).0 ≡ value b p (raw_after uses raw)
  read-use_all raw uses p local =
      let (same, coherent) = raw-use_all uses (new_config raw) local (new_config-IsCoherent raw) in
      (read-Read b p (use_all b uses (new_config raw)) coherent).is_value ∙ ap (value b p) same

  get-store_result :
      (name : String) (r : Outcome Setting String) (c : Config)
      → get name (store_result name r c).1.cache ≡ some (store_result name r c).0
  unfolding store_result
  get-store_result name (returned v) c = get-insert name name v c.cache ∙ rw (==_refl name) refl
  get-store_result name (raised e) c = get-insert name name _ c.cache ∙ rw (==_refl name) refl

  get-cached :
      (name : String) (compute : Config → Outcome Setting String × Config) (c : Config)
      → get name (cached name compute c).1.cache ≡ some (cached name compute c).0
  unfolding cached
  get-cached name compute c = elim (Option-cases (get name c.cache)) [
    | inl e ↦ rw (e, cached) (get-store_result name (compute c).0 (compute c).1)
    | inr (v, e) ↦ rw (e, cached) e
  ]

  cached_hit :
      (name : String) (compute : Config → Outcome Setting String × Config) (c : Config)
      (v : Setting)
      → get name c.cache ≡ some v
      → (cached name compute c).0 ≡ v
  unfolding cached
  cached_hit name compute c v e = rw (e, cached) refl

  get-erase_ne :
      (k j : String) (d : Dict String Setting) → (k == j) ≡ false → get j (erase k d) ≡ get j d
  get-erase_ne k j d ne = get-erase k j d ∙ rw ne refl

  -- Once the colour has been read, a write of DEVEL does not change it, whatever is written:
  -- the write drops the cached value of its own name only.
  pub read_colour-set_item :
      (c : Config) (v : Setting)
      → (read b colour (set_item "DEVEL" v (read b colour c).1)).0 ≡ (read b colour c).0
  unfolding read set_item
  read_colour-set_item c v =
      let c' = (read b colour c).1 in
      cached_hit (raw_name colour) (call_func b colour) (set_item "DEVEL" v c') (read b colour c).0
        (get-erase_ne "DEVEL" (raw_name colour) c'.cache (unfold raw_name in refl)
          ∙ get-cached (raw_name colour) (call_func b colour) c)
