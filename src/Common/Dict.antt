-- ===== src/Common/Dict.antt =====
-- Python's `dict` in insertion order: an association list in which a write to a present key keeps
-- its place and a write to a new key goes to the end.
use mathlib.Core.Path.{◌≡◌, refl, sym, ◌∙◌}
use mathlib.Core.Bool.{Bool, true}
use mathlib.Core.Option.{Option, none, some}
use mathlib.Core.List.{List, [], ◌∷◌, ◌++◌, append-nil, append_assoc}
use native.Mathlib.Omega.{arith}
use talisker.Common.Tests.{Eq, ◌==◌, if◌then◌else◌, or_else, is_some, ==_refl}

abbrev pub Dict {ℓ κ} : Type ℓ → Type κ → Type (ℓ ⊔ κ)
Dict K V = List (K × V)

module _ {ℓ κ} {K : Type ℓ} {V : Type κ} ⦃e : Eq K⦄ where
  -- `d.get(k)`
  unfoldable pub get : K → Dict K V → Option V
  get k [] = none
  get k ((j, v) ∷ d) = if j == k then some v else get k d

  -- `k in d`
  abbrev pub contains : K → Dict K V → Bool
  contains k d = is_some (get k d)

  -- `d[k] = v`
  unfoldable pub insert : K → V → Dict K V → Dict K V
  insert k v [] = (k, v) ∷ []
  insert k v ((j, w) ∷ d) = if j == k then (j, v) ∷ d else (j, w) ∷ insert k v d

  -- `d.pop(k, None)`, without its result
  unfoldable pub erase : K → Dict K V → Dict K V
  erase k [] = []
  erase k ((j, v) ∷ d) = let rest = erase k d in if j == k then rest else (j, v) ∷ rest

  -- `d.update(items)`
  unfoldable pub update : Dict K V → List (K × V) → Dict K V
  unfolding insert
  update d [] = d
  update d ((k, v) ∷ items) = update (insert k v d) items

  -- The keys of a Python dict are distinct.
  unfoldable pub Distinct : Dict K V → Type κ
  Distinct [] = Unit
  Distinct ((k, v) ∷ d) = (get k d ≡ none) × Distinct d

  pub get-insert :
      (k j : K) (v : V) (d : Dict K V) → get j (insert k v d) ≡ (if k == j then some v else get j d)
  unfolding get insert
  get-insert k j v [] = refl
  get-insert k j v ((i, w) ∷ d) =
      ground (arith, e.beq_iff k j, e.beq_iff i k, e.beq_iff i j, get-insert k j v d)

  pub get-erase : (k j : K) (d : Dict K V) → get j (erase k d) ≡ (if k == j then none else get j d)
  unfolding get erase
  get-erase k j [] = ground arith
  get-erase k j ((i, w) ∷ d) =
      ground (arith, e.beq_iff k j, e.beq_iff i k, e.beq_iff i j, get-erase k j d)

  pub Distinct-insert : (k : K) (v : V) (d : Dict K V) → Distinct d → Distinct (insert k v d)
  unfolding Distinct insert get
  Distinct-insert k v [] h = (refl, tt)
  Distinct-insert k v ((i, w) ∷ d) h =
      ground (arith, Distinct-insert k v d h.1, get-insert k i v d, e.beq_iff i k, e.beq_iff k i)

  pub Distinct-erase : (k : K) (d : Dict K V) → Distinct d → Distinct (erase k d)
  unfolding Distinct erase
  Distinct-erase k [] h = tt
  Distinct-erase k ((i, w) ∷ d) h = ground (arith, Distinct-erase k d h.1, get-erase k i d)

  pub Distinct-update :
      (d : Dict K V) (items : List (K × V)) → Distinct d → Distinct (update d items)
  unfolding update
  Distinct-update d [] h = h
  Distinct-update d ((k, v) ∷ items) h =
      Distinct-update (insert k v d) items (Distinct-insert k v d h)

  -- An update by a dict: its values win, the others stay.
  pub get-update :
      (j : K) (d : Dict K V) (items : Dict K V)
      → Distinct items
      → get j (update d items) ≡ or_else (get j items) (get j d)
  unfolding get update Distinct
  get-update j d [] h = refl
  get-update j d ((k, v) ∷ items) h =
      ground (arith, get-update j (insert k v d) items h.1, get-insert k j v d, e.beq_iff k j)

  -- An update by any items leaves alone the keys that are not among them.
  pub get-update_absent :
      (j : K) (d : Dict K V) (items : List (K × V))
      → get j items ≡ none
      → get j (update d items) ≡ get j d
  unfolding get update
  get-update_absent j d [] h = refl
  get-update_absent j d ((k, v) ∷ items) h =
      ground (arith, get-update_absent j (insert k v d) items, get-insert k j v d)

pub ruleset dict_laws = (get-insert, get-erase)

-- How lookups, distinct keys and updates follow the concatenation of items.
module _ {ℓ κ} {K : Type ℓ} {V : Type κ} ⦃e : Eq K⦄ where
  pub get-append : (j : K) (c d : Dict K V) → get j (c ++ d) ≡ or_else (get j c) (get j d)
  unfolding get
  get-append j [] d = refl
  get-append j ((k, v) ∷ c) d = ground (arith, get-append j c d)

  insert_new : (k : K) (v : V) (d : Dict K V) → get k d ≡ none → insert k v d ≡ d ++ (k, v) ∷ []
  unfolding get insert
  insert_new k v [] h = refl
  insert_new k v ((j, w) ∷ d) h = ground (arith, insert_new k v d, e.beq_iff j k)

  pub Distinct-append :
      (c d : Dict K V)
      → Distinct c
      → Distinct d
      → ((j : K) → contains j c ≡ true → get j d ≡ none)
      → Distinct (c ++ d)
  unfolding Distinct get
  Distinct-append [] d hc hd apart = hd
  Distinct-append ((k, v) ∷ c) d hc hd apart = (
    rw (get-append k c d, hc.0) (apart k (rw (==_refl k) refl)),
    Distinct-append c d hc.1 hd (λ j m. apart j (ground (arith, e.beq_iff k j))),
  )

  Distinct-front : (k : K) (v : V) (c d : Dict K V) → Distinct (c ++ (k, v) ∷ d) → get k c ≡ none
  unfolding Distinct get
  Distinct-front k v [] d h = refl
  Distinct-front k v ((j, w) ∷ c) d h =
      ground
        (arith, Distinct-front k v c d, get-append j c ((k, v) ∷ d), e.beq_iff j k, e.beq_iff k j)

  -- Items with distinct keys are written in their order.
  pub update-append : (c d : Dict K V) → Distinct (c ++ d) → update c d ≡ c ++ d
  unfolding update
  update-append c [] h = sym (append-nil c)
  update-append c ((k, v) ∷ d) h =
      rw (insert_new k v c (Distinct-front k v c d h))
        (update-append (c ++ (k, v) ∷ []) d (rw append_assoc h) ∙ append_assoc c ((k, v) ∷ []) d)
