-- ===== src/Requests/Adapter/Backends.antt =====
-- `_create_backend_iterable` of talisker/requests.py. What `urlparse` reads as the scheme of a url
-- with '://', and the shuffle, are arguments.
use talisker.Common.{
  String, Bool, true, false, Option, none, some, List, [], ◌∷◌, ◌≡◌, ap, ◌∙◌, arith, ◌||◌, ◌&&◌,
  if◌then◌else◌, string_eq, ◌==◌, Option-cases, Bool-cases, inl, inr,
}
use talisker.Common.Lists.{All}

abbrev known_scheme : String → Bool
known_scheme scheme = scheme == "http" || scheme == "https"

module _ (scheme_of : String → Option String) (shuffle : List String → List String) where
  -- `_validate`; `none` is a `ValueError`, of a backend without a scheme or with another one.
  unfoldable pub validate : String → Option String
  validate backend = elim (scheme_of backend) [
    | none ↦ none
    | some scheme ↦ if known_scheme scheme then some scheme else none
  ]

  -- Whether every backend is valid with this one scheme.
  unfoldable pub all_with : String → List String → Bool
  unfolding validate
  all_with scheme [] = true
  all_with scheme (b ∷ backends) =
      let rest = all_with scheme backends in
      elim (validate b) [ none ↦ false | some s ↦ s == scheme && rest ]

  -- The cycle of backends; `none` is a `ValueError`, also of no backends or of two schemes.
  unfoldable pub create_backend_iterable : List String → Option (List String)
  unfolding all_with
  create_backend_iterable [] = none
  create_backend_iterable (b ∷ backends) = elim (validate b) [
    | none ↦ none
    | some scheme ↦ if all_with scheme backends then some (shuffle (b ∷ backends)) else none
  ]

  -- A backend's url has this scheme, which is a known one.
  abbrev pub HasScheme : String → String → Type 0
  HasScheme scheme backend = (scheme_of backend ≡ some scheme) × (known_scheme scheme ≡ true)

  validate-HasScheme : (b scheme : String) → validate b ≡ some scheme → HasScheme scheme b
  unfolding validate
  validate-HasScheme b scheme h = elim (Option-cases (scheme_of b)) [
    | inl e ↦ absurd (ground arith)
    | inr (s, e) ↦ elim (Bool-cases (known_scheme s)) [
      | inl known ↦
          let same : s ≡ scheme = ground (arith, e) in (rw e (ap some same), rw (← same) known)
      | inr unknown ↦ absurd (ground (arith, e))
    ]
  ]

  all_with-All :
      (scheme : String) (backends : List String)
      → all_with scheme backends ≡ true
      → All (HasScheme scheme) backends
  unfolding all_with
  all_with-All scheme [] h = tt
  all_with-All scheme (b ∷ backends) h = elim (Option-cases (validate b)) [
    | inl e ↦ absurd (ground arith)
    | inr (s, e) ↦
        let same : s ≡ scheme = ground (arith, string_eq.beq_iff s scheme) in
        (
          validate-HasScheme b scheme (e ∙ ap some same),
          all_with-All scheme backends (ground arith),
        )
  ]

  -- Backends are accepted only if there is one and they all have the same known scheme; the cycle
  -- is then a shuffle of them.
  pub create_backend_iterable_sound :
      (backends cycle : List String)
      → create_backend_iterable backends ≡ some cycle
      → (cycle ≡ shuffle backends) × ((scheme : String) × All (HasScheme scheme) backends)
  unfolding create_backend_iterable
  create_backend_iterable_sound [] cycle h = cc
  create_backend_iterable_sound (b ∷ backends) cycle h = elim (Option-cases (validate b)) [
    | inl e ↦ absurd (ground arith)
    | inr (s, e) ↦ elim (Bool-cases (all_with s backends)) [
      | inl same ↦ (ground arith, (s, (validate-HasScheme b s e, all_with-All s backends same)))
      | inr mixed ↦ absurd (ground arith)
    ]
  ]
