-- ===== src/Testing/Parse/Groups.antt =====
-- How `parse` of talisker/testing.py takes lines apart into logs.
use talisker.Common.{
  String, true, false, List, [], ◌∷◌, ◌++◌, ◌≡◌, refl, ap, ◌∙◌, if◌then◌else◌, Bool-cases, inl, inr,
  append_assoc, append-nil,
}
use talisker.Common.Lists.{All}
use talisker.Testing.Parse.{Builtins, flush, groups, parse_groups, parse}

module _ (b : Builtins) where
  -- The lines that are not blank.
  unfoldable pub without_blanks : List String → List String
  without_blanks [] = []
  without_blanks (line ∷ lines) =
      let rest = without_blanks lines in if b.blank line then rest else line ∷ rest

  -- A line of a log after its first.
  abbrev pub IsTrailer : String → Type 0
  IsTrailer line = (b.blank line ≡ false) × (b.timestamp line ≡ false)

  -- A log: a line with a timestamp, and others without.
  abbrev pub IsLog : List String → Type 0
  IsLog [] = ⊥
  IsLog (line ∷ trailer) =
      (b.blank line ≡ false) × (b.timestamp line ≡ true) × All IsTrailer trailer

  unfoldable pub concat : List (List String) → List String
  concat [] = []
  concat (log ∷ logs) = log ++ concat logs

  groups-without_blanks :
      (current lines : List String)
      → groups b current lines ≡ groups b current (without_blanks lines)
  unfolding groups without_blanks
  groups-without_blanks current [] = refl
  groups-without_blanks current (line ∷ lines) = elim (Bool-cases (b.blank line)) [
    | inl e ↦ rw (e) (groups-without_blanks current lines)
    | inr e ↦ elim (Bool-cases (b.timestamp line)) [
      | inl t ↦ rw (e, e, t) (ap (flush b current) (groups-without_blanks (line ∷ []) lines))
      | inr t ↦ rw (e, e, t) (groups-without_blanks (current ++ line ∷ []) lines)
    ]
  ]

  groups-trailer :
      (current trailer lines : List String)
      → All IsTrailer trailer
      → groups b current (trailer ++ lines) ≡ groups b (current ++ trailer) lines
  unfolding groups
  groups-trailer current [] lines h = rw (append-nil current) refl
  groups-trailer current (line ∷ trailer) lines h =
      rw (h.0.0, h.0.1)
        (groups-trailer (current ++ line ∷ []) trailer lines h.1
          ∙ ap (λ c. groups b c lines) (append_assoc current (line ∷ []) trailer))

  groups-concat :
      (line : String) (current : List String) (logs : List (List String))
      → All IsLog logs
      → groups b (line ∷ current) (concat logs) ≡ (line ∷ current) ∷ logs
  unfolding groups concat
  groups-concat line current [] h = refl
  groups-concat line current ([] ∷ logs) h = absurd h.0
  groups-concat line current ((l ∷ trailer) ∷ logs) h =
      rw (h.0.0, h.0.1)
        (ap (λ gs. (line ∷ current) ∷ gs)
          (groups-trailer (l ∷ []) trailer (concat logs) h.0.2 ∙ groups-concat l trailer logs h.1))

  groups_start : (logs : List (List String)) → All IsLog logs → groups b [] (concat logs) ≡ logs
  unfolding groups concat
  groups_start [] h = refl
  groups_start ([] ∷ logs) h = absurd h.0
  groups_start ((l ∷ trailer) ∷ logs) h =
      rw (h.0.0, h.0.1)
        (groups-trailer (l ∷ []) trailer (concat logs) h.0.2 ∙ groups-concat l trailer logs h.1)

  -- Logs that are written one after the other, with any blank lines between and within them, are
  -- taken apart again into the same logs, each of which is parsed in turn.
  pub parse-concat :
      (logs : List (List String)) (lines : List String)
      → All IsLog logs
      → without_blanks lines ≡ concat logs
      → (groups b [] lines ≡ logs) × (parse b lines ≡ parse_groups b logs)
  unfolding parse
  parse-concat logs lines h e =
      let g = groups-without_blanks [] lines ∙ ap (groups b []) e ∙ groups_start logs h in
      (g, ap (parse_groups b) g)
