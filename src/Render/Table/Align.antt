-- ===== src/Render/Table/Align.antt =====
-- The alignment of the text tables of talisker/render.py.
use talisker.Common.{ℕ, ◌≤◌, List, [], ◌∷◌, ◌++◌, ◌≡◌}
use talisker.Common.Text.{Text}
use talisker.Common.Lists.{length, All}
use talisker.Render.Table.{format_table, border, header_lines}

-- Each column of a row is no longer than its width.
abbrev pub Fits : List ℕ → List Text → Type 0
Fits ws [] = Unit {0}
Fits [] (s ∷ row) = ⊥
Fits (w ∷ ws) (s ∷ row) = (length s ≤ w) × Fits ws row

-- As many columns as there are widths.
abbrev pub IsFull : List ℕ → List Text → Type 0
IsFull ws row = length row ≡ length ws

-- The widths grow, and none is taken away.
abbrev Grown : List ℕ → List ℕ → Type 0
Grown [] vs = Unit {0}
Grown (w ∷ ws) [] = ⊥
Grown (w ∷ ws) (v ∷ vs) = (w ≤ v) × Grown ws vs

-- Each row has `n` columns.
abbrev pub Rectangular : ℕ → List (List Text) → Type 0
Rectangular n rows = All (λ row. length row ≡ n) rows

-- The headers are left out, or there is one for each column.
abbrev pub HeadersFit : ℕ → List Text → Type 0
HeadersFit n [] = Unit {0}
HeadersFit n (h ∷ headers) = length (h ∷ headers) ≡ n

abbrev pub LineOf : ℕ → List Text → Type 0
LineOf w lines = All (λ l. length l ≡ w) lines

-- The lines of the table, without the empty line behind it.
abbrev pub table_lines : List ℕ → List Text → List (List Text) → List Text
table_lines ws headers rows =
    header_lines ws headers ++ (border ws ∷ (format_table ws rows ++ border ws ∷ []))
