-- ===== src/Render/Table.antt =====
-- `Table` of talisker/render.py. The width of each column is a list, by the index of the column.
pub mod Align
use talisker.Common.{
  ℕ, zero, suc, ◌+◌, ◌-◌, max, String, Bool, true, false, not, Option, none, some, List, [], ◌∷◌,
  ◌++◌, map, if◌then◌else◌,
}
use talisker.Common.Text.{Text, codes, join}
use talisker.Common.Lists.{length}
use talisker.Context.Stack.{Outcome, returned, raised}
use talisker.Render.{Content, html, text, escape_html}

-- A header or a column: a content, or another value by its `str`.
pub data Cell : Type 0 where
  content : Content → Cell
  value : Text → Cell

pub record Table : Type 0 where
  pub headers : Option (List Cell)
  pub rows : List (List Cell)

unfoldable pub cell_html : Cell → Text
unfolding html escape_html
cell_html (content c) = html c
cell_html (value s) = escape_html s

abbrev pub wrap : String → String → Text → Text
wrap before after s = codes before ++ (s ++ codes after)

-- The lines of a row, of a header and of the table.
abbrev pub row_html : List Cell → List Text
row_html [] = []
row_html (c ∷ cells) = wrap "<td>" "</td>" (cell_html c) ∷ row_html cells

abbrev pub header_html : List Cell → List Text
header_html [] = []
header_html (c ∷ cells) = wrap "<th>" "</th>" (cell_html c) ∷ header_html cells

abbrev pub rows_html : List (List Cell) → List Text
rows_html [] = []
rows_html (r ∷ rows) = codes "<tr>" ∷ (row_html r ++ (codes "</tr>" ∷ rows_html rows))

abbrev pub head_html : Option (List Cell) → List Text
head_html none = []
head_html (some headers) =
    codes "<thead>"
    ∷ codes "<tr>"
    ∷ (header_html headers ++ (codes "</tr>" ∷ codes "</thead>" ∷ []))

unfoldable pub table_html : Table → Text
unfolding cell_html
table_html t = join (codes "\n") (
    codes "<table>"
    ∷ (head_html t.headers
        ++ (codes "<tbody>" ∷ (rows_html t.rows ++ (codes "</tbody>" ∷ codes "</table>" ∷ [])))))

-- The texts of the cells of a row.
abbrev pub cell_text : Cell → Outcome Text String
cell_text (content c) = text c
cell_text (value s) = returned s

abbrev pub cons_text :
    {A : Type 0} → Outcome A String → Outcome (List A) String → Outcome (List A) String
cons_text (raised e) rest = raised e
cons_text (returned s) (raised e) = raised e
cons_text (returned s) (returned rest) = returned (s ∷ rest)

unfoldable pub row_texts : List Cell → Outcome (List Text) String
row_texts [] = returned []
row_texts (c ∷ cells) = cons_text (cell_text c) (row_texts cells)

unfoldable pub table_texts : List (List Cell) → Outcome (List (List Text)) String
unfolding row_texts
table_texts [] = returned []
table_texts (r ∷ rows) = cons_text (row_texts r) (table_texts rows)

-- `widths[i] = max(widths[i], len(column))` along a row.
unfoldable pub widen : List ℕ → List Text → List ℕ
widen ws [] = ws
widen [] (s ∷ row) = max 0 (length s) ∷ widen [] row
widen (w ∷ ws) (s ∷ row) = max w (length s) ∷ widen ws row

unfoldable pub widen_all : List ℕ → List (List Text) → List ℕ
unfolding widen
widen_all ws [] = ws
widen_all ws (row ∷ rows) = widen_all (widen ws row) rows

abbrev pub fill : ℕ → Text
fill zero = []
fill (suc n) = b' ' ∷ fill n

-- `'{:<{w}}'.format(s, w=w)`
abbrev pub pad : Text → ℕ → Text
pad s w = s ++ fill (w - length s)

abbrev pub is_empty : List Text → Bool
is_empty [] = true
is_empty (s ∷ row) = false

-- A row of `format_table`: two more spaces behind every column but the last.
unfoldable pub format_row : List ℕ → List Text → Text
format_row ws [] = []
format_row [] (s ∷ row) = pad s (if is_empty row then 0 else 2) ++ format_row [] row
format_row (w ∷ ws) (s ∷ row) = pad s (if is_empty row then w else w + 2) ++ format_row ws row

unfoldable pub format_table : List ℕ → List (List Text) → List Text
unfolding format_row
format_table ws [] = []
format_table ws (row ∷ rows) = format_row ws row ∷ format_table ws rows

-- The sum of the widths, with two for each column.
abbrev pub sum_widths : List ℕ → ℕ
sum_widths [] = 0
sum_widths (w ∷ ws) = (w + 2) + sum_widths ws

abbrev pub dashes : ℕ → Text
dashes zero = []
dashes (suc n) = b'-' ∷ dashes n

-- With no column the number of dashes is negative, and the border empty.
unfoldable pub border : List ℕ → Text
border ws = dashes (sum_widths ws - 2)

-- The lines of the header are there if it has a column.
abbrev pub header_lines : List ℕ → List Text → List Text
header_lines ws [] = []
header_lines ws (h ∷ headers) = format_row ws (h ∷ headers) ∷ []

unfoldable pub text_lines : List Text → List (List Text) → List Text
unfolding widen_all format_table border
text_lines headers rows =
    let ws = widen_all (widen [] headers) rows in
    header_lines ws headers ++ (border ws ∷ (format_table ws rows ++ (border ws ∷ codes "\n" ∷ [])))

abbrev pub header_texts : Option (List Cell) → Outcome (List Text) String
header_texts none = returned []
header_texts (some headers) = row_texts headers

abbrev pub joined_lines :
    Outcome (List Text) String → Outcome (List (List Text)) String → Outcome Text String
joined_lines (raised e) rows = raised e
joined_lines (returned headers) (raised e) = raised e
joined_lines (returned headers) (returned rows) =
    returned (join (codes "\n") (text_lines headers rows))

unfoldable pub table_text : Table → Outcome Text String
unfolding table_texts text_lines
table_text t = joined_lines (header_texts t.headers) (table_texts t.rows)
