-- ===== src/Render/Markup.antt =====
-- The markup of talisker/render.py: what is shown cannot add a tag or end an attribute.
use talisker.Common.{
  ℕ, ◌⊎◌, ◌+◌, ◌*◌, true, Option, none, some, List, [], ◌∷◌, ◌++◌, ◌≡◌, refl, sym, ap, ◌∙◌, arith,
  nat_eq, ◌==◌, if◌then◌else◌, Bool-cases, inl, inr,
}
use talisker.Common.Text.{Text, codes, join, join_more}
use talisker.Common.Lists.{length, All}
use talisker.Common.Dict.{Dict}
use talisker.Render.{
  escape_char, escape_html, Content, attribute, attributes, tagged, html_content, html,
}
use talisker.Render.Table.{
  Cell, content, value, Table, cell_html, row_html, header_html, rows_html, head_html, table_html,
}

-- How often a character stands in a text.
abbrev pub count : ℕ → Text → ℕ
count b [] = 0
count b (c ∷ s) = (if c == b then 1 else 0) + count b s

count-append : (b : ℕ) (s t : Text) → count b (s ++ t) ≡ count b s + count b t
count-append b [] t = omega arith
count-append b (c ∷ s) t = omega (arith, count-append b s t)

-- A less-than sign or a quote.
abbrev pub IsMarkup : ℕ → Type 0
IsMarkup b = (b ≡ b'<') ⊎ (b ≡ b'"')

count-escape_char : (b c : ℕ) → IsMarkup b → count b (escape_char c) ≡ 0
count-escape_char b c (inl e) = rw (e) (ground arith)
count-escape_char b c (inr e) = rw (e) (ground arith)

count-escape_html : (b : ℕ) (s : Text) → IsMarkup b → count b (escape_html s) ≡ 0
unfolding escape_html
count-escape_html b [] m = refl
count-escape_html b (c ∷ s) m = omega (
  arith,
  count-append b (escape_char c) (escape_html s),
  count-escape_char b c m,
  count-escape_html b s m,
)

abbrev total : ℕ → List Text → ℕ
total b [] = 0
total b (l ∷ lines) = count b l + total b lines

total-append : (b : ℕ) (xs ys : List Text) → total b (xs ++ ys) ≡ total b xs + total b ys
total-append b [] ys = omega arith
total-append b (l ∷ xs) ys = omega (arith, total-append b xs ys)

count-join_more : (lines : List Text) → count b'<' (join_more (codes "\n") lines) ≡ total b'<' lines
count-join_more [] = refl
count-join_more (l ∷ lines) =
    omega (arith, count-append b'<' l (join_more (codes "\n") lines), count-join_more lines)

count-join : (lines : List Text) → count b'<' (join (codes "\n") lines) ≡ total b'<' lines
count-join [] = refl
count-join (l ∷ lines) =
    omega (arith, count-append b'<' l (join_more (codes "\n") lines), count-join_more lines)

count-attribute :
    (b : ℕ) (k v : Text)
    → IsMarkup b
    → count b (attribute (k, v)) ≡ count b (codes "=\"") + count b (codes "\"")
count-attribute b k v m = omega (
  arith,
  count-append b (escape_html k) (codes "=\"" ++ (escape_html v ++ codes "\"")),
  count-append b (codes "=\"") (escape_html v ++ codes "\""),
  count-append b (escape_html v) (codes "\""),
  count-escape_html b k m,
  count-escape_html b v m,
)

-- The attributes of a tag have two quotes each, and no tag of their own.
count-attributes :
    (attrs : Dict Text Text)
    → (count b'"' (attributes attrs) ≡ 2 * length attrs) × (count b'<' (attributes attrs) ≡ 0)
count-attributes [] = (refl, refl)
count-attributes ((k, v) ∷ attrs) =
    let (quotes, tags) = count-attributes attrs in
    (
      omega (
        arith,
        count-append b'"' (attribute (k, v)) (attributes attrs),
        count-attribute b'"' k v (inr refl),
        quotes,
      ),
      omega (
        arith,
        count-append b'<' (attribute (k, v)) (attributes attrs),
        count-attribute b'<' k v (inl refl),
        tags,
      ),
    )

-- The signs that open a tag, of a content: two if it has a tag, and those of its tag's name.
abbrev pub tag_marks : Option Text → ℕ
tag_marks none = 0
tag_marks (some tag) = 2 + 2 * count b'<' tag

count-tagged :
    (tag : Option Text) (attrs : Dict Text Text) (body : Text)
    → count b'<' body ≡ 0
    → count b'<' (tagged tag attrs body) ≡ tag_marks tag
count-tagged none attrs body e = e
count-tagged (some tag) attrs body e =
    let t5 = codes "</" ++ (tag ++ codes ">") in
    let t4 = body ++ t5 in
    let t3 = codes ">" ++ t4 in
    let t2 = attributes attrs ++ t3 in
    omega (
      arith,
      count-append b'<' tag t2,
      count-append b'<' (attributes attrs) t3,
      count-append b'<' body t5,
      count-append b'<' tag (codes ">"),
      (count-attributes attrs).1,
      e,
    )

abbrev pub content_marks : Content → ℕ
content_marks c = if c.render_html then tag_marks c.tag else 0

count-html : (c : Content) → c.escape ≡ true → count b'<' (html c) ≡ content_marks c
unfolding html html_content
count-html c e = elim (Bool-cases c.render_html) [
  | inl on ↦
      ap
        (λ b. count b'<' (
          if b
          then tagged c.tag c.attrs (if c.escape then escape_html c.content else c.content)
          else []))
        on
      ∙ ap (λ b. count b'<' (tagged c.tag c.attrs (if b then escape_html c.content else c.content)))
          e
      ∙ count-tagged c.tag c.attrs (escape_html c.content)
          (count-escape_html b'<' c.content (inl refl))
      ∙ sym (ap (λ b. if b then tag_marks c.tag else 0) on)
  | inr off ↦
      ap
        (λ b. count b'<' (
          if b
          then tagged c.tag c.attrs (if c.escape then escape_html c.content else c.content)
          else []))
        off
      ∙ sym (ap (λ b. if b then tag_marks c.tag else 0) off)
]

-- The cell is escaped.
abbrev pub IsEscaped : Cell → Type 0
IsEscaped (content c) = c.escape ≡ true
IsEscaped (value s) = Unit {0}

abbrev pub cell_marks : Cell → ℕ
cell_marks (content c) = content_marks c
cell_marks (value s) = 0

count-cell_html : (c : Cell) → IsEscaped c → count b'<' (cell_html c) ≡ cell_marks c
unfolding cell_html
count-cell_html (content c) e = count-html c e
count-cell_html (value s) e = count-escape_html b'<' s (inl refl)

-- Two for each cell, and the cell's own.
abbrev pub row_marks : List Cell → ℕ
row_marks [] = 0
row_marks (c ∷ cells) = 2 + cell_marks c + row_marks cells

total-row_html :
    (cells : List Cell) → All IsEscaped cells → total b'<' (row_html cells) ≡ row_marks cells
total-row_html [] e = refl
total-row_html (c ∷ cells) e = omega (
  arith,
  count-append b'<' (cell_html c) (codes "</td>"),
  count-cell_html c e.0,
  total-row_html cells e.1,
)

total-header_html :
    (cells : List Cell) → All IsEscaped cells → total b'<' (header_html cells) ≡ row_marks cells
total-header_html [] e = refl
total-header_html (c ∷ cells) e = omega (
  arith,
  count-append b'<' (cell_html c) (codes "</th>"),
  count-cell_html c e.0,
  total-header_html cells e.1,
)

abbrev pub rows_marks : List (List Cell) → ℕ
rows_marks [] = 0
rows_marks (r ∷ rows) = 2 + row_marks r + rows_marks rows

total-rows_html :
    (rows : List (List Cell))
    → All (All IsEscaped) rows
    → total b'<' (rows_html rows) ≡ rows_marks rows
total-rows_html [] e = refl
total-rows_html (r ∷ rows) e = omega (
  arith,
  total-append b'<' (row_html r) (codes "</tr>" ∷ rows_html rows),
  total-row_html r e.0,
  total-rows_html rows e.1,
)

abbrev pub HeadEscaped : Option (List Cell) → Type 0
HeadEscaped none = Unit {0}
HeadEscaped (some headers) = All IsEscaped headers

abbrev pub head_marks : Option (List Cell) → ℕ
head_marks none = 0
head_marks (some headers) = 4 + row_marks headers

total-head_html :
    (headers : Option (List Cell))
    → HeadEscaped headers
    → total b'<' (head_html headers) ≡ head_marks headers
total-head_html none e = refl
total-head_html (some headers) e = omega (
  arith,
  total-append b'<' (header_html headers) (codes "</tr>" ∷ codes "</thead>" ∷ []),
  total-header_html headers e,
)

-- In the HTML of a table whose cells are escaped, the signs that open a tag are those of the table, of its
-- rows and cells and of the tags of the contents in them: no text of a cell, no link's address and
-- no attribute adds one, whatever characters it has.
pub count-table_html :
    (t : Table)
    → HeadEscaped t.headers
    → All (All IsEscaped) t.rows
    → count b'<' (table_html t) ≡ 4 + head_marks t.headers + rows_marks t.rows
unfolding table_html
count-table_html t heads cells =
    let rest = codes "</tbody>" ∷ codes "</table>" ∷ [] in
    let inside = codes "<tbody>" ∷ (rows_html t.rows ++ rest) in
    omega (
      arith,
      count-join_more (head_html t.headers ++ inside),
      total-append b'<' (head_html t.headers) inside,
      total-append b'<' (rows_html t.rows) rest,
      total-head_html t.headers heads,
      total-rows_html t.rows cells,
    )
