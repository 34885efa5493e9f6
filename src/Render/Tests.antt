-- ===== src/Render/Tests.antt =====
-- The theorems on tables at a concrete table.
use talisker.Common.{◌+◌, true, none, some, List, [], ◌∷◌, ◌≡◌, refl}
use talisker.Common.Text.{Text, codes}
use talisker.Render.{Content, link}
use talisker.Render.Table.{content, value, Table, table_html}
use talisker.Render.Markup.{count, head_marks, rows_marks, count-table_html}

-- A link with an address that would end its attribute.
abbrev bad_link : Content
bad_link = record {
  cls = link (codes "\"><script>") none;
  content = codes "<b>";
  tag = some (codes "a");
  attrs = (codes "href", codes "\"><script>") ∷ [];
  render_html = true;
  render_text = true;
  escape = true;
}

abbrev bad_table : Table
bad_table = record {
  headers = some (value (codes "Name") ∷ value (codes "Link") ∷ []);
  rows = (value (codes "<i>") ∷ content bad_link ∷ []) ∷ [];
}

count-table_html_example :
    count b'<' (table_html bad_table) ≡ 4 + head_marks bad_table.headers + rows_marks bad_table.rows
count-table_html_example = count-table_html bad_table (tt, (tt, tt)) ((tt, (refl, tt)), tt)

abbrev headers : List Text
headers = codes "Name" ∷ codes "PID" ∷ []

abbrev row : List Text
row = codes "Worker 1" ∷ codes "7" ∷ []
