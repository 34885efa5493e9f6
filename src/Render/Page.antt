-- ===== src/Render/Page.antt =====
-- `Head` and `render_type` of talisker/render.py, for HTML and for text.
use talisker.Common.{String, List, [], ◌∷◌, ◌++◌}
use talisker.Common.Text.{Text, codes, join}
use talisker.Context.Stack.{Outcome, returned, raised}
use talisker.Render.{Content, html, text, repeat}
use talisker.Render.Table.{Table, table_html, table_text, cons_text}

-- `HTML_HEADER.format(title=title)`; the title is not escaped.
abbrev pub head_html : Text → Text
head_html title =
    codes "\n    <head>\n        <title>Talisker: "
    ++ (title
        ++ (codes
              "</title>\n        <link rel=\"stylesheet\" href=\"//cdnjs.cloudflare.com/ajax/libs"
            ++ (codes
                  "/normalize/8.0.0/normalize.min.css\">\n        <link rel=\"stylesheet\" href=\""
                ++ (codes "//cdnjs.cloudflare.com/ajax/libs/milligram/1.3.0/milligram.min.css\">\n"
                    ++ codes "        <style>body { margin: 1em }</style>\n    </head>\n    "))))

abbrev pub border_of : Text → Text
border_of title = repeat 61 title

-- `Head.text_content`
abbrev pub head_text : Text → Text
head_text title =
    let line = codes "Talisker: " ++ title in
    join (codes "\n") ([] ∷ border_of line ∷ line ∷ border_of line ∷ codes "\n" ∷ [])

-- The contents of a page. A table is rendered in both forms.
pub data Block : Type 0 where
  content_block : Content → Block
  table_block : Table → Block

unfoldable pub block_html : Block → Text
block_html (content_block c) = html c
block_html (table_block t) = table_html t

unfoldable pub block_text : Block → Outcome Text String
block_text (content_block c) = text c
block_text (table_block t) = table_text t

unfoldable pub blocks_html : List Block → List Text
unfolding block_html
blocks_html [] = []
blocks_html (b ∷ blocks) = block_html b ∷ blocks_html blocks

unfoldable pub blocks_text : List Block → Outcome (List Text) String
unfolding block_text
blocks_text [] = returned []
blocks_text (b ∷ blocks) = cons_text (block_text b) (blocks_text blocks)

unfoldable pub page_html : Text → List Block → Text
unfolding blocks_html
page_html title blocks = join (codes "\n") (head_html title ∷ blocks_html blocks)

abbrev pub page_lines : Text → Outcome (List Text) String → Outcome Text String
page_lines title (raised e) = raised e
page_lines title (returned parts) = returned (join (codes "\n") (head_text title ∷ parts))

unfoldable pub page_text : Text → List Block → Outcome Text String
unfolding blocks_text
page_text title blocks = page_lines title (blocks_text blocks)
