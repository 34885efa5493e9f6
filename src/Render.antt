-- ===== src/Render.antt =====
-- The contents of talisker/render.py, as HTML and as text. Texts are code points; an exception is the
-- outcome `raised`.
pub mod Table
pub mod Page
pub mod Markup
mod Tests
use talisker.Common.{
  ℕ, String, Bool, true, false, not, Option, none, some, List, [], ◌∷◌, ◌++◌, map, nat_eq, ◌==◌,
  if◌then◌else◌,
}
use talisker.Common.Text.{Text, codes, is_infix, join}
use talisker.Common.Lists.{length}
use talisker.Common.Dict.{Dict}
use talisker.Context.Stack.{Outcome, returned, raised}

-- `html.escape`, of a character and of a text.
abbrev pub escape_char : ℕ → Text
escape_char c =
    if c == b'&'
    then codes "&amp;"
    else if c == b'<'
    then codes "&lt;"
    else if c == b'>'
    then codes "&gt;"
    else if c == b'"'
    then codes "&quot;"
    else if c == 39
    then codes "&#x27;"
    else c ∷ []

unfoldable pub escape_html : Text → Text
escape_html [] = []
escape_html (c ∷ s) = escape_char c ++ escape_html s

-- The classes whose text and HTML differ: Content, Link and PreformattedText.
pub data Class : Type 0 where
  plain : Class
  link : Text → Option Text → Class
  preformatted : Class

-- A `Content` object. The attributes of a tag are in the order of their names, an id and the `href`
-- of a link among them.
pub record Content : Type 0 where
  pub cls : Class
  pub content : Text
  pub tag : Option Text
  pub attrs : Dict Text Text
  pub render_html : Bool
  pub render_text : Bool
  pub escape : Bool

abbrev pub attribute : Text × Text → Text
attribute (k, v) = escape_html k ++ (codes "=\"" ++ (escape_html v ++ codes "\""))

-- The attributes, with a space in front of each.
abbrev pub attributes : Dict Text Text → Text
attributes [] = []
attributes (a ∷ attrs) = codes " " ++ (attribute a ++ attributes attrs)

abbrev pub tagged : Option Text → Dict Text Text → Text → Text
tagged none attrs content = content
tagged (some tag) attrs content =
    codes "<"
    ++ (tag ++ (attributes attrs ++ (codes ">" ++ (content ++ (codes "</" ++ (tag ++ codes ">"))))))

unfoldable pub html_content : Content → Text
unfolding escape_html
html_content c = tagged c.tag c.attrs (if c.escape then escape_html c.content else c.content)

unfoldable pub html : Content → Text
unfolding html_content
html c = if c.render_html then html_content c else []

abbrev pub repeat : ℕ → Text → Text
repeat c [] = []
repeat c (d ∷ s) = c ∷ repeat c s

-- `Content.text_content`: the test for a heading is one for a part of a text, and is a `TypeError`
-- without a tag.
abbrev pub heading_text : Option Text → Text → Outcome Text String
heading_text none content = raised "TypeError"
heading_text (some tag) content = returned (
    join (codes "\n") (
      if is_infix tag (codes "h1 h2 h3 h4 h5 h6")
      then content ∷ repeat b'=' content ∷ codes "\n" ∷ []
      else content ∷ codes "\n" ∷ []))

abbrev pub strip_slash : Text → Text
strip_slash [] = []
strip_slash (c ∷ s) = if c == b'/' then strip_slash s else c ∷ s

abbrev pub keep_unless_slash : ℕ → Text → Text
keep_unless_slash c [] = if c == b'/' then [] else c ∷ []
keep_unless_slash c (d ∷ s) = c ∷ d ∷ s

abbrev pub rstrip_slashes : Text → Text
rstrip_slashes [] = []
rstrip_slashes (c ∷ s) = keep_unless_slash c (rstrip_slashes s)

-- `Link.text_content`; an empty host is no host.
abbrev pub link_text : Text → Option Text → Text
link_text href none = href
link_text href (some []) = href
link_text href (some (h ∷ host)) =
    if is_infix (codes "://") href
    then href
    else rstrip_slashes (h ∷ host) ++ (codes "/" ++ strip_slash href)

abbrev pub class_text : Class → Option Text → Text → Outcome Text String
class_text plain tag content = heading_text tag content
class_text (link href host) tag content = returned (link_text href host)
class_text preformatted tag content = returned content

unfoldable pub text_content : Content → Outcome Text String
text_content c = class_text c.cls c.tag c.content

unfoldable pub text : Content → Outcome Text String
unfolding text_content
text c = if c.render_text then text_content c else returned []
