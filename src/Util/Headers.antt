-- ===== src/Util/Headers.antt =====
-- `set_wsgi_header` of talisker/util.py, on a list of pairs in which a name may stand twice.
use talisker.Common.{String, List, [], ◌∷◌, ◌≡◌, arith, string_eq, ◌==◌, if◌then◌else◌}

abbrev pub Headers : Type 0
Headers = List (String × String)

unfoldable pub set_wsgi_header : Headers → String → String → Headers
set_wsgi_header [] name value = (name, value) ∷ []
set_wsgi_header ((k, v) ∷ headers) name value =
    if name == k then (name, value) ∷ headers else (k, v) ∷ set_wsgi_header headers name value

-- All the values of a header.
unfoldable pub values : String → Headers → List String
values name [] = []
values name ((k, v) ∷ headers) =
    let rest = values name headers in if name == k then v ∷ rest else rest

abbrev pub replace_head : String → List String → List String
replace_head v [] = v ∷ []
replace_head v (w ∷ vs) = v ∷ vs

-- The header's first value is replaced, or it is added; its later values, and those of every other
-- header, stay as they were.
pub values-set_wsgi_header :
    (headers : Headers) (name value other : String)
    → values other (set_wsgi_header headers name value)
      ≡ (if other == name then replace_head value (values other headers) else values other headers)
unfolding values set_wsgi_header
values-set_wsgi_header [] name value other = ground arith
values-set_wsgi_header ((k, v) ∷ headers) name value other = ground (
  arith,
  values-set_wsgi_header headers name value other,
  string_eq.beq_iff name k,
  string_eq.beq_iff other k,
  string_eq.beq_iff other name,
)
