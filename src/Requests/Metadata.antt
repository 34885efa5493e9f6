-- ===== src/Requests/Metadata.antt =====
-- `collect_metadata` of talisker/requests.py. Urls are parsed, and texts put together, by the builtins.
-- The names of headers are compared in lower case.
pub mod Redact
use mathlib.Core.Option
use talisker.Common.{
  ℕ, zero, suc, String, Bool, true, false, Option, none, some, List, [], ◌∷◌, string_eq, nat_eq,
  ◌==◌, ◌||◌, if◌then◌else◌,
}
use talisker.Common.Dict.{Dict, get, insert}
use talisker.Wsgi.Types.{Meta, text, number}

-- What `urlparse` and `parse_qsl` make of a url.
pub record Url : Type 0 where
  pub scheme : String
  pub netloc : String
  pub hostname : String
  pub port : Option ℕ
  pub path : String
  pub query : String
  pub qsl : List (String × String)

pub record HttpRequest : Type 0 where
  pub url : Url
  pub method : String
  pub headers : Dict String String

-- A response; `elapsed` is in microseconds.
pub record HttpResponse : Type 0 where
  pub status_code : ℕ
  pub headers : Dict String String
  pub elapsed : ℕ

-- `str.format`, `len`, `str` of a number, `'&'.join`, `int`, `in` and `replace` on texts; `none` is a
-- `ValueError`.
pub record Strings : Type 0 where
  pub format : String → List String → String
  pub len : String → ℕ
  pub str : ℕ → String
  pub join_amp : List String → String
  pub int : String → Option ℕ
  pub is_in : String → String → Bool
  pub dots_to_dashes : String → String

abbrev pub put_some : String → Option Meta → Dict String Meta → Dict String Meta
put_some name none d = d
put_some name (some v) d = insert name v d

module _ (s : Strings) where
  -- A port of zero is falsy.
  abbrev pub with_port : String → Option ℕ → String
  with_port name none = name
  with_port name (some zero) = name
  with_port name (some (suc p)) = s.format "{}:{}" (name ∷ s.str (suc p) ∷ [])

  abbrev pub address_of : Url → Option String → String
  address_of u none = u.netloc
  address_of u (some name) = with_port name u.port

  abbrev pub hostname_of : Url → Option String → String
  hostname_of u none = u.hostname
  hostname_of u (some name) = name

  abbrev pub redacted : List (String × String) → List String
  redacted [] = []
  redacted ((k, v) ∷ qsl) = s.format "{}=<len {}>" (k ∷ s.str (s.len v) ∷ []) ∷ redacted qsl

  -- The url without its query.
  abbrev pub bare_url : Url → Option String → String
  bare_url u name = s.format "{}://{}{}" (u.scheme ∷ address_of u name ∷ u.path ∷ [])

  abbrev pub full_url : Url → Option String → String
  full_url u name =
      if s.len u.query == 0 then bare_url u name else s.format "{}?" (bare_url u name ∷ [])

  unfoldable pub url_metadata : Url → Option String → Dict String Meta
  url_metadata u name =
      let d : Dict String Meta = ("url", text (full_url u name)) ∷ [] in
      if s.len u.query == 0
      then d
      else insert "qs_size" (number (s.len u.query))
          (insert "qs" (text (s.format "?{}" (s.join_amp (redacted u.qsl) ∷ []))) d)

  abbrev pub put_netloc : Url → String → Dict String Meta → Dict String Meta
  put_netloc u url d = if s.is_in u.netloc url then d else insert "netloc" (text u.netloc) d

  -- `int(headers.get('content-length', 0))`
  abbrev pub content_length : Dict String String → Option Meta
  content_length headers = elim (get "content-length" headers) [
    | none ↦ some (number 0)
    | some value ↦ Option.map number (s.int value)
  ]

  unfoldable pub response_metadata : HttpResponse → Dict String Meta → Dict String Meta
  response_metadata r d = insert "duration_ms" (number r.elapsed) (
      put_some "server" (Option.map text (get "server" r.headers)) (
        put_some "view" (Option.map text (get "x-view-name" r.headers))
          (insert "status_code" (number r.status_code) d)))

  abbrev pub add_response : Option HttpResponse → Dict String Meta → Dict String Meta
  add_response none d = d
  add_response (some r) d = response_metadata r d

  abbrev pub has_body : String → Bool
  has_body method = method == "POST" || method == "PUT" || method == "PATCH"

  abbrev pub add_response_size : Option HttpResponse → Dict String Meta → Dict String Meta
  add_response_size none d = d
  add_response_size (some r) d =
      put_some "response_size" (content_length r.headers)
        (put_some "response_type" (Option.map text (get "content-type" r.headers)) d)

  -- The rest of the metadata, given that of the url.
  unfoldable pub rest_metadata :
      Url
      → Option String
      → String
      → Dict String String
      → Option HttpResponse
      → Dict String Meta
      → Dict String Meta
  unfolding response_metadata
  rest_metadata u name method headers response d =
      let d₁ =
        put_netloc u (full_url u name)
          (insert "host" (text (hostname_of u name)) (insert "method" (text method) d)) in
      let d₂ =
        put_some "request_type" (Option.map text (get "content-type" headers))
          (add_response response d₁) in
      let d₃ =
        if has_body method then put_some "request_size" (content_length headers) d₂ else d₂ in
      add_response_size response d₃

  -- `hosts` are the registered names of endpoints.
  unfoldable pub collect_metadata :
      Dict String String → HttpRequest → Option HttpResponse → Dict String Meta
  unfolding url_metadata rest_metadata
  collect_metadata hosts r response =
      let name = get r.url.netloc hosts in
      rest_metadata r.url name r.method r.headers response (url_metadata r.url name)
