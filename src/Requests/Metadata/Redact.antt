-- ===== src/Requests/Metadata/Redact.antt =====
-- That the metadata of talisker/requests.py tells nothing of the values in a query.
use talisker.Common.{String, Option, List, [], ◌∷◌, ◌≡◌, refl, string_eq, nat_eq}
use talisker.Common.Dict.{Dict}
use talisker.Requests.Metadata.{
  HttpRequest, HttpResponse, Strings, redacted, url_metadata, rest_metadata, collect_metadata,
}

module _ (s : Strings) where
  -- The same names, with values of the same lengths.
  abbrev pub SameShape : List (String × String) → List (String × String) → Type 0
  SameShape [] [] = Unit {0}
  SameShape [] (q ∷ qs) = ⊥
  SameShape (p ∷ ps) [] = ⊥
  SameShape ((k, v) ∷ ps) ((j, w) ∷ qs) = (k ≡ j) × (s.len v ≡ s.len w) × SameShape ps qs

  redacted-SameShape :
      (ps qs : List (String × String)) → SameShape ps qs → redacted s ps ≡ redacted s qs
  redacted-SameShape [] [] h = refl
  redacted-SameShape [] (q ∷ qs) h = absurd h
  redacted-SameShape (p ∷ ps) [] h = absurd h
  redacted-SameShape ((k, v) ∷ ps) ((j, w) ∷ qs) h =
      rw (h.0, h.1, redacted-SameShape ps qs h.2) refl

  -- The url with another query.
  abbrev pub with_query : String → List (String × String) → HttpRequest → HttpRequest
  with_query query qsl r = record r { url = record r.url { query = query; qsl = qsl } }

  -- The metadata of a request does not depend on the values in its query: a query with the same
  -- names, and with values and a whole of the same lengths, gives the same metadata.
  pub collect_metadata-with_query :
      (hosts : Dict String String) (r : HttpRequest) (response : Option HttpResponse)
      (query : String) (qsl : List (String × String))
      → s.len query ≡ s.len r.url.query
      → SameShape qsl r.url.qsl
      → collect_metadata s hosts (with_query query qsl r) response
        ≡ collect_metadata s hosts r response
  unfolding collect_metadata url_metadata rest_metadata
  collect_metadata-with_query hosts r response query qsl e h =
      rw (e, redacted-SameShape qsl r.url.qsl h) refl
