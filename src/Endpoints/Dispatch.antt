-- ===== src/Endpoints/Dispatch.antt =====
-- Which endpoint a path leads to in talisker/endpoints.py.
use talisker.Common.{true, [], ◌∷◌, ◌++◌, ◌≡◌, refl, ap, ◌∙◌, arith, nat_eq}
use talisker.Common.Text.{Text, codes, text_eq}
use talisker.Common.Lists.{length}
use talisker.Common.Dict.{get}
use talisker.Endpoints.{
  WebRequest, Server, starts_with, drop, keep_slash, rstrip_slash, urlmap, endpoint_of,
  find_endpoint, choose,
}

-- The code point of a slash.
abbrev slash : Text
slash = codes "/"

rstrip_slash-slash : (t : Text) → rstrip_slash (t ++ slash) ≡ rstrip_slash t
rstrip_slash-slash [] = refl
rstrip_slash-slash (c ∷ t) = ap (keep_slash c) (rstrip_slash-slash t)

starts_with-append : (p t e : Text) → starts_with p t ≡ true → starts_with p (t ++ e) ≡ true
starts_with-append [] t e h = refl
starts_with-append (c ∷ p) [] e h = absurd (ground (arith, h))
starts_with-append (c ∷ p) (d ∷ t) e h = ground (arith, starts_with-append p t e)

drop-append :
    (p t e : Text) → starts_with p t ≡ true → drop (length p) (t ++ e) ≡ drop (length p) t ++ e
drop-append [] t e h = refl
drop-append (c ∷ p) [] e h = absurd (ground (arith, h))
drop-append (c ∷ p) (d ∷ t) e h = drop-append p t e (ground (arith, h))

find_endpoint-slash :
    (s : Server) (path : Text)
    → starts_with s.prefix path ≡ true
    → find_endpoint s (path ++ slash) ≡ find_endpoint s path
unfolding find_endpoint
find_endpoint-slash s path h =
    ap (λ t. endpoint_of s (get t (urlmap s.installed)))
      (ap rstrip_slash (drop-append s.prefix path slash h)
        ∙ rstrip_slash-slash (drop (length s.prefix) path))

-- A path below the prefix and the same path with a slash at its end lead to the same endpoint.
pub choose-slash :
    (s : Server) (r : WebRequest)
    → starts_with s.prefix r.path ≡ true
    → choose s (record r { path = r.path ++ slash }) ≡ choose s r
unfolding choose
choose-slash s r h =
    rw (starts_with-append s.prefix r.path slash h, h, find_endpoint-slash s r.path h) refl
