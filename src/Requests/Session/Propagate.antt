-- ===== src/Requests/Session/Propagate.antt =====
-- What a service that sends a request through a session, in talisker/requests.py, hands on to one that receives it
-- through the middleware of talisker/wsgi.py.
use mathlib.Core.Option
use talisker.Common.{
  zero, suc, String, Bool, true, false, none, some, ◌≡◌, ◌≢◌, refl, ap, ◌∙◌, arith, string_eq, ◌==◌,
  ==_refl, Bool-cases, inl, inr, or_else, if◌then◌else◌,
}
use talisker.Common.Int.{ℤ, pos, negsuc}
use talisker.Common.Dict.{
  Dict, get, contains, insert, update, get-insert, get-update_absent, dict_laws,
}
use talisker.Context.Data.{ContextData, Contexts}
use talisker.Context.Api.{current, request_id, debug, is_zero}
use talisker.Wsgi.Types.{Outside, Settings, Ids}
use talisker.Wsgi.Middleware.{with_ids, set_deadline}
use talisker.Wsgi.Middleware.Setup.{
  get-with_ids, deadline_by, expected_deadline, current-set_deadline,
}
use talisker.Requests.Session.{
  HeaderNames, put_absent, put_deadline, current_deadline, sent_headers,
}

get-put_deadline :
    (iso : ℤ → String) (name k : String) (d : ℤ) (headers : Dict String String)
    → is_zero d ≡ false
    → get k (put_deadline iso name (some d) headers)
      ≡ (if name == k then some (iso d) else get k headers)
get-put_deadline iso name k (pos zero) headers h = cc
get-put_deadline iso name k (pos (suc n)) headers h = get-insert name k (iso (pos (suc n))) headers
get-put_deadline iso name k (negsuc n) headers h = get-insert name k (iso (negsuc n)) headers

get-put_absent :
    (name v : String) (headers : Dict String String)
    → (v == "") ≡ false
    → get name headers ≡ none
    → get name (put_absent name (some v) headers) ≡ some v
get-put_absent name v headers h a =
    rw (h, a) (get-insert name name v headers ∙ rw (==_refl name) refl)

get-debug_header :
    (b : Bool) (k : String) (headers : Dict String String)
    → ("x-debug" == k) ≡ false
    → get k (if b then insert "x-debug" "1" headers else headers) ≡ get k headers
get-debug_header true k headers ne = get-insert "x-debug" k "1" headers ∙ rw (ne) refl
get-debug_header false k headers ne = refl

get_or_some : {a b : String} → some a ≡ some b → a ≡ b
get_or_some {a} e = ap (λ o. Option.get_or o a) e

==_ne : (a b : String) → a ≢ b → (a == b) ≡ false
==_ne a b h = ground (arith, string_eq.beq_iff a b)

module _ (names : HeaderNames) (iso : ℤ → String) (w : Contexts String) (ctx : ContextData String)
    (rid : String) (d : ℤ) (here : current w ≡ some ctx) (has_id : ctx.request_id ≡ some rid)
    (nonempty : (rid == "") ≡ false) (has_deadline : ctx.deadline ≡ some d)
    (nonzero : is_zero d ≡ false) (apart : names.deadline_header ≢ names.id_header)
    (id_apart : "x-debug" ≢ names.id_header)
    (deadline_apart : "x-debug" ≢ names.deadline_header) where
  id_of : request_id w ≡ some rid
  unfolding request_id
  id_of = rw (here, request_id) has_id

  deadline_of : current_deadline w ≡ some d
  unfolding current_deadline
  deadline_of = rw (here, current_deadline) has_deadline

  get_id-sent_headers :
      (headers : Dict String String)
      → get names.id_header headers ≡ none
      → get names.id_header (sent_headers names iso w headers) ≡ some rid
  unfolding sent_headers
  get_id-sent_headers headers absent =
      get-debug_header (debug w) names.id_header _ (==_ne "x-debug" names.id_header id_apart)
      ∙ (rw (deadline_of) (
          get-put_deadline iso names.deadline_header names.id_header d _ nonzero
          ∙ rw (==_ne names.deadline_header names.id_header apart, id_of)
              (get-put_absent names.id_header rid headers nonempty absent)))

  get_deadline-sent_headers :
      (headers : Dict String String)
      → get names.deadline_header (sent_headers names iso w headers) ≡ some (iso d)
  unfolding sent_headers
  get_deadline-sent_headers headers =
      get-debug_header (debug w) names.deadline_header _
        (==_ne "x-debug" names.deadline_header deadline_apart)
      ∙ (rw (deadline_of) (
          get-put_deadline iso names.deadline_header names.deadline_header d _ nonzero
          ∙ rw (==_refl names.deadline_header) refl))

module _ (out : Outside) (cfg : Settings) where
  -- A name that `with_ids` does not write.
  get-with_ids_other :
      (k : String) (environ : Dict String String) (ids : Ids) (vars : Dict String String)
      → ("SENTRY_ID" == k) ≡ false
      → ("REQUEST_ID" == k) ≡ false
      → (cfg.wsgi_id_header == k) ≡ false
      → get k environ ≡ none
      → get k (with_ids out cfg environ ids vars).1 ≡ get k vars
  unfolding with_ids
  get-with_ids_other k environ ids vars h₁ h₂ h₃ h =
      elim (Bool-cases (contains cfg.wsgi_id_header (update vars environ))) [
        | inl e ↦ rw (e) (simp (dict_laws, h₁, h₂) (get-update_absent k vars environ h))
        | inr e ↦ rw (e) (simp (dict_laws, h₁, h₂, h₃) (get-update_absent k vars environ h))
      ]

  module _ (names : HeaderNames) (iso : ℤ → String) where
    -- A request that is sent with a current context that has an id and a deadline, neither empty nor
    -- zero, and carries no id of its own, gets from the middleware that receives it the same id, and
    -- the deadline that the middleware reads in the text that the sender has written; if that text
    -- does not parse, the receiver's configured timeout, as without a header. This supposes that the
    -- server puts the two headers into the environment under the names that the middleware reads,
    -- that these names differ from each other and from the middleware's own and that its own
    -- entries have neither, that the headers of the sender differ, that the text of the deadline is
    -- not empty, and that the receiver has a current context.
    pub set_deadline-sent_headers :
        (w : Contexts String) (ctx : ContextData String) (rid : String) (d : ℤ)
        (headers vars environ : Dict String String) (ids : Ids) (w' : Contexts String)
        (ctx' : ContextData String)
        → current w ≡ some ctx
        → ctx.request_id ≡ some rid
        → (rid == "") ≡ false
        → ctx.deadline ≡ some d
        → is_zero d ≡ false
        → names.deadline_header ≢ names.id_header
        → "x-debug" ≢ names.id_header
        → "x-debug" ≢ names.deadline_header
        → get names.id_header headers ≡ none
        → get cfg.wsgi_id_header vars ≡ get names.id_header (sent_headers names iso w headers)
        → get "HTTP_X_REQUEST_DEADLINE" vars
          ≡ get names.deadline_header (sent_headers names iso w headers)
        → get cfg.wsgi_id_header environ ≡ none
        → get "HTTP_X_REQUEST_DEADLINE" environ ≡ none
        → "SENTRY_ID" ≢ cfg.wsgi_id_header
        → "REQUEST_ID" ≢ cfg.wsgi_id_header
        → cfg.wsgi_id_header ≢ "HTTP_X_REQUEST_DEADLINE"
        → (iso d == "") ≡ false
        → current w' ≡ some ctx'
        → let (rid', v) = with_ids out cfg environ ids vars in
          (rid' ≡ rid)
          × (current (set_deadline out cfg v w')
              ≡ some (record ctx' {
                deadline =
                    or_else
                      (cfg.parse_deadline (iso d))
                      (deadline_by out cfg cfg.request_timeout ctx');
              }))
    set_deadline-sent_headers w ctx rid d headers vars environ ids w' ctx' here has_id nonempty
          has_deadline nonzero apart id_apart deadline_apart absent id_in deadline_in no_id
          no_deadline s₁ s₂ s₃ shown here' =
        let sent_id =
          get_id-sent_headers names iso w ctx rid d here has_id nonempty has_deadline nonzero apart
            id_apart deadline_apart headers absent in
        let sent_deadline =
          get_deadline-sent_headers names iso w ctx rid d here has_id nonempty has_deadline nonzero
            apart id_apart deadline_apart headers in
        let v = (with_ids out cfg environ ids vars).1 in
        let arrived : get "HTTP_X_REQUEST_DEADLINE" v ≡ some (iso d) =
          get-with_ids_other "HTTP_X_REQUEST_DEADLINE" environ ids vars refl refl
            (==_ne cfg.wsgi_id_header "HTTP_X_REQUEST_DEADLINE" s₃) no_deadline
          ∙ deadline_in
          ∙ sent_deadline in
        (
          get_or_some (
              (get-with_ids out cfg environ ids vars s₁ s₂).0
              ∙ ap (λ o. or_else o (some ids.uuid))
                  (get-update_absent cfg.wsgi_id_header vars environ no_id ∙ id_in ∙ sent_id)),
          (current-set_deadline out cfg v w' ctx' 0 here').0
              ∙ ap (λ o. some (record ctx' { deadline = expected_deadline out cfg o ctx' })) arrived
              ∙ rw (shown) refl,
        )
