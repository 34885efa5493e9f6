-- ===== src/Endpoints/Access.antt =====
-- Who can reach the protected endpoints of talisker/endpoints.py.
use talisker.Common.{
  String, Bool, true, false, Option, none, some, [], ◌∷◌, ◌≡◌, refl, sym, ap, ◌∙◌, if◌then◌else◌,
  string_eq,
}
use talisker.Common.Text.{text_eq, codes}
use talisker.Context.Stack.{Outcome, returned}
use talisker.Wsgi.Types.{Exn}
use talisker.Wsgi.Middleware.{is_trusted_addr}
use talisker.Endpoints.{
  line, Response, Private, Endpoint, index, ping, check, protected, WebRequest, Server, Counters,
  client_addr, forbidden, run_private, guard, guard_addr, private, run_endpoint, choose, answered,
  answer, call,
}

module _ (s : Server) where
  -- A client whose address is known, and is not trusted.
  abbrev pub IsUntrusted : WebRequest → String → Type 0
  IsUntrusted r ip = (client_addr r ≡ some ip) × (is_trusted_addr s.cfg (some ip) ≡ returned false)

  private-untrusted :
      (views : Private → WebRequest → Outcome Response Exn) (p : Private) (r : WebRequest)
      (ip : String) (n : Counters)
      → IsUntrusted r ip
      → private s views p r n ≡ (returned (forbidden (s.forbidden_body r ip)), n)
  unfolding private
  private-untrusted views p r ip n h =
      ap (λ a. guard_addr s views p r a n) (h.0) ∙ ap (λ t. guard s views p r ip t n) (h.1)

  endpoint_untrusted :
      (views other_views : Private → WebRequest → Outcome Response Exn) (e : Endpoint)
      (r : WebRequest) (ip : String) (n : Counters)
      → IsUntrusted r ip
      → (run_endpoint s views e r n ≡ run_endpoint s other_views e r n)
        × ((run_endpoint s views e r n).1 ≡ n)
  unfolding run_endpoint
  endpoint_untrusted views other_views index r ip n h = (refl, refl)
  endpoint_untrusted views other_views ping r ip n h = (refl, refl)
  endpoint_untrusted views other_views check r ip n h = (refl, refl)
  endpoint_untrusted views other_views (protected p) r ip n h = (
    private-untrusted views p r ip n h ∙ sym (private-untrusted other_views p r ip n h),
    ap (λ x. x.1) (private-untrusted views p r ip n h),
  )

  answer_untrusted :
      (views other_views : Private → WebRequest → Outcome Response Exn) (e : Option Endpoint)
      (r : WebRequest) (ip : String) (n : Counters)
      → IsUntrusted r ip
      → (answer s views e r n ≡ answer s other_views e r n) × ((answer s views e r n).1 ≡ n)
  answer_untrusted views other_views none r ip n h = (refl, refl)
  answer_untrusted views other_views (some e) r ip n h =
      let (same, kept) = endpoint_untrusted views other_views e r ip n h in
      (ap (answered s views) same, kept)

  -- The answer to a client that is not trusted, by what its path leads to: on a protected endpoint
  -- it is a 403 with the body of the refusal, and no other header.
  abbrev pub Refused :
      Option Endpoint → WebRequest → String → Option (Outcome Response Exn) → Type 0
  Refused (some (protected p)) r ip result =
      result
      ≡ some (
          returned (record {
            status = line (codes "403 Forbidden");
            headers = [];
            body = s.forbidden_body r ip ∷ [];
          }))
  Refused _ r ip result = Unit {0}

  answer-Refused :
      (views : Private → WebRequest → Outcome Response Exn) (e : Option Endpoint) (r : WebRequest)
      (ip : String) (n : Counters)
      → IsUntrusted r ip
      → Refused e r ip (answer s views e r n).0
  unfolding run_endpoint
  answer-Refused views none r ip n h = tt
  answer-Refused views (some index) r ip n h = tt
  answer-Refused views (some ping) r ip n h = tt
  answer-Refused views (some check) r ip n h = tt
  answer-Refused views (some (protected p)) r ip n h =
      ap (λ x. (answered s views x).0) (private-untrusted views p r ip n h)

  -- A client that is not trusted gets 403 Forbidden wherever its path leads to a protected
  -- endpoint; no answer to it depends on what the protected endpoints show, and no counter moves.
  pub untrusted_call :
      (views other_views : Private → WebRequest → Outcome Response Exn) (r : WebRequest)
      (ip : String) (n : Counters)
      → IsUntrusted r ip
      → Refused (choose s r) r ip (call s views r n).0
        × (call s views r n ≡ call s other_views r n)
        × ((call s views r n).1 ≡ n)
  unfolding call
  untrusted_call views other_views r ip n h =
      let (same, kept) = answer_untrusted views other_views (choose s r) r ip n h in
      (answer-Refused views (choose s r) r ip n h, same, kept)

  guard_if :
      (views : Private → WebRequest → Outcome Response Exn) (p : Private) (r : WebRequest)
      (ip : String) (trusted : Bool) (n : Counters)
      → answered s views (guard s views p r ip (returned trusted) n) ≡ (
          if trusted
          then answered s views (run_private s views p r n)
          else answered s views (returned (forbidden (s.forbidden_body r ip)), n))
  guard_if views p r ip true n = refl
  guard_if views p r ip false n = refl

  -- A path that leads to a protected endpoint is answered to a trusted client by the endpoint, and to
  -- another by a refusal that names its address.
  pub protected_call :
      (views : Private → WebRequest → Outcome Response Exn) (p : Private) (r : WebRequest)
      (ip : String) (trusted : Bool) (n : Counters)
      → choose s r ≡ some (protected p)
      → client_addr r ≡ some ip
      → is_trusted_addr s.cfg (some ip) ≡ returned trusted
      → call s views r n ≡ (
          if trusted
          then answered s views (run_private s views p r n)
          else answered s views (returned (forbidden (s.forbidden_body r ip)), n))
  unfolding call run_endpoint private
  protected_call views p r ip trusted n chosen addr t =
      ap (λ e. answer s views e r n) chosen
      ∙ ap (λ a. answered s views (guard_addr s views p r a n)) addr
      ∙ ap (λ x. answered s views (guard s views p r ip x n)) t
      ∙ guard_if views p r ip trusted n
