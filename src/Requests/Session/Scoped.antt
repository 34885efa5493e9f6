-- ===== src/Requests/Session/Scoped.antt =====
-- That `configure` of talisker/requests.py is done once, and that the names given to a request are
-- gone after it.

use talisker.Common.{
  ℕ, zero, suc, String, Option, none, some, List, ◌≡◌, refl, string_eq, Bool-cases, inl, inr,
  ==_refl,
}
use talisker.Common.Dict.{get-insert, get-erase}
use talisker.Context.Data.{ContextData}
use talisker.Context.Api.{current}
use talisker.Requests.Record.{Names, no_names, World, names_of}
use talisker.Requests.Session.{
  Hook, Session, add_hook, has_metrics_hook, wrap_once, configure, set_names, del_names,
  request_wrapper,
}

names_of-set_names :
    (ctx : Option (ContextData String)) (n : Names) (w : World)
    → names_of ctx (set_names ctx n w) ≡ n
names_of-set_names none n w = refl
names_of-set_names (some ctx) n w = rw (get-insert ctx.id ctx.id n w.names, ==_refl ctx.id) refl

names_of-del_names :
    (ctx : Option (ContextData String)) (w : World) → names_of ctx (del_names ctx w) ≡ no_names
names_of-del_names none w = refl
names_of-del_names (some ctx) w = rw (get-erase ctx.id ctx.id w.names, ==_refl ctx.id) refl

-- The session's own method runs with the names of the request on the current context, and after it,
-- whatever it did and whether it returned or raised, that context has neither name.
pub request_wrapper-names {ℓ} :
    {A : Type ℓ} (func : World → A × World) (names : Names) (w : World)
    → let ctx = current w.contexts in
      (names_of ctx (set_names ctx names w) ≡ names)
      × ((request_wrapper func names w).0 ≡ (func (set_names ctx names w)).0)
      × (names_of ctx (request_wrapper func names w).1 ≡ no_names)
unfolding request_wrapper
request_wrapper-names func names w =
    let ctx = current w.contexts in
    (names_of-set_names ctx names w, refl, names_of-del_names ctx (func (set_names ctx names w)).1)

add_hook_twice : (hooks : List Hook) → add_hook (add_hook hooks) ≡ add_hook hooks
add_hook_twice hooks = elim (Bool-cases (has_metrics_hook hooks)) [
  | inl e ↦ rw (e, e) refl
  | inr e ↦ rw (e) refl
]

wrap_once_twice : (n : ℕ) → wrap_once (wrap_once n) ≡ wrap_once n
wrap_once_twice zero = refl
wrap_once_twice (suc n) = refl

-- A session that is configured again stays as it is.
pub configure_twice : (s : Session) → configure (configure s) ≡ configure s
unfolding configure
configure_twice s i = record {
  hooks = add_hook_twice s.hooks i;
  send_wrappers = wrap_once_twice s.send_wrappers i;
  request_wrappers = wrap_once_twice s.request_wrappers i;
}
