-- ===== src/Wsgi/Action.antt =====
-- Actions on a request and the process: a state monad with exceptions. What was written before an
-- exception stays written.
use talisker.Common.{Bool, true, false, if◌then◌else◌}
use talisker.Context.Stack.{Outcome, returned, raised}
use talisker.Wsgi.Types.{Exn, Request, State}

abbrev pub M : Type 0 → Type 0
M A = State → Outcome A Exn × State

abbrev pub and_then : {A B : Type 0} → (A → M B) → Outcome A Exn → M B
and_then f (returned a) s = f a s
and_then f (raised e) s = (raised e, s)

infixl 5 ◌>>=◌ ◌>>◌
abbrev pub ◌>>=◌ : {A B : Type 0} → M A → (A → M B) → M B
m >>= f = λ s. and_then f (m s).0 (m s).1

abbrev pub ◌>>◌ : {A B : Type 0} → M A → M B → M B
m >> k = m >>= λ _. k

module _ {A : Type 0} where
  abbrev pub pure : A → M A
  pure a s = (returned a, s)

  abbrev pub raise : Exn → M A
  raise e s = (raised e, s)

  -- `try: m` with a handler for every exception.
  abbrev pub or_catch : (Exn → M A) → Outcome A Exn → M A
  or_catch h (returned a) s = (returned a, s)
  or_catch h (raised e) s = h e s

  abbrev pub handle : M A → (Exn → M A) → M A
  handle m h = λ s. or_catch h (m s).0 (m s).1

abbrev pub update_req : (Request → Request) → M (Unit {0})
update_req f s = (returned tt, record s { req = f s.req })

abbrev pub when : Bool → M (Unit {0}) → M (Unit {0})
when b m s = if b then m s else (returned tt, s)

-- A reflexive and transitive relation between the state before and after every action.
pub record Frame (R : State → State → Type 0) : Type 0 where
  pub same : (s : State) → R s s
  pub trans : (s t u : State) → R s t → R t u → R s u

abbrev pub Keeps : (State → State → Type 0) → {A : Type 0} → M A → Type 0
Keeps R m = (s : State) → R s (m s).1

module _ {R : State → State → Type 0} (frame : Frame R) where
  pub pure-Keeps : {A : Type 0} (a : A) → Keeps R (pure a)
  pure-Keeps a s = frame.same s

  pub raise-Keeps : (A : Type 0) (e : Exn) → Keeps R (raise {A = A} e)
  raise-Keeps A e s = frame.same s

  pub when-Keeps : (b : Bool) (m : M (Unit {0})) → Keeps R m → Keeps R (when b m)
  when-Keeps true m h s = h s
  when-Keeps false m h s = frame.same s

  bind_result :
      {A B : Type 0} (f : A → M B) (r : Outcome A Exn) (s t : State)
      → R s t
      → ((a : A) → Keeps R (f a))
      → R s (and_then f r t).1
  bind_result f (returned a) s t h hf = frame.trans s t (f a t).1 h (hf a t)
  bind_result f (raised e) s t h hf = h

  pub bind-Keeps :
      {A B : Type 0} (m : M A) (f : A → M B)
      → Keeps R m
      → ((a : A) → Keeps R (f a))
      → Keeps R (m >>= f)
  bind-Keeps m f hm hf s = bind_result f (m s).0 s (m s).1 (hm s) hf

  handle_result :
      {A : Type 0} (f : Exn → M A) (r : Outcome A Exn) (s t : State)
      → R s t
      → ((e : Exn) → Keeps R (f e))
      → R s (or_catch f r t).1
  handle_result f (returned a) s t h hf = h
  handle_result f (raised e) s t h hf = frame.trans s t (f e t).1 h (hf e t)

  pub handle-Keeps :
      {A : Type 0} (m : M A) (f : Exn → M A)
      → Keeps R m
      → ((e : Exn) → Keeps R (f e))
      → Keeps R (handle m f)
  handle-Keeps m f hm hf s = handle_result f (m s).0 s (m s).1 (hm s) hf
