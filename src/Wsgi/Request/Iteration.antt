-- ===== src/Wsgi/Request/Iteration.antt =====
-- A response that the server of talisker/wsgi.py takes to its end, chunk by chunk.
use talisker.Common.{
  ℕ, zero, suc, ◌+◌, Bool, true, false, none, some, List, [], ◌∷◌, ◌++◌, ◌≡◌, ◌∙◌, Option, refl,
  arith, map, inl, inr, Bool-cases, is_some,
}
use talisker.Common.Lists.{length, length-append}
use talisker.Context.Stack.{Outcome, returned, raised}
use talisker.Wsgi.Types.{
  Exn, stop_iteration, StartCall, Step, Request, World, State, Outside, Settings,
}
use talisker.Wsgi.Action.{M, pure, raise}
use talisker.Wsgi.Request.{
  call_start_response, run_starts, next_step, next_of, next_iter, on_error, on_end, advance, timed,
  next, close, counted, wrapped_next, close_iter, call_iter_close,
}
use talisker.Wsgi.Request.Close.{Finished, close-Finished, Quiet, call_iter_close-Quiet}

abbrev pub chunk : ℕ → Step
chunk n = record { starts = []; result = returned n }

abbrev pub sum : List ℕ → ℕ
sum [] = 0
sum (n ∷ ns) = n + sum ns

add_zero : (n : ℕ) → n + 0 ≡ n
add_zero n = omega arith

zero_add : (n : ℕ) → 0 + n ≡ n
zero_add n = omega arith

regroup : (a b c : ℕ) → a + (b + c) ≡ a + b + c
regroup a b c = omega arith

suc_right : (a b : ℕ) → a + suc b ≡ a + 1 + b
suc_right a b = omega arith

-- A request that plays an iterator that yields chunks and calls no `start_response`, with the
-- `close` method `c`, if any, and with the server's `start_response` called or not, after `total`
-- bytes in `count` chunks.
abbrev pub playing : Option (Option Exn) → Request → World → Bool → List ℕ → ℕ → ℕ → State
playing c r w started chunks total count = record {
  req = record r {
    iter = some (record { steps = map chunk chunks; close = c });
    start_response_called = started;
    content_length = total;
  };
  world = record w { sent = count };
}

module _ (out : Outside) (cfg : Settings) where
  unfoldable pub or_stop : M (Unit {0}) → Outcome ℕ Exn → M (Unit {0})
  or_stop rest (returned n) = rest
  or_stop rest (raised stop_iteration) = pure tt
  or_stop rest (raised e) = raise e

  -- `for chunk in response`, as a server does it.
  unfoldable pub drain : ℕ → M (Unit {0})
  unfolding or_stop next
  drain zero s = (raised stop_iteration, s)
  drain (suc fuel) s = or_stop (drain fuel) (next out cfg s).0 (next out cfg s).1

  module _ (c : Option (Option Exn)) where
    next_chunk :
        (r : Request) (w : World) (n : ℕ) (chunks : List ℕ) (total count : ℕ)
        → next out cfg (playing c r w true (n ∷ chunks) total count)
          ≡ (returned n, playing c r w true chunks (total + n) (count + 1))
    unfolding next wrapped_next advance next_iter next_of next_step run_starts counted
    next_chunk r w n chunks total count = ground arith

    close_played :
        (r : Request) (w : World) (total count : ℕ)
        → r.closed ≡ false
        → Quiet c
        → (close out cfg (playing c r w true [] total count)).0 ≡ returned tt
    unfolding close_iter call_iter_close
    close_played r w total count h q =
        (close-Finished out cfg (playing c r w true [] total count) h).0
        ∙ call_iter_close-Quiet out cfg c (playing c r w true [] total count) q

    next_stop :
        (r : Request) (w : World) (total count : ℕ)
        → r.closed ≡ false
        → Quiet c
        → next out cfg (playing c r w true [] total count)
          ≡ (raised stop_iteration, (close out cfg (playing c r w true [] total count)).1)
    unfolding next wrapped_next advance next_iter next_of next_step on_error on_end
    next_stop r w total count h q = elim (Bool-cases (is_some r.status)) [
      | inl e ↦ rw (e, close_played r w total count h q) refl
      | inr e ↦ rw (e, close_played r w total count h q) refl
    ]

    drain-playing :
        (r : Request) (w : World) (chunks : List ℕ) (total count : ℕ)
        → r.closed ≡ false
        → Quiet c
        → drain (suc (length chunks)) (playing c r w true chunks total count) ≡ (
          returned tt,
          (close out cfg (playing c r w true [] (total + sum chunks) (count + length chunks))).1,
        )
    unfolding drain
    drain-playing r w [] total count h q =
        rw (next_stop r w total count h q, add_zero total, add_zero count) refl
    drain-playing r w (n ∷ chunks) total count h q = rw (next_chunk r w n chunks total count) (
        rw (regroup total n (sum chunks), suc_right count (length chunks))
          (drain-playing r w chunks (total + n) (count + 1) h q))

    -- The call of the server's `start_response` that the request makes.
    abbrev pub started_call : Request → StartCall
    started_call r = record { status = r.status; headers = r.headers; exc_info = r.exc_info }

    next_start :
        (r : Request) (w : World) (chunks : List ℕ)
        → is_some r.status ≡ true
        → out.start_upstream w.upstream 0 (started_call r) ≡ none
        → next out cfg (playing c r w false chunks r.content_length 0)
          ≡ next out cfg (
              playing c r
                (record w { upstream = w.upstream ++ started_call r ∷ [] })
                true
                chunks
                r.content_length
                0)
    unfolding next wrapped_next call_start_response
    next_start r w chunks has accepts = rw (has, accepts, call_start_response) refl

    timed-content_length :
        (now : ℕ) (r : Request) → (timed out cfg false now r).0.content_length ≡ r.content_length
    unfolding timed
    timed-content_length now r = ground arith

    -- What a response of `chunks` has done once it is over.
    pub record Served (r : Request) (w : World) (chunks : List ℕ) (t : State) : Type 0 where
      pub upstream : t.world.upstream ≡ w.upstream ++ started_call r ∷ []
      pub sent : t.world.sent ≡ length chunks
      pub content_length : t.req.content_length ≡ r.content_length + sum chunks
      pub closed : t.req.closed ≡ true
      pub logs : length t.world.logs ≡ length w.logs + 1

    Served-close :
        (r : Request) (w : World) (chunks : List ℕ) (t : State)
        → Finished out cfg
            (playing c r
              (record w { upstream = w.upstream ++ started_call r ∷ [] })
              true
              []
              (r.content_length + sum chunks)
              (length chunks))
            t
        → Served r w chunks t
    Served-close r w chunks t f = record {
      upstream = f.upstream;
      sent = f.sent;
      content_length = rw (f.req) (timed-content_length _ _);
      closed = rw (f.req) refl;
      logs = rw (f.logs) (length-append w.logs _);
    }

    drain_start :
        (r : Request) (w : World) (chunks : List ℕ)
        → is_some r.status ≡ true
        → out.start_upstream w.upstream 0 (started_call r) ≡ none
        → drain (suc (length chunks)) (playing c r w false chunks r.content_length 0)
          ≡ drain (suc (length chunks)) (
              playing c r
                (record w { upstream = w.upstream ++ started_call r ∷ [] })
                true
                chunks
                r.content_length
                0)
    unfolding drain
    drain_start r w chunks has accepts = rw (next_start r w chunks has accepts) refl

    -- A response whose iterator yields `chunks` and calls no `start_response` itself, of a request
    -- that has a status and is open, on a server that accepts its call of `start_response`, where
    -- the iterator's `close`, if any, does not raise: a loop that asks for one item more than there
    -- are chunks ends, every chunk is handed on, the server's `start_response` was called once, with
    -- the stored status and headers, the length is the sum, and the request is closed and logged
    -- once.
    pub drain_lem :
        (r : Request) (w : World) (chunks : List ℕ)
        → is_some r.status ≡ true
        → r.closed ≡ false
        → Quiet c
        → out.start_upstream w.upstream 0 (started_call r) ≡ none
        → ((drain (suc (length chunks)) (playing c r w false chunks r.content_length 0)).0
            ≡ returned tt)
          × Served r w chunks
              (drain (suc (length chunks)) (playing c r w false chunks r.content_length 0)).1
    drain_lem r w chunks has h q accepts =
        let w' = record w { upstream = w.upstream ++ started_call r ∷ [] } in
        rw
          (
            drain_start r w chunks has accepts,
            drain-playing r w' chunks r.content_length 0 h q,
            zero_add (length chunks),
          )
          (refl, Served-close r w chunks _ ((close-Finished out cfg _ h).1))
