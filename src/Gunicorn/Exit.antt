-- ===== src/Gunicorn/Exit.antt =====
-- `gunicorn_worker_exit` in talisker/gunicorn.py: the requests in flight are finished before a worker
-- ends. A request object is named by its identity.
use talisker.Common.{
  ℕ, ◌+◌, String, true, false, Option, none, some, List, [], ◌∷◌, ◌≡◌, ◌≢◌, refl, sym, ap, ◌∙◌,
  arith, string_eq, nat_eq, ◌==◌, if◌then◌else◌, Bool-cases, inl, inr, ==_refl,
}
use talisker.Common.Lists.{length, length-append}
use talisker.Common.Dict.{Dict, get, erase, Distinct}
use talisker.Context.Stack.{Outcome, returned, raised}
use talisker.Wsgi.Types.{Exn, request_timeout, error, Request, World, Outside, Settings}
use talisker.Wsgi.Metadata.{get_metadata}
use talisker.Wsgi.Request.{finish_request, timed}
use talisker.Wsgi.Request.Close.{timed-environ, untrack-some}

-- The objects in memory and the rest of the process.
pub record Process : Type 0 where
  pub objects : ℕ → Request
  pub world : World

abbrev pub keys : Dict String ℕ → List String
keys [] = []
keys ((k, v) ∷ d) = k ∷ keys d

module _ (out : Outside) (cfg : Settings) where
  -- A request with the timeout as its exception is finished.
  unfoldable pub finish_object : ℕ → Process → Outcome (Unit {0}) Exn × Process
  finish_object oid p =
      let req : Request = record (p.objects oid) { exc_info = some request_timeout } in
      let (result, s) = finish_request out cfg true (record { req = req; world = p.world }) in
      (result, record { objects = λ o. if oid == o then s.req else p.objects o; world = s.world })

  abbrev exit_found : Option ℕ → Process → Outcome (Unit {0}) Exn × Process
  exit_found none p = (raised (error "KeyError"), p)
  exit_found (some oid) p = finish_object oid p

  -- One round: `REQUESTS[rid]` is a `KeyError` if the id has gone.
  unfoldable pub exit_request : String → Process → Outcome (Unit {0}) Exn × Process
  unfolding finish_object
  exit_request rid p = exit_found (get rid p.world.requests) p

  abbrev go_on :
      Outcome (Unit {0}) Exn × Process
      → (Process → Outcome (Unit {0}) Exn × Process)
      → Outcome (Unit {0}) Exn × Process
  go_on (returned x, p) rest = rest p
  go_on (raised e, p) rest = (raised e, p)

  unfoldable pub exit_requests : List String → Process → Outcome (Unit {0}) Exn × Process
  unfolding exit_request
  exit_requests [] p = (returned tt, p)
  exit_requests (rid ∷ rids) p = go_on (exit_request rid p) (λ p'. exit_requests rids p')

  unfoldable pub worker_exit : Process → Outcome (Unit {0}) Exn × Process
  unfolding exit_requests
  worker_exit p = exit_requests (keys p.world.requests) p

  -- The request under each id in `REQUESTS` has that id, which is not empty.
  abbrev pub Tracks : (ℕ → Request) → Dict String ℕ → Type 0
  Tracks objects requests =
      (rid : String) (oid : ℕ)
      → get rid requests ≡ some oid
      → (get "REQUEST_ID" (objects oid).environ.vars ≡ some rid) × (rid ≢ "")

  erase_head : (k : String) (v : ℕ) (d : Dict String ℕ) → get k d ≡ none → erase k d ≡ d
  unfolding get erase
  erase_head k v [] h = refl
  erase_head k v ((j, w) ∷ d) h = ground (arith, erase_head k v d)

  erase_first : (k : String) (v : ℕ) (d : Dict String ℕ) → get k d ≡ none → erase k ((k, v) ∷ d) ≡ d
  unfolding erase
  erase_first k v d h = rw (==_refl k) (erase_head k v d h)

  -- What finishing one request does.
  record Exited (p : Process) (rid : String) (oid : ℕ) (p' : Process) : Type 0 where
    requests : p'.world.requests ≡ erase rid p.world.requests
    logs : length p'.world.logs ≡ length p.world.logs + 1
    timedout : (p'.objects oid).timedout ≡ true
    kept : (o : ℕ) → (p.objects o).timedout ≡ true → (p'.objects o).timedout ≡ true
    environ : (o : ℕ) → (p'.objects o).environ ≡ (p.objects o).environ

  expired : Request → Request
  expired r = record r { exc_info = some request_timeout }

  timed-timedout : (now : ℕ) (r : Request) → (timed out cfg true now r).0.timedout ≡ true
  unfolding timed
  timed-timedout now r = ground arith

  finish_object-Exited :
      (p : Process) (rid : String) (oid : ℕ)
      → get "REQUEST_ID" (p.objects oid).environ.vars ≡ some rid
      → rid ≢ ""
      → ((finish_object oid p).0 ≡ returned tt) × Exited p rid oid (finish_object oid p).1
  unfolding finish_object finish_request expired
  finish_object-Exited p rid oid e ne =
      let now = p.world.now in
      let req = expired (p.objects oid) in
      (
        refl,
        record {
          requests =
              rw
                (
                  timed-environ out cfg true now req,
                  e,
                  untrack-some out cfg rid p.world.requests ne,
                )
                refl;
          logs =
              length-append p.world.logs
                (get_metadata out (timed out cfg true now req).0 p.world ∷ []);
          timedout = rw (==_refl oid) (timed-timedout now req);
          kept = λ o h. elim (Bool-cases (oid == o)) [
            | inl same ↦ rw (same) (timed-timedout now req)
            | inr other ↦ rw (other) h
          ];
          environ = λ o. elim (Bool-cases (oid == o)) [
            | inl same ↦ rw (same) (
                timed-environ out cfg true now req
                ∙ ap (λ n. (p.objects n).environ) ((nat_eq.beq_iff oid o).0 same))
            | inr other ↦ rw (other) refl
          ];
        },
      )

  exit_request-some :
      (rid : String) (oid : ℕ) (p : Process)
      → get rid p.world.requests ≡ some oid
      → exit_request rid p ≡ finish_object oid p
  unfolding exit_request
  exit_request-some rid oid p e = ap (λ o. exit_found o p) e

  exit_requests-next :
      (rid : String) (rids : List String) (p : Process)
      → (oid : ℕ) → get rid p.world.requests ≡ some oid
      → (finish_object oid p).0 ≡ returned tt
      → exit_requests (rid ∷ rids) p ≡ exit_requests rids (finish_object oid p).1
  unfolding exit_requests
  exit_requests-next rid rids p oid found ok =
      ap (λ r. go_on r (λ p'. exit_requests rids p')) (exit_request-some rid oid p found)
      ∙ ap (λ r. go_on (r, (finish_object oid p).1) (λ p'. exit_requests rids p')) ok

  -- What the whole of the loop does.
  pub record AllExited (p : Process) (d : Dict String ℕ) (p' : Process) : Type 0 where
    pub requests : p'.world.requests ≡ []
    pub logs : length p'.world.logs ≡ length p.world.logs + length d
    pub timedout :
        (rid : String) (oid : ℕ) → get rid d ≡ some oid → (p'.objects oid).timedout ≡ true
    pub kept : (o : ℕ) → (p.objects o).timedout ≡ true → (p'.objects o).timedout ≡ true

  Tracks-tail :
      (p p' : Process) (rid : String) (oid : ℕ) (d : Dict String ℕ)
      → Exited p rid oid p'
      → get rid d ≡ none
      → Tracks p.objects ((rid, oid) ∷ d)
      → Tracks p'.objects d
  unfolding get
  Tracks-tail p p' rid oid d done new tracks k o e =
      let other : (rid == k) ≡ false = ground (arith, string_eq.beq_iff rid k) in
      let (has, ne) = tracks k o (rw (other) e) in (rw (done.environ o) has, ne)

  AllExited-first :
      (p p1 p2 : Process) (rid : String) (oid : ℕ) (d : Dict String ℕ)
      → Exited p rid oid p1
      → AllExited p1 d p2
      → AllExited p ((rid, oid) ∷ d) p2
  unfolding get
  AllExited-first p p1 p2 rid oid d one rest = record {
    requests = rest.requests;
    logs = omega (arith, rest.logs, one.logs);
    timedout = λ k o e. elim (Bool-cases (rid == k)) [
      | inl same ↦
          let eq : some oid ≡ some o = sym (rw (same) refl) ∙ e in
          ap (λ n. (p2.objects n).timedout) (sym (ap (λ x. elim x [ none ↦ oid | some n ↦ n ]) eq))
          ∙ rest.kept oid one.timedout
      | inr other ↦ rest.timedout k o (ground (arith, e, other))
    ];
    kept = λ o h. rest.kept o (one.kept o h);
  }

  exit_requests-AllExited :
      (d : Dict String ℕ) (p : Process)
      → p.world.requests ≡ d
      → Distinct d
      → Tracks p.objects d
      → ((exit_requests (keys d) p).0 ≡ returned tt) × AllExited p d (exit_requests (keys d) p).1
  unfolding Distinct exit_requests
  exit_requests-AllExited [] p same distinct tracks = (
    refl,
    record {
      requests = same;
      logs = omega arith;
      timedout = λ rid oid e. absurd (unfold get in ground (arith, e));
      kept = λ o h. h;
    },
  )
  exit_requests-AllExited ((rid, oid) ∷ d) p same distinct tracks =
      let first : get rid ((rid, oid) ∷ d) ≡ some oid = unfold get in rw (==_refl rid) refl in
      let found : get rid p.world.requests ≡ some oid = ap (get rid) same ∙ first in
      let (has, ne) = tracks rid oid first in
      let (ok, done) = finish_object-Exited p rid oid has ne in
      let p1 : Process = (finish_object oid p).1 in
      let left : p1.world.requests ≡ d =
        done.requests ∙ ap (erase rid) same ∙ erase_first rid oid d distinct.0 in
      let (returns, rest) =
        exit_requests-AllExited d p1 left distinct.1
          (Tracks-tail p p1 rid oid d done distinct.0 tracks) in
      rw (exit_requests-next rid (keys d) p oid found ok)
        (returns, AllExited-first p p1 (exit_requests (keys d) p1).1 rid oid d done rest)

  -- When a worker ends, with each request in flight under its own id, which is not empty: the hook
  -- raises nothing, `REQUESTS` is left empty, one access log is written for each of them, and each is
  -- marked as timed out.
  pub worker_exit-AllExited :
      (p : Process)
      → Distinct p.world.requests
      → Tracks p.objects p.world.requests
      → ((worker_exit p).0 ≡ returned tt) × AllExited p p.world.requests (worker_exit p).1
  unfolding worker_exit
  worker_exit-AllExited p distinct tracks =
      exit_requests-AllExited p.world.requests p refl distinct tracks
