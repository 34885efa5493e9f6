-- ===== src/Util/Early.antt =====
-- The early logs of talisker/util.py: logs made before logging is set up are kept, and handed to
-- their loggers by `flush_early_logs`.
use talisker.Common.{
  String, Bool, true, false, List, [], ◌∷◌, ◌++◌, ◌≡◌, refl, sym, ap, ◌∙◌, append-nil, append_assoc,
  arith, if◌then◌else◌, Bool-cases, inl, inr,
}

-- A call of a logger: its name, the level and what is logged.
pub record Log : Type 0 where
  pub name : String
  pub level : String
  pub message : String

-- `EARLY_LOGS`, `EARLY_LOGS_PROCESSED` and the calls that have reached their loggers.
pub record EarlyLogs : Type 0 where
  pub pending : List Log
  pub processed : Bool
  pub logged : List Log

unfoldable pub early_log : Log → EarlyLogs → EarlyLogs
early_log l s =
    if s.processed
    then record s { logged = s.logged ++ l ∷ [] }
    else record s { pending = s.pending ++ l ∷ [] }

abbrev pub log_all : List Log → EarlyLogs → EarlyLogs
log_all [] s = s
log_all (l ∷ logs) s = log_all logs (early_log l s)

unfoldable pub flush_early_logs : EarlyLogs → EarlyLogs
unfolding early_log
flush_early_logs s =
    let s' = log_all s.pending (record s { processed = true }) in record s' { pending = [] }

-- What start-up code does: it logs, and logging is set up, once or more often.
pub data Startup : Type 0 where
  log : Log → Startup
  flush : Startup

abbrev pub step : Startup → EarlyLogs → EarlyLogs
step (log l) s = early_log l s
step flush s = flush_early_logs s

abbrev pub run : List Startup → EarlyLogs → EarlyLogs
run [] s = s
run (x ∷ xs) s = run xs (step x s)

abbrev pub logs_of : List Startup → List Log
logs_of [] = []
logs_of (log l ∷ xs) = l ∷ logs_of xs
logs_of (flush ∷ xs) = logs_of xs

-- Once the early logs are processed, none is pending.
abbrev pub IsFlushed : EarlyLogs → Type 0
IsFlushed s = s.processed ≡ true → s.pending ≡ []

-- All logs so far, in their order.
abbrev pub all_logs : EarlyLogs → List Log
all_logs s = s.logged ++ s.pending

early_log-on :
    (l : Log) (s : EarlyLogs)
    → s.processed ≡ true
    → early_log l s ≡ record s { logged = s.logged ++ l ∷ [] }
unfolding early_log
early_log-on l s on =
    ap
      (λ b.
        if b
        then record s { logged = s.logged ++ l ∷ [] }
        else record s { pending = s.pending ++ l ∷ [] })
      on

early_log-off :
    (l : Log) (s : EarlyLogs)
    → s.processed ≡ false
    → early_log l s ≡ record s { pending = s.pending ++ l ∷ [] }
unfolding early_log
early_log-off l s off =
    ap
      (λ b.
        if b
        then record s { logged = s.logged ++ l ∷ [] }
        else record s { pending = s.pending ++ l ∷ [] })
      off

logged-log_all :
    (logs : List Log) (s : EarlyLogs)
    → s.processed ≡ true
    → (log_all logs s).logged ≡ s.logged ++ logs
logged-log_all [] s on = sym (append-nil s.logged)
logged-log_all (l ∷ logs) s on =
    ap (λ x. (log_all logs x).logged) (early_log-on l s on)
    ∙ logged-log_all logs (record s { logged = s.logged ++ l ∷ [] }) on
    ∙ append_assoc s.logged (l ∷ []) logs

all_logs-early_log :
    (l : Log) (s : EarlyLogs)
    → IsFlushed s
    → (all_logs (early_log l s) ≡ all_logs s ++ l ∷ []) × IsFlushed (early_log l s)
all_logs-early_log l s h = elim (Bool-cases s.processed) [
  | inl on ↦
      let none_left : s.pending ≡ [] = h on in
      (
        ap all_logs (early_log-on l s on)
            ∙ ap (λ p. s.logged ++ l ∷ [] ++ p) none_left
            ∙ append-nil (s.logged ++ l ∷ [])
            ∙ ap (λ x. x ++ l ∷ [])
                (sym (append-nil s.logged) ∙ ap (λ p. s.logged ++ p) (sym none_left)),
        λ still. ap (λ x. x.pending) (early_log-on l s on) ∙ none_left,
      )
  | inr off ↦ (
    ap all_logs (early_log-off l s off) ∙ sym (append_assoc s.logged s.pending (l ∷ [])),
    λ on. absurd (ground (arith, sym (ap (λ x. x.processed) (early_log-off l s off)) ∙ on, off)),
  )
]

all_logs-flush_early_logs :
    (s : EarlyLogs) → (all_logs (flush_early_logs s) ≡ all_logs s) × IsFlushed (flush_early_logs s)
unfolding flush_early_logs
all_logs-flush_early_logs s =
    (append-nil _ ∙ logged-log_all s.pending (record s { processed = true }) refl, λ on. refl)

all_logs-step :
    (x : Startup) (s : EarlyLogs)
    → IsFlushed s
    → (all_logs (step x s) ≡ all_logs s ++ logs_of (x ∷ [])) × IsFlushed (step x s)
all_logs-step (log l) s h = all_logs-early_log l s h
all_logs-step flush s h =
    let (same, flushed) = all_logs-flush_early_logs s in
    (same ∙ sym (append-nil (all_logs s)), flushed)

logs_of-next : (x : Startup) (xs : List Startup) → logs_of (x ∷ []) ++ logs_of xs ≡ logs_of (x ∷ xs)
logs_of-next (log l) xs = refl
logs_of-next flush xs = refl

-- Whenever logging is set up, early or late or more than once: each log is handed to its logger or
-- waits, once, all in the order in which they were made, and none waits once logging is set up.
pub all_logs-run :
    (xs : List Startup) (s : EarlyLogs)
    → IsFlushed s
    → (all_logs (run xs s) ≡ all_logs s ++ logs_of xs) × IsFlushed (run xs s)
all_logs-run [] s h = (sym (append-nil (all_logs s)), h)
all_logs-run (x ∷ xs) s h =
    let (one, kept) = all_logs-step x s h in
    let (rest, flushed) = all_logs-run xs (step x s) kept in
    (
      rest
          ∙ ap (λ l. l ++ logs_of xs) one
          ∙ append_assoc (all_logs s) (logs_of (x ∷ [])) (logs_of xs)
          ∙ ap (λ l. all_logs s ++ l) (logs_of-next x xs),
      flushed,
    )
