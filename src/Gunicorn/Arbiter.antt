-- ===== src/Gunicorn/Arbiter.antt =====
-- The handling of dead workers in talisker/gunicorn.py. `child_exit` runs in a signal handler, so it
-- can come between any two steps of `handle_custom`, which the arbiter's main loop calls.
pub mod Steps
pub mod Drain
use talisker.Common.{
  ℕ, String, Bool, true, false, Option, none, some, List, [], ◌∷◌, ◌++◌, ◌≡◌, ◌≢◌, string_eq, ◌==◌,
  ◌||◌, if◌then◌else◌,
}
use talisker.Context.Data.{Contexts}
use talisker.Context.Api.{clear}

-- Where the main loop is: not in `handle_custom`, in its loop, or past the loop's last test.
pub data Phase : Type 0 where
  idle : Phase
  looping : Phase
  leaving : Phase

-- `DEAD_WORKERS`, the arbiter's `SIG_QUEUE`, the phase and the worker that `handle_custom` is busy with, the workers that it has cleaned up and those of them whose clean-up raised.
pub record Arbiter : Type 0 where
  pub dead : List ℕ
  pub sig_queue : List String
  pub phase : Phase
  pub busy : Option ℕ
  pub cleaned : List ℕ
  pub failed : List ℕ
  pub contexts : Contexts String

abbrev pub custom : String
custom = "SIGCUSTOM"

abbrev pub has_signal : String → List String → Bool
has_signal s [] = false
has_signal s (t ∷ ts) = t == s || has_signal s ts

-- `gunicorn_child_exit`
unfoldable pub child_exit : ℕ → Arbiter → Arbiter
child_exit pid a = record a {
  dead = a.dead ++ pid ∷ [];
  sig_queue = if has_signal custom a.sig_queue then a.sig_queue else a.sig_queue ++ custom ∷ [];
}

-- The end of one round of the loop: what the clean-up raises is logged. `cleaned` takes every worker
-- whose clean-up ended, `failed` those of them whose clean-up raised.
unfoldable pub clean_up : ℕ → Bool → Arbiter → Arbiter
clean_up pid raises a = record a {
  busy = none;
  cleaned = a.cleaned ++ pid ∷ [];
  failed = if raises then a.failed ++ pid ∷ [] else a.failed;
}

-- The end of `handle_custom`, which clears the context of the arbiter.
unfoldable pub finish_handling : Arbiter → Arbiter
finish_handling a = record a { phase = idle; contexts = clear a.contexts }

-- The rounds of `handle_custom` with no signal in between; `raises` says whose clean-up raises.
unfoldable pub clean_all : (ℕ → Bool) → List ℕ → Arbiter → Arbiter
unfolding clean_up finish_handling
clean_all raises [] a = finish_handling a
clean_all raises (pid ∷ dead) a =
    clean_all raises dead (clean_up pid (raises pid) (record a { dead = dead }))

unfoldable pub handle_custom : (ℕ → Bool) → Arbiter → Arbiter
unfolding clean_all
handle_custom raises a = clean_all raises a.dead a

-- One step of the process.
pub data Step : Arbiter → Arbiter → Type 0 where
  exit : (a : Arbiter) (pid : ℕ) → Step a (child_exit pid a)
  signal : (a : Arbiter) (s : String) → Step a (record a { sig_queue = a.sig_queue ++ s ∷ [] })
  start :
      (a : Arbiter) (queue : List String)
      → a.phase ≡ idle
      → a.sig_queue ≡ custom ∷ queue
      → Step a (record a { phase = looping; sig_queue = queue })
  skip :
      (a : Arbiter) (s : String) (queue : List String)
      → a.phase ≡ idle
      → s ≢ custom
      → a.sig_queue ≡ s ∷ queue
      → Step a (record a { sig_queue = queue })
  take :
      (a : Arbiter) (pid : ℕ) (dead : List ℕ)
      → a.phase ≡ looping
      → a.busy ≡ none
      → a.dead ≡ pid ∷ dead
      → Step a (record a { dead = dead; busy = some pid })
  clean :
      (a : Arbiter) (pid : ℕ) (raises : Bool)
      → a.phase ≡ looping
      → a.busy ≡ some pid
      → Step a (clean_up pid raises a)
  leave :
      (a : Arbiter)
      → a.phase ≡ looping
      → a.busy ≡ none
      → a.dead ≡ []
      → Step a (record a { phase = leaving })
  finish : (a : Arbiter) → a.phase ≡ leaving → Step a (finish_handling a)

pub data Reach (a : Arbiter) : Arbiter → Type 0 where
  here : Reach a a
  next : {b c : Arbiter} → Reach a b → Step b c → Reach a c
