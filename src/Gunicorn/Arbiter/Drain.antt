-- ===== src/Gunicorn/Arbiter/Drain.antt =====
-- That the dead workers of talisker/gunicorn.py are cleaned up in the end: a run that empties the
-- queue, and the bound on the arbiter's own steps.
use talisker.Common.{
  ◌+◌, ◌-◌, ◌*◌, ◌≤◌, ℕ, String, Bool, true, Option, none, some, List, [], ◌∷◌, ◌++◌, ◌≡◌, refl,
  sym, ap, ◌∙◌, arith, string_eq, ◌==◌, if◌then◌else◌, Bool-cases, inl, inr, append-nil, ne_of_beq,
}
use talisker.Common.Lists.{length, length-append}
use talisker.Gunicorn.Arbiter.{
  Arbiter, custom, has_signal, child_exit, clean_up, finish_handling, clean_all, handle_custom,
  Step, exit, signal, start, skip, take, clean, leave, finish, Phase, idle, looping, leaving, Reach,
  here, next,
}
use talisker.Gunicorn.Arbiter.Steps.{
  to_list, all_dead, exits_of, all_dead-parts, reach-all_dead, IsAwake, reach-IsAwake, free_when,
  looping_not_idle,
}

reach_trans : {a b c : Arbiter} → Reach a b → Reach b c → Reach a c
reach_trans r here = r
reach_trans r (next q s) = next (reach_trans r q) s

-- A step of the arbiter itself counts 1, the exit of a worker and another signal count 0.
unfoldable pub own : {a b : Arbiter} → Step a b → ℕ
own (exit a pid) = 0
own (signal a s) = 0
own (start a queue off e) = 1
own (skip a s queue off ne e) = 1
own (take a pid dead on free e) = 1
own (clean a pid raises on e) = 1
own (leave a on free e) = 1
own (finish a on) = 1

-- The arbiter has no step of its own left: only an exit or another signal can come.
abbrev pub IsAtRest : Arbiter → Type 0
IsAtRest a = (b : Arbiter) (s : Step a b) → own s ≡ 0

own-idle : {a b : Arbiter} (s : Step a b) → a.phase ≡ idle → a.sig_queue ≡ [] → own s ≡ 0
unfolding own
own-idle (exit a pid) off e = refl
own-idle (signal a s) off e = refl
own-idle (start a queue off' e') off e = cc
own-idle (skip a s queue off' ne e') off e = cc
own-idle (take a pid dead on free e') off e = absurd (looping_not_idle (sym on ∙ off))
own-idle (clean a pid raises on e') off e = absurd (looping_not_idle (sym on ∙ off))
own-idle (leave a on free e') off e = absurd (looping_not_idle (sym on ∙ off))
own-idle (finish a on) off e = cc

no_own_step : {A : Type 0} → ◌≡◌ {A = ℕ} 1 0 → A
no_own_step h = absurd (omega (arith, h))

rest_queue :
    (queue : List String) (a : Arbiter)
    → IsAtRest a
    → a.phase ≡ idle
    → a.sig_queue ≡ queue
    → queue ≡ []
unfolding own
rest_queue [] a rest off e = refl
rest_queue (s ∷ queue) a rest off e = elim (Bool-cases (s == custom)) [
  | inl same ↦
      let e' : a.sig_queue ≡ custom ∷ queue =
        e ∙ ap (λ t. t ∷ queue) ((string_eq.beq_iff s custom).0 same) in
      no_own_step (rest _ (start a queue off e'))
  | inr other ↦ no_own_step (rest _ (skip a s queue off (ne_of_beq s custom other) e))
]

-- At rest the main loop is out of `handle_custom`.
rest_phase :
    (p : Phase) (busy : Option ℕ) (dead : List ℕ) (a : Arbiter)
    → IsAtRest a
    → a.phase ≡ p
    → a.busy ≡ busy
    → a.dead ≡ dead
    → a.phase ≡ idle
unfolding own
rest_phase idle busy dead a rest on f e = on
rest_phase looping (some pid) dead a rest on f e = no_own_step (rest _ (clean a pid true on f))
rest_phase looping none [] a rest on f e = no_own_step (rest _ (leave a on f e))
rest_phase looping none (pid ∷ dead) a rest on f e = no_own_step (rest _ (take a pid dead on f e))
rest_phase leaving busy dead a rest on f e = no_own_step (rest _ (finish a on))

rest_dead : (a : Arbiter) → IsAtRest a → IsAwake a → a.phase ≡ idle → a.dead ≡ []
rest_dead a rest ok off = elim ok.wakes [
  | inl e ↦ e
  | inr (inl on) ↦ absurd (looping_not_idle (sym on ∙ off))
  | inr (inr h) ↦
      let none_left = rest_queue a.sig_queue a rest off refl in
      let h' : has_signal custom [] ≡ true = sym (ap (has_signal custom) none_left) ∙ h in
      absurd (ground (arith, h'))
]

-- Out of `handle_custom`, with no signal queued, the arbiter is at rest.
pub idle-IsAtRest : (a : Arbiter) → a.phase ≡ idle → a.sig_queue ≡ [] → IsAtRest a
idle-IsAtRest a off e b s = own-idle s off e

-- Before any worker has exited.
pub record Fresh (a : Arbiter) : Type 0 where
  pub dead : a.dead ≡ []
  pub busy : a.busy ≡ none
  pub cleaned : a.cleaned ≡ []

Fresh-IsAwake : (a : Arbiter) → Fresh a → IsAwake a
Fresh-IsAwake a f = record { wakes = inl f.dead; free = inl f.busy }

-- However the exits of workers and other signals have come between the arbiter's steps since no
-- worker had exited, and whichever clean-ups have raised: once the arbiter has no step of its own
-- left, `handle_custom` has returned, no worker is in the queue, and the clean-up of every worker
-- that has exited has been run, in the order of the exits.
pub reach-AtRest :
    {a b : Arbiter} (r : Reach a b)
    → Fresh a
    → IsAtRest b
    → (b.phase ≡ idle) × (b.dead ≡ []) × (b.cleaned ≡ exits_of r)
reach-AtRest {a = a} {b = b} r fresh rest =
    let ok = reach-IsAwake r (Fresh-IsAwake a fresh) in
    let off = rest_phase b.phase b.busy b.dead b rest refl refl refl in
    let empty = rest_dead b rest ok off in
    let free = free_when b idle off (λ e. looping_not_idle (sym e)) ok in
    let none_before : all_dead a ≡ [] =
      all_dead-parts a none [] fresh.busy fresh.dead ∙ append-nil a.cleaned ∙ fresh.cleaned in
    (
      off,
      empty,
      sym (append-nil b.cleaned)
          ∙ sym (all_dead-parts b none [] free empty)
          ∙ reach-all_dead r
          ∙ ap (λ l. l ++ exits_of r) none_before,
    )

-- Without a signal in between, the loop of `handle_custom` is a run of these steps.
clean_all-Reach :
    (raises : ℕ → Bool) (dead : List ℕ) (a : Arbiter)
    → a.phase ≡ looping
    → a.busy ≡ none
    → a.dead ≡ dead
    → Reach a (clean_all raises dead a)
unfolding clean_all clean_up finish_handling
clean_all-Reach raises [] a on free e =
    next (next here (leave a on free e)) (finish (record a { phase = leaving }) refl)
clean_all-Reach raises (pid ∷ dead) a on free e =
    let b : Arbiter = record a { dead = dead; busy = some pid } in
    reach_trans (next (next here (take a pid dead on free e)) (clean b pid (raises pid) on refl))
      (clean_all-Reach raises dead (clean_up pid (raises pid) b) on refl refl)

pub handle_custom-Reach :
    (raises : ℕ → Bool) (a : Arbiter)
    → a.phase ≡ looping
    → a.busy ≡ none
    → Reach a (handle_custom raises a)
unfolding handle_custom
handle_custom-Reach raises a on free = clean_all-Reach raises a.dead a on free refl

-- What the arbiter has left to do.
abbrev pub phase_weight : Phase → ℕ
phase_weight idle = 0
phase_weight looping = 2
phase_weight leaving = 1

abbrev pub work : Arbiter → ℕ
work a = 3 * length a.sig_queue + 2 * length a.dead + length (to_list a.busy) + phase_weight a.phase

unfoldable pub own_steps : {a b : Arbiter} → Reach a b → ℕ
unfolding own
own_steps here = 0
own_steps (next r s) = own_steps r + own s

-- The other steps, from outside.
unfoldable pub outside_steps : {a b : Arbiter} → Reach a b → ℕ
unfolding own
outside_steps here = 0
outside_steps (next r s) = outside_steps r + (1 - own s)

length-notified :
    (q : List String) → length (if has_signal custom q then q else q ++ custom ∷ []) ≤ length q + 1
length-notified q = elim (Bool-cases (has_signal custom q)) [
  | inl e ↦ rw (e) (omega arith)
  | inr e ↦ rw (e, length-append q (custom ∷ [])) (omega arith)
]

step-work : {a b : Arbiter} (s : Step a b) → own s + work b ≤ work a + 5 * (1 - own s)
unfolding own child_exit clean_up finish_handling
step-work (exit a pid) = omega (arith, length-append a.dead (pid ∷ []), length-notified a.sig_queue)
step-work (signal a s) = omega (arith, length-append a.sig_queue (s ∷ []))
step-work (start a queue off e) = rw (off, e) (omega arith)
step-work (skip a s queue off ne e) = rw (e) (omega arith)
step-work (take a pid dead on free e) = rw (free, e) (omega arith)
step-work (clean a pid raises on e) = rw (e) (omega arith)
step-work (leave a on free e) = rw (on) (omega arith)
step-work (finish a on) = rw (on) (omega arith)

-- In every run, whatever comes between its steps, the arbiter takes at most as many steps as it had left
-- to do, and five more for each exit or signal: the handling of dead workers ends when these do.
pub own_steps-bound :
    {a b : Arbiter} (r : Reach a b) → own_steps r + work b ≤ work a + 5 * outside_steps r
unfolding own_steps outside_steps
own_steps-bound here = omega arith
own_steps-bound (next r s) = let ih = own_steps-bound r in let st = step-work s in ground arith
