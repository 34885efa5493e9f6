-- ===== src/Gunicorn/Arbiter/Steps.antt =====
-- What holds along the steps of talisker/gunicorn.py's handling of dead workers: the queue of workers
-- as signals come in, and that it can be emptied.
use talisker.Common.{
  ℕ, ◌⊎◌, ◌||◌, String, Bool, true, false, Option, none, some, List, [], ◌∷◌, ◌++◌, ◌≡◌, ◌≢◌, refl,
  sym, ap, ◌∙◌, arith, string_eq, if◌then◌else◌, Bool-cases, inl, inr, append-nil, append_assoc,
}
use talisker.Gunicorn.Arbiter.{
  Arbiter, custom, has_signal, child_exit, clean_up, finish_handling, Step, exit, signal, start,
  skip, take, clean, leave, finish, Phase, idle, looping, leaving, Reach, here, next,
}

abbrev pub to_list {ℓ} : {A : Type ℓ} → Option A → List A
to_list none = []
to_list (some x) = x ∷ []

-- Every worker that has exited, in the order of its exit: those cleaned up, that being cleaned up, and
-- those in the queue.
abbrev pub all_dead : Arbiter → List ℕ
all_dead a = a.cleaned ++ (to_list a.busy ++ a.dead)

-- The workers that exit in a step, and in a run.
unfoldable pub exits : {a b : Arbiter} → Step a b → List ℕ
exits (exit a pid) = pid ∷ []
exits (signal a s) = []
exits (start a queue off e) = []
exits (skip a s queue off ne e) = []
exits (take a pid dead on free e) = []
exits (clean a pid raises on e) = []
exits (leave a on free e) = []
exits (finish a on) = []

unfoldable pub exits_of : {a b : Arbiter} → Reach a b → List ℕ
unfolding exits
exits_of here = []
exits_of (next r s) = exits_of r ++ exits s

append_last :
    (xs ys zs : List ℕ) (x : ℕ) → xs ++ (ys ++ (zs ++ x ∷ [])) ≡ xs ++ (ys ++ zs) ++ x ∷ []
append_last xs ys zs x =
    ap (λ l. xs ++ l) (sym (append_assoc ys zs (x ∷ [])))
    ∙ sym (append_assoc xs (ys ++ zs) (x ∷ []))

pub all_dead-parts :
    (a : Arbiter) (busy : Option ℕ) (dead : List ℕ)
    → a.busy ≡ busy
    → a.dead ≡ dead
    → all_dead a ≡ a.cleaned ++ (to_list busy ++ dead)
all_dead-parts a busy dead f e =
    ap (λ o. a.cleaned ++ (to_list o ++ a.dead)) f ∙ ap (λ l. a.cleaned ++ (to_list busy ++ l)) e

-- No step but an exit changes the workers that have exited, or their order.
step-all_dead : {a b : Arbiter} (s : Step a b) → all_dead b ≡ all_dead a ++ exits s
unfolding exits child_exit clean_up finish_handling
step-all_dead (exit a pid) = append_last a.cleaned (to_list a.busy) a.dead pid
step-all_dead (signal a s) = sym (append-nil (all_dead a))
step-all_dead (start a queue off e) = sym (append-nil (all_dead a))
step-all_dead (skip a s queue off ne e) = sym (append-nil (all_dead a))
step-all_dead (take a pid dead on free e) =
    sym (all_dead-parts a none (pid ∷ dead) free e) ∙ sym (append-nil (all_dead a))
step-all_dead (clean a pid raises on e) =
    append_assoc a.cleaned (pid ∷ []) a.dead
    ∙ sym (all_dead-parts a (some pid) a.dead e refl)
    ∙ sym (append-nil (all_dead a))
step-all_dead (leave a on free e) = sym (append-nil (all_dead a))
step-all_dead (finish a on) = sym (append-nil (all_dead a))

-- However the exits of workers fall between the steps of the arbiter, the workers cleaned up, the one
-- being cleaned up and those in the queue are, in this order, the workers that there were before and
-- those that have exited since: none is lost, cleaned up twice, or passed over.
pub reach-all_dead : {a b : Arbiter} (r : Reach a b) → all_dead b ≡ all_dead a ++ exits_of r
unfolding exits_of
reach-all_dead {a = a} here = sym (append-nil (all_dead a))
reach-all_dead {a = a} (next r s) =
    step-all_dead s
    ∙ ap (λ l. l ++ exits s) (reach-all_dead r)
    ∙ append_assoc (all_dead a) (exits_of r) (exits s)

-- While workers are in the queue, the loop of `handle_custom` will see them or its signal is queued, and a
-- worker is being cleaned up only inside the loop.
pub record IsAwake (a : Arbiter) : Type 0 where
  pub wakes : (a.dead ≡ []) ⊎ ((a.phase ≡ looping) ⊎ (has_signal custom a.sig_queue ≡ true))
  pub free : (a.busy ≡ none) ⊎ (a.phase ≡ looping)

has_signal-append :
    (s : String) (xs ys : List String)
    → has_signal s (xs ++ ys) ≡ (has_signal s xs || has_signal s ys)
has_signal-append s [] ys = refl
has_signal-append s (x ∷ xs) ys = rw (has_signal-append s xs ys) (ground arith)

has_signal-exit :
    (q : List String)
    → has_signal custom (if has_signal custom q then q else q ++ custom ∷ []) ≡ true
has_signal-exit q = elim (Bool-cases (has_signal custom q)) [
  | inl e ↦ rw (e) e
  | inr e ↦ rw (e) (rw (has_signal-append custom q (custom ∷ [])) (rw (e) refl))
]

-- A queued signal of a child's exit stays queued when another signal is appended.
has_signal-signal :
    (q : List String) (s : String)
    → has_signal custom q ≡ true
    → has_signal custom (q ++ s ∷ []) ≡ true
has_signal-signal q s e = rw (has_signal-append custom q (s ∷ []), e) refl

has_signal-skip :
    (q queue : List String) (s : String)
    → s ≢ custom
    → q ≡ s ∷ queue
    → has_signal custom q ≡ true
    → has_signal custom queue ≡ true
has_signal-skip q queue s ne e h =
    let h' : has_signal custom (s ∷ queue) ≡ true = sym (ap (has_signal custom) e) ∙ h in
    ground (arith, string_eq.beq_iff s custom, h', ne)

wakes-signal :
    (a : Arbiter) (s : String)
    → IsAwake a
    → (a.dead ≡ []) ⊎ ((a.phase ≡ looping) ⊎ (has_signal custom (a.sig_queue ++ s ∷ []) ≡ true))
wakes-signal a s ok = elim ok.wakes [
  | inl e ↦ inl e
  | inr (inl e) ↦ inr (inl e)
  | inr (inr e) ↦ inr (inr (has_signal-signal a.sig_queue s e))
]

wakes-skip :
    (a : Arbiter) (s : String) (queue : List String)
    → s ≢ custom
    → a.sig_queue ≡ s ∷ queue
    → IsAwake a
    → (a.dead ≡ []) ⊎ ((a.phase ≡ looping) ⊎ (has_signal custom queue ≡ true))
wakes-skip a s queue ne e ok = elim ok.wakes [
  | inl d ↦ inl d
  | inr (inl on) ↦ inr (inl on)
  | inr (inr h) ↦ inr (inr (has_signal-skip a.sig_queue queue s ne e h))
]

abbrev is_looping : Phase → Bool
is_looping looping = true
is_looping _ = false

looping_not_leaving : looping ≢ leaving
looping_not_leaving e = let e' : true ≡ false = ap is_looping e in ground (arith, e')

pub looping_not_idle : looping ≢ idle
looping_not_idle e = let e' : true ≡ false = ap is_looping e in ground (arith, e')

-- Outside the loop no worker is being cleaned up.
pub free_when : (a : Arbiter) (p : Phase) → a.phase ≡ p → p ≢ looping → IsAwake a → a.busy ≡ none
free_when a p e ne ok = elim ok.free [ inl free ↦ free | inr on ↦ absurd (ne (sym e ∙ on)) ]

step-IsAwake : {a b : Arbiter} → Step a b → IsAwake a → IsAwake b
unfolding child_exit clean_up finish_handling
step-IsAwake (exit a pid) ok = record {
  wakes = inr (inr (has_signal-exit a.sig_queue));
  free = ok.free;
}
step-IsAwake (signal a s) ok = record { wakes = wakes-signal a s ok; free = ok.free }
step-IsAwake (start a queue off e) ok = record { wakes = inr (inl refl); free = inr refl }
step-IsAwake (skip a s queue off ne e) ok = record {
  wakes = wakes-skip a s queue ne e ok;
  free = ok.free;
}
step-IsAwake (take a pid dead on free e) ok = record { wakes = inr (inl on); free = inr on }
step-IsAwake (clean a pid raises on e) ok = record { wakes = inr (inl on); free = inl refl }
step-IsAwake (leave a on free e) ok = record { wakes = inl e; free = inl free }
step-IsAwake (finish a on) ok = record {
  wakes = elim ok.wakes [
    | inl e ↦ inl e
    | inr (inl e) ↦ absurd (looping_not_leaving (sym e ∙ on))
    | inr (inr h) ↦ inr (inr h)
  ];
  free = inl (free_when a leaving on (λ e. looping_not_leaving (sym e)) ok);
}

-- A state in which dead workers would be noticed stays one, whatever steps follow: a worker that
-- exits while `handle_custom` runs, or just after its last look at the queue, is not left behind.
pub reach-IsAwake : {a b : Arbiter} → Reach a b → IsAwake a → IsAwake b
reach-IsAwake here ok = ok
reach-IsAwake (next r s) ok = step-IsAwake s (reach-IsAwake r ok)
