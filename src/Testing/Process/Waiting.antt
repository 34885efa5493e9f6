-- ===== src/Testing/Process/Waiting.antt =====
-- What `ServerProcess.wait_for_output` of talisker/testing.py waits for.
use talisker.Common.{
  ℕ, zero, suc, ◌+◌, ◌<◌, String, Bool, true, false, Option, some, List, [], ◌∷◌, ◌++◌, ◌==◌, ◌&&◌,
  ltb, ◌-◌, string_eq, ◌≡◌, refl, ap, ◌∙◌, arith, Bool-cases, inl, inr,
}
use talisker.Common.Int.{ℤ, pos, ◌-ℤ◌}
use talisker.Context.Stack.{Outcome, returned}
use talisker.Testing.Process.{
  Server, Process, ProcessError, read_loop, readline, any_contains, last_contains, wait_loop,
  first_line, then_wait, wait_for_output,
}

module _ (s : Server) (target : String) where
  any_contains-last :
      (lines : List String)
      → last_contains s target lines ≡ true
      → any_contains s target lines ≡ true
  any_contains-last [] h = h
  any_contains-last (line ∷ []) h = rw (h) refl
  any_contains-last (line ∷ next ∷ lines) h = elim (Bool-cases (s.contains target line)) [
    | inl e ↦ rw (e) refl
    | inr e ↦ rw (e) (any_contains-last (next ∷ lines) h)
  ]

  last_contains-append :
      (lines : List String) (line : String)
      → last_contains s target (lines ++ line ∷ []) ≡ s.contains target line
  last_contains-append [] line = refl
  last_contains-append (l ∷ []) line = refl
  last_contains-append (l ∷ next ∷ lines) line = last_contains-append (next ∷ lines) line

  -- The process after one line.
  abbrev after_line : Process → Process
  after_line p = record p {
    now = p.now + s.took p.reads;
    reads = suc p.reads;
    output = p.output ++ s.rstrip (s.read p.reads) ∷ [];
  }

  ltb_false : (b : Bool) → b && false ≡ false
  ltb_false b = ground arith

  readline-after_line :
      (fuel timeout delay : ℕ) (p : Process)
      → (s.read p.reads == "") ≡ false
      → (left : ℤ) × (readline s (suc fuel) timeout delay p ≡ some (returned left, after_line p))
  unfolding readline read_loop
  readline-after_line fuel timeout delay p h = (
    pos timeout -ℤ pos ((p.now + s.took p.reads) - p.now),
    rw (h, ltb_false (ltb ((p.now + s.took p.reads) - p.now) timeout), h) refl,
  )

  -- How a wait ends that finds its target.
  abbrev pub Found : Option (Outcome (Unit {0}) ProcessError × Process) → Type 0
  Found r = (q : Process) × (r ≡ some (returned tt, q)) × (any_contains s target q.output ≡ true)

  module _ (fuel timeout delay : ℕ) (nonempty : (n : ℕ) → (s.read n == "") ≡ false) where
    wait_loop-last :
        (rounds : ℕ) (p : Process)
        → 0 < rounds
        → last_contains s target p.output ≡ true
        → Found (wait_loop s rounds (suc fuel) target timeout delay p)
    unfolding wait_loop
    wait_loop-last zero p h e = absurd (omega (arith, h))
    wait_loop-last (suc rounds) p h e = (p, rw (e) refl, any_contains-last p.output e)

    -- One more round, after which the target is found.
    wait_loop-next :
        (rounds : ℕ) (p : Process)
        → 0 < rounds
        → Found (wait_loop s rounds (suc fuel) target timeout delay (after_line p))
        → Found (wait_loop s (suc rounds) (suc fuel) target timeout delay p)
    unfolding wait_loop
    wait_loop-next rounds p h found = elim (Bool-cases (last_contains s target p.output)) [
      | inl e ↦ (p, rw (e) refl, any_contains-last p.output e)
      | inr e ↦
          let r = readline-after_line fuel timeout delay p (nonempty p.reads) in
          (found.0, rw (e, r.1) found.1, found.2)
    ]

    -- After a line, with the target `k` lines later.
    wait_loop-after :
        (k rounds : ℕ) (p : Process)
        → k < rounds
        → s.contains target (s.rstrip (s.read (p.reads + k))) ≡ true
        → Found (wait_loop s rounds (suc fuel) target timeout delay (after_line p))
    wait_loop-after k zero p h c = absurd (omega (arith, h))
    wait_loop-after zero (suc rounds) p h c = wait_loop-last (suc rounds) (after_line p) h (
        last_contains-append p.output (s.rstrip (s.read p.reads))
        ∙ ap (λ n. s.contains target (s.rstrip (s.read n))) (omega arith)
        ∙ c)
    wait_loop-after (suc k) (suc rounds) p h c =
        wait_loop-next rounds (after_line p) (omega (arith, h)) (
          wait_loop-after k rounds (after_line p) (omega (arith, h))
            (ap (λ n. s.contains target (s.rstrip (s.read n))) (omega arith) ∙ c))

    then_wait-Found :
        (rounds : ℕ) (p : Process)
        → Found (wait_loop s rounds (suc fuel) target timeout delay p)
        → Found (then_wait s rounds (suc fuel) target timeout delay (some (returned tt, p)))
    then_wait-Found rounds p found = elim (Bool-cases (any_contains s target p.output)) [
      | inl e ↦ (p, rw (e) refl, e)
      | inr e ↦ (found.0, rw (e) found.1, found.2)
    ]

    first_line-Found :
        (lines : List String) (rounds : ℕ) (p : Process)
        → Found (wait_loop s rounds (suc fuel) target timeout delay p)
        → Found (wait_loop s rounds (suc fuel) target timeout delay (after_line p))
        → Found (
            then_wait s rounds
              (suc fuel)
              target
              timeout
              delay
              (first_line s lines (suc fuel) timeout delay p))
    first_line-Found (line ∷ lines) rounds p found later = then_wait-Found rounds p found
    first_line-Found [] rounds p found later =
        let r = readline-after_line fuel timeout delay p (nonempty p.reads) in
        let w = then_wait-Found rounds (after_line p) later in (w.0, rw (r.1) w.1, w.2)

    -- A process that keeps writing lines, and writes one with the target, is waited for until the
    -- target is in its output: the wait returns. Two rounds more than the lines before that line are
    -- enough.
    pub wait_for_output-Found :
        (k rounds : ℕ) (p : Process)
        → k + 1 < rounds
        → s.contains target (s.rstrip (s.read (p.reads + k))) ≡ true
        → Found (wait_for_output s rounds (suc fuel) target timeout delay p)
    unfolding wait_for_output
    wait_for_output-Found k zero p h c = absurd (omega (arith, h))
    wait_for_output-Found k (suc rounds) p h c =
        first_line-Found p.output (suc rounds) p
          (wait_loop-next rounds p (omega (arith, h))
            (wait_loop-after k rounds p (omega (arith, h)) c))
          (wait_loop-after k (suc rounds) p (omega (arith, h)) c)
