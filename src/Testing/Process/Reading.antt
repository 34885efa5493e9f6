-- ===== src/Testing/Process/Reading.antt =====
-- That `ServerProcess.readline` of talisker/testing.py ends in time.
use talisker.Common.{
  ℕ, zero, suc, ◌+◌, ◌-◌, ◌≤◌, ◌<◌, String, true, false, some, [], ◌∷◌, ◌++◌, string_eq, ◌==◌, ltb,
  ◌≡◌, ◌⊎◌, refl, sym, ap, ◌∙◌, arith, Bool-cases, inl, inr,
}
use talisker.Common.Int.{ℤ, pos, ◌-ℤ◌}
use talisker.Context.Stack.{Outcome, returned, raised}
use talisker.Testing.Process.{
  Server, Process, ProcessError, server_process_error, no_line, check, read_line, sleep, read_loop,
  end_line, readline,
}

ltb_sound : (a b : ℕ) → ltb a b ≡ true → a < b
ltb_sound a b h = ground arith

ltb_complete : (a b : ℕ) → ltb a b ≡ false → b ≤ a
ltb_complete a b h = ground arith

module _ (s : Server) where
  -- How the loop ends: with a line, past the timeout, or with a process that has died.
  abbrev LoopEnd : ℕ → ℕ → Process → Outcome String ProcessError → Process → Type 0
  LoopEnd start timeout p (returned line) q =
      (q.output ≡ p.output) × ((line == "") ≡ true → start + timeout ≤ q.now)
  LoopEnd start timeout p (raised e) q =
      (q.output ≡ p.output) × (e ≡ server_process_error) × (check s q ≡ false)

  LoopEnd-output :
      (start timeout : ℕ) (p p' : Process) (r : Outcome String ProcessError) (q : Process)
      → p'.output ≡ p.output
      → LoopEnd start timeout p' r q
      → LoopEnd start timeout p r q
  LoopEnd-output start timeout p p' (returned line) q e h = (h.0 ∙ e, h.1)
  LoopEnd-output start timeout p p' (raised x) q e h = (h.0 ∙ e, h.1, h.2)

  read_loop-LoopEnd :
      (fuel start timeout delay : ℕ) (line : String) (p : Process)
      → 0 < delay
      → start ≤ p.now
      → (start + timeout) - p.now < fuel
      → (r : Outcome String ProcessError × Process) × (read_loop s fuel start timeout delay line p
          ≡ some r)
        × LoopEnd start timeout p r.0 r.1
  unfolding read_loop
  read_loop-LoopEnd zero start timeout delay line p d le h = absurd (omega (arith, h))
  read_loop-LoopEnd (suc fuel) start timeout delay line p d le h =
      elim (Bool-cases (ltb (p.now - start) timeout)) [
        | inr late ↦
            let past = ltb_complete (p.now - start) timeout late in
            ((returned line, p), rw (late) refl, (refl, λ e. omega (arith, past, le)))
        | inl early ↦ elim (Bool-cases (line == "")) [
          | inr nonempty ↦ (
            (returned line, p),
            rw (early, nonempty) refl,
            (refl, λ e. let never : true ≡ false = sym e ∙ nonempty in cc),
          )
          | inl empty ↦ elim (Bool-cases (check s p)) [
            | inr dead ↦
                ((raised server_process_error, p), rw (early, empty, dead) refl, (refl, refl, dead))
            | inl alive ↦
                let q = (read_line s (sleep s delay p)).1 in
                let before = ltb_sound (p.now - start) timeout early in
                let ih =
                  read_loop-LoopEnd fuel start timeout delay (read_line s (sleep s delay p)).0 q d
                    (omega (arith, le)) (omega (arith, h, before, d)) in
                (
                  ih.0,
                  rw (early, empty, alive) ih.1,
                  LoopEnd-output start timeout p q ih.0.0 ih.0.1 refl ih.2,
                )
          ]
        ]
      ]

  -- How a call of `readline` ends.
  abbrev pub ReadEnd : ℕ → Process → Outcome ℤ ProcessError → Process → Type 0
  ReadEnd timeout p (returned left) q =
      (left ≡ pos timeout -ℤ pos (q.now - p.now))
      × ((line : String) × ((line == "") ≡ false) × (q.output ≡ p.output ++ s.rstrip line ∷ []))
  ReadEnd timeout p (raised e) q =
      (q.output ≡ p.output)
      × (((e ≡ no_line) × (p.now + timeout ≤ q.now))
          ⊎ ((e ≡ server_process_error) × (check s q ≡ false)))

  end_line-ReadEnd :
      (timeout : ℕ) (p p' : Process) (r : Outcome String ProcessError) (q : Process)
      → p'.output ≡ p.output
      → LoopEnd p.now timeout p' r q
      → (r' : Outcome ℤ ProcessError × Process) × (end_line s p.now timeout (some (r, q)) ≡ some r')
        × ReadEnd timeout p r'.0 r'.1
  end_line-ReadEnd timeout p p' (raised e) q o h = ((raised e, q), refl, (h.0 ∙ o, inr (h.1, h.2)))
  end_line-ReadEnd timeout p p' (returned line) q o h = elim (Bool-cases (line == "")) [
    | inl empty ↦ ((raised no_line, q), rw (empty) refl, (h.0 ∙ o, inl (refl, h.1 empty)))
    | inr nonempty ↦ (
      (
        returned (pos timeout -ℤ pos (q.now - p.now)),
        record q { output = q.output ++ s.rstrip line ∷ [] },
      ),
      rw (nonempty) refl,
      (refl, (line, nonempty, ap (λ lines. lines ++ s.rstrip line ∷ []) (h.0 ∙ o))),
    )
  ]

  -- With a delay between reads, `readline` ends, whatever the process writes: with one more line of
  -- output, not empty, and what is left of the timeout; or without one, once the timeout has passed or
  -- the process has failed. More fuel than the timeout is enough.
  pub readline-ReadEnd :
      (fuel timeout delay : ℕ) (p : Process)
      → 0 < delay
      → timeout < fuel
      → (r : Outcome ℤ ProcessError × Process) × (readline s fuel timeout delay p ≡ some r)
        × ReadEnd timeout p r.0 r.1
  unfolding readline
  readline-ReadEnd fuel timeout delay p d h =
      let p' = (read_line s p).1 in
      let l =
        read_loop-LoopEnd fuel p.now timeout delay (read_line s p).0 p' d (omega arith)
          (omega (arith, h)) in
      let e = end_line-ReadEnd timeout p p' l.0.0 l.0.1 refl l.2 in
      (e.0, ap (end_line s p.now timeout) l.1 ∙ e.1, e.2)
