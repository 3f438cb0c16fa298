-- ===== src/Worker/Execute.antt =====
-- What a worker does to the job that it has picked, from the label `_got_a_job` of
-- `worker_routine` in src/worker.c on.
use schedi.Prelude.{ℕ, ◌+◌, ◌%◌, ◌≡◌, refl, sym, ◌∙◌, ap, Bool, true, false, not, ◌&&◌, ◌==◌, arith}
use schedi.Prelude.Int.{ℤ, pos}
use mathlib.Core.Path.{subst}
use schedi.Atomic.{atomic}
use schedi.Meta.{mark_executing, unmark_executing, unmark_access}
use schedi.Meta.Flags.{Flags, flags}
use schedi.Meta.Marks.{Does, mark_executing_lem, unmark_executing_lem}
use schedi.Meta.Access.{unmark_access_lem}
use schedi.Jobs.{working, suspended, System, modify, set_state, mark}
use schedi.Jobs.Destroy.{mark_failed}
use schedi.Jobs.Words.{word, flags-mark, succeeds}
use schedi.Worker.{Process, finish, execute}

module _ (unlock_error : ℕ) (address : ℕ → ℕ) (call : ℕ → ℕ → System → System)
    (run : (function job : ℕ) → System → ℤ × System) where
  -- A worker that has picked a job which is EXECUTING or UNSTABLE does not run it: it writes its
  -- state alone, and the access that `schedi_job_pickready` holds is never given back.
  pub execute-busy :
      (i : ℕ) (p : Process)
      → let f = flags (word i p.system) in
        (not f.unstable && not f.executing) ≡ false
        → execute unlock_error address call run i p
          ≡ record p { system = modify (set_state working) i p.system }
  unfolding execute
  execute-busy i p busy =
      let s = modify (set_state working) i p.system in
      let same : word i s ≡ word i p.system = ground arith in
      let d =
        subst
          (λ b.
            Does b (record (flags (word i s)) { executing = true }) (word i s)
              (atomic mark_executing (word i s)))
          (ap (λ (w : ℕ). not (flags w).unstable && not (flags w).executing) same ∙ busy)
          (mark_executing_lem (word i s)) in
      let failed : not ((atomic mark_executing (word i s)).0 == 0) ≡ true = ground (arith, d.0) in
      rw failed (
        ap (λ (t : System). record p { system = t })
          (mark_failed i s (atomic mark_executing (word i s)) d.1))

  -- The system as a job finds it when a worker calls its function.
  abbrev pub at_call : ℕ → System → System
  at_call i s = (mark unmark_access i (mark mark_executing i (modify (set_state working) i s)).1).1

  -- What the call of its function does and returns.
  abbrev pub ran : ℕ → System → ℤ × System
  ran i s = run (s.jobs i).run i (at_call i s)

  -- The system after it, at the end of the execution.
  abbrev pub suspends : ℕ → System → System
  suspends i s = (mark unmark_executing i (modify (set_state suspended) i s)).1

  -- A worker that has picked a job which is neither EXECUTING nor UNSTABLE calls its function, while
  -- it is in the state working, EXECUTING and with one access less, and goes on with what it returns.
  pub execute-runs :
      (i : ℕ) (p : Process)
      → let f = flags (word i p.system) in
        (not f.unstable && not f.executing) ≡ true
        → (((at_call i p.system).jobs i).state ≡ working)
          × (flags (word i (at_call i p.system))
              ≡ record f { executing = true; access = (f.access + 15) % 16 })
          × (execute unlock_error address call run i p
              ≡ finish unlock_error address call run
                  (ran i p.system).0
                  i
                  (record p { system = suspends i (ran i p.system).1 }))
  unfolding execute
  execute-runs i p free =
      let s₀ = modify (set_state working) i p.system in
      let s₁ = (mark mark_executing i s₀).1 in
      let s₂ = (mark unmark_access i s₁).1 in
      let same : word i s₀ ≡ word i p.system = ground arith in
      let f = flags (word i p.system) in
      let stable : (not f.unstable) ≡ true = ground arith in
      let d =
        subst
          (λ b.
            Does b (record (flags (word i s₀)) { executing = true }) (word i s₀)
              (atomic mark_executing (word i s₀)))
          (ap (λ (w : ℕ). not (flags w).unstable && not (flags w).executing) same ∙ free)
          (mark_executing_lem (word i s₀)) in
      let e₁ : flags (word i s₁) ≡ record f { executing = true } =
        flags-mark mark_executing i s₀ d
        ∙ ap (λ (w : ℕ). record (flags w) { executing = true }) same in
      let e₂ : flags (word i s₂) ≡ record f { executing = true; access = (f.access + 15) % 16 } =
        flags-mark unmark_access i s₁ (
          succeeds unmark_access (word i s₁) _ _ (ap (λ (g : Flags). not g.unstable) e₁ ∙ stable)
            (unmark_access_lem (word i s₁)))
        ∙ ap (λ (g : Flags). record g { access = (g.access + 15) % 16 }) e₁ in
      let went : not ((atomic mark_executing (word i s₀)).0 == 0) ≡ false = ground (arith, d.0) in
      let own : (s₁.jobs i).run ≡ (p.system.jobs i).run = ground arith in
      (
        ground arith,
        e₂,
        rw went (
            ap
              (λ (g : ℕ).
                let out = run g i s₂ in
                finish unlock_error address call run out.0 i
                  (record p { system = suspends i out.1 }))
              own),
      )

  -- A worker that has picked a job which is neither EXECUTING nor UNSTABLE calls its function while
  -- it is EXECUTING. Where that leaves the word of the job alone and returns neither 1 nor a negative
  -- number, the system is as the function left it but for the job, which is then suspended, not
  -- EXECUTING, with one access less, and no other flag or count has changed.
  pub execute-suspends :
      (i r : ℕ) (p : Process)
      → let f = flags (word i p.system) in
        let out = run (p.system.jobs i).run i (at_call i p.system) in
        (not f.unstable && not f.executing) ≡ true
        → out.0 ≡ pos r
        → (r == 1) ≡ false
        → word i out.1 ≡ word i (at_call i p.system)
        → let s' = (execute unlock_error address call run i p).system in
          ((flags (word i (at_call i p.system))).executing ≡ true)
          × (s' ≡ suspends i out.1)
          × ((s'.jobs i).state ≡ suspended)
          × (flags (word i s') ≡ record f { access = (f.access + 15) % 16 })
  unfolding finish
  execute-suspends i r p free returns other kept =
      let (at_work, e₂, runs) = execute-runs i p free in
      let f = flags (word i p.system) in
      let out = ran i p.system in
      let s₄ = modify (set_state suspended) i out.1 in
      let at_end : word i s₄ ≡ word i out.1 = ground arith in
      let stable : (not f.unstable) ≡ true = ground arith in
      let idle : f.executing ≡ false = ground arith in
      let e₄ : flags (word i s₄) ≡ record f { executing = true; access = (f.access + 15) % 16 } =
        ap flags (at_end ∙ kept) ∙ e₂ in
      let e₅ : flags (word i (mark unmark_executing i s₄).1)
          ≡ record f { executing = false; access = (f.access + 15) % 16 } =
        flags-mark unmark_executing i s₄ (
          succeeds unmark_executing (word i s₄) _ _ (ap (λ (g : Flags). not g.unstable) e₄ ∙ stable)
            (unmark_executing_lem (word i s₄)))
        ∙ ap (λ (g : Flags). record g { executing = false }) e₄ in
      let done : (execute unlock_error address call run i p).system ≡ suspends i out.1 =
        ap (λ (q : Process). q.system) runs ∙ rw (returns, other) refl in
      (
        ap (λ (g : Flags). g.executing) e₂,
        done,
        ap (λ (s : System). (s.jobs i).state) done ∙ ground arith,
        ap (λ (s : System). flags (word i s)) done
            ∙ e₅
            ∙ ap (λ (b : Bool). record f { executing = b; access = (f.access + 15) % 16 })
                (sym idle),
      )
