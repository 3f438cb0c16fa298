-- ===== src/Worker/Runs.antt =====
-- From `schedi_job_setready` to the worker that runs the job (src/worker.c, src/jobs.c).
use schedi.Prelude.{
  ℕ, suc, ◌+◌, ◌%◌, ◌≡◌, ◌∙◌, ap, true, false, not, ◌&&◌, arith, ◌==◌, Option, none, some,
}
use schedi.Prelude.Int.{ℤ}
use schedi.Meta.Flags.{Flags, flags}
use schedi.Cache.Slots.{occupied}
use schedi.Cache.Inv.{IsCache}
use schedi.Jobs.{System, working, setready, pickready}
use schedi.Jobs.Words.{word}
use schedi.Jobs.Ready.{markable}
use schedi.Jobs.Picked.{setready-then-pick}
use schedi.Worker.Execute.{at_call, suspends, execute-runs}
use schedi.Meta.Access.{access-lt}
use schedi.Worker.{Process, Round, execute, finish, tidy, picked_first, round}

module _ (unlock_error : ℕ) (address : ℕ → ℕ) (call : ℕ → ℕ → System → System)
    (run : (function job : ℕ) → System → ℤ × System) where
  first_runs :
      (fuel i : ℕ) (r : Round) (p : Process) (out : Option (Option ℕ) × System)
      → out.0 ≡ some (some i)
      → picked_first unlock_error address call run fuel r out p
        ≡ some (
          true,
          tidy unlock_error address call run
              (execute unlock_error address call run i (record p { system = out.1 })),
        )
  unfolding picked_first
  first_runs fuel i r p (none, s) e = cc
  first_runs fuel i r p (some none, s) e = cc
  first_runs fuel i r p (some (some j), s) e =
      ap
        (λ (k : ℕ). some (
          true,
          tidy unlock_error address call run
              (execute unlock_error address call run k (record p { system = s })),
        ))
        (ap job_of e)
    where
      job_of : Option (Option ℕ) → ℕ
      job_of (some (some k)) = k
      job_of o = i

  -- After `schedi_job_setready` of a job that can be marked and accessed and is not EXECUTING, while
  -- no other is ready, the next round of a worker that is not shut down calls the function of that
  -- job, which is then in the state working, EXECUTING and neither READY nor READYBASIC, and goes on
  -- with what it returns; the access of the worker has been given back.
  pub setready-then-run :
      (fuel i : ℕ) (r : Round) (p : Process)
      → IsCache p.system.cache
      → occupied p.system.cache.slots ≡ 0
      → markable (flags (word i p.system)) ≡ true
      → ((flags (word i p.system)).access == 15) ≡ false
      → (flags (word i p.system)).executing ≡ false
      → r.shutdown ≡ false
      → let f = flags (word i p.system) in
        let ready = record p { system = (setready 0 i p.system).1 } in
        (s' : System) × (let out = run (p.system.jobs i).run i s' in
          round unlock_error address call run (suc fuel) r ready
          ≡ some (
            true,
            tidy unlock_error address call run (
                finish unlock_error address call run out.0 i
                  (record p { system = suspends unlock_error address call run i out.1 })),
          ))
        × ((s'.jobs i).state ≡ working)
        × (flags (word i s') ≡ record f { ready = false; readybasic = false; executing = true })
  unfolding round
  setready-then-run fuel i r p v no_jobs free room still on =
      let out = pickready (suc fuel) (setready 0 i p.system).1 in
      let s₁ = out.1 in
      let f = flags (word i p.system) in
      let (returned, picks, held, own) = setready-then-pick fuel i p.system v no_jobs free room in
      let able : (λ (g : Flags). not g.unstable && not g.executing) (flags (word i s₁)) ≡ true =
        ap (λ (g : Flags). not g.unstable && not g.executing) held ∙ ground arith in
      let (at_work, called, runs) =
        execute-runs unlock_error address call run i (record p { system = s₁ }) able in
      let back : (f.access + 1 + 15) % 16 ≡ f.access = omega (arith, access-lt (word i p.system)) in
      let s' = at_call unlock_error address call run i s₁ in
      (
        s',
        rw on (
              first_runs (suc fuel) i r (record p { system = (setready 0 i p.system).1 }) out picks)
            ∙ ap (λ (q : Process). some (true, tidy unlock_error address call run q)) runs
            ∙ ap
                (λ (g : ℕ).
                  let ret = run g i s' in
                  some (
                    true,
                    tidy unlock_error address call run (
                        finish unlock_error address call run ret.0 i
                          (record p { system = suspends unlock_error address call run i ret.1 })),
                  ))
                own,
        at_work,
        called
            ∙ ap (λ (g : Flags). record g { executing = true; access = (g.access + 15) % 16 }) held
            ∙ ap
                (λ (a : ℕ). record f {
                  ready = false;
                  readybasic = false;
                  executing = true;
                  access = a;
                })
                back,
      )
