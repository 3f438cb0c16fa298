-- ===== src/Worker/Found.antt =====
-- No job is ready while every worker sleeps (src/worker.c, src/jobs.c).
use schedi.Prelude.{ℕ, ◌<◌, ◌≡◌, ◌≢◌, false, refl, arith, ◌⊎◌, inl, inr}
use schedi.Worker.Sleep.{inside, tested, asleep}
use schedi.Worker.Wakeup.{
  misses, misses_outside, worker, setter, away, stored, Looks, State, start, Step, picks, ticks,
  locks, finds, fails, sleeps, wakes, returns, enters, stores, refuses, signals, signals_nobody,
  exits, Reach, begin, step,
}

module _ (n : ℕ) where
  abbrev pub AllAsleep : State → Type 0
  AllAsleep s = (i : ℕ) → i < n → s.place i ≡ asleep

  -- A thread is about to signal.
  abbrev pub Signal : State → Type 0
  Signal s = (t : ℕ) × (s.setting t ≡ stored)

  -- What holds at each point of a run.
  record IsFound (s : State) : Type 0 where
    inside_owns : (i : ℕ) → s.place i ≡ inside → s.owner ≡ worker i
    tested_owns : (i : ℕ) → s.place i ≡ tested → s.owner ≡ worker i
    tested_none : (i : ℕ) → s.place i ≡ tested → s.missed ≡ false → (s.jobs ≡ 0) ⊎ Looks n s
    setter_owns : (t : ℕ) → s.setting t ≢ away → s.owner ≡ setter t
    found : AllAsleep s → s.missed ≡ false → (s.jobs ≡ 0) ⊎ Signal s

  module _ (some_worker : 0 < n) where
    step-IsFound : (s s' : State) → IsFound s → Step n s s' → IsFound s'
    step-IsFound s _ v (picks _ i k low at job) = record {
      inside_owns = λ j e. ground (arith, v.inside_owns j);
      tested_owns = λ j e. ground (arith, v.tested_owns j);
      tested_none = λ j e sane. inr (i, (low, ground arith));
      setter_owns = v.setter_owns;
      found = λ all sane. absurd (ground (arith, all i low));
    }
    step-IsFound s _ v (ticks _ i k low at) = record {
      inside_owns = v.inside_owns;
      tested_owns = v.tested_owns;
      tested_none = λ j e sane. inr (i, (low, at));
      setter_owns = v.setter_owns;
      found = λ all sane. absurd (ground (arith, all i low));
    }
    step-IsFound s _ v (locks _ i low at open_) = record {
      inside_owns = λ j e. ground (arith, v.inside_owns j);
      tested_owns = λ j e. ground (arith, v.tested_owns j);
      tested_none = λ j e sane. absurd (ground (arith, v.tested_owns j));
      setter_owns = λ t e. absurd (ground (arith, v.setter_owns t e));
      found = λ all sane. absurd (ground (arith, all i low));
    }
    step-IsFound s _ v (finds _ i k low at job) = record {
      inside_owns = λ j e. absurd (ground (arith, v.inside_owns j, v.inside_owns i at));
      tested_owns = λ j e. absurd (ground (arith, v.tested_owns j, v.inside_owns i at));
      tested_none = λ j e sane. absurd (ground (arith, v.tested_owns j, v.inside_owns i at));
      setter_owns = λ t e. absurd (ground (arith, v.setter_owns t e, v.inside_owns i at));
      found = λ all sane. absurd (ground (arith, all i low));
    }
    step-IsFound s _ v (fails _ i low at missed) = record {
      inside_owns = λ j e. ground (arith, v.inside_owns j);
      tested_owns = λ j e. ground (arith, v.tested_owns j, v.inside_owns i at);
      tested_none = λ j e sane. elim missed [
        | inl none_ ↦ inl none_
        | inr (k, (below, out)) ↦ inr (k, (below, ground arith))
      ];
      setter_owns = v.setter_owns;
      found = λ all sane. absurd (ground (arith, all i low));
    }
    step-IsFound s _ v (misses _ i k low at) = record {
      inside_owns = λ j e. ground (arith, v.inside_owns j);
      tested_owns = λ j e. ground (arith, v.tested_owns j, v.inside_owns i at);
      tested_none = λ j e sane. absurd (ground arith);
      setter_owns = v.setter_owns;
      found = λ all sane. absurd (ground arith);
    }
    step-IsFound s _ v (misses_outside _ i k low at) = record {
      inside_owns = v.inside_owns;
      tested_owns = v.tested_owns;
      tested_none = λ j e sane. absurd (ground arith);
      setter_owns = v.setter_owns;
      found = λ all sane. absurd (ground arith);
    }
    step-IsFound s _ v (sleeps _ i low at) = record {
      inside_owns = λ j e. absurd (ground (arith, v.inside_owns j, v.tested_owns i at));
      tested_owns = λ j e. absurd (ground (arith, v.tested_owns j, v.tested_owns i at));
      tested_none = λ j e sane. absurd (ground (arith, v.tested_owns j, v.tested_owns i at));
      setter_owns = λ t e. absurd (ground (arith, v.setter_owns t e, v.tested_owns i at));
      found = λ all sane. elim (v.tested_none i at sane) [
        | inl e ↦ inl e
        | inr (j, (below, out)) ↦ absurd (ground (arith, all j below))
      ];
    }
    step-IsFound s _ v (wakes _ i low at) = record {
      inside_owns = λ j e. ground (arith, v.inside_owns j);
      tested_owns = λ j e. ground (arith, v.tested_owns j);
      tested_none = λ j e sane. elim (v.tested_none j (ground arith) sane) [
        | inl e ↦ inl e
        | inr (k, (below, out)) ↦ inr (k, (below, ground arith))
      ];
      setter_owns = v.setter_owns;
      found = λ all sane. absurd (ground (arith, all i low));
    }
    step-IsFound s _ v (returns _ i low at open_) = record {
      inside_owns = λ j e. ground (arith, v.inside_owns j);
      tested_owns = λ j e. ground (arith, v.tested_owns j);
      tested_none = λ j e sane. absurd (ground (arith, v.tested_owns j));
      setter_owns = λ t e. absurd (ground (arith, v.setter_owns t e));
      found = λ all sane. absurd (ground (arith, all i low));
    }
    step-IsFound s _ v (enters _ t at open_) = record {
      inside_owns = λ j e. absurd (ground (arith, v.inside_owns j));
      tested_owns = λ j e. absurd (ground (arith, v.tested_owns j));
      tested_none = λ j e sane. absurd (ground (arith, v.tested_owns j));
      setter_owns = λ k e. ground (arith, v.setter_owns k);
      found = λ all sane. elim (v.found all sane) [
        | inl e ↦ inl e
        | inr (k, e) ↦ inr (k, ground arith)
      ];
    }
    step-IsFound s _ v (stores _ t k at) = record {
      inside_owns = λ j e. absurd (
          ground (arith, v.inside_owns j e, v.setter_owns t (λ e. absurd (ground (arith, at, e)))));
      tested_owns = λ j e. absurd (
          ground (arith, v.tested_owns j e, v.setter_owns t (λ e. absurd (ground (arith, at, e)))));
      tested_none = λ j e sane. absurd (
          ground (arith, v.tested_owns j e, v.setter_owns t (λ e. absurd (ground (arith, at, e)))));
      setter_owns = λ j e.
          ground (arith, v.setter_owns j, v.setter_owns t (λ e. absurd (ground (arith, at, e))));
      found = λ all sane. inr (t, ground arith);
    }
    step-IsFound s _ v (refuses _ t at) = record {
      inside_owns = λ j e. absurd (
          ground (arith, v.inside_owns j e, v.setter_owns t (λ e. absurd (ground (arith, at, e)))));
      tested_owns = λ j e. absurd (
          ground (arith, v.tested_owns j e, v.setter_owns t (λ e. absurd (ground (arith, at, e)))));
      tested_none = λ j e sane. absurd (
          ground (arith, v.tested_owns j e, v.setter_owns t (λ e. absurd (ground (arith, at, e)))));
      setter_owns = λ k e.
          ground (arith, v.setter_owns k, v.setter_owns t (λ e. absurd (ground (arith, at, e))));
      found = λ all sane. elim (v.found all sane) [
        | inl e ↦ inl e
        | inr (k, e) ↦ inr (k, ground arith)
      ];
    }
    step-IsFound s _ v (signals _ t i at low rests) = record {
      inside_owns = λ j e.
          absurd (
            ground (arith, v.inside_owns j, v.setter_owns t (λ e. absurd (ground (arith, at, e)))));
      tested_owns = λ j e.
          absurd (
            ground (arith, v.tested_owns j, v.setter_owns t (λ e. absurd (ground (arith, at, e)))));
      tested_none = λ j e sane.
          absurd (
            ground (arith, v.tested_owns j, v.setter_owns t (λ e. absurd (ground (arith, at, e)))));
      setter_owns = λ k e.
          ground (arith, v.setter_owns k, v.setter_owns t (λ e. absurd (ground (arith, at, e))));
      found = λ all sane. absurd (ground (arith, all i low));
    }
    step-IsFound s _ v (signals_nobody _ t at nobody) = record {
      inside_owns = λ j e. absurd (
          ground (arith, v.inside_owns j e, v.setter_owns t (λ e. absurd (ground (arith, at, e)))));
      tested_owns = λ j e. absurd (
          ground (arith, v.tested_owns j e, v.setter_owns t (λ e. absurd (ground (arith, at, e)))));
      tested_none = λ j e sane. absurd (
          ground (arith, v.tested_owns j e, v.setter_owns t (λ e. absurd (ground (arith, at, e)))));
      setter_owns = λ k e.
          ground (arith, v.setter_owns k, v.setter_owns t (λ e. absurd (ground (arith, at, e))));
      found = λ all sane. absurd (nobody 0 some_worker (all 0 some_worker));
    }
    step-IsFound s _ v (exits _ t at) = record {
      inside_owns = λ j e. absurd (
          ground (arith, v.inside_owns j e, v.setter_owns t (λ e. absurd (ground (arith, at, e)))));
      tested_owns = λ j e. absurd (
          ground (arith, v.tested_owns j e, v.setter_owns t (λ e. absurd (ground (arith, at, e)))));
      tested_none = λ j e sane. absurd (
          ground (arith, v.tested_owns j e, v.setter_owns t (λ e. absurd (ground (arith, at, e)))));
      setter_owns = λ k e.
          absurd (
            ground (arith, v.setter_owns k, v.setter_owns t (λ e. absurd (ground (arith, at, e)))));
      found = λ all sane. elim (v.found all sane) [
        | inl e ↦ inl e
        | inr (k, e) ↦ inr (k, ground arith)
      ];
    }

    start-IsFound : IsFound start
    start-IsFound = record {
      inside_owns = λ i e. absurd (ground arith);
      tested_owns = λ i e. absurd (ground arith);
      tested_none = λ i e sane. inl refl;
      setter_owns = λ t e. absurd (e refl);
      found = λ all sane. inl refl;
    }

    Reach-IsFound : (s : State) → Reach n s → IsFound s
    Reach-IsFound _ begin = start-IsFound
    Reach-IsFound t (step s _ r e) = step-IsFound s t (Reach-IsFound s r) e

    -- At any point of a run with a worker, as long as no `schedi_job_pickready` has met a job that it
    -- could not access, there is no job that can be found in the cache while every worker sleeps,
    -- unless a thread that has stored a job is about to signal.
    pub Reach-found :
        (s : State) → Reach n s → AllAsleep s → s.missed ≡ false → (s.jobs ≡ 0) ⊎ Signal s
    Reach-found s r = (Reach-IsFound s r).found
