-- ===== src/Jobs/Check.antt =====
-- `schedi_job_destroy_queue_check` of src/jobs.c, and what becomes of a job that is destroyed while
-- it is idle.
use schedi.Prelude.{
  ℕ, suc, ◌+◌, ◌%◌, ◌^◌, ◌<◌, ◌≡◌, refl, sym, ◌∙◌, ap, false, ◌==◌, List, [], ◌∷◌, length, Option,
  none, some, arith,
}
use mathlib.Core.Path.{subst}
use schedi.Meta.Flags.{flags}
use schedi.Queue.{Queue, dq_size, dq_super_pop, dq_dec_count, htc_count, update}
use schedi.Queue.Fifo.{IsQueue, reads}
use schedi.Queue.Pop.{dq_super_pop-cons}
use schedi.Queue.Count.{dq_dec_count-IsQueue}
use schedi.Jobs.{
  nulljob, destroying, Job, System, modify, call_dtor, tear_down, destroy_now, retry,
  destroy_queue_check,
}
use schedi.Jobs.Destroy.{is_idle, Destroys, destroy_now_lem}

-- A destructor that leaves the jobs and the destroy queue alone.
pub record Quiet (call : ℕ → ℕ → System → System) : Type 0 where
  pub jobs : (dtor context : ℕ) (s : System) → (call dtor context s).jobs ≡ s.jobs
  pub dq : (dtor context : ℕ) (s : System) → (call dtor context s).dq ≡ s.dq

-- A job that has been torn down.
abbrev pub torn : Job → Job
torn job = record job { gen = (job.gen + 1) % 2 ^ 64; state = nulljob; meta_flag = 0 }

abbrev pub Absent : ℕ → List ℕ → Type 0
Absent i [] = Unit
Absent i (j ∷ js) = ((i == j) ≡ false) × Absent i js

-- Different jobs that `schedi_job_destroy_now` tears down: none of them is idle.
abbrev pub Doomed : System → List ℕ → Type 0
Doomed s [] = Unit
Doomed s (j ∷ js) = (is_idle (flags (s.jobs j).meta_flag) ≡ false) × Absent j js × Doomed s js

abbrev pub Gone : System → System → List ℕ → Type 0
Gone s s' [] = Unit
Gone s s' (j ∷ js) = (s'.jobs j ≡ torn (s.jobs j)) × Gone s s' js

module _ (address : ℕ → ℕ) (call : ℕ → ℕ → System → System) (quiet : Quiet call) where
  dtor_same :
      (context : ℕ) (s : System) (d : Option ℕ) (s' : System)
      → s' ≡ elim d [ none ↦ s | some dtor ↦ call dtor context s ]
      → (s'.jobs ≡ s.jobs) × (s'.dq ≡ s.dq)
  dtor_same context s none s' e = (ap (λ (t : System). t.jobs) e, ap (λ (t : System). t.dq) e)
  dtor_same context s (some dtor) s' e = (
    ap (λ (t : System). t.jobs) e ∙ quiet.jobs dtor context s,
    ap (λ (t : System). t.dq) e ∙ quiet.dq dtor context s,
  )

  call_dtor-same :
      (job : Job) (s : System)
      → ((call_dtor address call job s).jobs ≡ s.jobs) × ((call_dtor address call job s).dq ≡ s.dq)
  call_dtor-same job s = dtor_same job.context s job.dtor (call_dtor address call job s) refl

  module _ (i : ℕ) (s : System) where
    abbrev leaving : Job
    leaving = record (s.jobs i) { gen = ((s.jobs i).gen + 1) % 2 ^ 64; state = destroying }

    abbrev left : System
    left = modify (λ job. leaving) i s

    abbrev called : System
    called = call_dtor address call (left.jobs i) left

    called-jobs : called.jobs ≡ left.jobs
    called-jobs = (call_dtor-same (left.jobs i) left).0

    -- The slot of a torn job is null, with its generation moved on.
    pub tear_down-at : (tear_down address call i s).jobs i ≡ torn (s.jobs i)
    tear_down-at =
        let v : Job = record (called.jobs i) { state = nulljob; meta_flag = 0 } in
        let here : update called.jobs i v i ≡ v = ground arith in
        let there : left.jobs i ≡ leaving = ground arith in
        here
        ∙ ap (λ (f : ℕ → Job). record (f i) { state = nulljob; meta_flag = 0 }) called-jobs
        ∙ ap (λ (job : Job). record job { state = nulljob; meta_flag = 0 }) there

    pub tear_down-other :
        (j : ℕ) → (i == j) ≡ false → (tear_down address call i s).jobs j ≡ s.jobs j
    tear_down-other j ne =
        let v : Job = record (called.jobs i) { state = nulljob; meta_flag = 0 } in
        let here : update called.jobs i v j ≡ called.jobs j = ground arith in
        let there : left.jobs j ≡ s.jobs j = ground arith in
        here ∙ ap (λ (f : ℕ → Job). f j) called-jobs ∙ there

    pub tear_down-dq : (tear_down address call i s).dq ≡ s.dq
    tear_down-dq = (call_dtor-same (left.jobs i) left).1

  -- The system after a round of the check that has taken job j out, with the queue then at d.
  abbrev next : ℕ → Queue → System → System
  next j d s =
      let s' = tear_down address call j (record s { dq = d }) in
      record s' { dq = dq_dec_count s'.dq }

  destroyed_now :
      (j : ℕ) (s : System)
      → is_idle (flags (s.jobs j).meta_flag) ≡ false
      → Destroys address call false j s (destroy_now address call j s)
  destroyed_now j s busy =
      subst (λ b. Destroys address call b j s (destroy_now address call j s)) busy
        (destroy_now_lem address call j s)

  retry-next :
      (n j : ℕ) (s : System)
      → is_idle (flags (s.jobs j).meta_flag) ≡ false
      → (dq_super_pop address s.dq).0 ≡ some j
      → retry address call (suc n) s ≡ retry address call n (next j (dq_super_pop address s.dq).1 s)
  unfolding retry
  retry-next n j s busy e =
      let s₁ = record s { dq = (dq_super_pop address s.dq).1 } in
      let d = destroyed_now j s₁ busy in
      let ok : ((destroy_now address call j s₁).0 == 0) ≡ false = ground (arith, d.0) in
      rw (retry, e, ok)
        (ap (λ (t : System). retry address call n (record t { dq = dq_dec_count t.dq })) d.1)

  next-IsQueue :
      {d : Queue} {js : List ℕ} (j : ℕ) (s : System) → IsQueue d js 1 → IsQueue (next j d s).dq js 0
  next-IsQueue {d} {js} j s q =
      subst (λ (t : Queue). IsQueue (dq_dec_count t) js 0)
        (sym (tear_down-dq j (record s { dq = d }))) (dq_dec_count-IsQueue q)

  Doomed-next :
      (j : ℕ) (d : Queue) (s : System) (js : List ℕ)
      → Absent j js
      → Doomed s js
      → Doomed (next j d s) js
  Doomed-next j d s [] a b = tt
  Doomed-next j d s (k ∷ js) (ne, a) (busy, b, c) =
      let same = tear_down-other j (record s { dq = d }) k ne in
      (ap (λ (job : Job). is_idle (flags job.meta_flag)) same ∙ busy, b, Doomed-next j d s js a c)

  Gone-next :
      (j : ℕ) (d : Queue) (s s' : System) (js : List ℕ)
      → Absent j js
      → Gone (next j d s) s' js
      → Gone s s' js
  Gone-next j d s s' [] a g = tt
  Gone-next j d s s' (k ∷ js) (ne, a) (e, g) =
      (e ∙ ap torn (tear_down-other j (record s { dq = d }) k ne), Gone-next j d s s' js a g)

  -- The rounds for a queue of different jobs, none of which is idle, tear all of them down, leave
  -- the queue empty and leave every other job alone.
  retry-Gone :
      (js : List ℕ) (s : System)
      → IsQueue s.dq js 0
      → length js < dq_size
      → Doomed s js
      → let s' = retry address call (length js) s in
        IsQueue s'.dq [] 0 × Gone s s' js × ((k : ℕ) → Absent k js → s'.jobs k ≡ s.jobs k)
  unfolding retry
  retry-Gone [] s q short doomed = (q, tt, λ k a. refl)
  retry-Gone (j ∷ js) s q short (busy, alone, doomed) =
      let p = dq_super_pop-cons address q short in
      let d = (dq_super_pop address s.dq).1 in
      let e = retry-next (length js) j s busy p.0 in
      let (empty, gone, others) =
        retry-Gone js (next j d s) (next-IsQueue j s p.1) (omega arith)
          (Doomed-next j d s js alone doomed) in
      subst
        (λ (s' : System).
          IsQueue s'.dq [] 0
          × Gone s s' (j ∷ js)
          × ((k : ℕ) → Absent k (j ∷ js) → s'.jobs k ≡ s.jobs k))
        (sym e)
        (
          empty,
          (
            others j alone ∙ tear_down-at j (record s { dq = d }),
            Gone-next j d s (retry address call (length js) (next j d s)) js alone gone,
          ),
          λ k (ne, a). others k a ∙ tear_down-other j (record s { dq = d }) k (flipped k j ne),
        )
    where
      flipped : (a b : ℕ) → (a == b) ≡ false → (b == a) ≡ false
      flipped a b h = ground arith

  -- `schedi_job_destroy_queue_check` of a queue of fewer than 1024 different jobs, none of them idle,
  -- with destructors that leave the jobs and the queue alone, tears down every one of them, leaves
  -- the queue empty and leaves every other job alone: a job that is EXECUTING or accessed is torn
  -- down as well, where the comment on the function has it go to the back of the queue.
  pub destroy_queue_check-Gone :
      (js : List ℕ) (s : System)
      → IsQueue s.dq js 0
      → length js < dq_size
      → Doomed s js
      → let s' = destroy_queue_check address call s in
        IsQueue s'.dq [] 0 × Gone s s' js × ((k : ℕ) → Absent k js → s'.jobs k ≡ s.jobs k)
  unfolding destroy_queue_check
  destroy_queue_check-Gone js s q short doomed =
      let all : htc_count s.dq.htc ≡ length js = omega (arith, (reads q).2) in
      subst
        (λ (n : ℕ).
          let s' = retry address call n s in
          IsQueue s'.dq [] 0 × Gone s s' js × ((k : ℕ) → Absent k js → s'.jobs k ≡ s.jobs k))
        (sym all) (retry-Gone js s q short doomed)
