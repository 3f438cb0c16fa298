-- ===== src/Jobs/End.antt =====
-- The end of an idle job: `schedi_job_destroy` and the next `schedi_job_destroy_queue_check` of
-- src/jobs.c.
use schedi.Prelude.{ℕ, ◌≡◌, refl, sym, ◌∙◌, ap, true, false, not, ◌==◌, [], ◌∷◌, arith}
use schedi.Prelude.Int.{ℤ, pos, negsuc}
use mathlib.Core.Path.{subst}
use schedi.Atomic.{atomic}
use schedi.Meta.{mark_wlldestroy}
use schedi.Meta.Flags.{flags}
use schedi.Queue.{Queue, dq_push}
use schedi.Queue.Fifo.{IsQueue, dq_push-append}
use schedi.Jobs.{Job, System, modify, set_meta, destroy_now, destroy, queued, destroy_queue_check}
use schedi.Jobs.Destroy.{is_idle, Destroys, destroy_now_lem, destroy-idle, marked, marked-flags}
use schedi.Jobs.Check.{Quiet, torn, destroy_queue_check-Gone}

module _ (address : ℕ → ℕ) (call : ℕ → ℕ → System → System) where
  -- What the rest of `schedi_job_destroy` does where the queue has taken the job.
  queued-jobs :
      (i : ℕ) (s : System) (out : ℤ × Queue)
      → out.0 ≡ pos 0
      → (queued address call i s out).1.jobs ≡ s.jobs
  unfolding queued
  queued-jobs i s (pos n, d) e = refl
  queued-jobs i s (negsuc n, d) e = cc

  -- The word is the one thing that a change of the word changes.
  set_meta-torn : (i w : ℕ) (s : System) → torn ((modify (set_meta w) i s).jobs i) ≡ torn (s.jobs i)
  set_meta-torn i w s =
      let same : (modify (set_meta w) i s).jobs i ≡ set_meta w (s.jobs i) = ground arith in
      ap torn same

  set_meta-other :
      (i w k : ℕ) (s : System) → (i == k) ≡ false → (modify (set_meta w) i s).jobs k ≡ s.jobs k
  set_meta-other i w k s ne = ground arith

  -- The jobs after `schedi_job_destroy` of an idle job.
  destroyed-jobs :
      (i : ℕ) (s : System)
      → is_idle (flags (s.jobs i).meta_flag) ≡ true
      → IsQueue s.dq [] 0
      → let s' = (destroy address call i s).1 in
        (is_idle (flags (s'.jobs i).meta_flag) ≡ false)
        × (torn (s'.jobs i) ≡ torn (s.jobs i))
        × ((k : ℕ) → (i == k) ≡ false → s'.jobs k ≡ s.jobs k)
  unfolding destroy
  destroyed-jobs i s idle q =
      let m = marked address call i s in
      let f = marked-flags address call i s (ground arith) in
      let still : is_idle (flags (m.jobs i).meta_flag) ≡ true = ap is_idle f ∙ idle in
      let out = destroy_now address call i m in
      let d =
        subst (λ b. Destroys address call b i m out) still (destroy_now_lem address call i m) in
      let failed : not (out.0 == 0) ≡ false = ground (arith, d.0) in
      let same : s.dq ≡ out.1.dq = sym (ap (λ (t : System). t.dq) d.1) in
      let p =
        dq_push-append address i (subst (λ (t : Queue). IsQueue t [] 0) same q) (omega arith) in
      let jobs = queued-jobs i out.1 (dq_push address i out.1.dq) p.0 in
      let w = (out.1.jobs i).meta_flag in
      let v = (atomic mark_wlldestroy (s.jobs i).meta_flag).1 in
      rw failed (
        ap (λ (g : ℕ → Job). is_idle (flags (g i).meta_flag)) jobs ∙ ap is_idle d.2 ∙ ground arith,
        ap (λ (g : ℕ → Job). torn (g i)) jobs
            ∙ ap (λ (t : System). torn (t.jobs i)) d.1
            ∙ set_meta-torn i w m
            ∙ set_meta-torn i v s,
        λ k ne.
            ap (λ (g : ℕ → Job). g k) jobs
            ∙ ap (λ (t : System). t.jobs k) d.1
            ∙ set_meta-other i w k m ne
            ∙ set_meta-other i v k s ne,
      )

  -- An idle job that is destroyed while the destroy queue is empty is torn down by the next check
  -- of the queue, with destructors that leave the jobs and the queue alone: its slot is null, with
  -- its generation moved on, the queue is empty again and every other job is as before.
  pub destroy-then-check :
      (i : ℕ) (s : System)
      → Quiet call
      → is_idle (flags (s.jobs i).meta_flag) ≡ true
      → IsQueue s.dq [] 0
      → let s' = destroy_queue_check address call (destroy address call i s).1 in
        (s'.jobs i ≡ torn (s.jobs i))
        × IsQueue s'.dq [] 0
        × ((k : ℕ) → (i == k) ≡ false → s'.jobs k ≡ s.jobs k)
  destroy-then-check i s quiet idle q =
      let (busy, same, others) = destroyed-jobs i s idle q in
      let mid = (destroy address call i s).1 in
      let p = destroy-idle address call i s idle q (omega arith) in
      let (empty, (gone, _), rest) =
        destroy_queue_check-Gone address call quiet (i ∷ []) mid p.1 (omega arith) (busy, tt, tt) in
      (gone ∙ same, empty, λ k ne. rest k (flipped i k ne, tt) ∙ others k ne)
    where
      flipped : (a b : ℕ) → (a == b) ≡ false → (b == a) ≡ false
      flipped a b h = ground arith
