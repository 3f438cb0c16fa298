-- ===== src/Jobs/Destroy.antt =====
-- `schedi_job_destroy_now` and `schedi_job_destroy` of src/jobs.c, for jobs that are idle and jobs
-- that are not.
use schedi.Prelude.{
  ℕ, ◌+◌, ◌<◌, ◌≡◌, refl, sym, ◌∙◌, ap, Bool, true, false, not, ◌&&◌, ◌==◌, List, [], ◌∷◌, ◌++◌,
  length, if◌then◌else◌, arith,
}
use schedi.Prelude.Int.{ℤ, pos, negsuc}
use mathlib.Core.Path.{subst}
use schedi.Atomic.{atomic}
use schedi.Meta.{mark_unstable, mark_wlldestroy}
use schedi.Meta.Flags.{Flags, flags}
use schedi.Meta.Marks.{Does, mark_unstable_lem, mark_wlldestroy_lem}
use schedi.Queue.{Queue, dq_size, dq_push, update}
use schedi.Queue.Fifo.{IsQueue, dq_push-append}
use schedi.Queue.Pop.{update_same}
use schedi.Jobs.{Job, System, modify, set_meta, mark, tear_down, destroy_now, destroy, queued}

-- Nobody executes, edits or accesses the job, and it is not READY.
abbrev pub is_idle : Flags → Bool
is_idle f = not f.unstable && not f.executing && not f.ready && (f.access == 0)

pub modify_same : (i : ℕ) (s : System) → modify (set_meta (s.jobs i).meta_flag) i s ≡ s
modify_same i s = λ k. record s { jobs = update_same s.jobs i k }

-- A failed mark leaves everything as it was.
pub mark_failed :
    (i : ℕ) (s : System) (out : ℕ × ℕ)
    → out.1 ≡ (s.jobs i).meta_flag
    → modify (set_meta out.1) i s ≡ s
mark_failed i s out e = ap (λ (w : ℕ). modify (set_meta w) i s) e ∙ modify_same i s

module _ (address : ℕ → ℕ) (call : ℕ → ℕ → System → System) where
  -- What `schedi_job_destroy_now` does: it reports failure for an idle job, which it only marks
  -- UNSTABLE; it tears down any other job, and reports success.
  abbrev pub Destroys : Bool → ℕ → System → ℕ × System → Type 0
  Destroys true i s (r, s') =
      (r ≡ 0)
      × (s' ≡ modify (set_meta (s'.jobs i).meta_flag) i s)
      × (flags (s'.jobs i).meta_flag ≡ record (flags (s.jobs i).meta_flag) { unstable = true })
  Destroys false i s (r, s') = (r ≡ 1) × (s' ≡ tear_down address call i s)

  destroyed :
      (i : ℕ) (s : System) (free : Bool) (out : ℕ × ℕ)
      → Does free (record (flags (s.jobs i).meta_flag) { unstable = true }) (s.jobs i).meta_flag out
      → Destroys free i s (
          if out.0 == 0
          then (0, modify (set_meta out.1) i s)
          else (1, tear_down address call i (modify (set_meta out.1) i s)))
  destroyed i s true (r, w) d =
      let e : (r == 0) ≡ true = ground (arith, d.0) in
      let same : update s.jobs i (set_meta w (s.jobs i)) i ≡ set_meta w (s.jobs i) = ground arith in
      rw e (
        refl,
        ap (λ (job : Job). modify (set_meta job.meta_flag) i s) (sym same),
        ap (λ (job : Job). flags job.meta_flag) same ∙ d.1,
      )
  destroyed i s false (r, w) d =
      let e : (r == 0) ≡ false = ground (arith, d.0) in
      rw e (refl, ap (tear_down address call i) (mark_failed i s (r, w) d.1))

  -- `schedi_job_destroy_now`, whose test of the mark is the wrong way round: an idle job is marked
  -- UNSTABLE, and the call returns 0 for failure; a job that is UNSTABLE, EXECUTING, READY or
  -- accessed is torn down, and the call returns 1.
  pub destroy_now_lem :
      (i : ℕ) (s : System)
      → Destroys (is_idle (flags (s.jobs i).meta_flag)) i s (destroy_now address call i s)
  unfolding destroy_now
  destroy_now_lem i s =
      destroyed i s _ (atomic mark_unstable (s.jobs i).meta_flag)
        (mark_unstable_lem (s.jobs i).meta_flag)

  -- The system when `schedi_job_destroy` calls `schedi_job_destroy_now`.
  abbrev pub marked : ℕ → System → System
  marked i s = (mark mark_wlldestroy i s).1

  pub marked-flags :
      (i : ℕ) (s : System)
      → (flags (s.jobs i).meta_flag).unstable ≡ false
      → flags ((marked i s).jobs i).meta_flag
        ≡ record (flags (s.jobs i).meta_flag) { wlldestroy = true }
  marked-flags i s u =
      let w = (s.jobs i).meta_flag in
      let d =
        subst (λ b. Does b (record (flags w) { wlldestroy = true }) w (atomic mark_wlldestroy w))
          (ap not u) (mark_wlldestroy_lem w) in
      let same : update s.jobs i (set_meta (atomic mark_wlldestroy w).1 (s.jobs i)) i
          ≡ set_meta (atomic mark_wlldestroy w).1 (s.jobs i) =
        ground arith in
      ap (λ (job : Job). flags job.meta_flag) same ∙ d.1

  -- `schedi_job_destroy` of a job that is EXECUTING and not UNSTABLE tears it down at once, under
  -- its worker, and returns 0.
  pub destroy_executing :
      (i : ℕ) (s : System)
      → (flags (s.jobs i).meta_flag).unstable ≡ false
      → (flags (s.jobs i).meta_flag).executing ≡ true
      → destroy address call i s ≡ (pos 0, tear_down address call i (marked i s))
  unfolding destroy
  destroy_executing i s u x =
      let f = marked-flags i s u in
      let busy : is_idle (flags ((marked i s).jobs i).meta_flag) ≡ false =
        ap is_idle f ∙ ground arith in
      let d =
        subst (λ b. Destroys b i (marked i s) (destroy_now address call i (marked i s))) busy
          (destroy_now_lem i (marked i s)) in
      let ok : not ((destroy_now address call i (marked i s)).0 == 0) ≡ true =
        ground (arith, d.0) in
      rw ok (ap (λ (t : System). (pos 0, t)) d.1)

  queued-append :
      {js : List ℕ} {n : ℕ} (i : ℕ) (s : System) (out : ℤ × Queue)
      → out.0 ≡ pos 0
      → IsQueue out.1 js n
      → ((queued address call i s out).0 ≡ negsuc 0)
        × IsQueue (queued address call i s out).1.dq js n
  unfolding queued
  queued-append i s (pos k, d) e q = (refl, q)
  queued-append i s (negsuc k, d) e q = cc

  -- `schedi_job_destroy` of an idle job, with room in the destroy queue, does not tear it down: it
  -- returns -1 and puts the job at the end of the queue.
  pub destroy-idle :
      {js : List ℕ} {n : ℕ} (i : ℕ) (s : System)
      → is_idle (flags (s.jobs i).meta_flag) ≡ true
      → IsQueue s.dq js n
      → length js + n < dq_size
      → ((destroy address call i s).0 ≡ negsuc 0)
        × IsQueue (destroy address call i s).1.dq (js ++ (i ∷ [])) n
  unfolding destroy
  destroy-idle {js} {n} i s idle q room =
      let f = marked-flags i s (ground arith) in
      let still : is_idle (flags ((marked i s).jobs i).meta_flag) ≡ true = ap is_idle f ∙ idle in
      let out = destroy_now address call i (marked i s) in
      let d = subst (λ b. Destroys b i (marked i s) out) still (destroy_now_lem i (marked i s)) in
      let failed : not (out.0 == 0) ≡ false = ground (arith, d.0) in
      let same : s.dq ≡ out.1.dq = sym (ap (λ (t : System). t.dq) d.1) in
      let p = dq_push-append address i (subst (λ (t : Queue). IsQueue t js n) same q) room in
      rw failed (queued-append i out.1 (dq_push address i out.1.dq) p.0 p.1)
