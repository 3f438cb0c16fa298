-- ===== src/Jobs/Ready.antt =====
-- `schedi_job_setready` of src/jobs.c, on every branch.
use schedi.Prelude.{
  ℕ, zero, suc, ◌≡◌, refl, ◌∙◌, ap, Bool, true, false, not, ◌&&◌, ◌==◌, ltb, arith,
}
use schedi.Prelude.Int.{ℤ, pos, negsuc}
use mathlib.Core.Path.{subst}
use schedi.Atomic.{atomic}
use schedi.Meta.{mark_ready, unmark_ready}
use schedi.Meta.Flags.{Flags, flags}
use schedi.Meta.Marks.{Does, mark_ready_lem, unmark_ready_lem}
use schedi.Sections.{maximum_jobs}
use schedi.Queue.{update}
use schedi.Cache.{Cache, cache_job_ready}
use schedi.Cache.Slots.{occupied}
use schedi.Cache.Inv.{IsCache, Joins, Stores, cache_job_ready_lem}
use schedi.Jobs.{readywaiting, Job, System, modify, set_meta, set_state, stored, enqueue, setready}

-- Whether a mark as READY succeeds.
abbrev pub markable : Flags → Bool
markable f = not f.unstable && not f.wlldestroy && not f.ready

-- What `schedi_job_setready` does, for a job that can be marked or not, and a cache with room or
-- not. The job is in state `readywaiting` in every case.
abbrev pub Readies : (markable room : Bool) → ℕ → System → ℤ × System → Type 0
Readies false _ i s (r, s') =
    (r ≡ negsuc 0) × (s'.cache ≡ s.cache) × ((s'.jobs i).meta_flag ≡ (s.jobs i).meta_flag)
Readies true true i s (r, s') =
    (r ≡ pos 0)
    × IsCache s'.cache
    × Joins s.cache i s'.cache
    × (flags (s'.jobs i).meta_flag ≡ record (flags (s.jobs i).meta_flag) { ready = true })
Readies true false i s (r, s') =
    (r ≡ negsuc 1)
    × (s'.cache ≡ record s.cache { full = true })
    × (flags (s'.jobs i).meta_flag ≡ record (flags (s.jobs i).meta_flag) { ready = false })

update_at : (jobs : ℕ → Job) (i : ℕ) (job : Job) → update jobs i job i ≡ job
update_at jobs i job = ground arith

-- The system when the job is marked and waits.
abbrev waiting : ℕ → ℕ → System → System
waiting i w s = modify (set_state readywaiting) i (modify (set_meta w) i s)

waiting-meta : (i w : ℕ) (s : System) → ((waiting i w s).jobs i).meta_flag ≡ w
waiting-meta i w s = ground arith

stored-Readies :
    (i w : ℕ) (s : System) (room : Bool) (put : ℤ × Cache)
    → markable (flags (s.jobs i).meta_flag) ≡ true
    → flags w ≡ record (flags (s.jobs i).meta_flag) { ready = true }
    → Stores s.cache i room put
    → Readies true room i s (stored i (waiting i w s) put)
unfolding stored
stored-Readies i w s true (pos zero, c) m f p = (refl, p.1, p.3, ap flags (waiting-meta i w s) ∙ f)
stored-Readies i w s true (pos (suc n), c) m f p = absurd (ground (arith, p.0))
stored-Readies i w s true (negsuc n, c) m f p = absurd (ground (arith, p.0))
stored-Readies i w s false (pos n, c) m f p = absurd (ground (arith, p.0))
stored-Readies i w s false (negsuc n, c) m f p =
    let s' = record (waiting i w s) { cache = c } in
    let v = (s'.jobs i).meta_flag in
    let g : flags v ≡ record (flags (s.jobs i).meta_flag) { ready = true } =
      ap flags (waiting-meta i w s) ∙ f in
    let free : (not (flags v).unstable && not (flags v).wlldestroy) ≡ true =
      ap (λ (h : Flags). not h.unstable && not h.wlldestroy) g ∙ ground arith in
    let d =
      subst (λ b. Does b (record (flags v) { ready = false }) v (atomic unmark_ready v)) free
        (unmark_ready_lem v) in
    (
      refl,
      p.1,
      ap (λ (job : Job). flags job.meta_flag)
            (update_at s'.jobs i (set_meta (atomic unmark_ready v).1 (s'.jobs i)))
          ∙ d.1
          ∙ ap (λ (h : Flags). record h { ready = false }) g,
    )

enqueue-Readies :
    (i : ℕ) (s : System) (free : Bool) (out : ℕ × ℕ)
    → IsCache s.cache
    → markable (flags (s.jobs i).meta_flag) ≡ free
    → Does free (record (flags (s.jobs i).meta_flag) { ready = true }) (s.jobs i).meta_flag out
    → Readies free
        (ltb (occupied s.cache.slots) maximum_jobs)
        i
        s
        (enqueue i out.0 (waiting i out.1 s))
unfolding enqueue
enqueue-Readies i s true (r, w) v m d =
    let e : (r == 0) ≡ true = ground (arith, d.0) in
    rw e
      (stored-Readies i w s _ (cache_job_ready i s.cache) m d.1 (cache_job_ready_lem s.cache i v))
enqueue-Readies i s false (r, w) v m d =
    let e : (r == 0) ≡ false = ground (arith, d.0) in rw e (refl, refl, waiting-meta i w s ∙ d.1)

-- `schedi_job_setready`, where its mutex unlocks. A job that is UNSTABLE, WLLDESTROY or READY gives
-- -1, and its word and the cache stay. Another job gives 0 and comes into the cache, READY; or,
-- where the cache is full, -2, and it is not READY, and SCHEDI_JOB_ARRAY_FULL is raised.
pub setready_lem :
    (i : ℕ) (s : System)
    → IsCache s.cache
    → Readies
        (markable (flags (s.jobs i).meta_flag))
        (ltb (occupied s.cache.slots) maximum_jobs)
        i
        s
        (setready 0 i s)
unfolding setready
setready_lem i s v =
    enqueue-Readies i s _ (atomic mark_ready (s.jobs i).meta_flag) v refl
      (mark_ready_lem (s.jobs i).meta_flag)
