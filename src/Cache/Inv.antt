-- ===== src/Cache/Inv.antt =====
-- What the operations on the ready jobs cache do, and the invariant that they keep.
use schedi.Prelude.{
  ℕ, suc, ◌+◌, ◌<◌, ◌≤◌, ◌≡◌, ◌≢◌, refl, sym, ◌∙◌, ap, Bool, true, false, Option, none, some, List,
  length, set, get_elem?, ◌==◌, ltb, if◌then◌else◌, arith, Option-cases, inl, inr, if_case,
}
use schedi.Prelude.Int.{ℤ, pos, negsuc}
use mathlib.Core.Path.{subst}
use schedi.Sections.{maximum_jobs}
use schedi.Atomic.{atomic}
use schedi.Cache.{
  Cache, cache_check, count_of, peak_of, add_body, sub_body, add_job_count, sub_job_count,
  take_first, put_first, popped, cached, lifted, cache_job_ready, cache_job_ready_pop, pop_specific,
}
use schedi.Cache.Count.{add_body_lem, sub_body_lem}
use schedi.Cache.Slots.{
  occupied, copies, Clear, Clear-mono, occupied-le, Puts, put_first_lem, Takes, take_first_lem,
  set-none, EmptyBefore, Empty-before,
}

-- The count is the number of jobs in the cache, the peak bounds it, and no job is at a slot from
-- the peak on.
pub record IsCache (c : Cache) : Type 0 where
  pub size : length c.slots ≡ maximum_jobs
  pub count : count_of c.job_count ≡ occupied c.slots
  pub peak : occupied c.slots ≤ peak_of c.job_count
  pub peak_in : peak_of c.job_count ≤ maximum_jobs
  pub beyond : Clear (peak_of c.job_count) c.slots

-- The jobs of c' are those of c and `job`.
abbrev pub Joins : Cache → ℕ → Cache → Type 0
Joins c job c' = (j : ℕ) → copies j c'.slots ≡ copies j c.slots + (if j == job then 1 else 0)

-- What `schedi_cache_job_ready` does, with room for one more job and without.
abbrev pub Stores : Cache → ℕ → Bool → ℤ × Cache → Type 0
Stores c job true (r, c') =
    (r ≡ pos 0) × IsCache c' × (occupied c'.slots ≡ suc (occupied c.slots)) × Joins c job c'
Stores c job false (r, c') = (r ≡ negsuc 0) × (c' ≡ record c { full = true })

cached-Stores :
    (c : Cache) (job : ℕ) (out : Option (List (Option ℕ)))
    → IsCache c
    → Puts job c.slots out
    → Stores c job (ltb (occupied c.slots) maximum_jobs) (cached c out)
unfolding cached add_job_count
cached-Stores c job none v p =
    let e : ltb (occupied c.slots) maximum_jobs ≡ false = ground (arith, v.size) in
    rw e (refl, refl)
cached-Stores c job (some ss) v p =
    let e : ltb (occupied c.slots) maximum_jobs ≡ true =
      ground (arith, v.size, occupied-le ss, p.0, p.1) in
    let a = add_body_lem c.job_count (omega (arith, v.count, v.peak, v.peak_in)) in
    let higher =
      Clear-mono _ (peak_of (atomic add_body c.job_count).1) c.slots (omega (arith, a.1))
        v.beyond in
    rw e (
      refl,
      record {
        size = p.0 ∙ v.size;
        count = omega (arith, a.0, v.count, p.1);
        peak = omega (arith, a.1, v.count, p.1);
        peak_in = omega (arith, a.1, v.count, v.peak_in, v.size, occupied-le ss, p.0, p.1);
        beyond = p.3 _ higher (omega (arith, a.1, v.count));
      },
      p.1,
      p.2,
    )

-- `schedi_cache_job_ready` of a cache with fewer than 256 jobs returns 0 and adds the job; of a
-- full one it returns -1 and only raises SCHEDI_JOB_ARRAY_FULL.
pub cache_job_ready_lem :
    (c : Cache) (job : ℕ)
    → IsCache c
    → Stores c job (ltb (occupied c.slots) maximum_jobs) (cache_job_ready job c)
unfolding cache_job_ready
cache_job_ready_lem c job v =
    cached-Stores c job (put_first job c.slots) v (put_first_lem job c.slots)

-- What a pop does: there is no job in the first slots, and nothing changes; or one job comes out.
abbrev pub Pops : ℕ → Cache → Option ℕ × Cache → Type 0
Pops n c (none, c') = (c' ≡ c) × EmptyBefore n c.slots
Pops n c (some job, c') = IsCache c' × (occupied c.slots ≡ suc (occupied c'.slots)) × Joins c' job c

sub-IsCache :
    (c d : Cache) (n job : ℕ)
    → IsCache c
    → d.job_count ≡ (atomic sub_body c.job_count).1
    → Takes n c.slots (some (job, d.slots))
    → IsCache d
sub-IsCache c d n job v e t =
    let s = sub_body_lem c.job_count (omega (arith, v.count, t.1)) in
    let peak : peak_of d.job_count ≡ peak_of c.job_count = ap peak_of e ∙ s.1 in
    record {
      size = t.0 ∙ v.size;
      count = omega (arith, ap count_of e, s.0, v.count, t.1);
      peak = omega (arith, peak, v.peak, t.1);
      peak_in = omega (arith, peak, v.peak_in);
      beyond = subst (λ (m : ℕ). Clear m d.slots) (sym peak) (t.3 _ v.beyond);
    }

popped-Pops :
    (c : Cache) (n : ℕ) (out : Option (ℕ × List (Option ℕ)))
    → IsCache c
    → Takes n c.slots out
    → Pops n c (popped c out)
unfolding popped sub_job_count
popped-Pops c n none v t = (refl, t)
popped-Pops c n (some (job, ss)) v t = (sub-IsCache c _ n job v refl t, t.1, t.2)

-- `schedi_cache_job_ready_pop` takes out one job and keeps the invariant; or it returns NULL and
-- changes nothing, and then the first 16 slots are empty.
pub cache_job_ready_pop_lem : (c : Cache) → IsCache c → Pops cache_check c (cache_job_ready_pop c)
unfolding cache_job_ready_pop
cache_job_ready_pop_lem c v =
    if_case (Pops cache_check c) (count_of c.job_count == 0)
      (λ e. (refl, Empty-before cache_check c.slots (ground (arith, v.count))))
      (λ e.
        popped-Pops c cache_check (take_first cache_check c.slots) v
          (take_first_lem cache_check c.slots))

-- `schedi_ready_jobs_cache_pop_specific` of a slot with a job takes it out; of another slot it
-- returns NULL and changes nothing.
pub pop_specific-some :
    (c : Cache) (i job : ℕ)
    → get_elem? c.slots i ≡ some (some job)
    → pop_specific i c ≡ (some job, record (sub_job_count c) { slots = set c.slots i none })
unfolding pop_specific lifted
pop_specific-some c i job e = rw e refl

pub pop_specific-none :
    (c : Cache) (i : ℕ)
    → ((job : ℕ) → get_elem? c.slots i ≢ some (some job))
    → pop_specific i c ≡ (none, c)
unfolding pop_specific lifted
pop_specific-none c i n = lifted-none (get_elem? c.slots i) n
  where
    lifted-none :
        (o : Option (Option ℕ)) → ((job : ℕ) → o ≢ some (some job)) → lifted i c o ≡ (none, c)
    lifted-none none n = refl
    lifted-none (some none) n = refl
    lifted-none (some (some job)) n = absurd (n job refl)

pub pop_specific-Pops :
    (c : Cache) (i job : ℕ)
    → IsCache c
    → get_elem? c.slots i ≡ some (some job)
    → Pops 0 c (some job, record (sub_job_count c) { slots = set c.slots i none })
unfolding sub_job_count
pop_specific-Pops c i job v e =
    let t = set-none i job c.slots e in (sub-IsCache c _ i job v refl t, t.1, t.2)

-- A put with room puts.
pub cache_job_ready-room :
    (c : Cache) (job : ℕ)
    → IsCache c
    → occupied c.slots < maximum_jobs
    → let c' = (cache_job_ready job c).1 in
      IsCache c' × Joins c job c' × (put_first job c.slots ≡ some c'.slots)
unfolding cache_job_ready cached
cache_job_ready-room c job v lt = elim (Option-cases (put_first job c.slots)) [
  | inl e ↦ absurd (omega (arith, subst (Puts job c.slots) e (put_first_lem job c.slots), v.size))
  | inr (ss, e) ↦
      let room : ltb (occupied c.slots) maximum_jobs ≡ true = ground arith in
      let s =
        subst (λ b. Stores c job b (cache_job_ready job c)) room (cache_job_ready_lem c job v) in
      (s.1, s.3, rw e refl)
]
