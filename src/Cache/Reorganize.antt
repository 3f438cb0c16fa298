-- ===== src/Cache/Reorganize.antt =====
-- `schedi_ready_jobs_cache_reorganize` of src/jobs.c: it loses no job, and leaves the jobs in the
-- first slots of the cache with no empty slot between.
use schedi.Prelude.{
  ℕ, zero, suc, ◌+◌, ◌≡◌, ◌≢◌, refl, ◌∙◌, ap, Bool, true, false, Option, none, some, List, [], ◌∷◌,
  set, get_elem?, ◌||◌, ◌^◌, leb, ltb, if◌then◌else◌, arith, Bool-cases, inl, inr, if_case,
}
use schedi.Cache.{
  Cache, cache_check, peak_of, put_first, sub_job_count, cache_job_ready, cache_job_ready_pop,
  reorganize_from, reorganize, reorganize_tick,
}
use schedi.Cache.Slots.{occupied, copies, Full, occupied-le, EmptyBefore}
use schedi.Cache.Inv.{
  IsCache, Pops, cache_job_ready_pop_lem, pop_specific-some, pop_specific-none, pop_specific-Pops,
  cache_job_ready-room,
}
use schedi.Cache.Packed.{
  Packed, Slot-cases, Stage, Stage-start, Stage-end, Stage-none, Stage-some, Stage-stop, Stage-go,
}

-- What a reorganization does: the jobs stay, and are in the first slots.
abbrev pub Reorganizes : Cache → Cache → Type 0
Reorganizes c c' = IsCache c' × ((j : ℕ) → copies j c'.slots ≡ copies j c.slots) × Packed c'.slots

-- One round of the loop, from what `pop_specific` has returned.
abbrev round : (i n : ℕ) → Option ℕ × Cache → Cache
round i n out = elim out.0 [
  | none ↦ reorganize_from i n out.1
  | some job ↦
      let back = (cache_job_ready job out.1).1 in
      let rest = reorganize_from i (n + 1) back in if leb i (n + 1) then back else rest
]

-- One job taken out of slot i and put back.
module _ (c : Cache) (i job : ℕ) (v : IsCache c) (e : get_elem? c.slots i ≡ some (some job)) where
  abbrev lifted_out : Cache
  lifted_out = record (sub_job_count c) { slots = set c.slots i none }

  abbrev back : Cache
  back = (cache_job_ready job lifted_out).1

  back_lem :
      IsCache back
      × ((j : ℕ) → copies j back.slots ≡ copies j c.slots)
      × (put_first job (set c.slots i none) ≡ some back.slots)
  back_lem =
      let p = pop_specific-Pops c i job v e in
      let r =
        cache_job_ready-room lifted_out job p.0 (omega (arith, p.1, occupied-le c.slots, v.size)) in
      (r.0, (λ j. omega (arith, r.1 j, p.2 j)), r.2)

  reorganize_from-some :
      (n : ℕ)
      → reorganize_from (suc i) n c
        ≡ (if leb i (n + 1) then back else reorganize_from i (n + 1) back)
  unfolding reorganize_from
  reorganize_from-some n = ap (round i n) (pop_specific-some c i job e)

reorganize_from-none :
    (c : Cache) (i n : ℕ)
    → ((job : ℕ) → get_elem? c.slots i ≢ some (some job))
    → reorganize_from (suc i) n c ≡ reorganize_from i n c
unfolding reorganize_from
reorganize_from-none c i n e = ap (round i n) (pop_specific-none c i e)

Reorganizes-after :
    (c d out : Cache)
    → ((j : ℕ) → copies j d.slots ≡ copies j c.slots)
    → Reorganizes d out
    → Reorganizes c out
Reorganizes-after c d out e r = (r.0, (λ j. r.1 j ∙ e j), r.2)

reorganize_from_lem :
    (i n : ℕ) (c : Cache) → IsCache c → Stage i n c.slots → Reorganizes c (reorganize_from i n c)
reorganize_from_lem zero n c v s = unfold reorganize_from in (v, (λ j. refl), Stage-end n c.slots s)
reorganize_from_lem (suc i) n c v s = elim (Slot-cases (get_elem? c.slots i)) [
  | inl e ↦
      rw (reorganize_from-none c i n e) (reorganize_from_lem i n c v (Stage-none i n c.slots e s))
  | inr (job, e) ↦
      let b = back_lem c i job v e in
      let c' = back c i job v e in
      let next = Stage-some i n job c.slots e b.2 s in
      rw (reorganize_from-some c i job v e n) (
        if_case (Reorganizes c) (leb i (n + 1)) (λ le. (b.0, b.1, Stage-stop i n c'.slots next le))
          (λ gt.
            Reorganizes-after c c' (reorganize_from i (n + 1) c') b.1
              (reorganize_from_lem i (n + 1) c' b.0 (Stage-go i n c'.slots next gt))))
]

-- `schedi_ready_jobs_cache_reorganize` keeps the invariant and every job, and leaves the jobs in
-- the first slots of the cache.
pub reorganize_lem : (c : Cache) → IsCache c → Reorganizes c (reorganize c)
unfolding reorganize
reorganize_lem c v =
    reorganize_from_lem (peak_of c.job_count) 0 c v
      (Stage-start (peak_of c.job_count) c.slots v.beyond)

-- What a tick does, where the counter is safe and where it is not.
abbrev pub Ticks : Cache → Bool → Cache → Type 0
Ticks c true c' = c' ≡ c
Ticks c false c' = Reorganizes c c'

-- `schedi_ready_jobs_cache_reorganize_tick` leaves the cache alone where the counter is below 16;
-- where it is not, it keeps the invariant and every job, and leaves the jobs in the first slots.
pub reorganize_tick_lem :
    (c : Cache)
    → IsCache c
    → Ticks c (ltb c.counter cache_check || leb (2 ^ 31) c.counter) (reorganize_tick c)
unfolding reorganize_tick
reorganize_tick_lem c v = elim (Bool-cases (ltb c.counter cache_check || leb (2 ^ 31) c.counter)) [
  | inl safe ↦ rw safe refl
  | inr due ↦ rw due (
      reorganize_lem (record c { counter = 0 })
        (record {
          size = v.size;
          count = v.count;
          peak = v.peak;
          peak_in = v.peak_in;
          beyond = v.beyond;
        }))
]

pub Empty-Full :
    (n : ℕ) (ss : List (Option ℕ))
    → EmptyBefore (suc n) ss
    → Full (occupied ss) ss
    → occupied ss ≡ 0
Empty-Full n [] e f = refl
Empty-Full n (some job ∷ ss) e f = elim e [ ]
Empty-Full n (none ∷ ss) e f = packed (occupied ss) f
  where
    packed : (k : ℕ) → Full k (none ∷ ss) → k ≡ 0
    packed zero f = refl
    packed (suc k) f = elim f [ ]

Pops-none :
    (c : Cache) (out : Option ℕ × Cache)
    → Pops cache_check c out
    → Packed c.slots
    → out.0 ≡ none
    → occupied c.slots ≡ 0
Pops-none c (none, c') p k e = Empty-Full 15 c.slots p.1 k.0
Pops-none c (some job, c') p k e = cc

-- After a reorganization `schedi_cache_job_ready_pop` returns NULL only if the cache holds no job.
pub reorganize_pop :
    (c : Cache)
    → IsCache c
    → (cache_job_ready_pop (reorganize c)).0 ≡ none
    → occupied (reorganize c).slots ≡ 0
reorganize_pop c v e =
    let r = reorganize_lem c v in
    Pops-none (reorganize c) (cache_job_ready_pop (reorganize c))
      (cache_job_ready_pop_lem (reorganize c) r.0) r.2 e
