-- ===== src/Cache/Reach.antt =====
-- Histories of the ready jobs cache of src/jobs.c: why the counter of operations is enough to know
-- when jobs may be out of reach of `schedi_cache_job_ready_pop`.
use schedi.Prelude.{
  ℕ, ◌+◌, ◌^◌, ◌≤◌, ◌<◌, ◌≡◌, refl, sym, ◌∙◌, ap, Bool, true, false, ◌||◌, ◌==◌, Option, none, some,
  List, replicate, leb, ltb, arith, Bool-cases, inl, inr, ◌⊎◌,
}
use mathlib.Core.Path.{subst}
use schedi.Prelude.Int.{pos}
use schedi.Cache.{
  Cache, cache_check, count_of, take_first, put_first, popped, cached, add_job_count, sub_job_count,
  cache_job_ready, cache_job_ready_pop, reorganize_tick,
}
use schedi.Cache.Slots.{occupied, Full-mono, Clear-mono, EmptyBefore}
use schedi.Cache.Inv.{IsCache, Pops, Stores, cache_job_ready_lem, cache_job_ready_pop_lem}
use schedi.Cache.Packed.{Packed}
use schedi.Cache.Reorganize.{Ticks, reorganize_tick_lem, Empty-Full}
use schedi.Cache.Near.{
  near, far, near-far, Fills, Empties, put_first-Fills, take_first-Empties, EmptyBefore-near,
  Full-near, Clear-far,
}

-- The cache at the start.
abbrev pub no_jobs : Cache
no_jobs = record { slots = replicate 256 none; counter = 0; job_count = 0; full = false }

-- Any sequence of calls, each with the counter, an `int`, below its limit.
pub data Reach : Cache → Type 0 where
  begin : Reach no_jobs
  put : (c : Cache) (job : ℕ) → Reach c → c.counter < 2 ^ 31 → Reach (cache_job_ready job c).1
  pop : (c : Cache) → Reach c → c.counter < 2 ^ 31 → Reach (cache_job_ready_pop c).1
  tick : (c : Cache) → Reach c → c.counter < 2 ^ 31 → Reach (reorganize_tick c)

-- While a job is out of reach of a pop, each slot within reach that is empty has been counted.
record IsWatched (c : Cache) : Type 0 where
  cache : IsCache c
  watched : (far cache_check c.slots ≡ 0) ⊎ (cache_check ≤ near cache_check c.slots + c.counter)

Packed-watched :
    (c : Cache)
    → Packed c.slots
    → (far cache_check c.slots ≡ 0) ⊎ (cache_check ≤ near cache_check c.slots + c.counter)
Packed-watched c (f, k) = elim (Bool-cases (leb cache_check (occupied c.slots))) [
  | inl many ↦ inr (
      ground (
        arith,
        Full-near cache_check c.slots
            (Full-mono cache_check (occupied c.slots) c.slots (ground arith) f),
      ))
  | inr few ↦ inl (
      Clear-far cache_check c.slots
        (Clear-mono (occupied c.slots) cache_check c.slots (ground arith) k))
]

pub no_jobs-IsCache : IsCache no_jobs
no_jobs-IsCache = record {
  size = refl;
  count = refl;
  peak = omega arith;
  peak_in = omega arith;
  beyond = tt;
}

stored-IsCache :
    (c : Cache) (job : ℕ) (room : Bool) (c' : Cache) → Stores c job room (pos 0, c') → IsCache c'
stored-IsCache c job true c' p = p.1
stored-IsCache c job false c' p = absurd (ground (arith, p.0))

put-IsWatched :
    (c : Cache) (job : ℕ) (room : Bool) (o : Option (List (Option ℕ)))
    → c.counter < 2 ^ 31
    → IsWatched c
    → Fills cache_check c.slots o
    → Stores c job room (cached c o)
    → IsWatched (cached c o).1
unfolding cached add_job_count
put-IsWatched c job room none low v f p =
    let k = v.cache in
    record {
      cache = record {
        size = k.size;
        count = k.count;
        peak = k.peak;
        peak_in = k.peak_in;
        beyond = k.beyond;
      };
      watched = v.watched;
    }
put-IsWatched c job room (some ss) low v (inl (a, b)) p = record {
  cache = stored-IsCache c job room _ p;
  watched = elim v.watched [ inl none_far ↦ inl (b ∙ none_far) | inr seen ↦ inr (omega arith) ];
}
put-IsWatched c job room (some ss) low v (inr (a, b)) p = record {
  cache = stored-IsCache c job room _ p;
  watched = inr (omega arith);
}

popped-IsCache :
    (n : ℕ) (c : Cache) (out : Option ℕ × Cache) → IsCache c → Pops n c out → IsCache out.1
popped-IsCache n c (none, c') v p = subst IsCache (sym p.0) v
popped-IsCache n c (some job, c') v p = p.0

popped-IsWatched :
    (c : Cache) (o : Option (ℕ × List (Option ℕ)))
    → c.counter < 2 ^ 31
    → IsWatched c
    → Empties cache_check c.slots o
    → IsCache (popped c o).1
    → IsWatched (popped c o).1
unfolding popped sub_job_count
popped-IsWatched c none low v f k = v
popped-IsWatched c (some (job, ss)) low v (a, b) k = record {
  cache = k;
  watched = elim v.watched [ inl none_far ↦ inl (b ∙ none_far) | inr seen ↦ inr (omega arith) ];
}

pop-IsWatched : (c : Cache) → c.counter < 2 ^ 31 → IsWatched c → IsWatched (cache_job_ready_pop c).1
unfolding cache_job_ready_pop
pop-IsWatched c low v =
    let k =
      popped-IsCache cache_check c (cache_job_ready_pop c) v.cache
        (cache_job_ready_pop_lem c v.cache) in
    elim (Bool-cases (count_of c.job_count == 0)) [
      | inl no_count ↦ rw no_count v
      | inr some_count ↦
          let same : cache_job_ready_pop c ≡ popped c (take_first cache_check c.slots) =
            rw some_count refl in
          subst (λ (r : Option ℕ × Cache). IsWatched r.1) (sym same)
            (popped-IsWatched c (take_first cache_check c.slots) low v
              (take_first-Empties cache_check c.slots)
              (subst (λ (r : Option ℕ × Cache). IsCache r.1) same k))
    ]

ticked-IsWatched : (c c' : Cache) (safe : Bool) → IsWatched c → Ticks c safe c' → IsWatched c'
ticked-IsWatched c c' true v t = subst IsWatched (sym t) v
ticked-IsWatched c c' false v (k, jobs, packed) = record {
  cache = k;
  watched = Packed-watched c' packed;
}

Reach-IsWatched : (c : Cache) → Reach c → IsWatched c
unfolding cache_job_ready
Reach-IsWatched _ begin = record { cache = no_jobs-IsCache; watched = inl refl }
Reach-IsWatched _ (put c job r low) =
    let v = Reach-IsWatched c r in
    put-IsWatched c job _ (put_first job c.slots) low v (put_first-Fills cache_check job c.slots)
      (cache_job_ready_lem c job v.cache)
Reach-IsWatched _ (pop c r low) = pop-IsWatched c low (Reach-IsWatched c r)
Reach-IsWatched _ (tick c r low) =
    let v = Reach-IsWatched c r in
    ticked-IsWatched c (reorganize_tick c) _ v (reorganize_tick_lem c v.cache)

none-EmptyBefore :
    (c : Cache) (out : Option ℕ × Cache)
    → Pops cache_check c out
    → out.0 ≡ none
    → EmptyBefore cache_check c.slots
none-EmptyBefore c (none, c') p e = p.1
none-EmptyBefore c (some job, c') p e = cc

-- What is left after a tick that leaves nothing within reach.
ticked_seen :
    (c c' : Cache) (safe : Bool)
    → c.counter < 2 ^ 31
    → IsWatched c
    → (ltb c.counter cache_check || leb (2 ^ 31) c.counter) ≡ safe
    → Ticks c safe c'
    → EmptyBefore cache_check c'.slots
    → occupied c'.slots ≡ 0
ticked_seen c c' false low v e (k, jobs, packed) empty = Empty-Full 15 c'.slots empty packed.0
ticked_seen c c' true low v e t empty =
    let empty' = subst (λ (d : Cache). EmptyBefore cache_check d.slots) t empty in
    let few : c.counter < cache_check = ground arith in
    let none_near = EmptyBefore-near cache_check c.slots empty' in
    ap (λ (d : Cache). occupied d.slots) t
    ∙ sym (near-far cache_check c.slots)
    ∙ (elim v.watched [ inl none_far ↦ omega arith | inr seen ↦ absurd (omega arith) ])

-- In every history of puts, pops and ticks, where fewer than 2^31 puts and pops have been counted
-- since the last reorganization, a pop after a tick returns NULL only if the cache holds no job,
-- although a pop looks at the first 16 slots alone and most ticks do nothing.
pub tick-pop :
    (c : Cache)
    → Reach c
    → c.counter < 2 ^ 31
    → (cache_job_ready_pop (reorganize_tick c)).0 ≡ none
    → occupied (reorganize_tick c).slots ≡ 0
tick-pop c r low null =
    let v = Reach-IsWatched c r in
    let t = reorganize_tick_lem c v.cache in
    let v' = ticked-IsWatched c (reorganize_tick c) _ v t in
    ticked_seen c (reorganize_tick c) _ low v refl t (
      none-EmptyBefore (reorganize_tick c) (cache_job_ready_pop (reorganize_tick c))
        (cache_job_ready_pop_lem (reorganize_tick c) v'.cache) null)
