-- ===== src/Jobs/Pick.antt =====
-- `schedi_job_pickready` of src/jobs.c ends: each round that goes back takes a job out of the cache.
use schedi.Prelude.{
  ℕ, zero, suc, ◌<◌, ◌≡◌, ◌≢◌, refl, sym, not, ◌==◌, bit_and, Option, none, some, arith, if_case,
}
use schedi.Meta.{mark_access}
use schedi.Meta.Flag
use schedi.Cache.{Cache, cache_check, cache_job_ready_pop}
use schedi.Cache.Slots.{occupied}
use schedi.Cache.Inv.{IsCache, Pops, cache_job_ready_pop_lem}
use schedi.Jobs.{System, mark, picked, access_popped, pick_round, pickready}

-- What a round does: it gives a result, or leaves a cache with one job less.
abbrev Rounds : Cache → Option (Option ℕ) × System → Type 0
Rounds c (some result, s) = Unit
Rounds c (none, s) = IsCache s.cache × (suc (occupied s.cache.slots) ≡ occupied c.slots)

picked-Rounds :
    (c : Cache) (i bans : ℕ) (s : System)
    → IsCache s.cache
    → suc (occupied s.cache.slots) ≡ occupied c.slots
    → Rounds c (picked i bans s)
unfolding picked
picked-Rounds c i bans s v e =
    if_case (Rounds c) (not (bit_and bans Flag.unstable == 0)) (λ _. (v, e))
      λ _.
        if_case (Rounds c) (not (bit_and bans Flag.access == 0)) (λ _. tt)
          λ _. if_case (Rounds c) (not (bans == 0)) (λ _. tt) λ _. tt

popped-Rounds :
    (s : System) (out : Option ℕ × Cache)
    → Pops cache_check s.cache out
    → Rounds s.cache (access_popped out.0 (record s { cache = out.1 }))
popped-Rounds s (none, c) p = tt
popped-Rounds s (some i, c) p =
    let s' = record s { cache = c } in
    picked-Rounds s.cache i (mark mark_access i s').0 (mark mark_access i s').1 p.0 (sym p.1)

round-Rounds : (s : System) → IsCache s.cache → Rounds s.cache (pick_round s)
unfolding pick_round
round-Rounds s v = popped-Rounds s (cache_job_ready_pop s.cache) (cache_job_ready_pop_lem s.cache v)

abbrev resume : (out rest : Option (Option ℕ) × System) → Option (Option ℕ) × System
resume out rest = elim out.0 [ none ↦ rest | some result ↦ (some result, out.1) ]

returns :
    (c : Cache) (out rest : Option (Option ℕ) × System)
    → Rounds c out
    → (out.0 ≡ none → rest.0 ≢ none)
    → (resume out rest).0 ≢ none
returns c (some result, s) rest r again = λ e. cc
returns c (none, s) rest r again = again refl

left :
    (c : Cache) (out : Option (Option ℕ) × System)
    → Rounds c out
    → out.0 ≡ none
    → IsCache out.1.cache × (suc (occupied out.1.cache.slots) ≡ occupied c.slots)
left c (none, s) r e = r
left c (some result, s) r e = cc

-- Fuel above the number of cached jobs is enough for `schedi_job_pickready` to return.
pub pickready_ends :
    (fuel : ℕ) (s : System)
    → IsCache s.cache
    → occupied s.cache.slots < fuel
    → (pickready fuel s).0 ≢ none
unfolding pickready
pickready_ends zero s v lt = absurd (omega arith)
pickready_ends (suc fuel) s v lt =
    let r = round-Rounds s v in
    returns s.cache (pick_round s) (pickready fuel (pick_round s).1) r (λ e.
      pickready_ends fuel (pick_round s).1 (left s.cache (pick_round s) r e).0
        (omega (arith, (left s.cache (pick_round s) r e).1)))
