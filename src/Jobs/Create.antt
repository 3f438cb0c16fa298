-- ===== src/Jobs/Create.antt =====
-- `schedi_job_create` of src/jobs.c.
use schedi.Prelude.{
  ℕ, ◌+◌, ◌<◌, ◌≡◌, refl, ◌∙◌, ap, true, false, ◌==◌, arith, Option, none, some, List,
}
use schedi.Sections.{Section, maximum_jobs}
use schedi.Sections.Count.{free, Bounded, same}
use schedi.Sections.Claim.{Claims, claim_lem}
use schedi.Meta.Flags.{Flags, flags}
use schedi.Prelude.Int.{pos}
use schedi.Jobs.{Job, suspended, System, fresh, created, create}

-- The word of a new job.
abbrev pub blank_flags : Flags
blank_flags = record {
  alive = true;
  unstable = false;
  executing = false;
  wlldestroy = false;
  destroynotent = false;
  ready = false;
  readybasic = false;
  readyepolltool = true;
  readyepollsock = true;
  readyjob = true;
  avsock = 0;
  wait = 0;
  avjobs = 0;
  access = 0;
}

-- A job that has just been created in the slot of `job`, which leaves the generation of the slot and
-- its completion indicator: suspended, with nothing counted, required or requested.
abbrev pub IsBlank : (context run : ℕ) (dtor : Option ℕ) (old new : Job) → Type 0
IsBlank context run dtor old new =
    (record new { meta_flag = 0 } ≡ record {
      phase = 0;
      gen = old.gen;
      state = suspended;
      meta_flag = 0;
      total_req = 0;
      ret_count = 0;
      err_count = 0;
      required_available_sockets = pos 0;
      required_available_jobs = pos 0;
      completion_indicator = old.completion_indicator;
      requested_job = none;
      requested_job_gen = 0;
      context = context;
      run = run;
      dtor = dtor;
    })
    × (flags new.meta_flag ≡ blank_flags)

-- What a creation does: a free slot of the array is taken and holds a fresh job; or no slot was
-- free, and nothing changes.
abbrev pub Creates : (context run : ℕ) (dtor : Option ℕ) → System → Option ℕ × System → Type 0
Creates context run dtor s (none, s') = (s' ≡ s) × ((i : ℕ) → free i s.empty_sections ≡ 0)
Creates context run dtor s (some i, s') =
    (i < maximum_jobs)
    × IsBlank context run dtor (s.jobs i) (s'.jobs i)
    × ((j : ℕ) → (i == j) ≡ false → s'.jobs j ≡ s.jobs j)
    × ((j : ℕ) → free j s'.empty_sections + same j i ≡ free j s.empty_sections)

created-Creates :
    (context run : ℕ) (dtor : Option ℕ) (s : System) (out : Option ℕ × List Section)
    → Claims s.empty_sections out
    → Creates context run dtor s (created context run dtor s out)
unfolding created
created-Creates context run dtor s (none, ss) c = (λ i. record s { empty_sections = c.0 i }, c.1)
created-Creates context run dtor s (some i, ss) c =
    let s' = (created context run dtor s (some i, ss)).1 in
    let at : s'.jobs i ≡ fresh context run dtor (s.jobs i) = ground arith in
    (
      c.0,
      (
        ap (λ (job : Job). record job { meta_flag = 0 }) at,
        ap (λ (job : Job). flags job.meta_flag) at ∙ (unfold flags in refl),
      ),
      λ j other. ground arith,
      c.2,
    )

-- `schedi_job_create` takes one free slot and changes no other; the job in it is suspended, with the
-- function, the context and the destructor that are given, nothing counted, required or requested,
-- ALIVE and with every kind of readiness but READYBASIC, in the generation of the slot. It returns
-- NULL only if no slot is free, and then changes nothing.
pub create_lem :
    (context run : ℕ) (dtor : Option ℕ) (s : System)
    → Bounded s.empty_sections
    → Creates context run dtor s (create context run dtor s)
unfolding create
create_lem context run dtor s b =
    created-Creates context run dtor s _ (claim_lem s.empty_sections b)
