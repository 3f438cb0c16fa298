-- ===== src/Sections/History.antt =====
-- Claims and releases in any order, by any threads.
use schedi.Prelude.{
  ℕ, ◌+◌, ◌-◌, ◌<◌, ◌≡◌, ◌≢◌, sym, ap, Bool, true, false, Option, none, some, List, ltb,
  if◌then◌else◌, arith,
}
use mathlib.Core.Path.{subst}
use schedi.Sections.{Section, maximum_jobs, init, claim, release}
use schedi.Sections.Count.{free, Bounded, same, init-free}
use schedi.Sections.Claim.{Claims, claim_lem}
use schedi.Sections.Release.{Releases, release_lem}

-- The table, how often each slot is held by a job, how often it was lost by a release that found no
-- room, and whether a slot has been released that no job held.
pub record Pool : Type 0 where
  pub table : List Section
  pub held : ℕ → ℕ
  pub lost : ℕ → ℕ
  pub twice : Bool

abbrev pub start : Pool
start = record { table = init; held = λ i. 0; lost = λ i. 0; twice = false }

pub data Step : Pool → Pool → Type 0 where
  claimed :
      (p : Pool) (idx : ℕ) (t : List Section)
      → claim p.table ≡ (some idx, t)
      → Step p (record p { table = t; held = λ i. p.held i + same i idx })
  released :
      (p : Pool) (idx : ℕ) (t : List Section)
      → p.held idx ≢ 0
      → release idx p.table ≡ (t, false)
      → Step p (record p { table = t; held = λ i. p.held i - same i idx })
  warned :
      (p : Pool) (idx : ℕ) (t : List Section)
      → p.held idx ≢ 0
      → release idx p.table ≡ (t, true)
      → Step p (record p {
        table = t;
        held = λ i. p.held i - same i idx;
        lost = λ i. p.lost i + same i idx;
      })
  -- A second `schedi_job_destroy_now` of a job releases its slot once more.
  again :
      (p : Pool) (idx : ℕ)
      → p.held idx ≡ 0
      → Step p (record p { table = (release idx p.table).0; twice = true })

pub data Reach : Pool → Type 0 where
  begin : Reach start
  next : {p q : Pool} → Reach p → Step p q → Reach q

-- Every slot of the array is free, held or lost, and only once.
pub record IsSound (p : Pool) : Type 0 where
  pub bounded : Bounded p.table
  pub partition :
      (i : ℕ) → free i p.table + p.held i + p.lost i ≡ (if ltb i maximum_jobs then 1 else 0)

held-lt : (p : Pool) (idx : ℕ) → IsSound p → p.held idx ≢ 0 → idx < maximum_jobs
held-lt p idx v h = ground (arith, v.partition idx)

-- What holds as long as each release is of a slot that is held.
abbrev Sound : Pool → Type 0
Sound p = p.twice ≡ false → IsSound p

Step-IsSound : {p q : Pool} → Step p q → Sound p → Sound q
Step-IsSound (claimed p idx t e) sound once =
    let v = sound once in
    let c : Claims p.table (some idx, t) = subst (Claims p.table) e (claim_lem p.table v.bounded) in
    record { bounded = c.1; partition = λ i. omega (arith, c.2 i, v.partition i) }
Step-IsSound (released p idx t h e) sound once =
    let v = sound once in
    let r : Releases idx p.table (t, false) =
      subst (Releases idx p.table) e (release_lem idx p.table (held-lt p idx v h) v.bounded) in
    record { bounded = r.0; partition = λ i. ground (arith, r.1 i, v.partition i, h) }
Step-IsSound (warned p idx t h e) sound once =
    let v = sound once in
    let r : Releases idx p.table (t, true) =
      subst (Releases idx p.table) e (release_lem idx p.table (held-lt p idx v h) v.bounded) in
    record {
      bounded = subst Bounded (sym r.0) v.bounded;
      partition = λ i. ground (arith, ap (free i) r.0, v.partition i, h);
    }
Step-IsSound (again p idx h) sound once = cc

-- In every history of claims and releases in which no slot has been released that no job held, each
-- slot of the array is free, held or lost to a full table, and exactly one of these; no slot outside
-- the array is any.
pub Reach-IsSound : {p : Pool} → Reach p → p.twice ≡ false → IsSound p
Reach-IsSound begin once = record {
  bounded = (init-free 0).1;
  partition = λ i. omega (arith, (init-free i).0);
}
Reach-IsSound (next r s) once = Step-IsSound s (Reach-IsSound r) once

module _ {p : Pool} (r : Reach p) (once : p.twice ≡ false) where
  fresh_slot :
      (idx : ℕ) (out : Option ℕ × List Section)
      → out.0 ≡ some idx
      → Claims p.table out
      → (idx < maximum_jobs) × (p.held idx ≡ 0)
  fresh_slot idx (none, t) e c = cc
  fresh_slot idx (some k, t) e c =
      ground (arith, c.2 idx, c.0, (Reach-IsSound r once).partition idx)

  exhausted :
      (out : Option ℕ × List Section)
      → out.0 ≡ none
      → Claims p.table out
      → (i : ℕ) → i < maximum_jobs
      → p.held i + p.lost i ≡ 1
  exhausted (none, t) e c i lt = ground (arith, c.1 i, (Reach-IsSound r once).partition i)
  exhausted (some k, t) e c i lt = cc

-- In every such history `section_claim` hands out a slot of the array that no job holds.
pub claim_fresh :
    {p : Pool} {idx : ℕ}
    → Reach p
    → p.twice ≡ false
    → (claim p.table).0 ≡ some idx
    → (idx < maximum_jobs) × (p.held idx ≡ 0)
claim_fresh {p} {idx} r once e =
    fresh_slot r once idx (claim p.table) e (claim_lem p.table (Reach-IsSound r once).bounded)

-- In every such history `section_claim` returns NULL only if each slot of the array is held by a job
-- or was lost to a full table.
pub claim_exhausted :
    {p : Pool}
    → Reach p
    → p.twice ≡ false
    → (claim p.table).0 ≡ none
    → (i : ℕ) → i < maximum_jobs
    → p.held i + p.lost i ≡ 1
claim_exhausted {p} r once e =
    exhausted r once (claim p.table) e (claim_lem p.table (Reach-IsSound r once).bounded)
