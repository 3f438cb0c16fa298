-- ===== src/Machine/Returned.antt =====
-- Epoll requests that come back, and changes of a job's counts that are refused (src/jobs.c).
use schedi.Prelude.{
  ℕ, ◌+◌, ◌%◌, ◌≡◌, refl, ◌∙◌, ap, Bool, true, false, not, ◌&&◌, ◌==◌, List, [], ◌∷◌, some, arith,
}
use schedi.Prelude.Int.{ℤ, pos, negsuc}
use mathlib.Core.Path.{subst}
use schedi.Atomic.{Attempt, atomic}
use schedi.Meta.{mark_access, unmark_access}
use schedi.Meta.Flags.{Flags, flags}
use schedi.Meta.Marks.{Does}
use schedi.Meta.Access.{mark_access_lem, unmark_access_lem, access-lt}
use schedi.Jobs.{Job, System, modify, set_meta, mark}
use schedi.Jobs.Complete.{update_job-refused}
use schedi.Jobs.Words.{word-mark}
use schedi.Kernel.{Kernel}
use schedi.Machine.{
  Request, Machine, access_owner, settle_request, request_return, tool_epoll, count_total, bump,
}

-- Whether `schedi_job_mark_access` succeeds.
abbrev pub accessible : Flags → Bool
accessible f = not f.unstable && not f.wlldestroy && not (f.access == 15)

pub accessed-flags :
    (i : ℕ) (s : System)
    → accessible (flags (s.jobs i).meta_flag) ≡ true
    → let f = flags (s.jobs i).meta_flag in
      flags ((mark mark_access i s).1.jobs i).meta_flag ≡ record f { access = f.access + 1 }
accessed-flags i s free =
    let w = (s.jobs i).meta_flag in
    let f = flags w in
    let d =
      subst (λ b. Does b (record f { access = f.access + 1 }) w (atomic mark_access w)) free
        (mark_access_lem w) in
    ap flags (word-mark mark_access i s) ∙ d.1

-- An access that is given back leaves the flags as they were.
pub access-flags :
    (i : ℕ) (s : System)
    → accessible (flags (s.jobs i).meta_flag) ≡ true
    → let out = mark mark_access i s in
      (out.0 ≡ 0)
      × (flags ((mark unmark_access i out.1).1.jobs i).meta_flag ≡ flags (s.jobs i).meta_flag)
access-flags i s free =
    let w = (s.jobs i).meta_flag in
    let f = flags w in
    let d =
      subst (λ b. Does b (record f { access = f.access + 1 }) w (atomic mark_access w)) free
        (mark_access_lem w) in
    let v = ((mark mark_access i s).1.jobs i).meta_flag in
    let e = accessed-flags i s free in
    let stable : not (flags v).unstable ≡ true =
      ap (λ (g : Flags). not g.unstable) e ∙ ground arith in
    let d' =
      subst
        (λ b.
          Does b (record (flags v) { access = ((flags v).access + 15) % 16 }) v
            (atomic unmark_access v))
        stable (unmark_access_lem v) in
    (
      d.0,
      ap flags (word-mark unmark_access i (mark mark_access i s).1)
          ∙ d'.1
          ∙ ap (λ (g : Flags). record g { access = (g.access + 15) % 16 }) e
          ∙ ap (λ (n : ℕ). record f { access = n }) (omega (arith, access-lt w)),
    )

-- A job but for its word.
abbrev pub wordless : Job → Job
wordless = set_meta 0

pub wordless-mark :
    (body : ℕ → Attempt ℕ) (i j : ℕ) (s : System)
    → wordless ((mark body i s).1.jobs j) ≡ wordless (s.jobs j)
wordless-mark body i j s = ground arith

pub gen-mark :
    (body : ℕ → Attempt ℕ) (i : ℕ) (s : System) → ((mark body i s).1.jobs i).gen ≡ (s.jobs i).gen
gen-mark body i s = ground arith

pub access_owner_at_once :
    (others : List (System → System)) (i : ℕ) (s : System)
    → (mark mark_access i s).0 ≡ 0
    → access_owner others i s ≡ some (mark mark_access i s)
unfolding access_owner
access_owner_at_once [] i s e =
    let test : ((mark mark_access i s).0 == 0) ≡ true = ground arith in rw test refl
access_owner_at_once (other ∷ others) i s e =
    let test : ((mark mark_access i s).0 == 0) ≡ true = ground arith in rw test refl

-- `schedi_job_epoll_request_return` of a request whose owner can be accessed, but is of another
-- generation by now, returns -1. It counts nothing: every job has its flags, its counts and all
-- else as before.
pub request_return-stale :
    (e : ℕ) (others : List (System → System)) (req : Request) (error : Bool) (s : System)
    → accessible (flags (s.jobs req.owner).meta_flag) ≡ true
    → ((s.jobs req.owner).gen == req.job_gen) ≡ false
    → (s' : System) × (request_return e others req error s ≡ some (negsuc 0, s'))
      × (flags (s'.jobs req.owner).meta_flag ≡ flags (s.jobs req.owner).meta_flag)
      × ((j : ℕ) → wordless (s'.jobs j) ≡ wordless (s.jobs j))
unfolding request_return settle_request
request_return-stale e others req error s free stale =
    let i = req.owner in
    let p = access-flags i s free in
    let s₁ = (mark mark_access i s).1 in
    let got : ((mark mark_access i s).0 == 0) ≡ true = ground (arith, p.0) in
    let other : ((s₁.jobs i).gen == req.job_gen) ≡ false =
      ap (λ (g : ℕ). g == req.job_gen) (gen-mark mark_access i s) ∙ stale in
    (
      (mark unmark_access i s₁).1,
      rw (request_return, access_owner_at_once others i s p.0, got, other) refl,
      p.1,
      λ j. wordless-mark unmark_access i j s₁ ∙ wordless-mark mark_access i j s,
    )

-- `schedi_job_tool_epoll` of a job with 15 outstanding requests, where the memory is there, returns
-- -4, frees the request and leaves the job's word alone; the request stays in `total_req`.
pub tool_epoll-full :
    (e : ℕ) {K : Type 0} (os : Kernel K) (i : ℕ) (socketfd : ℤ) (events req : ℕ) (m : Machine K)
    → (os.malloc m.host.kernel).0 ≡ some req
    → (flags (m.host.system.jobs i).meta_flag).wait ≡ 15
    → let (r, m') = tool_epoll e os i socketfd events m in
      let job = m.host.system.jobs i in
      let job' = m'.host.system.jobs i in
      (r ≡ negsuc 3)
      × (m'.host.kernel ≡ os.free req (os.malloc m.host.kernel).1)
      × (job'.meta_flag ≡ job.meta_flag)
      × (job'.total_req ≡ bump job.total_req)
unfolding tool_epoll
tool_epoll-full e os i socketfd events req m mem full =
    let s = m.host.system in
    let s' = modify count_total i s in
    let here : s'.jobs i ≡ count_total (s.jobs i) = ground arith in
    let waits : (flags (s'.jobs i).meta_flag).wait ≡ 15 =
      ap (λ (job : Job). (flags job.meta_flag).wait) here ∙ full in
    let refused = update_job-refused e i (pos 0) (pos 1) (pos 0) s' (ground arith) in
    rw (tool_epoll, mem, refused)
      (refl, refl, ap (λ (job : Job). job.meta_flag) here, ap (λ (job : Job). job.total_req) here)
