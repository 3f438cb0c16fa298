-- ===== src/Machine/Settled.antt =====
-- Epoll requests that come back to a job that waits for more (src/jobs.c).
use schedi.Prelude.{
  ℕ, ◌+◌, ◌%◌, ◌≡◌, ◌≤◌, ◌<◌, refl, sym, ◌∙◌, ap, Bool, true, false, not, ◌||◌, ◌==◌, List, some,
  arith,
}
use schedi.Prelude.Int.{ℤ, pos, negsuc, ◌+ℤ◌, pos_part}
use mathlib.Core.Path.{subst}
use schedi.Atomic.{atomic}
use schedi.Meta.{Change, mark_access, unmark_access}
use schedi.Meta.Flags.{Flags, flags}
use schedi.Meta.Update.{all_ready, fits, updated}
use schedi.Jobs.{Job, System, modify, set_meta, mark}
use schedi.Jobs.Complete.{update_job-waits}
use schedi.Meta.Marks.{Does}
use schedi.Meta.Access.{unmark_access_lem, access-lt}
use schedi.Jobs.Words.{word-mark}
use schedi.Machine.{Request, count_return, settle_request, request_return, update_wait}
use schedi.Machine.Returned.{
  accessible, accessed-flags, access-flags, wordless, wordless-mark, gen-mark, access_owner_at_once,
}

-- The change of `schedi_job_epoll_request_return`.
abbrev one_less : Job → Change
one_less job = record {
  required_socks = job.required_available_sockets;
  required_jobs = job.required_available_jobs;
  sock_delta = pos 0;
  wait_delta = negsuc 0;
  jobcount_delta = pos 0;
  flag = 0;
  banned_flags = 0;
  ban_access = false;
}

counts-le : (w : ℕ) → ((flags w).avsock ≤ 15) × ((flags w).wait ≤ 15) × ((flags w).avjobs ≤ 15)
unfolding flags
counts-le w = (omega arith, omega arith, omega arith)

one_less-fits :
    (job : Job) → 2 ≤ (flags job.meta_flag).wait → fits (one_less job) (flags job.meta_flag) ≡ true
one_less-fits job more = let (a, b, c) = counts-le job.meta_flag in ground arith

one_less-waits :
    (job : Job)
    → 2 ≤ (flags job.meta_flag).wait
    → all_ready (updated (one_less job) (flags job.meta_flag)) ≡ false
one_less-waits job more = ground arith

-- An access that is given back, of a job that is not UNSTABLE.
unmarked-flags :
    (i : ℕ) (s : System)
    → let v = (s.jobs i).meta_flag in
      (flags v).unstable ≡ false
      → flags ((mark unmark_access i s).1.jobs i).meta_flag
        ≡ record (flags v) { access = ((flags v).access + 15) % 16 }
unmarked-flags i s stable =
    let v = (s.jobs i).meta_flag in
    let free : not (flags v).unstable ≡ true = ap not stable in
    ap flags (word-mark unmark_access i s)
    ∙ (subst
        (λ b.
          Does b (record (flags v) { access = ((flags v).access + 15) % 16 }) v
            (atomic unmark_access v))
        free (unmark_access_lem v)).1

-- The count of a request that came back leaves every word alone.
word-count :
    (error : Bool) (l i : ℕ) (s : System)
    → ((modify (count_return error) l s).jobs i).meta_flag ≡ (s.jobs i).meta_flag
word-count true l i s = ground arith
word-count false l i s = ground arith

-- The rest of the return, of a request of this generation.
module _ (e : ℕ) (req : Request) (error : Bool) (s : System) where
  abbrev counted : System
  counted = modify (count_return error) req.list s

  update-waits :
      2 ≤ (flags (s.jobs req.owner).meta_flag).wait
      → let c = one_less (counted.jobs req.owner) in
        (w' : ℕ) × (flags w' ≡ updated c (flags (s.jobs req.owner).meta_flag))
        × (update_wait e (negsuc 0) req.owner counted
            ≡ (pos 0, modify (set_meta w') req.owner counted))
  update-waits more =
      let i = req.owner in
      let job = counted.jobs i in
      let same = word-count error req.list i s in
      let more' = subst (λ (w : ℕ). 2 ≤ (flags w).wait) (sym same) more in
      let u =
        update_job-waits e i (pos 0) (negsuc 0) (pos 0) counted (one_less-fits job more')
          (one_less-waits job more') in
      (u.0, u.1 ∙ ap (λ (w : ℕ). updated (one_less job) (flags w)) same, u.2)

wordless-set :
    (w i j : ℕ) (s : System) → wordless ((modify (set_meta w) i s).jobs j) ≡ wordless (s.jobs j)
wordless-set w i j s = ground arith

wordless-count :
    (error : Bool) (l j : ℕ) (s t : System)
    → ((k : ℕ) → wordless (s.jobs k) ≡ wordless (t.jobs k))
    → wordless ((modify (count_return error) l s).jobs j)
      ≡ wordless ((modify (count_return error) l t).jobs j)
wordless-count true l j s t same = ground (arith, ap (count_return true) (same l), same j)
wordless-count false l j s t same = ground (arith, ap (count_return false) (same l), same j)

no_flags : ((flags 0).unstable ≡ false) × ((flags 0).ready ≡ false)
unfolding flags
no_flags = (refl, refl)

counts-less : (n : ℕ) (delta : ℤ) → delta ≡ negsuc 0 → 2 ≤ n → pos_part (pos n +ℤ delta) + 1 ≡ n
counts-less n delta e more = rw e (ground arith)

-- The owner's word once its access is given back.
settled-flags :
    (i : ℕ) (s : System) (c : Change) (f : Flags)
    → c.flag ≡ 0
    → c.wait_delta ≡ negsuc 0
    → accessible f ≡ true
    → 2 ≤ f.wait
    → f.access < 16
    → flags (s.jobs i).meta_flag ≡ updated c (record f { access = f.access + 1 })
    → let f' = flags ((mark unmark_access i s).1.jobs i).meta_flag in
      (f'.wait + 1 ≡ f.wait) × (f'.access ≡ f.access) × (f'.ready ≡ f.ready)
settled-flags i s c f none_set less free more low now =
    let g = updated c (record f { access = f.access + 1 }) in
    let zero = no_flags in
    let set : flags c.flag ≡ flags 0 = ap flags none_set in
    let stable : (f.unstable || (flags c.flag).unstable) ≡ false =
      rw (set, zero.0) (ground arith) in
    let ready : (f.ready || (flags c.flag).ready) ≡ f.ready = rw (set, zero.1) (ground arith) in
    let b =
      unmarked-flags i s (ap (λ (h : Flags). h.unstable) now ∙ stable)
      ∙ ap (λ (h : Flags). record h { access = (h.access + 15) % 16 }) now in
    (
      ap (λ (h : Flags). h.wait + 1) b ∙ counts-less f.wait c.wait_delta less more,
      ap (λ (h : Flags). h.access) b ∙ omega arith,
      ap (λ (h : Flags). h.ready) b ∙ ready,
    )

-- `schedi_job_epoll_request_return` of a request of an owner that can be accessed, is of the
-- request's generation and has at least one more outstanding, returns 0. One request less is
-- outstanding, the access is given back and READY stays as it was; and but for the words nothing
-- is changed in any job other than the count of returns, or of errors, for the request's job.
pub request_return-waits :
    (e : ℕ) (others : List (System → System)) (req : Request) (error : Bool) (s : System)
    → accessible (flags (s.jobs req.owner).meta_flag) ≡ true
    → ((s.jobs req.owner).gen == req.job_gen) ≡ true
    → 2 ≤ (flags (s.jobs req.owner).meta_flag).wait
    → (s' : System) × (request_return e others req error s ≡ some (pos 0, s'))
      × (let f = flags (s.jobs req.owner).meta_flag in
          let f' = flags (s'.jobs req.owner).meta_flag in
          (f'.wait + 1 ≡ f.wait) × (f'.access ≡ f.access) × (f'.ready ≡ f.ready))
      × ((j : ℕ)
          → wordless (s'.jobs j) ≡ wordless ((modify (count_return error) req.list s).jobs j))
unfolding request_return settle_request
request_return-waits e others req error s free current more =
    let i = req.owner in
    let p = access-flags i s free in
    let a = accessed-flags i s free in
    let s₁ = (mark mark_access i s).1 in
    let got : ((mark mark_access i s).0 == 0) ≡ true = ground (arith, p.0) in
    let same : ((s₁.jobs i).gen == req.job_gen) ≡ true =
      ap (λ (g : ℕ). g == req.job_gen) (gen-mark mark_access i s) ∙ current in
    let u = update-waits e req error s₁ (subst (λ (f : Flags). 2 ≤ f.wait) (sym a) more) in
    let settled : settle_request e req error (0, s₁)
        ≡ (pos 0, (mark unmark_access i (modify (set_meta u.0) i (counted e req error s₁))).1) =
      rw (settle_request, same, u.2) refl in
    let s₂ = modify (set_meta u.0) i (counted e req error s₁) in
    let f = flags (s.jobs i).meta_flag in
    let written : (s₂.jobs i).meta_flag ≡ u.0 = ground arith in
    (
      (mark unmark_access i s₂).1,
      rw (request_return, access_owner_at_once others i s p.0)
          (ap (λ (n : ℕ). some (settle_request e req error (n, s₁))) p.0 ∙ ap some settled),
      settled-flags i s₂ (one_less ((counted e req error s₁).jobs i)) f refl refl free more
          (access-lt (s.jobs i).meta_flag)
          (ap flags written ∙ u.1 ∙ ap (updated (one_less ((counted e req error s₁).jobs i))) a),
      λ j.
          wordless-mark unmark_access i j s₂
          ∙ wordless-set u.0 i j (counted e req error s₁)
          ∙ wordless-count error req.list j s₁ s (λ k. wordless-mark mark_access i k s),
    )
