-- ===== src/Jobs/Picked.antt =====
-- A job from `schedi_job_setready` to `schedi_job_pickready` (src/jobs.c).
use schedi.Prelude.{
  ℕ, zero, suc, ◌+◌, ◌≡◌, refl, ◌∙◌, ap, true, false, not, ◌&&◌, ◌==◌, ltb, Option, none, some,
  arith,
}
use schedi.Prelude.Int.{ℤ, pos, negsuc}
use mathlib.Core.Path.{subst}
use schedi.Atomic.{Attempt}
use schedi.Meta.{mark_access, mark_ready, unmark_ready, unmark_readybasic}
use schedi.Meta.Flags.{Flags, flags}
use schedi.Meta.Marks.{mark_ready_lem, unmark_ready_lem, unmark_readybasic_lem}
use schedi.Meta.Access.{mark_access_lem}
use schedi.Sections.{maximum_jobs}
use schedi.Cache.{Cache, cache_job_ready, cache_job_ready_pop}
use schedi.Cache.Slots.{occupied}
use schedi.Cache.Inv.{IsCache}
use schedi.Jobs.{
  readywaiting, modify, set_state, System, mark, picked, access_popped, pick_round, pickready,
  setready, stored, enqueue,
}
use schedi.Cache.Only.{put-then-pop}
use schedi.Jobs.Words.{word, flags-mark, succeeds}
use schedi.Jobs.Ready.{markable, Readies, setready_lem}

-- `schedi_job_pickready` of a job that can be accessed.
abbrev pub Picks : ℕ → System → Option (Option ℕ) × System → Type 0
Picks i s (o, s') =
    (o ≡ some (some i))
    × (let f = flags (word i s) in
        (flags (word i s') ≡ record f { ready = false; readybasic = false; access = f.access + 1 })
        × ((s'.jobs i).run ≡ (s.jobs i).run))

mark-run :
    (body : ℕ → Attempt ℕ) (i : ℕ) (s : System) → ((mark body i s).1.jobs i).run ≡ (s.jobs i).run
mark-run body i s = ground arith

access_Picks :
    (i : ℕ) (s : System)
    → let f = flags (word i s) in
      (not f.unstable && not f.wlldestroy && not (f.access == 15)) ≡ true
      → Picks i s (access_popped (some i) s)
unfolding picked
access_Picks i s free =
    let f = flags (word i s) in
    let d = succeeds mark_access (word i s) _ _ free (mark_access_lem (word i s)) in
    let s₁ = (mark mark_access i s).1 in
    let e₁ : flags (word i s₁) ≡ record f { access = f.access + 1 } =
      flags-mark mark_access i s d in
    let stable : (not f.unstable && not f.wlldestroy) ≡ true = ground arith in
    let s₂ = (mark unmark_ready i s₁).1 in
    let e₂ : flags (word i s₂) ≡ record f { ready = false; access = f.access + 1 } =
      flags-mark unmark_ready i s₁ (
        succeeds unmark_ready (word i s₁) _ _
          (ap (λ (g : Flags). not g.unstable && not g.wlldestroy) e₁ ∙ stable)
          (unmark_ready_lem (word i s₁)))
      ∙ ap (λ (g : Flags). record g { ready = false }) e₁ in
    let e₃ =
      flags-mark unmark_readybasic i s₂ (
        succeeds unmark_readybasic (word i s₂) _ _
          (ap (λ (g : Flags). not g.unstable && not g.wlldestroy) e₂ ∙ stable)
          (unmark_readybasic_lem (word i s₂)))
      ∙ ap (λ (g : Flags). record g { readybasic = false }) e₂ in
    rw d.0 (
      refl,
      (e₃, mark-run unmark_readybasic i s₂ ∙ mark-run unmark_ready i s₁ ∙ mark-run mark_access i s),
    )

picked_at_once :
    (fuel : ℕ) (s : System) (out : Option (Option ℕ) × System) (i : ℕ)
    → pick_round s ≡ out
    → out.0 ≡ some (some i)
    → pickready (suc fuel) s ≡ out
unfolding pickready
picked_at_once fuel s out i e h = ap (resumed fuel) e ∙ ended out h
  where
    resumed : ℕ → Option (Option ℕ) × System → Option (Option ℕ) × System
    resumed fuel r = elim r.0 [ none ↦ pickready fuel r.1 | some result ↦ (some result, r.1) ]

    ended : (r : Option (Option ℕ) × System) → r.0 ≡ some (some i) → resumed fuel r ≡ r
    ended (none, s) h = cc
    ended (some result, s) h = refl

stored-cache : (i : ℕ) (s : System) (out : ℤ × Cache) → (stored i s out).1.cache ≡ out.1
unfolding stored
stored-cache i s (pos zero, c) = refl
stored-cache i s (pos (suc n), c) = refl
stored-cache i s (negsuc n, c) = refl

setready-cache :
    (i : ℕ) (s : System)
    → markable (flags (word i s)) ≡ true
    → (setready 0 i s).1.cache ≡ (cache_job_ready i s.cache).1
unfolding setready enqueue
setready-cache i s free =
    let d = succeeds mark_ready (word i s) _ _ free (mark_ready_lem (word i s)) in
    let marked = mark mark_ready i s in
    let went : (marked.0 == 0) ≡ true = ground (arith, d.0) in
    let s' = modify (set_state readywaiting) i marked.1 in
    rw went (stored-cache i s' (cache_job_ready i s.cache))

stored-run :
    (i : ℕ) (s : System) (out : ℤ × Cache) → ((stored i s out).1.jobs i).run ≡ (s.jobs i).run
unfolding stored
stored-run i s (pos zero, c) = refl
stored-run i s (pos (suc n), c) = mark-run unmark_ready i (record s { cache = c })
stored-run i s (negsuc n, c) = mark-run unmark_ready i (record s { cache = c })

setready-run :
    (i : ℕ) (s : System)
    → markable (flags (word i s)) ≡ true
    → ((setready 0 i s).1.jobs i).run ≡ (s.jobs i).run
unfolding setready enqueue
setready-run i s free =
    let d = succeeds mark_ready (word i s) _ _ free (mark_ready_lem (word i s)) in
    let marked = mark mark_ready i s in
    let went : (marked.0 == 0) ≡ true = ground (arith, d.0) in
    let s' = modify (set_state readywaiting) i marked.1 in
    let same : (s'.jobs i).run ≡ (s.jobs i).run = ground arith in
    rw went (stored-run i s' (cache_job_ready i s.cache) ∙ same)

-- A job that is set ready while no other is, and can be marked and accessed, is the one that the next
-- `schedi_job_pickready` returns; it is then accessed once more, and neither READY nor READYBASIC,
-- and its function is as before.
pub setready-then-pick :
    (fuel i : ℕ) (s : System)
    → IsCache s.cache
    → occupied s.cache.slots ≡ 0
    → markable (flags (word i s)) ≡ true
    → ((flags (word i s)).access == 15) ≡ false
    → let f = flags (word i s) in
      let out = setready 0 i s in
      let (picked, s') = pickready (suc fuel) out.1 in
      (out.0 ≡ pos 0)
      × (picked ≡ some (some i))
      × (flags (word i s') ≡ record f { ready = false; readybasic = false; access = f.access + 1 })
      × ((s'.jobs i).run ≡ (s.jobs i).run)
unfolding pick_round
setready-then-pick fuel i s v no_jobs free room =
    let c = s.cache in
    let s₁ = (setready 0 i s).1 in
    let has_room : ltb (occupied c.slots) maximum_jobs ≡ true = ground arith in
    let r =
      subst (λ b. Readies b (ltb (occupied c.slots) maximum_jobs) i s (setready 0 i s)) free
        (setready_lem i s v) in
    let (zero_r, v', joins, ready) = subst (λ b. Readies true b i s (setready 0 i s)) has_room r in
    let only : (cache_job_ready_pop s₁.cache).0 ≡ some i =
      ap (λ (d : Cache). (cache_job_ready_pop d).0) (setready-cache i s free)
      ∙ put-then-pop c i v no_jobs in
    let s₂ = record s₁ { cache = (cache_job_ready_pop s₁.cache).1 } in
    let f = flags (word i s) in
    let accessible : (λ (g : Flags). not g.unstable && not g.wlldestroy && not (g.access == 15))
          (flags (word i s₂))
        ≡ true =
      ap (λ (g : Flags). not g.unstable && not g.wlldestroy && not (g.access == 15)) ready
      ∙ ground arith in
    let picks = access_Picks i s₂ accessible in
    let at : pickready (suc fuel) s₁ ≡ access_popped (some i) s₂ =
      picked_at_once fuel s₁ (access_popped (some i) s₂) i
        (ap (λ (o : Option ℕ). access_popped o s₂) only) picks.0 in
    (
      zero_r,
      ap (λ (o : Option (Option ℕ) × System). o.0) at ∙ picks.0,
      ap (λ (o : Option (Option ℕ) × System). flags (word i o.1)) at
          ∙ picks.1.0
          ∙ ap
              (λ (g : Flags). record g { ready = false; readybasic = false; access = g.access + 1 })
              ready,
      ap (λ (o : Option (Option ℕ) × System). (o.1.jobs i).run) at
          ∙ picks.1.1
          ∙ setready-run i s free,
    )
