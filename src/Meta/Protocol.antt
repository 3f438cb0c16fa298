-- ===== src/Meta/Protocol.antt =====
-- The `meta_flag` protocol of src/jobs.c: the atomic steps that any thread may take on a job's
-- word, in any order.
use schedi.Prelude.{
  ℕ, ◌≡◌, ◌≢◌, refl, sym, ap, Bool, true, false, bit_or, arith, ◌⊎◌, inl, inr, ◌<◌, ◌^◌,
}
use mathlib.Core.Path.{subst}
use schedi.Prelude.Bits.{bit}
use schedi.Atomic.{Attempt, atomic}
use schedi.Meta.Flag
use schedi.Meta.Flags.{Flags, flags}
use schedi.Meta.{
  mark_executing, unmark_executing, mark_unstable, mark_alive, mark_wlldestroy, unmark_wlldestroy,
  mark_or_default, mark_ready, unmark_ready, unmark_readybasic, mark_access, unmark_access,
  cas_update, Change, Outcome,
}
use schedi.Meta.Marks.{
  Does, mark_executing_lem, unmark_executing_lem, mark_unstable_lem, mark_alive_lem,
  mark_wlldestroy_lem, unmark_wlldestroy_lem, mark_destroynotent_lem, mark_ready_lem,
  unmark_ready_lem, unmark_readybasic_lem,
}
use schedi.Meta.Access.{mark_access_lem, unmark_access_lem}
use schedi.Meta.Update.{Updates, cas_update_lem, updated}

-- A mark by some thread.
pub data Mark : Type 0 where
  executing not_executing unstable alive wlldestroy not_wlldestroy destroynotent : Mark
  ready not_ready not_readybasic access not_access : Mark

unfoldable pub operation : Mark → ℕ → Attempt ℕ
unfolding mark_executing
operation executing = mark_executing
operation not_executing = unmark_executing
operation unstable = mark_unstable
operation alive = mark_alive
operation wlldestroy = mark_wlldestroy
operation not_wlldestroy = unmark_wlldestroy
operation destroynotent = mark_or_default Flag.destroynotent
operation ready = mark_ready
operation not_ready = unmark_ready
operation not_readybasic = unmark_readybasic
operation access = mark_access
operation not_access = unmark_access

-- The updates of the source set no flag but READYBASIC.
abbrev pub Plain : Change → Type 0
Plain c = (c.flag ≡ 0) ⊎ (c.flag ≡ Flag.readybasic)

-- The word that `schedi_job_create` stores.
abbrev pub created : ℕ
created = bit_or (bit_or (bit_or Flag.alive Flag.readyepollsock) Flag.readyepolltool) Flag.readyjob

-- Marks and updates come from any thread; the three stores are those of `section_claim`,
-- `schedi_job_create` and `schedi_job_destroy_now`.
pub data Step : ℕ → ℕ → Type 0 where
  mark : (m : Mark) (w : ℕ) → Step w (atomic (operation m) w).1
  update : (c : Change) (w : ℕ) → Plain c → Step w (atomic (cas_update c) w).1
  claim : (w : ℕ) → Step w Flag.unstable
  create : (w : ℕ) → Step w created
  release : (w : ℕ) → Step w 0

pub data Reach : ℕ → ℕ → Type 0 where
  here : {w : ℕ} → Reach w w
  next : {u v w : ℕ} → Reach u v → Step v w → Reach u w

-- Whoever holds UNSTABLE has the job alone.
abbrev pub Exclusive : Flags → Type 0
Exclusive f = f.unstable ≡ true → (f.executing ≡ false) × (f.ready ≡ false) × (f.access ≡ 0)

Does-Exclusive :
    (free : Bool) (new : Flags) (w : ℕ) (out : ℕ × ℕ)
    → Does free new w out
    → (free ≡ true → Exclusive new)
    → Exclusive (flags w)
    → Exclusive (flags out.1)
Does-Exclusive true new w (r, w') d n e = subst Exclusive (sym d.1) (n refl)
Does-Exclusive false new w (r, w') d n e = subst (λ (t : ℕ). Exclusive (flags t)) (sym d.1) e

mark-Exclusive :
    (m : Mark) (w : ℕ) → Exclusive (flags w) → Exclusive (flags (atomic (operation m) w).1)
unfolding operation
mark-Exclusive executing w e = Does-Exclusive _ _ w _ (mark_executing_lem w) (λ h u. ground arith) e
mark-Exclusive not_executing w e =
    Does-Exclusive _ _ w _ (unmark_executing_lem w) (λ h u. ground arith) e
mark-Exclusive unstable w e = Does-Exclusive _ _ w _ (mark_unstable_lem w) (λ h u. ground arith) e
mark-Exclusive alive w e = Does-Exclusive _ _ w _ (mark_alive_lem w) (λ h u. e u) e
mark-Exclusive wlldestroy w e = Does-Exclusive _ _ w _ (mark_wlldestroy_lem w) (λ h u. e u) e
mark-Exclusive not_wlldestroy w e = Does-Exclusive _ _ w _ (unmark_wlldestroy_lem w) (λ h u. e u) e
mark-Exclusive destroynotent w e = Does-Exclusive _ _ w _ (mark_destroynotent_lem w) (λ h u. e u) e
mark-Exclusive ready w e = Does-Exclusive _ _ w _ (mark_ready_lem w) (λ h u. ground arith) e
mark-Exclusive not_ready w e = Does-Exclusive _ _ w _ (unmark_ready_lem w) (λ h u. ground arith) e
mark-Exclusive not_readybasic w e = Does-Exclusive _ _ w _ (unmark_readybasic_lem w) (λ h u. e u) e
mark-Exclusive access w e = Does-Exclusive _ _ w _ (mark_access_lem w) (λ h u. ground arith) e
mark-Exclusive not_access w e = Does-Exclusive _ _ w _ (unmark_access_lem w) (λ h u. ground arith) e

Plain-low : (c : Change) → Plain c → c.flag < 2 ^ 9
Plain-low c p = omega arith

Plain-flags :
    (c : Change)
    → Plain c
    → let g = flags c.flag in (g.unstable ≡ false) × (g.executing ≡ false) × (g.ready ≡ false)
unfolding flags
Plain-flags c (inl e) = (ap (bit 1) e, ap (bit 2) e, ap (bit 5) e)
Plain-flags c (inr e) = (ap (bit 1) e, ap (bit 2) e, ap (bit 5) e)

updated-Exclusive : (c : Change) (f : Flags) → Plain c → Exclusive f → Exclusive (updated c f)
updated-Exclusive c f p e u = ground (arith, Plain-flags c p)

Updates-Exclusive :
    (c : Change) (w : ℕ) (free fit : Bool) (out : Outcome × ℕ)
    → Updates c w free fit out
    → Plain c
    → Exclusive (flags w)
    → Exclusive (flags out.1)
Updates-Exclusive c w false fit out u p e = subst (λ (t : ℕ). Exclusive (flags t)) (sym u.1) e
Updates-Exclusive c w true false out u p e = subst (λ (t : ℕ). Exclusive (flags t)) (sym u.1) e
Updates-Exclusive c w true true out u p e =
    subst Exclusive (sym u.0) (updated-Exclusive c (flags w) p e)

-- Every step keeps the editor alone.
Step-Exclusive : {w v : ℕ} → Step w v → Exclusive (flags w) → Exclusive (flags v)
Step-Exclusive (mark m w) e = mark-Exclusive m w e
Step-Exclusive (update c w p) e =
    Updates-Exclusive c w _ _ _ (cas_update_lem c w (Plain-low c p)) p e
Step-Exclusive (claim w) e = unfold flags in (λ u. (refl, refl, refl))
Step-Exclusive (create w) e = unfold flags in (λ u. cc)
Step-Exclusive (release w) e = unfold flags in (λ u. cc)

Reach-Exclusive : {w : ℕ} → Reach 0 w → Exclusive (flags w)
Reach-Exclusive here = unfold flags in (λ u. cc)
Reach-Exclusive (next r s) = Step-Exclusive s (Reach-Exclusive r)

-- In every word that threads can bring about from a free slot, a job that is UNSTABLE is neither
-- EXECUTING nor READY, and nobody has access to it.
pub unstable_alone :
    {w : ℕ}
    → Reach 0 w
    → (flags w).unstable ≡ true
    → let f = flags w in (f.executing ≡ false) × (f.ready ≡ false) × (f.access ≡ 0)
unstable_alone r u = Reach-Exclusive r u

banned_word :
    (free : Bool) (new : Flags) (w : ℕ) (out : ℕ × ℕ)
    → Does free new w out
    → free ≡ false
    → (out.0 ≢ 0) × (out.1 ≡ w)
banned_word true new w out d e = cc
banned_word false new w out d e = d

-- While a job is UNSTABLE every mark and every access of another thread fails, and the word stays
-- as the editor left it.
pub unstable_frozen :
    (m : Mark) (w : ℕ)
    → (flags w).unstable ≡ true
    → let (r, w') = atomic (operation m) w in (r ≢ 0) × (w' ≡ w)
unfolding operation
unstable_frozen executing w u = banned_word _ _ w _ (mark_executing_lem w) (rw u)
unstable_frozen not_executing w u = banned_word _ _ w _ (unmark_executing_lem w) (rw u)
unstable_frozen unstable w u = banned_word _ _ w _ (mark_unstable_lem w) (rw u)
unstable_frozen alive w u = banned_word _ _ w _ (mark_alive_lem w) (rw u)
unstable_frozen wlldestroy w u = banned_word _ _ w _ (mark_wlldestroy_lem w) (rw u)
unstable_frozen not_wlldestroy w u = banned_word _ _ w _ (unmark_wlldestroy_lem w) (rw u)
unstable_frozen destroynotent w u = banned_word _ _ w _ (mark_destroynotent_lem w) (rw u)
unstable_frozen ready w u = banned_word _ _ w _ (mark_ready_lem w) (rw u)
unstable_frozen not_ready w u = banned_word _ _ w _ (unmark_ready_lem w) (rw u)
unstable_frozen not_readybasic w u = banned_word _ _ w _ (unmark_readybasic_lem w) (rw u)
unstable_frozen access w u = banned_word _ _ w _ (mark_access_lem w) (rw u)
unstable_frozen not_access w u = banned_word _ _ w _ (unmark_access_lem w) (rw u)
