-- ===== src/Meta/Marks.antt =====
-- The flag marks of src/jobs.c, `schedi_job_mark_*` and `schedi_job_unmark_*`: when each succeeds
-- and what it changes.
use schedi.Prelude.{
  ℕ, ◌<◌, zero, suc, ◌^◌, ◌≡◌, refl, ◌∙◌, ap, ap₂, ◌≢◌, Bool, true, false, not, ◌&&◌, ◌==◌, bit_and,
  bit_or, arith, Bool-cases, inl, inr,
}
use schedi.Prelude.Bits.{
  bit, field, bit_and-bit_or, bit_or-eq-zero, bit_and_flag-eq-zero, mask_bit_and, bit_or-zero,
  zero-bit_or, zero-bit_and, bit_and-field,
}
use schedi.Atomic.{atomic}
use schedi.Meta.Flag
use schedi.Meta.{
  mark_or, unmark_or, ban_of, complement, mark_executing, unmark_executing, mark_unstable,
  mark_alive, mark_wlldestroy, unmark_wlldestroy, mark_or_default, mark_ready, unmark_ready,
  unmark_readybasic,
}
use schedi.Meta.Counts.{masks}
use schedi.Meta.Flags.{Flags, flags, flags-bit_or, flags-bit_and}

-- Which part of a word a mask meets.
pub no_flag : (k w : ℕ) → (bit_and w (2 ^ k) == 0) ≡ not (bit k w)
no_flag k w = ground (arith, bit_and_flag-eq-zero k w)

none_of : (x y : ℕ) → (bit_or x y == 0) ≡ ((x == 0) && (y == 0))
none_of zero y = ap (λ (t : ℕ). t == 0) (zero-bit_or y)
none_of (suc x) y = ground (arith, bit_or-eq-zero (suc x) y)

pub no_flags :
    (w a b : ℕ) → (bit_and w (bit_or a b) == 0) ≡ ((bit_and w a == 0) && (bit_and w b == 0))
no_flags w a b = ap (λ (t : ℕ). t == 0) (bit_and-bit_or w a b) ∙ none_of (bit_and w a) (bit_and w b)

pub no_access : (w : ℕ) → (bit_and w Flag.access == 0) ≡ (field 28 4 w == 0)
no_access w = ground (arith, bit_and-field 28 4 w)

-- What a mark does: where it is free it returns 0 and leaves the flags `new`; otherwise it returns
-- a number other than 0 and leaves the word alone.
abbrev pub Does : Bool → Flags → ℕ → ℕ × ℕ → Type 0
Does true new w (r, w') = (r ≡ 0) × (flags w' ≡ new)
Does false new w (r, w') = (r ≢ 0) × (w' ≡ w)

module _ (flag banned : ℕ) (ban_access : Bool) (w : ℕ) (free : Bool) (new : Flags) where
  mark_or-Does :
      (ban_of banned ban_access w == 0) ≡ free
      → flags (bit_or w flag) ≡ new
      → Does free new w (atomic (mark_or flag banned ban_access) w)
  unfolding mark_or
  mark_or-Does e f = elim (Bool-cases free) [
    | inl h ↦ rw (h, e ∙ h) (refl, f)
    | inr h ↦ rw (h, e ∙ h) (ground arith, refl)
  ]

module _ (flag banned : ℕ) (ban_access : Bool) (w : ℕ) (free : Bool) (new : Flags) where
  -- An unmark whose flag is not set returns 0 and changes nothing.
  unmark_or-Does :
      (ban_of banned ban_access w == 0) ≡ free
      → flags (bit_and w (complement flag)) ≡ new
      → ((bit_and w flag == 0) ≡ true → flags w ≡ new)
      → Does free new w (atomic (unmark_or flag banned ban_access) w)
  unfolding unmark_or
  unmark_or-Does e f same = elim (Bool-cases free) [
    | inl h ↦ elim (Bool-cases (bit_and w flag == 0)) [
      | inl unset ↦ rw (h, e ∙ h, unset) (ground arith, same unset)
      | inr is_set ↦ rw (h, e ∙ h, is_set) (refl, f)
    ]
    | inr h ↦ rw (h, e ∙ h) (ground arith, refl)
  ]

-- Bans on one flag, two and three, and on three with the access count.
unbanned : (k w : ℕ) → (ban_of (2 ^ k) false w == 0) ≡ not (bit k w)
unbanned k w = ap (λ (t : ℕ). t == 0) (ap (bit_or _) (zero-bit_and _) ∙ bit_or-zero _) ∙ no_flag k w

module _ (j k w : ℕ) where
  pub no_two : (bit_and w (bit_or (2 ^ j) (2 ^ k)) == 0) ≡ (not (bit j w) && not (bit k w))
  no_two = no_flags w (2 ^ j) (2 ^ k) ∙ ap₂ ◌&&◌ (no_flag j w) (no_flag k w)

  unbanned₂ : (ban_of (bit_or (2 ^ j) (2 ^ k)) false w == 0) ≡ (not (bit j w) && not (bit k w))
  unbanned₂ = ap (λ (t : ℕ). t == 0) (ap (bit_or _) (zero-bit_and _) ∙ bit_or-zero _) ∙ no_two

module _ (i j k w : ℕ) where
  abbrev clear : Bool
  clear = not (bit i w) && not (bit j w) && not (bit k w)

  no_three : (bit_and w (bit_or (bit_or (2 ^ i) (2 ^ j)) (2 ^ k)) == 0) ≡ clear
  no_three = no_flags w (bit_or (2 ^ i) (2 ^ j)) (2 ^ k) ∙ ap₂ ◌&&◌ (no_two i j w) (no_flag k w)

  unbanned₃ : (ban_of (bit_or (bit_or (2 ^ i) (2 ^ j)) (2 ^ k)) false w == 0) ≡ clear
  unbanned₃ = ap (λ (t : ℕ). t == 0) (ap (bit_or _) (zero-bit_and _) ∙ bit_or-zero _) ∙ no_three

  unbanned_access :
      (ban_of (bit_or (bit_or (2 ^ i) (2 ^ j)) (2 ^ k)) true w == 0)
      ≡ (clear && (field 28 4 w == 0))
  unbanned_access =
      none_of (bit_and w (bit_or (bit_or (2 ^ i) (2 ^ j)) (2 ^ k))) _
      ∙ ap₂ ◌&&◌ no_three (ap (λ (t : ℕ). t == 0) (mask_bit_and 32 _ fits) ∙ no_access w)
    where
      fits : bit_and w Flag.access < 2 ^ 32
      fits = omega (arith, bit_and-field 28 4 w)

was_clear : (k w : ℕ) → (bit_and w (2 ^ k) == 0) ≡ true → bit k w ≡ false
was_clear k w e = ground (arith, no_flag k w)

-- `schedi_job_mark_executing` succeeds where the job is neither unstable nor executing, and then
-- sets EXECUTING alone; otherwise it fails and changes nothing.
pub mark_executing_lem :
    (w : ℕ)
    → let f = flags w in
      Does
        (not f.unstable && not f.executing)
        (record f { executing = true })
        w
        (atomic mark_executing w)
unfolding mark_executing flags
mark_executing_lem w =
    mark_or-Does _ _ false w _ _ (unbanned₂ 1 2 w) (flags-bit_or w Flag.executing ∙ simp masks)

-- `schedi_job_unmark_executing` succeeds where the job is not unstable, and leaves EXECUTING
-- clear and every other field alone, also where EXECUTING was not set.
pub unmark_executing_lem :
    (w : ℕ)
    → let f = flags w in
      Does (not f.unstable) (record f { executing = false }) w (atomic unmark_executing w)
unfolding unmark_executing flags
unmark_executing_lem w =
    unmark_or-Does _ _ false w _ _ (unbanned 1 w)
      (flags-bit_and w (complement Flag.executing) ∙ simp masks)
      (λ e i. record (flags w) { executing = was_clear 2 w e i })

-- `schedi_job_mark_unstable` succeeds where nobody executes, edits or accesses the job and it is
-- not READY, and then sets UNSTABLE alone; otherwise it fails and changes nothing.
pub mark_unstable_lem :
    (w : ℕ)
    → let f = flags w in
      Does
        (not f.unstable && not f.executing && not f.ready && (f.access == 0))
        (record f { unstable = true })
        w
        (atomic mark_unstable w)
unfolding mark_unstable flags
mark_unstable_lem w =
    mark_or-Does _ _ true w _ _ (unbanned_access 1 2 5 w)
      (flags-bit_or w Flag.unstable ∙ simp masks)

-- `schedi_job_mark_wlldestroy` succeeds where the job is not UNSTABLE, and then sets WLLDESTROY
-- alone; otherwise it fails and changes nothing.
pub mark_wlldestroy_lem :
    (w : ℕ)
    → let f = flags w in
      Does (not f.unstable) (record f { wlldestroy = true }) w (atomic mark_wlldestroy w)
unfolding mark_wlldestroy flags
mark_wlldestroy_lem w =
    mark_or-Does _ _ false w _ _ (unbanned 1 w) (flags-bit_or w Flag.wlldestroy ∙ simp masks)

pub unmark_wlldestroy_lem :
    (w : ℕ)
    → let f = flags w in
      Does (not f.unstable) (record f { wlldestroy = false }) w (atomic unmark_wlldestroy w)
unfolding unmark_wlldestroy flags
unmark_wlldestroy_lem w =
    unmark_or-Does _ _ false w _ _ (unbanned 1 w)
      (flags-bit_and w (complement Flag.wlldestroy) ∙ simp masks)
      (λ e i. record (flags w) { wlldestroy = was_clear 3 w e i })

pub mark_alive_lem :
    (w : ℕ)
    → let f = flags w in Does (not f.unstable) (record f { alive = true }) w (atomic mark_alive w)
unfolding mark_alive flags
mark_alive_lem w =
    mark_or-Does _ _ false w _ _ (unbanned 1 w) (flags-bit_or w Flag.alive ∙ simp masks)

pub mark_destroynotent_lem :
    (w : ℕ)
    → let f = flags w in
      Does
        (not f.unstable)
        (record f { destroynotent = true })
        w
        (atomic (mark_or_default Flag.destroynotent) w)
unfolding mark_or_default flags
mark_destroynotent_lem w =
    mark_or-Does _ _ false w _ _ (unbanned 1 w) (flags-bit_or w Flag.destroynotent ∙ simp masks)

-- `schedi_job_mark_ready` succeeds where the job is not UNSTABLE, WLLDESTROY or READY, and then
-- sets READY alone; otherwise it fails and changes nothing.
pub mark_ready_lem :
    (w : ℕ)
    → let f = flags w in
      Does
        (not f.unstable && not f.wlldestroy && not f.ready)
        (record f { ready = true })
        w
        (atomic mark_ready w)
unfolding mark_ready flags
mark_ready_lem w =
    mark_or-Does _ _ false w _ _ (unbanned₃ 1 3 5 w) (flags-bit_or w Flag.ready ∙ simp masks)

-- `schedi_job_unmark_ready` succeeds where the job is neither UNSTABLE nor WLLDESTROY, and leaves
-- READY clear and every other field alone; otherwise it fails and changes nothing.
pub unmark_ready_lem :
    (w : ℕ)
    → let f = flags w in
      Does
        (not f.unstable && not f.wlldestroy)
        (record f { ready = false })
        w
        (atomic unmark_ready w)
unfolding unmark_ready flags
unmark_ready_lem w =
    unmark_or-Does _ _ false w _ _ (unbanned₂ 1 3 w)
      (flags-bit_and w (complement Flag.ready) ∙ simp masks)
      (λ e i. record (flags w) { ready = was_clear 5 w e i })

pub unmark_readybasic_lem :
    (w : ℕ)
    → let f = flags w in
      Does
        (not f.unstable && not f.wlldestroy)
        (record f { readybasic = false })
        w
        (atomic unmark_readybasic w)
unfolding unmark_readybasic flags
unmark_readybasic_lem w =
    unmark_or-Does _ _ false w _ _ (unbanned₂ 1 3 w)
      (flags-bit_and w (complement Flag.readybasic) ∙ simp masks)
      (λ e i. record (flags w) { readybasic = was_clear 6 w e i })
