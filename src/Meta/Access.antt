-- ===== src/Meta/Access.antt =====
-- `schedi_job_mark_access` and `schedi_job_unmark_access` of src/jobs.c.
use schedi.Prelude.{
  ℕ, ◌+◌, ◌-◌, ◌%◌, ◌<◌, ◌≡◌, ◌≢◌, refl, ◌∙◌, ap, Bool, true, false, not, ◌&&◌, ◌==◌, if◌then◌else◌,
  bit_and, bit_or, arith, Bool-cases, inl, inr,
}
use schedi.Prelude.Bits.{bit_and-field}
use schedi.Atomic.{atomic, commit, quit, swap}
use schedi.Meta.Flag
use schedi.Meta.Flags.{Flags, flags}
use schedi.Meta.{u32, complement, get_access, set_access, mark_access, unmark_access}
use schedi.Meta.Counts.{flags-set_access, get_counts}
use schedi.Meta.Marks.{Does, no_flag, no_two}

pub access-lt : (w : ℕ) → (flags w).access < 16
unfolding flags
access-lt w = omega arith

-- `if (ban) return ban;`, a write of `d` otherwise.
guarded-Does :
    (ban d w : ℕ) (free : Bool) (new : Flags)
    → (ban == 0) ≡ free
    → flags d ≡ new
    → Does free new w (commit (if not (ban == 0) then quit ban else swap d 0) w)
guarded-Does ban d w free new e f = elim (Bool-cases free) [
  | inl h ↦ rw (h, e ∙ h) (refl, f)
  | inr h ↦ rw (h, e ∙ h) (ground arith, refl)
]

-- The same with a second exit, which returns `full`.
guarded_twice-Does :
    (ban full d w : ℕ) (most free left : Bool) (new : Flags)
    → (ban == 0) ≡ free
    → most ≡ not left
    → (left ≡ false → full ≢ 0)
    → (left ≡ true → flags d ≡ new)
    → Does
        (free && left)
        new
        w
        (commit (if not (ban == 0) then quit ban else if most then quit full else swap d 0) w)
guarded_twice-Does ban full d w most true true new e m ne f = rw (e, m) (refl, f refl)
guarded_twice-Does ban full d w most true false new e m ne f = rw (e, m) (ne refl, refl)
guarded_twice-Does ban full d w most false left new e m ne f = rw e (ground arith, refl)

-- `schedi_job_mark_access` succeeds where the job is neither UNSTABLE nor WLLDESTROY and has fewer
-- than 15 accesses, and then adds 1 to the count and changes no flag; otherwise it fails and
-- changes nothing.
pub mark_access_lem :
    (w : ℕ)
    → let f = flags w in
      Does
        (not f.unstable && not f.wlldestroy && not (f.access == 15))
        (record f { access = f.access + 1 })
        w
        (atomic mark_access w)
unfolding mark_access
mark_access_lem w =
    guarded_twice-Does (bit_and w (bit_or Flag.unstable Flag.wlldestroy)) (bit_and w Flag.access)
      (set_access w (get_access w + 1)) w (get_access w == 15) _ (not ((flags w).access == 15)) _
      (unfold flags in no_two 1 3 w) (ground (arith, (get_counts w).0))
      (λ l. unfold flags in ground (arith, bit_and-field 28 4 w))
      (λ l.
        flags-set_access w (get_access w + 1) (ground (arith, (get_counts w).0, access-lt w))
        ∙ ap (λ (t : ℕ). record (flags w) { access = t + 1 }) (get_counts w).0)

-- Only the low 4 bits of what SETACCESS is given count.
set_access-mod : (w a : ℕ) → set_access w a ≡ set_access w (a % 16)
set_access-mod w a = ap (λ (t : ℕ). bit_or t (bit_and w (complement Flag.access))) (omega arith)

-- `schedi_job_unmark_access` succeeds where the job is not UNSTABLE, and then takes 1 off the
-- count, modulo 16, and changes no flag; otherwise it fails and changes nothing.
pub unmark_access_lem :
    (w : ℕ)
    → let f = flags w in
      Does (not f.unstable) (record f { access = (f.access + 15) % 16 }) w (atomic unmark_access w)
unfolding unmark_access
unmark_access_lem w =
    let taken : ℕ = (get_access w + u32 - 1) % u32 in
    guarded-Does (bit_and w Flag.unstable) (set_access w taken) w _ _ (unfold flags in no_flag 1 w)
      (ap flags (set_access-mod w taken)
        ∙ flags-set_access w (taken % 16) (omega arith)
        ∙ ap (λ (t : ℕ). record (flags w) { access = t }) (omega (arith, (get_counts w).0)))
