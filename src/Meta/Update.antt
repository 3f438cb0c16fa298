-- ===== src/Meta/Update.antt =====
-- `schedi_job_meta_flag_cas_update` of src/jobs.c: the counts, and the readiness bits derived from
-- them.
use schedi.Prelude.{
  ℕ, zero, suc, ◌*◌, ◌^◌, ◌<◌, ◌≤◌, ◌≡◌, refl, sym, ◌∙◌, ap, ap₂, Bool, true, false, not, ◌&&◌,
  ◌==◌, if◌then◌else◌, bit_and, bit_or, arith, Bool-cases, inl, inr,
}
use schedi.Prelude.Int.{ℤ, pos, negsuc, ◌+ℤ◌, leb_ℤ, pos_part}
use schedi.Prelude.Bits.{bit, field, bit_and-field, bit_and-bit_or, bit_and-bit_or}
use mathlib.Core.Path.{subst}
use schedi.Atomic.{Attempt, atomic, commit, quit, swap}
use schedi.Meta.Flags.{Flags, flags}
use schedi.Meta.{
  in_range, ready_set, desired_word, check_allready, cas_update, Change, Outcome, done, banned,
  out_of_range, ban_of,
}
use schedi.Meta.Counts.{get_counts}
use schedi.Meta.Desired.{recount, desired_word_lem}

-- The whole readiness set.
abbrev pub all_ready : Flags → Bool
all_ready f = f.readybasic && f.readyepolltool && f.readyepollsock && f.readyjob

abbrev flag_value : Bool → ℕ → ℕ
flag_value t k = if t then 2 ^ k else 0

bit_and_flag-value : (k w : ℕ) → bit_and w (2 ^ k) ≡ flag_value (bit k w) k
bit_and_flag-value k w =
    ap (bit_and w) (omega arith)
    ∙ bit_and-field k 1 w
    ∙ times_bit (field k 1 w) (2 ^ k) (omega arith)
  where
    times_bit : (x p : ℕ) → x < 2 → x * p ≡ (if x == 1 then p else 0)
    times_bit zero p h = omega arith
    times_bit (suc zero) p h = omega arith
    times_bit (suc (suc x)) p h = absurd (omega arith)

all_four :
    (a b c d : Bool)
    → (bit_or (bit_or (bit_or (flag_value a 6) (flag_value b 7)) (flag_value c 8)) (flag_value d 21)
        == ready_set)
      ≡ (a && b && c && d)
all_four true true true true = refl
all_four true true true false = refl
all_four true true false true = refl
all_four true true false false = refl
all_four true false true true = refl
all_four true false true false = refl
all_four true false false true = refl
all_four true false false false = refl
all_four false true true true = refl
all_four false true true false = refl
all_four false true false true = refl
all_four false true false false = refl
all_four false false true true = refl
all_four false false true false = refl
all_four false false false true = refl
all_four false false false false = refl

-- `schedi_job_meta_flag_check_allready` says whether READYBASIC, READYEPOLLTOOL, READYEPOLLSOCK and
-- READYJOB are all set.
pub check_allready_lem : (w : ℕ) → check_allready w ≡ all_ready (flags w)
unfolding check_allready flags
check_allready_lem w =
    ap (λ (t : ℕ). t == ready_set)
      (bit_and-bit_or w (bit_or (bit_or (2 ^ 6) (2 ^ 7)) (2 ^ 8)) (2 ^ 21)
        ∙ ap₂ bit_or
            (bit_and-bit_or w (bit_or (2 ^ 6) (2 ^ 7)) (2 ^ 8)
              ∙ ap₂ bit_or
                  (bit_and-bit_or w (2 ^ 6) (2 ^ 7)
                    ∙ ap₂ bit_or (bit_and_flag-value 6 w) (bit_and_flag-value 7 w))
                  (bit_and_flag-value 8 w))
            (bit_and_flag-value 21 w))
    ∙ all_four (bit 6 w) (bit 7 w) (bit 8 w) (bit 21 w)

-- The counts that an update is about to write.
module _ (c : Change) (f : Flags) where
  abbrev pub new_avsock : ℤ
  new_avsock = pos f.avsock +ℤ c.sock_delta

  abbrev pub new_wait : ℤ
  new_wait = pos f.wait +ℤ c.wait_delta

  abbrev pub new_avjobs : ℤ
  new_avjobs = pos f.avjobs +ℤ c.jobcount_delta

  abbrev pub fits : Bool
  fits = in_range new_avsock && in_range new_wait && in_range new_avjobs

  abbrev pub updated : Flags
  updated =
      recount f (flags c.flag) (pos_part new_avsock) (pos_part new_wait) (pos_part new_avjobs)
        (leb_ℤ c.required_socks new_avsock) (pos_part new_wait == 0)
        (leb_ℤ c.required_jobs new_avjobs)

-- What an update does: with a ban it returns it, with a count outside 0..15 it says so, and
-- changes nothing in both cases; otherwise the flags become `updated`, and it says whether the
-- readiness set has just become complete.
abbrev pub Updates : Change → ℕ → (free fits : Bool) → Outcome × ℕ → Type 0
Updates c w false _ (r, w') = (r ≡ banned (ban_of c.banned_flags c.ban_access w)) × (w' ≡ w)
Updates c w true false (r, w') = (r ≡ out_of_range) × (w' ≡ w)
Updates c w true true (r, w') =
    (flags w' ≡ updated c (flags w))
    × (r ≡ done (not (all_ready (flags w)) && all_ready (updated c (flags w))))

-- The body over the counts that it reads.
abbrev body : Change → ℕ → (avsock wait avjobs : ℕ) → Attempt Outcome
body c w avsock wait avjobs =
    let desired =
      desired_word c.required_socks c.required_jobs c.flag (pos_part (pos avsock +ℤ c.sock_delta))
        (pos_part (pos wait +ℤ c.wait_delta)) (pos_part (pos avjobs +ℤ c.jobcount_delta)) w in
    if not (ban_of c.banned_flags c.ban_access w == 0)
    then quit (banned (ban_of c.banned_flags c.ban_access w))
    else if not (
        in_range (pos avsock +ℤ c.sock_delta)
        && in_range (pos wait +ℤ c.wait_delta)
        && in_range (pos avjobs +ℤ c.jobcount_delta))
    then quit out_of_range
    else swap desired (done (not (check_allready w) && check_allready desired))

cas_update-body :
    (c : Change) (w : ℕ) → let f = flags w in cas_update c w ≡ body c w f.avsock f.wait f.avjobs
unfolding cas_update
cas_update-body c w = let g = get_counts w in λ i. body c w (g.1 i) (g.2 i) (g.3 i)

in_range-pos : (z : ℤ) → in_range z ≡ true → (pos (pos_part z) ≡ z) × (pos_part z ≤ 15)
in_range-pos (pos n) h = (refl, ground arith)
in_range-pos (negsuc n) h = cc

all_in_range :
    (x y z : ℤ)
    → (in_range x && in_range y && in_range z) ≡ true
    → (in_range x ≡ true) × (in_range y ≡ true) × (in_range z ≡ true)
all_in_range x y z h = ground arith

-- The word that an update writes.
abbrev written : Change → ℕ → ℕ
written c w =
    let f = flags w in
    desired_word c.required_socks c.required_jobs c.flag (pos_part (new_avsock c f))
      (pos_part (new_wait c f)) (pos_part (new_avjobs c f)) w

flags-written :
    (c : Change) (w : ℕ)
    → c.flag < 2 ^ 9
    → fits c (flags w) ≡ true
    → flags (written c w) ≡ updated c (flags w)
flags-written c w low h =
    let f = flags w in
    let r = all_in_range (new_avsock c f) (new_wait c f) (new_avjobs c f) h in
    let a = in_range-pos (new_avsock c f) r.0 in
    let b = in_range-pos (new_wait c f) r.1 in
    let j = in_range-pos (new_avjobs c f) r.2 in
    desired_word_lem c.required_socks c.required_jobs w c.flag (pos_part (new_avsock c f))
      (pos_part (new_wait c f)) (pos_part (new_avjobs c f)) low a.1 b.1 j.1
    ∙ (λ i.
        recount f (flags c.flag) (pos_part (new_avsock c f)) (pos_part (new_wait c f))
          (pos_part (new_avjobs c f)) (leb_ℤ c.required_socks (a.0 i))
          (pos_part (new_wait c f) == 0) (leb_ℤ c.required_jobs (j.0 i)))

body-Updates :
    (c : Change) (w : ℕ)
    → c.flag < 2 ^ 9
    → let f = flags w in
      Updates c w
        (ban_of c.banned_flags c.ban_access w == 0)
        (fits c f)
        (commit (body c w f.avsock f.wait f.avjobs) w)
body-Updates c w low = elim (Bool-cases (ban_of c.banned_flags c.ban_access w == 0)) [
  | inr ban ↦ rw ban (refl, refl)
  | inl free ↦ elim (Bool-cases (fits c (flags w))) [
    | inr off ↦ rw (free, off) (refl, refl)
    | inl h ↦
        let e = flags-written c w low h in
        rw (free, h)
          (
            e,
            ap₂ (λ (p q : Bool). done (not p && q)) (check_allready_lem w)
                (check_allready_lem (written c w) ∙ ap (λ (f : Flags). all_ready f) e),
          )
  ]
]

-- `schedi_job_meta_flag_cas_update`, on every branch. With a banned flag it returns the ban; with
-- a count that would leave 0..15 it returns out of range; in both cases the word stays. Otherwise
-- the counts take their deltas, the derived bits say exactly whether the new counts reach the
-- thresholds and whether no request is outstanding, and the result says whether the readiness set
-- has just become complete. The flag to set is one of the low 9.
pub cas_update_lem :
    (c : Change) (w : ℕ)
    → c.flag < 2 ^ 9
    → Updates c w
        (ban_of c.banned_flags c.ban_access w == 0)
        (fits c (flags w))
        (atomic (cas_update c) w)
cas_update_lem c w low =
    subst
      (λ a. Updates c w (ban_of c.banned_flags c.ban_access w == 0) (fits c (flags w)) (commit a w))
      (sym (cas_update-body c w)) (body-Updates c w low)
