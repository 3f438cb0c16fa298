-- ===== src/Meta/Desired.antt =====
-- The word that `schedi_job_meta_flag_cas_update` of src/jobs.c writes: the counts, and the
-- readiness bits derived from them.
use schedi.Prelude.{
  ℕ, ◌%◌, ◌/◌, ◌^◌, ◌<◌, ◌≤◌, ◌≡◌, ◌∙◌, ap, Bool, true, false, ◌||◌, ◌==◌, if◌then◌else◌, bit_and,
  bit_or, arith,
}
use schedi.Prelude.Int.{ℤ, pos, leb_ℤ}
use schedi.Prelude.Bits.{bit_and_low}
use schedi.Meta.Flag
use schedi.Meta.Flags.{Flags, flags, either, both, flags-bit_or, flags-bit_and}
use schedi.Meta.{complement, set_avsock, set_wait, set_avjobs, desired_word}
use schedi.Meta.Counts.{masks, flags-set_avsock, flags-set_wait, flags-set_avjobs}

-- The flags `f` with the bits of a low `flag` added, the given counts and the given derived bits.
abbrev pub recount : Flags → Flags → (avsock wait avjobs : ℕ) → (sock tool job : Bool) → Flags
recount f g avsock wait avjobs sock tool job = record {
  alive = f.alive || g.alive;
  unstable = f.unstable || g.unstable;
  executing = f.executing || g.executing;
  wlldestroy = f.wlldestroy || g.wlldestroy;
  destroynotent = f.destroynotent || g.destroynotent;
  ready = f.ready || g.ready;
  readybasic = f.readybasic || g.readybasic;
  readyepolltool = tool;
  readyepollsock = sock;
  readyjob = job;
  avsock = avsock;
  wait = wait;
  avjobs = avjobs;
  access = f.access;
}

small_and : (a : ℕ) → a ≤ 15 → bit_and a 15 ≡ a
small_and a h = bit_and_low 4 a ∙ omega arith

module _ (w flag a b c : ℕ) (low : flag < 2 ^ 9) (ha : a ≤ 15) (hb : b ≤ 15) (hc : c ≤ 15) where
  flags-counts :
      flags (set_avjobs (set_wait (set_avsock w a) b) c)
      ≡ record (flags w) { avsock = a; wait = b; avjobs = c }
  flags-counts =
      flags-set_avjobs (set_wait (set_avsock w a) b) c hc
      ∙ ap (λ (f : Flags). record f { avjobs = c })
          (flags-set_wait (set_avsock w a) b hb
            ∙ ap (λ (f : Flags). record f { wait = b }) (flags-set_avsock w a ha))

  abbrev counted : ℕ
  counted = set_avjobs (set_wait (set_avsock w a) b) c

  abbrev underived : ℕ
  underived = complement (bit_or (bit_or Flag.readyepollsock Flag.readyepolltool) Flag.readyjob)

  abbrev cleared : ℕ
  cleared = bit_and (bit_or counted flag) underived

  flags-cleared : flags cleared ≡ recount (flags w) (flags flag) a b c false false false
  unfolding flags
  flags-cleared =
      flags-bit_and (bit_or counted flag) underived
      ∙ ap (λ (f : Flags). both f (flags underived))
          (flags-bit_or counted flag ∙ ap (λ (f : Flags). either f (flags flag)) flags-counts)
      ∙ simp (
        masks,
        no_socks,
        no_waits,
        no_jobs,
        no_access,
        small_and a ha,
        small_and b hb,
        small_and c hc,
      )
    where
      no_socks : flag / 2 ^ 9 % 2 ^ 4 ≡ 0
      no_socks = omega arith

      no_waits : flag / 2 ^ 13 % 2 ^ 4 ≡ 0
      no_waits = omega arith

      no_jobs : flag / 2 ^ 17 % 2 ^ 4 ≡ 0
      no_jobs = omega arith

      no_access : flag / 2 ^ 28 % 2 ^ 4 ≡ 0
      no_access = omega arith

-- Setting a derived bit that is clear.
module _ (f g : Flags) (a b c x : ℕ) (s u j : Bool) where
  add_sock :
      (t : Bool)
      → flags x ≡ recount f g a b c false u j
      → flags (if t then bit_or x Flag.readyepollsock else x) ≡ recount f g a b c t u j
  unfolding flags
  add_sock false e = e
  add_sock true e =
      flags-bit_or x Flag.readyepollsock
      ∙ ap (λ (h : Flags). either h (flags Flag.readyepollsock)) e
      ∙ simp masks

  add_tool :
      (t : Bool)
      → flags x ≡ recount f g a b c s false j
      → flags (if t then bit_or x Flag.readyepolltool else x) ≡ recount f g a b c s t j
  unfolding flags
  add_tool false e = e
  add_tool true e =
      flags-bit_or x Flag.readyepolltool
      ∙ ap (λ (h : Flags). either h (flags Flag.readyepolltool)) e
      ∙ simp masks

  add_job :
      (t : Bool)
      → flags x ≡ recount f g a b c s u false
      → flags (if t then bit_or x Flag.readyjob else x) ≡ recount f g a b c s u t
  unfolding flags
  add_job false e = e
  add_job true e =
      flags-bit_or x Flag.readyjob
      ∙ ap (λ (h : Flags). either h (flags Flag.readyjob)) e
      ∙ simp masks

-- The word that an update writes: the new counts, the flag, and the three derived bits, which say
-- exactly whether the counts reach the thresholds and whether no request is outstanding.
pub desired_word_lem :
    (rs rj : ℤ) (w flag a b c : ℕ)
    → flag < 2 ^ 9
    → a ≤ 15
    → b ≤ 15
    → c ≤ 15
    → flags (desired_word rs rj flag a b c w)
      ≡ recount (flags w) (flags flag) a b c (leb_ℤ rs (pos a)) (b == 0) (leb_ℤ rj (pos c))
unfolding desired_word
desired_word_lem rs rj w flag a b c low ha hb hc =
    add_job (flags w) (flags flag) a b c _ (leb_ℤ rs (pos a)) (b == 0) false (leb_ℤ rj (pos c)) (
      add_tool (flags w) (flags flag) a b c _ (leb_ℤ rs (pos a)) false false (b == 0) (
        add_sock (flags w) (flags flag) a b c _ false false false (leb_ℤ rs (pos a))
          (flags-cleared w flag a b c low ha hb hc)))
