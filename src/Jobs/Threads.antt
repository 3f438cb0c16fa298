-- ===== src/Jobs/Threads.antt =====
-- The mutex and the condition of ready jobs, and the start and the end of the job array (src/jobs.c):
-- what the code calls of pthread is a record of operations on a state of its own.
use schedi.Prelude.{ℕ, ◌≡◌, ◌↔◌, ◌∙◌, ap, ap₂, sym, bit_or, true, List, [], ◌∷◌}
use schedi.Prelude.Bits.{bit_or-eq-zero, zero-bit_or}
use schedi.Sections.{Section, maximum_jobs}
use schedi.Jobs.{System}

-- The objects: `readyjob_cond`, `readyjob_mutex` and `job_array.section_lock`.
pub data Object : Type 0 where
  readyjob_cond readyjob_mutex section_lock : Object

-- Each call returns 0 or an error number.
pub record Pthread (K : Type 0) : Type 0 where
  pub cond_init : Object → K → ℕ × K
  pub mutex_init : Object → K → ℕ × K
  pub cond_destroy : Object → K → ℕ × K
  pub mutex_destroy : Object → K → ℕ × K
  pub lock : Object → K → ℕ × K
  pub unlock : Object → K → ℕ × K
  pub signal : Object → K → ℕ × K
  pub broadcast : Object → K → ℕ × K
  pub wait : (condition mutex : Object) → K → ℕ × K

-- `sections_init` writes the first entry of the table alone.
pub sections_init : List Section → List Section
sections_init [] = []
sections_init (s ∷ ss) = record { a = 0; b = maximum_jobs; active = true } ∷ ss

module _ {K : Type 0} (os : Pthread K) where
  -- `schedi_pickingreadyjob`, `schedi_waitforjob` and `schedi_pickedreadyjob`
  pub pickingreadyjob : K → K
  pickingreadyjob k = (os.lock readyjob_mutex k).1

  pub waitforjob : K → K
  waitforjob k = (os.unlock readyjob_mutex (os.wait readyjob_cond readyjob_mutex k).1).1

  pub pickedreadyjob : K → K
  pickedreadyjob k = (os.unlock readyjob_mutex k).1

  -- `schedi_wake_all_job_waiters`, `schedi_wake_all_job_waiters_lockless` and
  -- `schedi_wake_job_waiter`, whose lock and unlock may fail unseen.
  pub wake_all_job_waiters : K → ℕ × K
  wake_all_job_waiters k =
      let (locked, k₁) = os.lock readyjob_mutex k in
      let (woken, k₂) = os.broadcast readyjob_cond k₁ in
      let (unlocked, k₃) = os.unlock readyjob_mutex k₂ in
      (bit_or (bit_or (bit_or 0 locked) woken) unlocked, k₃)

  pub wake_all_job_waiters_lockless : K → ℕ × K
  wake_all_job_waiters_lockless = os.broadcast readyjob_cond

  pub wake_job_waiter : K → ℕ × K
  wake_job_waiter k =
      let (woken, k₁) = os.signal readyjob_cond (os.lock readyjob_mutex k).1 in
      (bit_or 0 woken, (os.unlock readyjob_mutex k₁).1)

  pub lock_readyjob_mutex : K → ℕ × K
  lock_readyjob_mutex = os.lock readyjob_mutex

  pub unlock_readyjob_mutex : K → ℕ × K
  unlock_readyjob_mutex = os.unlock readyjob_mutex

  -- `schedi_job_init`
  pub job_init : System → K → ℕ × System × K
  job_init s k =
      let (a, k₁) = os.cond_init readyjob_cond k in
      let (b, k₂) = os.mutex_init readyjob_mutex k₁ in
      let (c, k₃) = os.mutex_init section_lock k₂ in
      (
        bit_or (bit_or (bit_or 0 a) b) c,
        record s { empty_sections = sections_init s.empty_sections },
        k₃,
      )

  -- `schedi_job_deinit`
  pub job_deinit : K → ℕ × K
  job_deinit k =
      let (a, k₁) = os.cond_destroy readyjob_cond k in
      let (b, k₂) = os.mutex_destroy readyjob_mutex k₁ in
      let (c, k₃) = os.mutex_destroy section_lock k₂ in (bit_or (bit_or (bit_or 0 a) b) c, k₃)

three_zero : (a b c : ℕ) → (bit_or (bit_or (bit_or 0 a) b) c ≡ 0) ↔ ((a ≡ 0) × (b ≡ 0) × (c ≡ 0))
three_zero a b c = (
  (λ e.
      let (ab, z) = bit_or-eq-zero (bit_or (bit_or 0 a) b) c e in
      let (za, y) = bit_or-eq-zero (bit_or 0 a) b ab in (sym (zero-bit_or a) ∙ za, y, z)),
  λ (x, y, z).
      ap₂ bit_or (ap₂ bit_or (ap (bit_or 0) x ∙ zero-bit_or 0) y ∙ zero-bit_or 0) z ∙ zero-bit_or 0,
)

module _ {K : Type 0} (os : Pthread K) where
  -- `schedi_job_init` returns 0 exactly where each of its three calls does.
  pub job_init-zero :
      (s : System) (k : K)
      → let a = os.cond_init readyjob_cond k in
        let b = os.mutex_init readyjob_mutex a.1 in
        let c = os.mutex_init section_lock b.1 in
        ((job_init os s k).0 ≡ 0) ↔ ((a.0 ≡ 0) × (b.0 ≡ 0) × (c.0 ≡ 0))
  unfolding job_init
  job_init-zero s k = three_zero _ _ _

  -- `schedi_wake_all_job_waiters` returns 0 exactly where the lock, the broadcast and the unlock do.
  pub wake_all-zero :
      (k : K)
      → let a = os.lock readyjob_mutex k in
        let b = os.broadcast readyjob_cond a.1 in
        let c = os.unlock readyjob_mutex b.1 in
        ((wake_all_job_waiters os k).0 ≡ 0) ↔ ((a.0 ≡ 0) × (b.0 ≡ 0) × (c.0 ≡ 0))
  unfolding wake_all_job_waiters
  wake_all-zero k = three_zero _ _ _
