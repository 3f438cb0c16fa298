-- ===== src/Jobs/Words.antt =====
-- The words of the jobs after an operation on one of them (src/jobs.c).
use schedi.Prelude.{ℕ, ◌≡◌, ◌∙◌, ap, Bool, true, arith}
use mathlib.Core.Path.{subst}
use schedi.Atomic.{Attempt, atomic}
use schedi.Meta.Flags.{Flags, flags}
use schedi.Meta.Marks.{Does}
use schedi.Jobs.{System, mark}

-- The word of a job.
abbrev pub word : ℕ → System → ℕ
word i s = (s.jobs i).meta_flag

pub word-mark :
    (body : ℕ → Attempt ℕ) (i : ℕ) (s : System)
    → word i (mark body i s).1 ≡ (atomic body (word i s)).1
word-mark body i s = ground arith

pub flags-mark :
    (body : ℕ → Attempt ℕ) (i : ℕ) (s : System) {new : Flags}
    → Does true new (word i s) (atomic body (word i s))
    → flags (word i (mark body i s).1) ≡ new
flags-mark body i s d = ap flags (word-mark body i s) ∙ d.1

pub succeeds :
    (body : ℕ → Attempt ℕ) (w : ℕ) (b : Bool) (new : Flags)
    → b ≡ true
    → Does b new w (atomic body w)
    → Does true new w (atomic body w)
succeeds body w b new e d = subst (λ c. Does c new w (atomic body w)) e d
