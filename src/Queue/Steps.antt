-- ===== src/Queue/Steps.antt =====
-- The destroy queue of src/jobs.c under any threads: a push is its compare-and-swap and then two
-- stores, a pop its compare-and-swap, a read and a store, and other threads may act in between.
-- A loop's load of `ready` and its successful compare-and-swap are one step: the word is the same at
-- both. A word that comes back to the same value between the two, which its label is there to make
-- unlikely, is left out.
use schedi.Prelude.{ℕ, suc, ◌+◌, ◌≡◌, ◌==◌, Bool, true, false, Option, some}
use schedi.Atomic.{atomic}
use schedi.Queue.{Queue, empty, update, push_body, pop_body, dq_dec_count}

-- Where a thread is: in no call; past the compare-and-swap of a push; past its store into `buf`;
-- past the compare-and-swap of a pop; past its read of `buf`. Each has the index into the ring, and
-- before it the number of the push or pop, which is not in the program.
pub data Thread : Type 0 where
  outside : Thread
  reserved : (n i job : ℕ) → Thread
  placed : (n i : ℕ) → Thread
  claimed : (n i : ℕ) → Thread
  holding : (n i : ℕ) (job : Option ℕ) → Thread

-- The last three fields are not in the program: how many pushes and pops have passed their
-- compare-and-swap, and how many jobs `dq_super_pop` took out that did not come back.
pub record State : Type 0 where
  pub queue : Queue
  pub thread : ℕ → Thread
  pub pushes : ℕ
  pub pops : ℕ
  pub flying : ℕ

abbrev pub start : State
start = record { queue = empty; thread = λ t. outside; pushes = 0; pops = 0; flying = 0 }

-- Whether the thread is in a pop that has not cleared slot i yet.
abbrev pub clearing : ℕ → Thread → Bool
clearing i (claimed n j) = i == j
clearing i (holding n j job) = i == j
clearing i p = false

abbrev pub act : ℕ → Thread → Queue → State → State
act t p d s = record s { queue = d; thread = update s.thread t p }

abbrev pub publish : ℕ → Bool → Queue → Queue
publish i r d = record d { ready = update d.ready i r }

-- `jobs n` is the job of the push with number n, and `who n` its thread.
module _ (address jobs who : ℕ → ℕ) where
  -- A step of thread t. A push does not get a slot that a pop has not cleared yet: that none does is
  -- a condition on the schedule, not a test of the program.
  pub data Step : State → State → Type 0 where
    -- `dq_push_atomic`, to the end of its loop.
    pushes :
        (s : State) (t i w : ℕ)
        → s.thread t ≡ outside
        → who s.pushes ≡ t
        → atomic (push_body address true (jobs s.pushes)) s.queue.htc ≡ (some i, w)
        → ((u : ℕ) → clearing i (s.thread u) ≡ false)
        → Step s
            (record (act t (reserved s.pushes i (jobs s.pushes)) (record s.queue { htc = w }) s) {
              pushes = s.pushes + 1;
            })
    -- `dq_super_push_atomic`, of a job in flight.
    super_pushes :
        (s : State) (t i w f : ℕ)
        → s.thread t ≡ outside
        → who s.pushes ≡ t
        → s.flying ≡ suc f
        → atomic (push_body address false (jobs s.pushes)) s.queue.htc ≡ (some i, w)
        → ((u : ℕ) → clearing i (s.thread u) ≡ false)
        → Step s
            (record (act t (reserved s.pushes i (jobs s.pushes)) (record s.queue { htc = w }) s) {
              pushes = s.pushes + 1;
              flying = f;
            })
    -- `dq.buf[_htc.head] = job;`
    stores :
        (s : State) (t n i job : ℕ)
        → s.thread t ≡ reserved n i job
        → Step s (act t (placed n i) (record s.queue { buf = update s.queue.buf i (some job) }) s)
    -- The store of true into `ready`.
    publishes :
        (s : State) (t n i : ℕ)
        → s.thread t ≡ placed n i
        → Step s (act t outside (publish i true s.queue) s)
    -- `dq_pop_atomic`, to the end of its loop.
    pops :
        (s : State) (t i w : ℕ)
        → s.thread t ≡ outside
        → atomic (pop_body address true s.queue) s.queue.htc ≡ (some i, w)
        → Step s
            (record (act t (claimed s.pops i) (record s.queue { htc = w }) s) { pops = s.pops + 1 })
    -- `dq_super_pop_atomic`
    super_pops :
        (s : State) (t i w : ℕ)
        → s.thread t ≡ outside
        → atomic (pop_body address false s.queue) s.queue.htc ≡ (some i, w)
        → Step s (record (act t (claimed s.pops i) (record s.queue { htc = w }) s) {
          pops = s.pops + 1;
          flying = s.flying + 1;
        })
    -- `job = dq.buf[_htc.tail];`
    reads :
        (s : State) (t n i : ℕ)
        → s.thread t ≡ claimed n i
        → Step s (act t (holding n i (s.queue.buf i)) s.queue s)
    -- The store of false into `ready`.
    clears :
        (s : State) (t n i : ℕ) (job : Option ℕ)
        → s.thread t ≡ holding n i job
        → Step s (act t outside (publish i false s.queue) s)
    -- `dq_dec_count`, for a job in flight that was destroyed.
    uncounts :
        (s : State) (f : ℕ)
        → s.flying ≡ suc f
        → Step s (record s { queue = dq_dec_count s.queue; flying = f })

  pub data Reach : State → Type 0 where
    begin : Reach start
    step : (s t : State) → Reach s → Step s t → Reach t
