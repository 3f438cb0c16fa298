-- ===== src/Queue/Stuck.antt =====
-- What the ring does at its limits: 1024 jobs in it, or 1024 jobs counted.
use schedi.Prelude.{
  ℕ, suc, ◌+◌, ◌≡◌, refl, ◌∙◌, ap, true, false, none, List, [], ◌∷◌, length, arith, inl, inr,
}
use schedi.Prelude.Int.{negsuc}
use schedi.Queue.{Queue, dq_size, dq_push, dq_super_push, dq_pop, dq_super_pop}
use schedi.Queue.Fifo.{IsQueue, reads, push_full}
use schedi.Queue.Pop.{pop_none, empty_tail}

pub data Use : Type 0 where
  push : ℕ → Use
  super_push : ℕ → Use
  pop : Use
  super_pop : Use

module _ (address : ℕ → ℕ) where
  -- The ring after one call, and after several.
  unfoldable pub call : Use → Queue → Queue
  call (push job) d = (dq_push address job d).1
  call (super_push job) d = (dq_super_push address job d).1
  call pop d = (dq_pop address d).1
  call super_pop d = (dq_super_pop address d).1

  unfoldable pub calls : List Use → Queue → Queue
  calls [] d = d
  calls (u ∷ us) d = calls us (call u d)

  -- `dq_pop` and `dq_super_pop` of a ring without jobs return NULL and change nothing.
  pub pop-empty :
      {d : Queue} {f : ℕ}
      → IsQueue d [] f
      → (dq_pop address d ≡ (none, d)) × (dq_super_pop address d ≡ (none, d))
  unfolding dq_pop dq_super_pop
  pop-empty {d} q =
      let t = empty_tail address q (inl refl) in
      (pop_none address true d t, pop_none address false d t)

  call_stuck :
      {d : Queue} {js : List ℕ} (u : Use) → IsQueue d js 0 → length js ≡ dq_size → call u d ≡ d
  unfolding call dq_push dq_super_push dq_pop dq_super_pop
  call_stuck {d} (push job) q e =
      ap (λ r. r.1) (push_full address true job d (omega (arith, (reads q).2)))
  call_stuck {d} (super_push job) q e =
      ap (λ r. r.1) (push_full address false job d (omega (arith, (reads q).2)))
  call_stuck {d} pop q e = ap (λ r. r.1) (pop_none address true d (empty_tail address q (inr e)))
  call_stuck {d} super_pop q e =
      ap (λ r. r.1) (pop_none address false d (empty_tail address q (inr e)))

  -- A ring that holds 1024 jobs with none in flight stays as it is under every sequence of pushes
  -- and pops: its jobs never come out.
  pub full_stuck :
      {d : Queue} {js : List ℕ} (us : List Use)
      → IsQueue d js 0
      → length js ≡ dq_size
      → calls us d ≡ d
  unfolding calls
  full_stuck [] q e = refl
  full_stuck (u ∷ us) q e = ap (calls us) (call_stuck u q e) ∙ full_stuck us q e

  -- A job that `dq_super_pop` took out of a ring whose count is 1024 is refused when
  -- `dq_super_push` puts it back: -1, and the ring stays without it.
  pub dq_super_push_refused :
      {d : Queue} {js : List ℕ} {f : ℕ} (job : ℕ)
      → IsQueue d js (suc f)
      → length js + suc f ≡ dq_size
      → dq_super_push address job d ≡ (negsuc 0, d)
  unfolding dq_super_push
  dq_super_push_refused {d} job q e = push_full address false job d (omega (arith, (reads q).2))
