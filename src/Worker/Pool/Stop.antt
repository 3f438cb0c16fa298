-- ===== src/Worker/Pool/Stop.antt =====
-- What `schedi_worker_deinit` of src/worker.c leaves.
use schedi.Prelude.{ℕ, zero, suc, ◌+◌, ◌≡◌, ◌<◌, ◌≤◌, refl, sym, ◌∙◌, ap, true, arith}
use schedi.Prelude.Int.{ℤ}
use native.Mathlib.Decide.{dec_lt}
use schedi.Queue.{update}
use schedi.Kernel.{Kernel}
use schedi.Worker.Pool.{
  Worker, Pool, set_worker, shut_from, worker_deinit, update_other, update_here,
}

-- What the marking of `left` workers from i on does.
abbrev pub Shuts : (left i : ℕ) → Pool → Pool → Type 0
Shuts left i pool pool' =
    (pool'.worker_count ≡ pool.worker_count)
    × ((j : ℕ)
        → i ≤ j
        → j < i + left
        → pool'.workers j ≡ record (pool.workers j) { shutdown = true })
    × ((j : ℕ) → j < i → pool'.workers j ≡ pool.workers j)
    × ((j : ℕ) → i + left ≤ j → pool'.workers j ≡ pool.workers j)

shut_one :
    (left i : ℕ) (pool pool' : Pool)
    → Shuts left (i + 1) (set_worker i (record (pool.workers i) { shutdown = true }) pool) pool'
    → Shuts (suc left) i pool pool'
shut_one left i pool pool' (count, inside, before, after) = (
  count,
  λ j low high. elim (dec_lt i j) [
    | yes above ↦
        let other : update pool.workers i w j ≡ pool.workers j = ground arith in
        inside j (omega arith) (omega arith)
        ∙ ap (λ (v : Worker). record v { shutdown = true }) other
    | no top ↦
        let at : j ≡ i = omega arith in
        before j (omega arith)
        ∙ update_here pool.workers i j w at
        ∙ ap (λ (m : ℕ). record (pool.workers m) { shutdown = true }) (sym at)
  ],
  λ j low. before j (omega arith) ∙ update_other pool.workers i j w low,
  λ j high.
      let other : update pool.workers i w j ≡ pool.workers j = ground arith in
      after j (omega arith) ∙ other,
)
  where
    w : Worker
    w = record (pool.workers i) { shutdown = true }

shut_from-Shuts : (left i : ℕ) (pool : Pool) → Shuts left i pool (shut_from left i pool)
unfolding shut_from
shut_from-Shuts zero i pool = (refl, λ j a b. absurd (omega arith), λ j h. refl, λ j h. refl)
shut_from-Shuts (suc left) i pool =
    let next = set_worker i (record (pool.workers i) { shutdown = true }) pool in
    shut_one left i pool (shut_from left (i + 1) next) (shut_from-Shuts left (i + 1) next)

module _ {K : Type 0} (os : Kernel K) where
  -- `schedi_worker_deinit` marks the shutdown of every worker that is counted, changes nothing else
  -- of them and nothing of the others, and leaves no worker counted, whatever its calls return.
  pub worker_deinit_lem :
      (unlocked : ℤ) (pool : Pool) (k : K)
      → let (ret, pool', k') = worker_deinit os unlocked pool k in
        (pool'.worker_count ≡ 0)
        × ((j : ℕ)
            → j < pool.worker_count
            → pool'.workers j ≡ record (pool.workers j) { shutdown = true })
        × ((j : ℕ) → pool.worker_count ≤ j → pool'.workers j ≡ pool.workers j)
  unfolding worker_deinit
  worker_deinit_lem unlocked pool k =
      let (count, inside, before, after) = shut_from-Shuts pool.worker_count 0 pool in
      (refl, λ j h. inside j (omega arith) (omega arith), λ j h. after j (omega arith))
