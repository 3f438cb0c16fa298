-- ===== src/Worker/Pool/Start.antt =====
-- Which workers `schedi_worker_init` of src/worker.c starts.
use schedi.Prelude.{
  ℕ, zero, suc, ◌+◌, ◌≡◌, ◌<◌, ◌≤◌, refl, ◌∙◌, ap, min, true, false, arith, Bool-cases, inl, inr,
}
use schedi.Prelude.Int.{ℤ, pos_part}
use native.Mathlib.Decide.{dec_lt}
use schedi.Kernel.{Kernel, nonzero}
use schedi.Worker.Pool.{
  max_workers, Worker, Pool, set_worker, create_from, worker_init, update_other, update_here,
}

-- A worker that has been started, and not told to shut down.
abbrev pub IsStarted : ℕ → Worker → Type 0
IsStarted j w = (w.id ≡ j) × (w.shutdown ≡ false) × (w.alive ≡ true)

-- What the creation of `left` workers from i on does: it starts n of them in their order, counts
-- them and leaves the workers outside alone. The result is 0 only if all are started; otherwise
-- the worker after the last one is marked as not alive.
abbrev pub Starts : (left i : ℕ) → Pool → (ret : ℤ) → Pool → Type 0
Starts left i pool ret pool' =
    (n : ℕ) × (n ≤ left)
    × (pool'.worker_count ≡ pool.worker_count + n)
    × ((j : ℕ) → i ≤ j → j < i + n → IsStarted j (pool'.workers j))
    × ((j : ℕ) → j < i → pool'.workers j ≡ pool.workers j)
    × (nonzero ret ≡ false → n ≡ left)
    × (nonzero ret ≡ true → (n < left) × ((pool'.workers (i + n)).alive ≡ false))

start_one :
    (left i : ℕ) (pool : Pool) (w : Worker) (ret : ℤ) (pool' : Pool)
    → IsStarted i w
    → Starts left
        (i + 1)
        (record (set_worker i w pool) { worker_count = pool.worker_count + 1 })
        ret
        pool'
    → Starts (suc left) i pool ret pool'
start_one left i pool w ret pool' is (n, most, count, made, before, all, some_bad) = (
  suc n,
  omega arith,
  omega (arith, count),
  λ j low high. elim (dec_lt i j) [
    | yes above ↦ made j (omega arith) (omega arith)
    | no top ↦
        let here : pool'.workers j ≡ w =
          before j (omega arith) ∙ update_here pool.workers i j w (omega arith) in
        let at : j ≡ i = omega arith in rw (here, at) is
  ],
  λ j low. before j (omega arith) ∙ update_other pool.workers i j w low,
  λ ok. omega (arith, all ok),
  λ bad.
      let (less, dead) = some_bad bad in
      let e : i + suc n ≡ i + 1 + n = omega arith in (omega arith, rw e dead),
)

module _ {K : Type 0} (os : Kernel K) where
  create_from-Starts :
      (left i : ℕ) (pool : Pool) (k : K)
      → let (ret, pool', k') = create_from os left i pool k in Starts left i pool ret pool'
  unfolding create_from
  create_from-Starts zero i pool k =
      (0, omega arith, omega arith, λ j a b. absurd (omega arith), λ j h. refl, λ h. refl, λ h. cc)
  create_from-Starts (suc left) i pool k =
      let (err, thread, k') = os.pthread_create k in
      let w : Worker = record { id = i; shutdown = false; alive = true; thread = thread } in
      let off : Worker = record w { alive = false } in
      let started : Pool = record (set_worker i w pool) { worker_count = pool.worker_count + 1 } in
      elim (Bool-cases (nonzero err)) [
        | inl bad ↦ rw bad (
          0,
          omega arith,
          omega arith,
          λ j a b. absurd (omega arith),
          λ j h. update_other pool.workers i j off h,
          λ h. ground arith,
          λ h. (
            omega arith,
            ap (λ (v : Worker). v.alive) (update_here pool.workers i (i + 0) off (omega arith)),
          ),
        )
        | inr ok ↦ rw ok (
            start_one left i pool w (create_from os left (i + 1) started k').0
              (create_from os left (i + 1) started k').1 (refl, refl, refl)
              (create_from-Starts left (i + 1) started k'))
      ]

  -- `schedi_worker_init` starts workers 0, 1 and so on, at most 512 and at most as many as it is
  -- asked for, and adds their number to `worker_count`. It returns 0 only if it has started
  -- them all, and otherwise the worker whose thread could not be created is not alive.
  pub worker_init_lem :
      (count : ℤ) (pool : Pool) (k : K)
      → let (ret, pool', k') = worker_init os count pool k in
        Starts (min (pos_part count) max_workers) 0 pool ret pool'
  unfolding worker_init
  worker_init_lem count pool k = create_from-Starts (min (pos_part count) max_workers) 0 pool k
