-- ===== src/Worker/Pool.antt =====
-- `schedi_worker_init` and `schedi_worker_deinit` of src/worker.c.
pub mod Start
pub mod Stop
use schedi.Prelude.{
  ℕ, zero, suc, ◌+◌, ◌-◌, ◌≡◌, ◌≢◌, ◌<◌, ◌≤◌, refl, sym, ◌∙◌, ap, min, Bool, true, false, not, ◌==◌,
  if◌then◌else◌, arith, Bool-cases, inl, inr,
}
use schedi.Prelude.Int.{ℤ, pos, negsuc, pos_part}
use native.Mathlib.Decide.{dec_lt}
use schedi.Queue.{update}
use schedi.Kernel.{Kernel, nonzero}

-- SCHEDI_MAX_WORKERS and SCHEDI_DEFAULT_WORKER_COUNT
abbrev pub max_workers : ℕ
max_workers = 512

abbrev pub default_worker_count : ℕ
default_worker_count = 4

-- `struct schedi_worker_ctx`
pub record Worker : Type 0 where
  pub id : ℕ
  pub shutdown : Bool
  pub alive : Bool
  pub thread : ℕ

-- The static data of the file.
pub record Pool : Type 0 where
  pub workers : ℕ → Worker
  pub worker_count : ℕ

abbrev pub set_worker : ℕ → Worker → Pool → Pool
set_worker i w pool = record pool { workers = update pool.workers i w }

-- The loop of `schedi_worker_deinit` that marks the shutdown, from worker i on.
unfoldable pub shut_from : (left i : ℕ) → Pool → Pool
shut_from zero i pool = pool
shut_from (suc left) i pool =
    shut_from left (i + 1) (set_worker i (record (pool.workers i) { shutdown = true }) pool)

module _ {K : Type 0} (os : Kernel K) where
  -- The loop of `schedi_worker_init` from worker i on, with the rounds that are left.
  unfoldable pub create_from : (left i : ℕ) → Pool → K → ℤ × Pool × K
  create_from zero i pool k = (pos 0, pool, k)
  create_from (suc left) i pool k =
      let (err, thread, k') = os.pthread_create k in
      let w : Worker = record { id = i; shutdown = false; alive = true; thread = thread } in
      let started = record (set_worker i w pool) { worker_count = pool.worker_count + 1 } in
      let rest = create_from left (i + 1) started k' in
      if nonzero err then (err, set_worker i (record w { alive = false }) pool, k') else rest

  -- `schedi_worker_init`
  unfoldable pub worker_init : (count : ℤ) → Pool → K → ℤ × Pool × K
  unfolding create_from
  worker_init count = create_from (min (pos_part count) max_workers) 0

  -- `schedi_worker_initd`
  abbrev pub worker_initd : Pool → K → ℤ × Pool × K
  worker_initd = worker_init (pos default_worker_count)

  -- Its loop that joins; `ret` is the result so far.
  unfoldable pub join_from : (left i : ℕ) → (ret : ℤ) → Pool → K → ℤ × K
  join_from zero i ret pool k = (ret, k)
  join_from (suc left) i ret pool k =
      let out = os.pthread_join (pool.workers i).thread k in
      join_from left (i + 1) (if nonzero out.0 then out.0 else ret) pool out.1

  -- `schedi_worker_deinit`. Each of the three calls on the mutex and the condition assigns `ret`, so
  -- that the result of the last is left: `unlocked`.
  unfoldable pub worker_deinit : (unlocked : ℤ) → Pool → K → ℤ × Pool × K
  unfolding shut_from join_from
  worker_deinit unlocked pool k =
      let shut = shut_from pool.worker_count 0 pool in
      let out = join_from shut.worker_count 0 unlocked shut k in
      (out.0, record shut { worker_count = 0 }, out.1)

pub update_other : (ws : ℕ → Worker) (i j : ℕ) (w : Worker) → j < i → update ws i w j ≡ ws j
update_other ws i j w h = ground arith

pub update_here : (ws : ℕ → Worker) (i j : ℕ) (w : Worker) → j ≡ i → update ws i w j ≡ w
update_here ws i j w h = ground arith
