-- ===== src/Queue/Held.antt =====
-- What the threads at the destroy queue know of the ring, and that the steps of others keep it.
use schedi.Prelude.{
  ℕ, ◌+◌, ◌%◌, ◌≤◌, ◌<◌, ◌≡◌, ap, Bool, true, false, ◌==◌, Option, some, arith, inl, inr,
  Bool-cases,
}
use mathlib.Core.Path.{subst}
use schedi.Queue.{Queue, dq_size, update}
use schedi.Queue.Steps.{
  Thread, outside, reserved, placed, claimed, holding, State, clearing, publish,
}
use schedi.Queue.Tickets.{IsWord}

module _ (address jobs who : ℕ → ℕ) where
  -- What a thread t knows of the ring, after p pushes and q pops.
  abbrev pub Good : Queue → (p q t : ℕ) → Thread → Type 0
  Good d p q t outside = Unit
  Good d p q t (reserved n i job) =
      (i ≡ n % dq_size) × (q ≤ n) × (n < p) × (who n ≡ t) × (d.ready i ≡ false) × (job ≡ jobs n)
  Good d p q t (placed n i) =
      (i ≡ n % dq_size)
      × (q ≤ n)
      × (n < p)
      × (who n ≡ t)
      × (d.ready i ≡ false)
      × (d.buf i ≡ some (jobs n))
  Good d p q t (claimed n i) =
      (i ≡ n % dq_size) × (n < q) × (p ≤ n + dq_size) × (d.buf i ≡ some (jobs n))
  Good d p q t (holding n i job) =
      (i ≡ n % dq_size) × (n < q) × (p ≤ n + dq_size) × (job ≡ some (jobs n))

  -- A slot that is marked as ready has the job of its push, or is being cleared by a pop.
  pub record Inv (s : State) : Type 0 where
    pub count : ℕ
    pub word : IsWord s.queue.htc s.pushes s.pops count
    pub counted : s.pops + count ≡ s.pushes + s.flying
    pub behind : s.pops ≤ s.pushes
    pub good : (t : ℕ) → Good s.queue s.pushes s.pops t (s.thread t)
    pub live :
        (n : ℕ)
        → s.pops ≤ n
        → n < s.pushes
        → s.queue.ready (n % dq_size) ≡ true
        → s.queue.buf (n % dq_size) ≡ some (jobs n)
    pub left :
        (n : ℕ)
        → s.pushes ≤ n
        → n < s.pops + dq_size
        → s.queue.ready (n % dq_size) ≡ true
        → (t : ℕ) × (clearing (n % dq_size) (s.thread t) ≡ true)

  -- Each thread after a move of thread t.
  pub each_thread :
      (d : Queue) (p q t : ℕ) (x : Thread) (thread : ℕ → Thread)
      → Good d p q t x
      → ((u : ℕ) → (t == u) ≡ false → Good d p q u (thread u))
      → (u : ℕ) → Good d p q u (update thread t x u)
  each_thread d p q t x thread here others u = elim (Bool-cases (t == u)) [
    | inl e ↦ rw e (subst (λ (v : ℕ). Good d p q v x) (omega (arith, tests_eq t u e)) here)
    | inr ne ↦ rw ne (others u ne)
  ]
    where
      tests_eq : (a b : ℕ) → (a == b) ≡ true → a ≡ b
      tests_eq a b e = ground arith

  pub Good-pushed :
      (d : Queue) (w p q t : ℕ) (x : Thread)
      → clearing (p % dq_size) x ≡ false
      → Good d p q t x
      → Good (record d { htc = w }) (p + 1) q t x
  Good-pushed d w p q t outside free g = tt
  Good-pushed d w p q t (reserved n i job) free g = (g.0, g.1, omega arith, g.3, g.4, g.5)
  Good-pushed d w p q t (placed n i) free g = (g.0, g.1, omega arith, g.3, g.4, g.5)
  Good-pushed d w p q t (claimed n i) free g = (g.0, g.1, ground (arith, g.0, g.2), g.3)
  Good-pushed d w p q t (holding n i job) free g = (g.0, g.1, ground (arith, g.0, g.2), g.3)

  later :
      (d : Queue) (q n i : ℕ)
      → d.ready (q % dq_size) ≡ true
      → i ≡ n % dq_size
      → q ≤ n
      → d.ready i ≡ false
      → q + 1 ≤ n
  later d q n i r e h off = elim (Bool-cases (q == n)) [
    | inl same ↦ absurd (ground arith)
    | inr ne ↦ ground arith
  ]

  pub Good-popped :
      (d : Queue) (w p q t : ℕ) (x : Thread)
      → d.ready (q % dq_size) ≡ true
      → Good d p q t x
      → Good (record d { htc = w }) p (q + 1) t x
  Good-popped d w p q t outside r g = tt
  Good-popped d w p q t (reserved n i job) r g =
      (g.0, later d q n i r g.0 g.1 g.4, g.2, g.3, g.4, g.5)
  Good-popped d w p q t (placed n i) r g = (g.0, later d q n i r g.0 g.1 g.4, g.2, g.3, g.4, g.5)
  Good-popped d w p q t (claimed n i) r g = (g.0, omega arith, g.2, g.3)
  Good-popped d w p q t (holding n i job) r g = (g.0, omega arith, g.2, g.3)

  -- Thread t is in the push with number n; another one is at a slot of its own.
  module _ (d : Queue) (p q t n i : ℕ) (at : i ≡ n % dq_size) (low : q ≤ n) (high : n < p)
      (mine : who n ≡ t) (narrow : p ≤ q + dq_size) where
    apart :
        (m j u : ℕ)
        → (t == u) ≡ false
        → j ≡ m % dq_size
        → q ≤ m
        → m < p
        → who m ≡ u
        → (i == j) ≡ false
    apart m j u ne e lo hi its = elim (Bool-cases (n == m)) [
      | inl same ↦ absurd (ground (arith, ap who (eq_of n m same)))
      | inr ne' ↦ ground arith
    ]
      where
        eq_of : (a b : ℕ) → (a == b) ≡ true → a ≡ b
        eq_of a b e = ground arith

    pub Good-stored :
        (v : Option ℕ) (u : ℕ) (x : Thread)
        → (t == u) ≡ false
        → Good d p q u x
        → Good (record d { buf = update d.buf i v }) p q u x
    Good-stored v u outside ne g = tt
    Good-stored v u (reserved m j job) ne g = g
    Good-stored v u (placed m j) ne g =
        let other = apart m j u ne g.0 g.1 g.2 g.3 in (g.0, g.1, g.2, g.3, g.4, ground (arith, g.5))
    Good-stored v u (claimed m j) ne g =
        let other : (i == j) ≡ false = ground (arith, g.0, g.1, g.2) in
        (g.0, g.1, g.2, ground (arith, g.3))
    Good-stored v u (holding m j job) ne g = g

    pub Good-published :
        (r : Bool) (u : ℕ) (x : Thread)
        → (t == u) ≡ false
        → Good d p q u x
        → Good (publish i r d) p q u x
    Good-published r u outside ne g = tt
    Good-published r u (reserved m j job) ne g =
        let other = apart m j u ne g.0 g.1 g.2 g.3 in (g.0, g.1, g.2, g.3, ground (arith, g.4), g.5)
    Good-published r u (placed m j) ne g =
        let other = apart m j u ne g.0 g.1 g.2 g.3 in (g.0, g.1, g.2, g.3, ground (arith, g.4), g.5)
    Good-published r u (claimed m j) ne g = g
    Good-published r u (holding m j job) ne g = g

  pub Good-cleared :
      (d : Queue) (p q u i : ℕ) (x : Thread) → Good d p q u x → Good (publish i false d) p q u x
  Good-cleared d p q u i outside g = tt
  Good-cleared d p q u i (reserved m j job) g = (g.0, g.1, g.2, g.3, ground (arith, g.4), g.5)
  Good-cleared d p q u i (placed m j) g = (g.0, g.1, g.2, g.3, ground (arith, g.4), g.5)
  Good-cleared d p q u i (claimed m j) g = g
  Good-cleared d p q u i (holding m j job) g = g
