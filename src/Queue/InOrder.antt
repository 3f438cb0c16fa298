-- ===== src/Queue/InOrder.antt =====
-- The order in which jobs leave the destroy queue, under any threads.
use schedi.Prelude.{
  ℕ, ◌+◌, ◌-◌, ◌%◌, ◌≤◌, ◌<◌, ◌≡◌, refl, ◌∙◌, ap, Bool, true, false, ◌==◌, Option, some, arith, inl,
  inr, Bool-cases,
}
use mathlib.Core.Path.{subst}
use schedi.Atomic.{atomic}
use schedi.Queue.Count.{dec_count-pack}
use schedi.Queue.{pack, dec_count_body, dq_dec_count, dq_size, update}
use schedi.Queue.Steps.{
  Thread, outside, placed, holding, State, start, clearing, act, Step, pushes, super_pushes, stores,
  publishes, pops, super_pops, reads, clears, uncounts, Reach, begin, step,
}
use schedi.Queue.Tickets.{IsWord-Fits}
use schedi.Queue.Held
use schedi.Queue.Swapped.{still_clearing, Inv, pushed-Inv, popped-Inv}

module _ (address jobs who : ℕ → ℕ) where
  narrow : (s : State) → Inv address jobs who s → s.pushes ≤ s.pops + dq_size
  narrow s v = omega (arith, v.counted, v.word.room)

  -- A step of thread t that leaves the word alone.
  moved-Inv :
      (s : State) (t : ℕ) (x : Thread) (buf : ℕ → Option ℕ) (ready : ℕ → Bool)
      → let d = record s.queue { buf = buf; ready = ready } in
        Held.Good address jobs who d s.pushes s.pops t x
        → ((u : ℕ) → (t == u) ≡ false → Held.Good address jobs who d s.pushes s.pops u (s.thread u))
        → ((n : ℕ)
            → s.pops ≤ n
            → n < s.pushes
            → ready (n % dq_size) ≡ true
            → buf (n % dq_size) ≡ some (jobs n))
        → ((n : ℕ)
            → s.pushes ≤ n
            → n < s.pops + dq_size
            → ready (n % dq_size) ≡ true
            → (u : ℕ) × (clearing (n % dq_size) (update s.thread t x u) ≡ true))
        → Inv address jobs who s
        → Inv address jobs who (act t x d s)
  moved-Inv s t x buf ready here others live left v = record {
    count = v.count;
    word = v.word;
    counted = v.counted;
    behind = v.behind;
    good =
        Held.each_thread address jobs who (record s.queue { buf = buf; ready = ready }) s.pushes
          s.pops t x s.thread here others;
    live = live;
    left = left;
  }

  step-Inv :
      (s s' : State) → Inv address jobs who s → Step address jobs who s s' → Inv address jobs who s'
  unfolding dq_dec_count
  step-Inv s _ v (pushes _ t i w at mine e free) =
      pushed-Inv address jobs who true s t i w s.flying at mine e free refl (omega arith) v
  step-Inv s _ v (super_pushes _ t i w f at mine fl e free) =
      pushed-Inv address jobs who false s t i w f at mine e free (omega arith) (omega arith) v
  step-Inv s _ v (pops _ t i w at e) = popped-Inv address jobs who true s t i w at e v
  step-Inv s _ v (super_pops _ t i w at e) = popped-Inv address jobs who false s t i w at e v
  step-Inv s _ v (stores _ t n i job at) =
      let g = subst (Held.Good address jobs who s.queue s.pushes s.pops t) at (v.good t) in
      moved-Inv s t (placed n i) (update s.queue.buf i (some job)) s.queue.ready
        (g.0, g.1, g.2, g.3, g.4, ground (arith, g.5))
        (λ u ne.
          Held.Good-stored address jobs who s.queue s.pushes s.pops t n i g.0 g.1 g.2 g.3
            (narrow s v) (some job) u (s.thread u) ne (v.good u))
        (λ m lo hi on.
          let other : (i == m % dq_size) ≡ false = ground (arith, g.4) in
          ground (arith, v.live m lo hi on))
        (λ m lo hi on.
          still_clearing s.thread t (m % dq_size) _ (ap (clearing (m % dq_size)) at)
            (v.left m lo hi on))
        v
  step-Inv s _ v (publishes _ t n i at) =
      let g = subst (Held.Good address jobs who s.queue s.pushes s.pops t) at (v.good t) in
      let few = narrow s v in
      moved-Inv s t outside s.queue.buf (update s.queue.ready i true) tt
        (λ u ne.
          Held.Good-published address jobs who s.queue s.pushes s.pops t n i g.0 g.1 g.2 g.3 few
            true u (s.thread u) ne (v.good u))
        (λ m lo hi on. elim (Bool-cases (m == n)) [
          | inl same ↦ ground (arith, g.0, g.5)
          | inr ne ↦
              let other : (i == m % dq_size) ≡ false = ground (arith, g.0, g.1, g.2) in
              v.live m lo hi (ground arith)
        ])
        (λ m lo hi on.
          let other : (i == m % dq_size) ≡ false = ground (arith, g.0, g.1, g.2) in
          still_clearing s.thread t (m % dq_size) _ (ap (clearing (m % dq_size)) at)
            (v.left m lo hi (ground arith)))
        v
  step-Inv s _ v (reads _ t n i at) =
      let g = subst (Held.Good address jobs who s.queue s.pushes s.pops t) at (v.good t) in
      moved-Inv s t (holding n i (s.queue.buf i)) s.queue.buf s.queue.ready (g.0, g.1, g.2, g.3)
        (λ u ne. v.good u) v.live
        (λ m lo hi on.
          let (u, c) = v.left m lo hi on in
          (
            u,
            elim (Bool-cases (t == u)) [ inl same ↦ ground (arith, at) | inr other ↦ rw other c ],
          ))
        v
  step-Inv s _ v (clears _ t n i job at) =
      moved-Inv s t outside s.queue.buf (update s.queue.ready i false) tt
        (λ u ne.
          Held.Good-cleared address jobs who s.queue s.pushes s.pops u i (s.thread u) (v.good u))
        (λ m lo hi on. v.live m lo hi (ground arith))
        (λ m lo hi on.
          let other : (m % dq_size == i) ≡ false = ground arith in
          still_clearing s.thread t (m % dq_size) _ (ap (clearing (m % dq_size)) at ∙ other)
            (v.left m lo hi (ground arith)))
        v
  step-Inv s _ v (uncounts _ f fl) =
      let bal = v.counted in
      let beh = v.behind in
      let z = v.word in
      let low : 1 ≤ z.htc.count = omega (arith, z.counted) in
      record {
        count = v.count - 1;
        word = record {
          htc = record z.htc { count = z.htc.count - 1 };
          packed =
              ap (λ (w : ℕ). (atomic dec_count_body w).1) z.packed
              ∙ dec_count-pack (IsWord-Fits z) low (omega (arith, z.counted, z.room));
          head = z.head;
          tail = z.tail;
          counted = omega (arith, z.counted);
          room = omega (arith, z.room);
          label_in = z.label_in;
        };
        counted = omega (arith, z.counted);
        behind = beh;
        good = v.good;
        live = v.live;
        left = v.left;
      }

  start-Inv : Inv address jobs who start
  unfolding pack
  start-Inv = record {
    count = 0;
    word = record {
      htc = record { head = 0; tail = 0; count = 0; label = 0 };
      packed = refl;
      head = refl;
      tail = refl;
      counted = refl;
      room = omega arith;
      label_in = omega arith;
    };
    counted = refl;
    behind = omega arith;
    good = λ t. tt;
    live = λ n lo hi on. absurd (omega arith);
    left = λ n lo hi on. absurd (ground arith);
  }

  Reach-Inv : (s : State) → Reach address jobs who s → Inv address jobs who s
  Reach-Inv _ begin = start-Inv
  Reach-Inv _ (step s t r e) = step-Inv s t (Reach-Inv s r) e

  -- Whatever the threads do between the compare-and-swaps and the loads and stores of their pushes
  -- and pops, what the n-th pop reads is the job of the n-th push, as long as no push gets a slot
  -- that a pop has not cleared yet.
  pub pop-in_order :
      (s : State) (t n i : ℕ) (job : Option ℕ)
      → Reach address jobs who s
      → s.thread t ≡ holding n i job
      → job ≡ some (jobs n)
  pop-in_order s t n i job r at =
      (subst (Held.Good address jobs who s.queue s.pushes s.pops t) at ((Reach-Inv s r).good t)).3
