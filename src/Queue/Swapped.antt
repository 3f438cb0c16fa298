-- ===== src/Queue/Swapped.antt =====
-- The compare-and-swap of a push or a pop keeps what holds of the destroy queue.
use schedi.Prelude.{
  ℕ, ◌+◌, ◌-◌, ◌%◌, ◌≤◌, ◌<◌, ◌≡◌, refl, ◌∙◌, ap, Bool, true, false, ◌==◌, some, arith, inl, inr,
  Bool-cases, if◌then◌else◌,
}
use mathlib.Core.Path.{subst}
use schedi.Atomic.{atomic}
use schedi.Queue.{dq_size, update, push_body, pop_body}
use schedi.Queue.Steps.{Thread, outside, reserved, claimed, State, clearing, act}
use schedi.Queue.Tickets.{Pushed, Popped, push-Pushed, pop-Popped}
use schedi.Queue.Held

pub still_clearing :
    (thread : ℕ → Thread) (t i : ℕ) (x : Thread)
    → clearing i (thread t) ≡ false
    → (u : ℕ) × (clearing i (thread u) ≡ true)
    → (u : ℕ) × (clearing i (update thread t x u) ≡ true)
still_clearing thread t i x quiet (u, clears_it) = (
  u,
  elim (Bool-cases (t == u)) [ inl same ↦ absurd (ground arith) | inr other ↦ rw other clears_it ],
)

module _ (address jobs who : ℕ → ℕ) where
  abbrev pub Inv : State → Type 0
  Inv = Held.Inv address jobs who

  -- Past the compare-and-swap of a push.
  pub pushed-Inv :
      (counts : Bool) (s : State) (t i w flying : ℕ)
      → s.thread t ≡ outside
      → who s.pushes ≡ t
      → atomic (push_body address counts (jobs s.pushes)) s.queue.htc ≡ (some i, w)
      → ((u : ℕ) → clearing i (s.thread u) ≡ false)
      → (if counts then s.flying else s.flying - 1) ≡ flying
      → (if counts then 0 else 1) ≤ s.flying
      → Inv s
      → Inv (record (act t (reserved s.pushes i (jobs s.pushes)) (record s.queue { htc = w }) s) {
        pushes = s.pushes + 1;
        flying = flying;
      })
  pushed-Inv counts s t i w flying at mine e free f g v =
      let b =
        subst (Pushed counts s.pushes s.pops v.count) e
          (push-Pushed address counts (jobs s.pushes) v.word) in
      let bal = v.counted in
      let beh = v.behind in
      let idle : s.queue.ready i ≡ false = elim (Bool-cases (s.queue.ready i)) [
        | inr off ↦ off
        | inl on ↦
            let (u, c) = v.left s.pushes (omega arith) (omega (arith, b.1)) (ground (arith, b.0)) in
            absurd (ground (arith, free u, b.0))
      ] in
      record {
        count = _;
        word = b.2;
        counted = ground (arith, b.1);
        behind = omega arith;
        good =
            Held.each_thread address jobs who (record s.queue { htc = w }) (s.pushes + 1) s.pops t
              (reserved s.pushes i (jobs s.pushes)) s.thread
              (b.0, beh, omega arith, mine, idle, refl)
              (λ u ne.
                Held.Good-pushed address jobs who s.queue w s.pushes s.pops u (s.thread u)
                  (ground (arith, free u, b.0)) (v.good u));
        live = λ n lo hi on. elim (Bool-cases (n == s.pushes)) [
          | inl new ↦ absurd (ground (arith, idle, b.0))
          | inr old ↦ v.live n lo (ground arith) on
        ];
        left = λ n lo hi on.
            still_clearing s.thread t (n % dq_size) _ (ap (clearing (n % dq_size)) at)
              (v.left n (omega arith) hi on);
      }

  -- Past the compare-and-swap of a pop.
  pub popped-Inv :
      (counts : Bool) (s : State) (t i w : ℕ)
      → s.thread t ≡ outside
      → atomic (pop_body address counts s.queue) s.queue.htc ≡ (some i, w)
      → Inv s
      → Inv (record (act t (claimed s.pops i) (record s.queue { htc = w }) s) {
        pops = s.pops + 1;
        flying = if counts then s.flying else s.flying + 1;
      })
  popped-Inv counts s t i w at e v =
      let b =
        subst (Popped counts s.queue.ready s.pushes s.pops v.count) e
          (pop-Popped address counts s.queue v.word) in
      let bal = v.counted in
      let beh = v.behind in
      let room = v.word.room in
      let more : s.pops < s.pushes = ground (arith, b.2) in
      let on : s.queue.ready (s.pops % dq_size) ≡ true = ground (arith, b.0, b.1) in
      record {
        count = _;
        word = b.4;
        counted = ground (arith, b.3);
        behind = omega arith;
        good =
            Held.each_thread address jobs who (record s.queue { htc = w }) s.pushes (s.pops + 1) t
              (claimed s.pops i) s.thread
              (
                b.0,
                omega arith,
                omega arith,
                ap s.queue.buf b.0 ∙ v.live s.pops (omega arith) more on,
              )
              (λ u ne.
                Held.Good-popped address jobs who s.queue w s.pushes s.pops u (s.thread u) on
                  (v.good u));
        live = λ n lo hi r. v.live n (omega arith) hi r;
        left = λ n lo hi r. elim (Bool-cases (n == s.pops + dq_size)) [
          | inl new ↦ (t, ground (arith, b.0))
          | inr old ↦
              still_clearing s.thread t (n % dq_size) _ (ap (clearing (n % dq_size)) at)
                (v.left n lo (ground arith) r)
        ];
      }
