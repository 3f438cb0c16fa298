-- ===== src/Queue/Overtaken.antt =====
-- A pop of the destroy queue that pushes overtake, between its compare-and-swap and its read.
use schedi.Prelude.{
  ℕ, ◌+◌, ◌%◌, ◌≡◌, ◌<◌, refl, ap, true, Option, some, List, sym, ◌∙◌, ◌∷◌, length, arith,
}
use schedi.Prelude.Int.{pos}
use mathlib.Core.Path.{subst}
use schedi.Atomic.{atomic, commit}
use schedi.Queue.{pack, Queue, dq_size, update, take, put, pop_body, dq_push, htc_tail, htc_count}
use schedi.Queue.Tickets.{IsWord, read_word, Popped, Pushed, pop-Popped, push-Pushed}
use schedi.Queue.Fifo.{IsQueue, reads, push_room, body_room}
use schedi.Queue.Pop.{body_some, next_tail}

module _ (address : ℕ → ℕ) where
  -- A push of a ring with room.
  push_once :
      (job : ℕ) (d : Queue) (p q c : ℕ)
      → IsWord d.htc p q c
      → c < dq_size
      → ((dq_push address job d).0 ≡ pos 0)
        × IsWord (dq_push address job d).1.htc (p + 1) q (c + 1)
        × ((dq_push address job d).1.buf ≡ update d.buf (p % dq_size) (some job))
  unfolding dq_push put
  push_once job d p q c v room =
      let r = read_word v in
      let room' : htc_count d.htc < dq_size = omega (arith, r.2) in
      let w =
        subst (Pushed true p q c) (ap (λ a. commit a d.htc) (body_room address true job d room'))
          (push-Pushed address true job v) in
      rw (push_room address true job d room')
        (refl, w.2, ap (λ (i : ℕ). update d.buf i (some job)) r.0)

  -- The two pushes, from a ring whose next slots they are.
  overtaken_by :
      (out : Option ℕ × ℕ) (d : Queue) (i a b : ℕ)
      → i < dq_size
      → out.0 ≡ some i
      → IsWord out.1 (i + 1023) (i + 1) 1022
      → let first = dq_push address a (record d { htc = out.1 }) in
        let second = dq_push address b first.1 in
        (first.0 ≡ pos 0)
        × (second.0 ≡ pos 0)
        × ((take second.1 (out.0, second.1.htc)).0 ≡ some b)
        × IsWord second.1.htc (i + 1025) (i + 1) 1024
        × (second.1.buf ((i + 1024) % dq_size) ≡ some b)
  unfolding take
  overtaken_by out d i a b low e v =
      let first = push_once a (record d { htc = out.1 }) (i + 1023) (i + 1) 1022 v (omega arith) in
      let d' = (dq_push address a (record d { htc = out.1 })).1 in
      let second = push_once b d' (i + 1023 + 1) (i + 1) (1022 + 1) first.1 (omega arith) in
      let second_htc = (dq_push address b d').1.htc in
      let there : (i + 1023 + 1) % dq_size ≡ (i + 1024) % dq_size = omega arith in
      let here : (i + 1023 + 1) % dq_size ≡ i = omega arith in
      (
        first.0,
        second.0,
        rw e (
            ap (λ (f : ℕ → Option ℕ). f i) second.2
            ∙ ap (λ (k : ℕ). update d'.buf k (some b) i) here
            ∙ ground arith),
        subst (λ (n : ℕ). IsWord second_htc n (i + 1) 1024) (omega arith) second.1,
        ap (λ (f : ℕ → Option ℕ). f ((i + 1024) % dq_size)) second.2
            ∙ ap (λ (k : ℕ). update d'.buf k (some b) ((i + 1024) % dq_size)) there
            ∙ ground arith,
      )

  -- A pop that is past its compare-and-swap of a ring of 1023 jobs would read the oldest of them, j.
  -- Once two pushes have passed it, it reads b, the job of the second, and the ring then counts 1024
  -- jobs from the one after j on, with b as the last: b is in the ring still.
  pub pop-overtaken :
      (d : Queue) (j : ℕ) (js : List ℕ) (a b : ℕ)
      → IsQueue d (j ∷ js) 0
      → length (j ∷ js) ≡ 1023
      → let out = atomic (pop_body address true d) d.htc in
        let d₁ = record d { htc = out.1 } in
        let first = dq_push address a d₁ in
        let second = dq_push address b first.1 in
        ((take d₁ (out.0, d₁.htc)).0 ≡ some j)
        × (first.0 ≡ pos 0)
        × (second.0 ≡ pos 0)
        × ((take second.1 (out.0, second.1.htc)).0 ≡ some b)
        × ((i : ℕ) × (out.0 ≡ some i)
            × IsWord second.1.htc (i + 1025) (i + 1) 1024
            × (second.1.buf ((i + 1024) % dq_size) ≡ some b))
  pop-overtaken d j js a b q few =
      let r = reads q in
      let low = q.tail_in in
      let i = q.htc.tail in
      let v : IsWord d.htc (i + 1023) i 1023 = record {
        htc = q.htc;
        packed = q.packed;
        head = omega (arith, q.head);
        tail = omega arith;
        counted = omega (arith, q.count);
        room = omega arith;
        label_in = q.label_in;
      } in
      let e : atomic (pop_body address true d) d.htc
          ≡ (some (htc_tail d.htc), pack (next_tail address true d)) =
        ap (λ a. commit a d.htc)
          (body_some address true d (omega (arith, r.2)) (ap d.ready r.1 ∙ q.window.1)
            (omega (arith, r.0, r.1, q.head))) in
      let w = subst (Popped true d.ready (i + 1023) i 1023) e (pop-Popped address true d v) in
      let at = ap (λ (o : Option ℕ × ℕ). o.0) e ∙ ap some r.1 in
      let (one, two, read, word_after, last) =
        overtaken_by (atomic (pop_body address true d) d.htc) d i a b low at
          (subst (λ (o : Option ℕ × ℕ). IsWord o.1 (i + 1023) (i + 1) 1022) (sym e) w.4) in
      (unfold take in rw at q.window.0, one, two, read, (i, at, word_after, last))
