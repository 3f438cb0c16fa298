-- ===== src/Queue/Pop.antt =====
-- Pops of the ring as a queue.
use schedi.Prelude.{
  ℕ, suc, ◌+◌, ◌-◌, ◌%◌, ◌^◌, ◌<◌, ◌≡◌, ◌≢◌, refl, sym, ◌∙◌, ap, Bool, true, false, Option, none,
  some, List, ◌∷◌, length, arith, ◌==◌, if◌then◌else◌, if_case, ==_iff, ◌⊎◌,
}
use mathlib.Core.Path.{subst, fun_ext}
use schedi.Atomic.{commit, quit, swap}
use schedi.Queue.{
  take, dq_pop, dq_super_pop, dq_size, update, Htc, Queue, pack, htc_head, htc_tail, htc_count,
  htc_label, pointer, pop_with, pop_body,
}
use schedi.Queue.Window.{Window, Window-update}
use schedi.Queue.Fifo.{IsQueue, reads}

pub update_same {ℓ} : {A : Type ℓ} (f : ℕ → A) (i : ℕ) → update f i (f i) ≡ f
update_same f i =
    fun_ext λ k. if_case (λ x. x ≡ f k) (i == k) (λ e. ap f ((==_iff i k).0 e)) (λ ne. refl)

module _ (address : ℕ → ℕ) where
  module _ (counts : Bool) (d : Queue) where
    abbrev pub next_tail : Htc
    next_tail = record {
      head = htc_head d.htc;
      tail = (htc_tail d.htc + 1) % dq_size;
      count = if counts then (htc_count d.htc + 2 ^ 32 - 1) % 2 ^ 32 else htc_count d.htc;
      label =
          (htc_label d.htc
            + 3
            + pointer address (d.buf (htc_tail d.htc)) % 65200
            + htc_head d.htc % 5)
          % 65536;
    }

    abbrev popped : Queue
    popped = record d { ready = update d.ready (htc_tail d.htc) false; htc = pack next_tail }

    pub body_some :
        htc_count d.htc ≢ 0
        → d.ready (htc_tail d.htc) ≡ true
        → htc_tail d.htc ≢ htc_head d.htc
        → pop_body address counts d d.htc ≡ swap (pack next_tail) (some (htc_tail d.htc))
    unfolding pop_body
    body_some n r h =
        let a : (htc_count d.htc == 0) ≡ false = ground arith in
        let b : (htc_tail d.htc == htc_head d.htc) ≡ false = ground arith in rw (a, r, b)

    pop_some :
        htc_count d.htc ≢ 0
        → d.ready (htc_tail d.htc) ≡ true
        → htc_tail d.htc ≢ htc_head d.htc
        → pop_with address counts d ≡ (d.buf (htc_tail d.htc), popped)
    unfolding pop_with
    pop_some n r h = ap (λ a. take d (commit a d.htc)) (body_some n r h)

    body_none : htc_tail d.htc ≡ htc_head d.htc → pop_body address counts d d.htc ≡ quit none
    unfolding pop_body
    body_none h = ground arith

    -- Where tail and head agree a pop returns NULL and changes nothing.
    pub pop_none : htc_tail d.htc ≡ htc_head d.htc → pop_with address counts d ≡ (none, d)
    unfolding pop_with
    pop_none h = ap (λ a. take d (commit a d.htc)) (body_none h)

    popped-IsQueue :
        {j : ℕ} {js : List ℕ} {f g : ℕ}
        → IsQueue d (j ∷ js) f
        → length (j ∷ js) < dq_size
        → (if counts then length js + f else length js + 1 + f) ≡ length js + g
        → IsQueue popped js g
    popped-IsQueue {j} {js} {f} {g} q short e =
        let r = reads q in
        record {
          htc = next_tail;
          packed = refl;
          head_in = omega (arith, r.0, q.head_in);
          tail_in = omega arith;
          label_in = omega arith;
          count = ground (arith, r.2, e, q.room);
          room = ground (arith, e, q.room);
          head = omega (arith, r.0, r.1, q.head);
          window =
              subst
                (λ (b : ℕ → Option ℕ).
                  Window b (update d.ready (htc_tail d.htc) false) ((htc_tail d.htc + 1) % dq_size)
                    js)
                (update_same d.buf (htc_tail d.htc))
                (Window-update d.buf d.ready ((htc_tail d.htc + 1) % dq_size) (htc_tail d.htc) 1023
                  js (d.buf (htc_tail d.htc)) false (omega arith) (omega arith) (omega arith)
                  (omega (arith, r.1, q.tail_in))
                  (subst (λ (t : ℕ). Window d.buf d.ready ((t + 1) % dq_size) js) (sym r.1)
                    q.window.2));
        }

  front :
      (counts : Bool) {d : Queue} {j : ℕ} {js : List ℕ} {f : ℕ}
      → IsQueue d (j ∷ js) f
      → length (j ∷ js) < dq_size
      → pop_with address counts d ≡ (some j, popped counts d)
  front counts {d} {j} {js} q short =
      let r = reads q in
      pop_some counts d (omega (arith, r.2))
        (subst (λ (t : ℕ). d.ready t ≡ true) (sym r.1) q.window.1)
        (omega (arith, r.0, r.1, q.head, q.tail_in))
      ∙ ap (λ (o : Option ℕ). (o, popped counts d)) (ap d.buf r.1 ∙ q.window.0)

  -- `dq_pop` of a ring that holds from 1 to 1023 jobs returns the oldest, which is counted no more.
  pub dq_pop-cons :
      {d : Queue} {j : ℕ} {js : List ℕ} {f : ℕ}
      → IsQueue d (j ∷ js) f
      → length (j ∷ js) < dq_size
      → ((dq_pop address d).0 ≡ some j) × IsQueue (dq_pop address d).1 js f
  unfolding dq_pop
  dq_pop-cons {d} q short = rw (front true q short) (refl, popped-IsQueue true d q short refl)

  -- `dq_super_pop` of a ring that holds from 1 to 1023 jobs returns the oldest, which stays counted
  -- as a job in flight.
  pub dq_super_pop-cons :
      {d : Queue} {j : ℕ} {js : List ℕ} {f : ℕ}
      → IsQueue d (j ∷ js) f
      → length (j ∷ js) < dq_size
      → ((dq_super_pop address d).0 ≡ some j) × IsQueue (dq_super_pop address d).1 js (suc f)
  unfolding dq_super_pop
  dq_super_pop-cons {d} q short =
      rw (front false q short) (refl, popped-IsQueue false d q short (omega arith))

  pub empty_tail :
      {d : Queue} {js : List ℕ} {f : ℕ}
      → IsQueue d js f
      → (length js ≡ 0) ⊎ (length js ≡ dq_size)
      → htc_tail d.htc ≡ htc_head d.htc
  empty_tail q e = omega (arith, (reads q).0, (reads q).1, q.head, q.tail_in)
