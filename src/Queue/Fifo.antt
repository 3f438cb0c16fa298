-- ===== src/Queue/Fifo.antt =====
-- The ring as a first-in first-out queue, as one thread sees it.
use schedi.Prelude.{
  ℕ, suc, ◌+◌, ◌%◌, ◌^◌, ◌<◌, ◌≤◌, ◌≡◌, refl, sym, ◌∙◌, ap, Bool, true, false, none, some, List, [],
  ◌∷◌, ◌++◌, length, length-append, arith, leb, if◌then◌else◌,
}
use schedi.Prelude.Int.{pos, negsuc}
use mathlib.Core.Path.{subst}
use schedi.Atomic.{commit, quit, swap}
use schedi.Queue.{
  empty, put, dq_push, dq_super_push, dq_size, update, Htc, Queue, pack, htc_head, htc_tail,
  htc_count, htc_label, push_with, push_body,
}
use schedi.Queue.Pack.{Fits, parts-pack}
use schedi.Queue.Window.{Window, Window-update, Window-snoc}

-- The queue holds `js`, oldest first; `flying` jobs are counted, and have been taken out by
-- `dq_super_pop` and not come back yet.
pub record IsQueue (d : Queue) (js : List ℕ) (flying : ℕ) : Type 0 where
  pub htc : Htc
  pub packed : d.htc ≡ pack htc
  pub head_in : htc.head < dq_size
  pub tail_in : htc.tail < dq_size
  pub label_in : htc.label < 2 ^ 16
  pub count : htc.count ≡ length js + flying
  pub room : length js + flying ≤ dq_size
  pub head : htc.head ≡ (htc.tail + length js) % dq_size
  pub window : Window d.buf d.ready htc.tail js

pub IsQueue-Fits : {d : Queue} {js : List ℕ} {f : ℕ} (q : IsQueue d js f) → Fits q.htc
IsQueue-Fits q =
    let c = q.count in
    let r = q.room in
    let h = q.head_in in
    let t = q.tail_in in
    record { head = omega arith; tail = omega arith; count = omega arith; label = q.label_in }

-- What the macros read.
pub reads :
    {d : Queue} {js : List ℕ} {f : ℕ} (q : IsQueue d js f)
    → (htc_head d.htc ≡ q.htc.head)
      × (htc_tail d.htc ≡ q.htc.tail)
      × (htc_count d.htc ≡ length js + f)
reads {d} q =
    let p = parts-pack (IsQueue-Fits q) in
    (ap htc_head q.packed ∙ p.0, ap htc_tail q.packed ∙ p.1, ap htc_count q.packed ∙ p.2 ∙ q.count)

module _ (address : ℕ → ℕ) where
  -- A push into a queue with room.
  module _ (counts : Bool) (job : ℕ) (d : Queue) where
    abbrev pub next_head : Htc
    next_head = record {
      head = (htc_head d.htc + 1) % dq_size;
      tail = htc_tail d.htc;
      count = if counts then (htc_count d.htc + 1) % 2 ^ 32 else htc_count d.htc;
      label =
          (htc_label d.htc + 5 + address job % 65200 + (htc_head d.htc + 1) % dq_size % 5) % 65536;
    }

    abbrev pub pushed : Queue
    pushed = record {
      buf = update d.buf (htc_head d.htc) (some job);
      ready = update d.ready (htc_head d.htc) true;
      htc = pack next_head;
    }

    pub body_room :
        htc_count d.htc < dq_size
        → push_body address counts job d.htc ≡ swap (pack next_head) (some (htc_head d.htc))
    unfolding push_body
    body_room h = let e : leb dq_size (htc_count d.htc) ≡ false = ground arith in rw e

    body_full : dq_size ≤ htc_count d.htc → push_body address counts job d.htc ≡ quit none
    unfolding push_body
    body_full h = let e : leb dq_size (htc_count d.htc) ≡ true = ground arith in rw e

    pub push_room : htc_count d.htc < dq_size → push_with address counts job d ≡ (pos 0, pushed)
    unfolding push_with
    push_room h = ap (λ a. put job d (commit a d.htc)) (body_room h)

    -- A push into a ring whose count has reached 1024 returns -1 and changes nothing.
    pub push_full : dq_size ≤ htc_count d.htc → push_with address counts job d ≡ (negsuc 0, d)
    unfolding push_with
    push_full h = ap (λ a. put job d (commit a d.htc)) (body_full h)

    pushed-IsQueue :
        {js : List ℕ} {f g : ℕ}
        → IsQueue d js f
        → length js + f < dq_size
        → (if counts then length js + f + 1 else length js + f) ≡ length js + 1 + g
        → IsQueue pushed (js ++ (job ∷ [])) g
    pushed-IsQueue {js} {f} {g} q room e =
        let r = reads q in
        let grown = length-append js (job ∷ []) in
        let last : htc_head d.htc ≡ (htc_tail d.htc + length js) % dq_size =
          omega (arith, r.0, r.1, q.head) in
        let inside : htc_tail d.htc < dq_size = omega (arith, r.1, q.tail_in) in
        record {
          htc = next_head;
          packed = refl;
          head_in = omega arith;
          tail_in = inside;
          label_in = omega arith;
          count = ground (arith, r.2, grown, e);
          room = ground (arith, grown, e);
          head = omega (arith, last, grown);
          window =
              Window-snoc (update d.buf (htc_head d.htc) (some job))
                (update d.ready (htc_head d.htc) true) (htc_tail d.htc) (htc_head d.htc) job js
                inside last (ground arith) (ground arith)
                (Window-update d.buf d.ready (htc_tail d.htc) (htc_head d.htc) (length js) js
                  (some job) true inside (omega arith) (omega arith) last
                  (subst (λ (t : ℕ). Window d.buf d.ready t js) (sym r.1) q.window));
        }

  -- `dq_push` into a ring whose count is below 1024 returns 0, puts the job at the end and counts
  -- it.
  pub dq_push-append :
      {d : Queue} {js : List ℕ} {f : ℕ} (job : ℕ)
      → IsQueue d js f
      → length js + f < dq_size
      → ((dq_push address job d).0 ≡ pos 0) × IsQueue (dq_push address job d).1 (js ++ (job ∷ [])) f
  unfolding dq_push
  dq_push-append {d} job q room =
      let e = push_room true job d (omega (arith, (reads q).2)) in
      rw e (refl, pushed-IsQueue true job d q room (omega arith))

  -- `dq_super_push`, with a job in flight and a count below 1024, returns 0 and puts the job at the
  -- end; the count stays, and one job less is in flight.
  pub dq_super_push-append :
      {d : Queue} {js : List ℕ} {f : ℕ} (job : ℕ)
      → IsQueue d js (suc f)
      → length js + suc f < dq_size
      → ((dq_super_push address job d).0 ≡ pos 0)
        × IsQueue (dq_super_push address job d).1 (js ++ (job ∷ [])) f
  unfolding dq_super_push
  dq_super_push-append {d} job q room =
      let e = push_room false job d (omega (arith, (reads q).2)) in
      rw e (refl, pushed-IsQueue false job d q room (omega arith))

-- The ring at the start holds nothing.
pub empty-IsQueue : IsQueue empty [] 0
unfolding pack
empty-IsQueue = record {
  htc = record { head = 0; tail = 0; count = 0; label = 0 };
  packed = refl;
  head_in = omega arith;
  tail_in = omega arith;
  label_in = omega arith;
  count = refl;
  room = omega arith;
  head = refl;
  window = tt;
}
