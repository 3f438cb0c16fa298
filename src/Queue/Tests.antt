-- ===== src/Queue/Tests.antt =====
-- Runs of the destroy queue.
use schedi.Prelude.{
  ℕ, zero, suc, ◌+◌, ◌*◌, ◌%◌, ◌≡◌, ◌≤◌, refl, true, Option, some, List, [], ◌∷◌, ◌++◌, length,
  length-append, arith,
}
use schedi.Prelude.Int.{pos}
use schedi.Queue.{
  take, update, push_body, pop_body, Htc, Queue, empty, pack, dq_size, dq_push, dq_pop,
  dq_super_pop,
}
use schedi.Queue.Tickets.{IsWord}
use schedi.Queue.Pack.{Fits}
use schedi.Queue.Fifo.{IsQueue, empty-IsQueue, dq_push-append}
use schedi.Queue.Pop.{dq_pop-cons, dq_super_pop-cons}
use schedi.Atomic.{atomic}
use schedi.Queue.Steps.{
  State, start, outside, reserved, placed, claimed, holding, act, publish, pushes, stores,
  publishes, pops, reads, Reach, begin, step,
}
use schedi.Queue.InOrder.{pop-in_order}
use schedi.Queue.Overtaken.{pop-overtaken}
use schedi.Queue.Stuck.{push, pop, super_pop, calls, full_stuck}

-- Slots of 96 bytes from an address on.
abbrev address : ℕ → ℕ
address job = 0x404000 + 96 * job

abbrev two_and_one : Htc
two_and_one = record { head = 3; tail = 1; count = 2; label = 77 }

two_and_one-Fits : Fits two_and_one
two_and_one-Fits = record {
  head = omega arith;
  tail = omega arith;
  count = omega arith;
  label = omega arith;
}

-- Job 7, then job 9.
abbrev one : Queue
one = (dq_push address 7 empty).1

abbrev two : Queue
two = (dq_push address 9 one).1

first_out : (dq_pop address two).0 ≡ some 7
unfolding dq_push dq_pop pack
first_out = refl

one-IsQueue : IsQueue one (7 ∷ []) 0
one-IsQueue = (dq_push-append address 7 empty-IsQueue (omega arith)).1

two-IsQueue : IsQueue two (7 ∷ 9 ∷ []) 0
two-IsQueue = (dq_push-append address 9 one-IsQueue (omega arith)).1

-- Job 7 is in flight.
abbrev flying : Queue
flying = (dq_super_pop address two).1

flying-IsQueue : IsQueue flying (9 ∷ []) 1
flying-IsQueue = (dq_super_pop-cons address two-IsQueue (omega arith)).1

dq_push-append_example :
    ((dq_push address 9 one).0 ≡ pos 0) × IsQueue (dq_push address 9 one).1 (7 ∷ 9 ∷ []) 0
dq_push-append_example = dq_push-append address 9 one-IsQueue (omega arith)

dq_pop-cons_example : ((dq_pop address two).0 ≡ some 7) × IsQueue (dq_pop address two).1 (9 ∷ []) 0
dq_pop-cons_example = dq_pop-cons address two-IsQueue (omega arith)

-- The jobs 1 to n, pushed in this order onto a ring.
abbrev pushed : ℕ → Queue → Queue
pushed zero d = d
pushed (suc n) d = (dq_push address (suc n) (pushed n d)).1

abbrev up_to : ℕ → List ℕ
up_to zero = []
up_to (suc n) = up_to n ++ (suc n ∷ [])

length-up_to : (n : ℕ) → length (up_to n) ≡ n
length-up_to zero = refl
length-up_to (suc n) = omega (arith, length-append (up_to n) (suc n ∷ []), length-up_to n)

pushed-IsQueue :
    {d : Queue} {f : ℕ} (n : ℕ)
    → IsQueue d [] f
    → n + f ≤ dq_size
    → IsQueue (pushed n d) (up_to n) f
pushed-IsQueue zero q h = q
pushed-IsQueue (suc n) q h =
    (dq_push-append address (suc n) (pushed-IsQueue n q (omega arith))
      (omega (arith, length-up_to n))).1

full-IsQueue : IsQueue (pushed 1024 empty) (up_to 1024) 0
full-IsQueue = pushed-IsQueue 1024 empty-IsQueue (omega arith)

full_stuck_example :
    calls address (pop ∷ push 5 ∷ super_pop ∷ []) (pushed 1024 empty) ≡ pushed 1024 empty
full_stuck_example =
    full_stuck address (pop ∷ push 5 ∷ super_pop ∷ []) full-IsQueue (length-up_to 1024)

-- One job in flight, and 1023 more pushed meanwhile.
abbrev crowded : Queue
crowded = pushed 1023 (dq_super_pop address one).1

crowded-IsQueue : IsQueue crowded (up_to 1023) 1
crowded-IsQueue =
    pushed-IsQueue 1023 (dq_super_pop-cons address one-IsQueue (omega arith)).1 (omega arith)

-- Job 7, and 1022 more behind it.
seven-IsQueue : (n : ℕ) → n + 1 ≤ dq_size → IsQueue (pushed n one) (7 ∷ up_to n) 0
seven-IsQueue zero h = one-IsQueue
seven-IsQueue (suc n) h =
    (dq_push-append address (suc n) (seven-IsQueue n (omega arith))
      (omega (arith, length-up_to n))).1

pop-overtaken_example :
    let d = pushed 1022 one in
    let out = atomic (pop_body address true d) d.htc in
    let d₁ = record d { htc = out.1 } in
    let first = dq_push address 5 d₁ in
    let second = dq_push address 6 first.1 in
    ((take d₁ (out.0, d₁.htc)).0 ≡ some 7)
    × (first.0 ≡ pos 0)
    × (second.0 ≡ pos 0)
    × ((take second.1 (out.0, second.1.htc)).0 ≡ some 6)
    × ((i : ℕ) × (out.0 ≡ some i)
        × IsWord second.1.htc (i + 1025) (i + 1) 1024
        × (second.1.buf ((i + 1024) % dq_size) ≡ some 6))
pop-overtaken_example =
    pop-overtaken address (pushed 1022 one) 7 (up_to 1022) 5 6 (seven-IsQueue 1022 (omega arith))
      (omega (arith, length-up_to 1022))

-- Thread 1 pushes job 7, and thread 2 pops it.
abbrev job_of : ℕ → ℕ
job_of n = n + 7

abbrev pushing : ℕ → ℕ
pushing n = 1

abbrev word_of : Option ℕ × ℕ → ℕ
word_of out = out.1

abbrev reserving : State
reserving =
    record (act 1 (reserved 0 0 7)
      (record empty { htc = word_of (atomic (push_body address true 7) 0) }) start) { pushes = 1 }

abbrev published : State
published =
    let stored =
      act 1 (placed 0 0) (record reserving.queue { buf = update empty.buf 0 (some 7) }) reserving in
    act 1 outside (publish 0 true stored.queue) stored

abbrev claiming : State
claiming =
    record (act 2 (claimed 0 0)
      (record published.queue {
        htc = word_of (atomic (pop_body address true published.queue) published.queue.htc);
      })
      published) { pops = 1 }

abbrev read : State
read = act 2 (holding 0 0 (some 7)) claiming.queue claiming

published-Reach : Reach address job_of pushing published
unfolding push_body pack
published-Reach =
    step _ _
      (step _ _ (step _ _ begin (pushes start 1 0 _ refl refl refl (λ u. refl)))
        (stores reserving 1 0 0 7 refl))
      (publishes _ 1 0 0 refl)

read-Reach : Reach address job_of pushing read
unfolding pop_body push_body pack
read-Reach =
    step claiming read (step published claiming published-Reach (pops published 2 0 _ refl refl))
      (reads claiming 2 0 0 refl)

pop-in_order_example : ◌≡◌ {A = Option ℕ} (some 7) (some (job_of 0))
pop-in_order_example = pop-in_order address job_of pushing read 2 0 0 (some 7) read-Reach refl
