-- ===== src/Socket/Timed/Count.antt =====
-- `schedi_job_epollsocket_count_add` of src/jobs.c in the build with SCHEDI_EXT_TIMEOUT.
use schedi.Prelude.{
  ℕ, ◌%◌, ◌^◌, ◌<◌, ◌≡◌, ◌∙◌, ap, ap₂, bit_and, bit_or, Bool, false, ◌||◌, leb, arith,
}
use schedi.Prelude.Int.{ℤ, pos, ◌+ℤ◌}
use schedi.Prelude.Bits.{bit_and_low}
use schedi.Atomic.{atomic}
use schedi.Socket.{
  to_word, epolldid, epollnt, read_ready, write_ready, ready, dead, complement64, meets, when,
  complete,
}
use schedi.Socket.Timeout.{timeout, Timed, timed, joined, timed-bit_or, timed-bit_and, low_28}
use schedi.Socket.Bits.{fields_rules, meets-bit, already}
use schedi.Socket.Timed.{
  count_mask_timed, count_from_timed, count_add_timed, timed-read, timed-ready, timed-dead,
  timed-lone,
}

-- The word with new `count`, and READY and READ_READY clear.
count_counted :
    (w n : ℕ)
    → n < 2 ^ 28
    → timed (
        bit_or
          (bit_and w (complement64 (bit_or (bit_or count_mask_timed read_ready) ready)))
          (bit_and (n % 2 ^ 64) count_mask_timed))
      ≡ record (timed w) { count = n; read_ready = false; ready = false }
unfolding timed
count_counted w n h =
    timed-bit_or (bit_and w (complement64 (bit_or (bit_or count_mask_timed read_ready) ready)))
      (bit_and (n % 2 ^ 64) count_mask_timed)
    ∙ ap₂ joined
        (timed-bit_and w (complement64 (bit_or (bit_or count_mask_timed read_ready) ready)))
        (timed-lone (bit_and (n % 2 ^ 64) count_mask_timed) n 0 (omega (arith, kept))
          (omega (arith, kept)) (omega (arith, kept)))
    ∙ simp (fields_rules, low_28)
  where
    kept : bit_and (n % 2 ^ 64) count_mask_timed ≡ n
    kept = bit_and_low 28 (n % 2 ^ 64) ∙ omega arith

count_from_timed-field : (w : ℕ) → count_from_timed w ≡ (timed w).count
unfolding timed
count_from_timed-field w = omega (arith, bit_and_low 28 w)

-- The read in terms of what it reads.
abbrev count_word : (w n : ℕ) → (read done died : Bool) → ℕ
count_word w n read done died =
    bit_or
      (bit_or
        (bit_or
          (bit_or (bit_and w (complement64 (bit_or (bit_or count_mask_timed read_ready) ready)))
            (bit_and (n % 2 ^ 64) count_mask_timed))
          (when read read_ready))
        (when done ready))
      (when died dead)

timed-count_word :
    (w n : ℕ) (read done died : Bool)
    → n < 2 ^ 28
    → timed (count_word w n read done died) ≡ record (timed w) {
      count = n;
      read_ready = read;
      ready = done;
      dead = (timed w).dead || died;
    }
timed-count_word w n read done died h =
    timed-dead _ died
    ∙ ap (λ (f : Timed). record f { dead = f.dead || died })
        (timed-ready _ done
          ∙ ap (λ (f : Timed). record f { ready = f.ready || done })
              (timed-read _ read
                ∙ ap (λ (f : Timed). record f { read_ready = f.read_ready || read })
                    (count_counted w n h)))

count_word_at : (cond w : ℕ) (z : ℤ) (did nt write died : Bool) → ℕ
count_word_at cond w z did nt write died =
    let read = leb cond (to_word 32 z) in
    bit_or
      (bit_or
        (bit_or
          (bit_or (bit_and w (complement64 (bit_or (bit_or count_mask_timed read_ready) ready)))
            (bit_and (to_word 64 z) count_mask_timed))
          (when read read_ready))
        (when (complete did nt read write died) ready))
      (when died dead)

-- `schedi_job_epollsocket_count_add` of a socket that has not timed out, where the new number `n` of bytes in the read buffer is not
-- negative and fits its 28 bits: the count becomes `n`, READ_READY says whether it reaches the
-- condition, READY is recomputed from the new bits, a death is recorded, and nothing else changes.
pub count_add_timed_lem :
    (cond : ℕ) (delta : ℤ) (died : Bool) (w n : ℕ)
    → (pos (timed w).count +ℤ delta) ≡ pos n
    → n < 2 ^ 28
    → (timed w).timeout ≡ false
    → let f = timed w in
      timed (atomic (count_add_timed cond delta died) w).1 ≡ record f {
        count = n;
        read_ready = leb cond n;
        ready = complete f.epolldid f.epollnt (leb cond n) f.write_ready (died || f.dead);
        dead = died || f.dead;
      }
unfolding count_add_timed count_word_at
count_add_timed_lem cond delta died w n e h fresh =
    let f = timed w in
    let z = ap (λ (a : ℕ). pos a +ℤ delta) (count_from_timed-field w) ∙ e in
    let small : n % 2 ^ 32 ≡ n = omega arith in
    rw still (
      (λ i. timed (count_word_at cond w (z i) (did i) (nt i) (write i) (died || was i)))
      ∙ (λ i. timed (
          count_word w n (leb cond (small i))
            (complete f.epolldid f.epollnt (leb cond (small i)) f.write_ready (died || f.dead))
            (died || f.dead)))
      ∙ timed-count_word w n (leb cond n)
          (complete f.epolldid f.epollnt (leb cond n) f.write_ready (died || f.dead))
          (died || f.dead) h
      ∙ ap
          (λ (b : Bool). record f {
            count = n;
            read_ready = leb cond n;
            ready = complete f.epolldid f.epollnt (leb cond n) f.write_ready (died || f.dead);
            dead = b;
          })
          (already died f.dead))
  where
    still : meets w timeout ≡ false
    still = unfold timed in meets-bit 57 w ∙ fresh

    did : meets w epolldid ≡ (timed w).epolldid
    did = unfold timed in meets-bit 58 w

    nt : meets w epollnt ≡ (timed w).epollnt
    nt = unfold timed in meets-bit 59 w

    write : meets w write_ready ≡ (timed w).write_ready
    write = unfold timed in meets-bit 61 w

    was : meets w dead ≡ (timed w).dead
    was = unfold timed in meets-bit 63 w
