-- ===== src/Socket/Timed/Avail.antt =====
-- `schedi_job_epollsocket_avail_add` of src/jobs.c in the build with SCHEDI_EXT_TIMEOUT.
use schedi.Prelude.{
  ℕ, ◌*◌, ◌%◌, ◌^◌, ◌<◌, ◌≡◌, ◌∙◌, ap, ap₂, bit_and, bit_or, Bool, false, ◌||◌, leb, arith,
}
use schedi.Prelude.Int.{ℤ, pos, ◌+ℤ◌}
use schedi.Prelude.Bits.{bit_and-field}
use schedi.Atomic.{atomic}
use schedi.Socket.{
  u64, to_word, epolldid, epollnt, read_ready, write_ready, ready, dead, complement64, meets, when,
  complete,
}
use schedi.Socket.Timeout.{timeout, Timed, timed, joined, timed-bit_or, timed-bit_and, low_28}
use schedi.Socket.Bits.{fields_rules, meets-bit, already}
use schedi.Socket.Timed.{
  avail_mask_timed, avail_from_timed, avail_add_timed, timed-write, timed-ready, timed-dead,
  timed-lone,
}

-- The word with new `avail`, and READY and WRITE_READY clear.
avail_counted :
    (w n : ℕ)
    → n < 2 ^ 28
    → timed (
        bit_or
          (bit_and w (complement64 (bit_or (bit_or avail_mask_timed write_ready) ready)))
          (n % 2 ^ 64 * 2 ^ 28 % u64))
      ≡ record (timed w) { avail = n; write_ready = false; ready = false }
unfolding timed
avail_counted w n h =
    timed-bit_or (bit_and w (complement64 (bit_or (bit_or avail_mask_timed write_ready) ready)))
      (n % 2 ^ 64 * 2 ^ 28 % u64)
    ∙ ap₂ joined
        (timed-bit_and w (complement64 (bit_or (bit_or avail_mask_timed write_ready) ready)))
        (timed-lone (n % 2 ^ 64 * 2 ^ 28 % u64) 0 n (omega arith) (omega arith) (omega arith))
    ∙ simp (fields_rules, low_28)

avail_from_timed-field : (w : ℕ) → avail_from_timed w ≡ (timed w).avail
unfolding timed
avail_from_timed-field w = omega (arith, bit_and-field 28 28 w)

-- The write in terms of what it reads.
abbrev avail_word : (w n : ℕ) → (write done died : Bool) → ℕ
avail_word w n write done died =
    bit_or
      (bit_or
        (bit_or
          (bit_or (bit_and w (complement64 (bit_or (bit_or avail_mask_timed write_ready) ready)))
            (n % 2 ^ 64 * 2 ^ 28 % u64))
          (when write write_ready))
        (when done ready))
      (when died dead)

timed-avail_word :
    (w n : ℕ) (write done died : Bool)
    → n < 2 ^ 28
    → timed (avail_word w n write done died) ≡ record (timed w) {
      avail = n;
      write_ready = write;
      ready = done;
      dead = (timed w).dead || died;
    }
timed-avail_word w n write done died h =
    timed-dead _ died
    ∙ ap (λ (f : Timed). record f { dead = f.dead || died })
        (timed-ready _ done
          ∙ ap (λ (f : Timed). record f { ready = f.ready || done })
              (timed-write _ write
                ∙ ap (λ (f : Timed). record f { write_ready = f.write_ready || write })
                    (avail_counted w n h)))

avail_word_at : (cond w : ℕ) (z : ℤ) (did nt read died : Bool) → ℕ
avail_word_at cond w z did nt read died =
    let write = leb cond (to_word 32 z) in
    bit_or
      (bit_or
        (bit_or
          (bit_or (bit_and w (complement64 (bit_or (bit_or avail_mask_timed write_ready) ready)))
            (to_word 64 z * 2 ^ 28 % u64))
          (when write write_ready))
        (when (complete did nt read write died) ready))
      (when died dead)

-- `schedi_job_epollsocket_avail_add` of a socket that has not timed out, where the new free space `n` of the write buffer is not
-- negative and fits its 28 bits: the space becomes `n`, WRITE_READY says whether it reaches the
-- condition, READY is recomputed from the new bits, a death is recorded, and nothing else changes.
pub avail_add_timed_lem :
    (cond : ℕ) (delta : ℤ) (died : Bool) (w n : ℕ)
    → (pos (timed w).avail +ℤ delta) ≡ pos n
    → n < 2 ^ 28
    → (timed w).timeout ≡ false
    → let f = timed w in
      timed (atomic (avail_add_timed cond delta died) w).1 ≡ record f {
        avail = n;
        write_ready = leb cond n;
        ready = complete f.epolldid f.epollnt f.read_ready (leb cond n) (died || f.dead);
        dead = died || f.dead;
      }
unfolding avail_add_timed avail_word_at
avail_add_timed_lem cond delta died w n e h fresh =
    let f = timed w in
    let z = ap (λ (a : ℕ). pos a +ℤ delta) (avail_from_timed-field w) ∙ e in
    let small : n % 2 ^ 32 ≡ n = omega arith in
    rw still (
      (λ i. timed (avail_word_at cond w (z i) (did i) (nt i) (read i) (died || was i)))
      ∙ (λ i. timed (
          avail_word w n (leb cond (small i))
            (complete f.epolldid f.epollnt f.read_ready (leb cond (small i)) (died || f.dead))
            (died || f.dead)))
      ∙ timed-avail_word w n (leb cond n)
          (complete f.epolldid f.epollnt f.read_ready (leb cond n) (died || f.dead))
          (died || f.dead) h
      ∙ ap
          (λ (b : Bool). record f {
            avail = n;
            write_ready = leb cond n;
            ready = complete f.epolldid f.epollnt f.read_ready (leb cond n) (died || f.dead);
            dead = b;
          })
          (already died f.dead))
  where
    still : meets w timeout ≡ false
    still = unfold timed in meets-bit 57 w ∙ fresh

    did : meets w epolldid ≡ (timed w).epolldid
    did = unfold timed in meets-bit 58 w

    nt : meets w epollnt ≡ (timed w).epollnt
    nt = unfold timed in meets-bit 59 w

    read : meets w read_ready ≡ (timed w).read_ready
    read = unfold timed in meets-bit 60 w

    was : meets w dead ≡ (timed w).dead
    was = unfold timed in meets-bit 63 w
