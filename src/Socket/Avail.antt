-- ===== src/Socket/Avail.antt =====
-- `schedi_job_epollsocket_avail_add` of src/jobs.c: the free space of the write buffer.
use schedi.Prelude.{
  ℕ, ◌*◌, ◌%◌, ◌^◌, ◌<◌, ◌≡◌, ◌∙◌, ap, ap₂, bit_and, bit_or, Bool, false, ◌||◌, leb, arith,
}
use schedi.Prelude.Int.{ℤ, pos, ◌+ℤ◌}
use schedi.Prelude.Bits.{bit_and-field}
use schedi.Atomic.{atomic}
use schedi.Socket.{
  to_word, avail_mask, epolldid, epollnt, read_ready, write_ready, ready, dead, complement64, meets,
  when, avail_from, complete, avail_add, u64,
}
use schedi.Socket.Fields.{Fields, fields, joined, fields-bit_or, fields-bit_and}
use schedi.Socket.Bits.{
  fields_rules, meets-bit, fields-write, fields-ready, fields-dead, fields-lone, already,
}

-- The word with new `avail`, and READY and WRITE_READY clear.
avail_counted :
    (w n : ℕ)
    → n < 2 ^ 29
    → fields (
        bit_or
          (bit_and w (complement64 (bit_or (bit_or avail_mask write_ready) ready)))
          (n % 2 ^ 64 * 2 ^ 29 % u64))
      ≡ record (fields w) { avail = n; write_ready = false; ready = false }
unfolding fields
avail_counted w n h =
    fields-bit_or (bit_and w (complement64 (bit_or (bit_or avail_mask write_ready) ready)))
      (n % 2 ^ 64 * 2 ^ 29 % u64)
    ∙ ap₂ joined (fields-bit_and w (complement64 (bit_or (bit_or avail_mask write_ready) ready)))
        (fields-lone (n % 2 ^ 64 * 2 ^ 29 % u64) 0 n (omega arith) (omega arith) (omega arith))
    ∙ simp fields_rules

pub avail_from-field : (w : ℕ) → avail_from w ≡ (fields w).avail
unfolding fields
avail_from-field w = omega (arith, bit_and-field 29 29 w)

-- The write in terms of what it reads.
abbrev avail_word : (w n : ℕ) → (write done died : Bool) → ℕ
avail_word w n write done died =
    bit_or
      (bit_or
        (bit_or
          (bit_or (bit_and w (complement64 (bit_or (bit_or avail_mask write_ready) ready)))
            (n % 2 ^ 64 * 2 ^ 29 % u64))
          (when write write_ready))
        (when done ready))
      (when died dead)

fields-avail_word :
    (w n : ℕ) (write done died : Bool)
    → n < 2 ^ 29
    → fields (avail_word w n write done died) ≡ record (fields w) {
      avail = n;
      write_ready = write;
      ready = done;
      dead = (fields w).dead || died;
    }
fields-avail_word w n write done died h =
    fields-dead _ died
    ∙ ap (λ (f : Fields). record f { dead = f.dead || died })
        (fields-ready _ done
          ∙ ap (λ (f : Fields). record f { ready = f.ready || done })
              (fields-write _ write
                ∙ ap (λ (f : Fields). record f { write_ready = f.write_ready || write })
                    (avail_counted w n h)))

avail_word_at : (cond w : ℕ) (z : ℤ) (did nt read died : Bool) → ℕ
avail_word_at cond w z did nt read died =
    let write = leb cond (to_word 32 z) in
    bit_or
      (bit_or
        (bit_or
          (bit_or (bit_and w (complement64 (bit_or (bit_or avail_mask write_ready) ready)))
            (to_word 64 z * 2 ^ 29 % u64))
          (when write write_ready))
        (when (complete did nt read write died) ready))
      (when died dead)

-- `schedi_job_epollsocket_avail_add`, where the new free space `n` of the write buffer is not
-- negative and fits its 29 bits: the space becomes `n`, WRITE_READY says whether it reaches the
-- condition, READY is recomputed from the new bits, a death is recorded, and nothing else changes.
pub avail_add_lem :
    (cond : ℕ) (delta : ℤ) (died : Bool) (w n : ℕ)
    → (pos (fields w).avail +ℤ delta) ≡ pos n
    → n < 2 ^ 29
    → let f = fields w in
      fields (atomic (avail_add cond delta died) w).1 ≡ record f {
        avail = n;
        write_ready = leb cond n;
        ready = complete f.epolldid f.epollnt f.read_ready (leb cond n) (died || f.dead);
        dead = died || f.dead;
      }
unfolding avail_add avail_word_at
avail_add_lem cond delta died w n e h =
    let f = fields w in
    let z = ap (λ (a : ℕ). pos a +ℤ delta) (avail_from-field w) ∙ e in
    let small : n % 2 ^ 32 ≡ n = omega arith in
    (λ i. fields (avail_word_at cond w (z i) (did i) (nt i) (read i) (died || was i)))
    ∙ (λ i. fields (
        avail_word w n (leb cond (small i))
          (complete f.epolldid f.epollnt f.read_ready (leb cond (small i)) (died || f.dead))
          (died || f.dead)))
    ∙ fields-avail_word w n (leb cond n)
        (complete f.epolldid f.epollnt f.read_ready (leb cond n) (died || f.dead)) (died || f.dead)
        h
    ∙ ap
        (λ (b : Bool). record f {
          avail = n;
          write_ready = leb cond n;
          ready = complete f.epolldid f.epollnt f.read_ready (leb cond n) (died || f.dead);
          dead = b;
        })
        (already died f.dead)
  where
    did : meets w epolldid ≡ (fields w).epolldid
    did = unfold fields in meets-bit 58 w

    nt : meets w epollnt ≡ (fields w).epollnt
    nt = unfold fields in meets-bit 59 w

    read : meets w read_ready ≡ (fields w).read_ready
    read = unfold fields in meets-bit 60 w

    was : meets w dead ≡ (fields w).dead
    was = unfold fields in meets-bit 63 w
