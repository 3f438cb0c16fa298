-- ===== src/Socket/Count.antt =====
-- `schedi_job_epollsocket_count_add` of src/jobs.c: the bytes in the read buffer.
use schedi.Prelude.{
  ℕ, ◌%◌, ◌^◌, ◌<◌, ◌≡◌, ◌∙◌, ap, ap₂, bit_and, bit_or, Bool, false, ◌||◌, leb, arith,
}
use schedi.Prelude.Int.{ℤ, pos, ◌+ℤ◌}
use schedi.Prelude.Bits.{bit_and_low}
use schedi.Atomic.{atomic}
use schedi.Socket.{
  to_word, count_mask, epolldid, epollnt, read_ready, write_ready, ready, dead, complement64, meets,
  when, count_from, complete, count_add,
}
use schedi.Socket.Fields.{Fields, fields, joined, fields-bit_or, fields-bit_and}
use schedi.Socket.Bits.{
  fields_rules, meets-bit, fields-read, fields-ready, fields-dead, fields-lone, already,
}

-- The word with new `count`, and READY and READ_READY clear.
count_counted :
    (w n : ℕ)
    → n < 2 ^ 29
    → fields (
        bit_or
          (bit_and w (complement64 (bit_or (bit_or count_mask read_ready) ready)))
          (bit_and (n % 2 ^ 64) count_mask))
      ≡ record (fields w) { count = n; read_ready = false; ready = false }
unfolding fields
count_counted w n h =
    fields-bit_or (bit_and w (complement64 (bit_or (bit_or count_mask read_ready) ready)))
      (bit_and (n % 2 ^ 64) count_mask)
    ∙ ap₂ joined (fields-bit_and w (complement64 (bit_or (bit_or count_mask read_ready) ready))) (
        fields-lone (bit_and (n % 2 ^ 64) count_mask) n 0 (omega (arith, kept))
          (omega (arith, kept)) (omega (arith, kept)))
    ∙ simp fields_rules
  where
    kept : bit_and (n % 2 ^ 64) count_mask ≡ n
    kept = bit_and_low 29 (n % 2 ^ 64) ∙ omega arith

pub count_from-field : (w : ℕ) → count_from w ≡ (fields w).count
unfolding fields
count_from-field w = omega (arith, bit_and_low 29 w)

-- The read in terms of what it reads.
abbrev count_word : (w n : ℕ) → (read done died : Bool) → ℕ
count_word w n read done died =
    bit_or
      (bit_or
        (bit_or
          (bit_or (bit_and w (complement64 (bit_or (bit_or count_mask read_ready) ready)))
            (bit_and (n % 2 ^ 64) count_mask))
          (when read read_ready))
        (when done ready))
      (when died dead)

fields-count_word :
    (w n : ℕ) (read done died : Bool)
    → n < 2 ^ 29
    → fields (count_word w n read done died) ≡ record (fields w) {
      count = n;
      read_ready = read;
      ready = done;
      dead = (fields w).dead || died;
    }
fields-count_word w n read done died h =
    fields-dead _ died
    ∙ ap (λ (f : Fields). record f { dead = f.dead || died })
        (fields-ready _ done
          ∙ ap (λ (f : Fields). record f { ready = f.ready || done })
              (fields-read _ read
                ∙ ap (λ (f : Fields). record f { read_ready = f.read_ready || read })
                    (count_counted w n h)))

count_word_at : (cond w : ℕ) (z : ℤ) (did nt write died : Bool) → ℕ
count_word_at cond w z did nt write died =
    let read = leb cond (to_word 32 z) in
    bit_or
      (bit_or
        (bit_or
          (bit_or (bit_and w (complement64 (bit_or (bit_or count_mask read_ready) ready)))
            (bit_and (to_word 64 z) count_mask))
          (when read read_ready))
        (when (complete did nt read write died) ready))
      (when died dead)

-- `schedi_job_epollsocket_count_add`, where the new number `n` of bytes in the read buffer is not
-- negative and fits its 29 bits: the count becomes `n`, READ_READY says whether it reaches the
-- condition, READY is recomputed from the new bits, a death is recorded, and nothing else changes.
pub count_add_lem :
    (cond : ℕ) (delta : ℤ) (died : Bool) (w n : ℕ)
    → (pos (fields w).count +ℤ delta) ≡ pos n
    → n < 2 ^ 29
    → let f = fields w in
      fields (atomic (count_add cond delta died) w).1 ≡ record f {
        count = n;
        read_ready = leb cond n;
        ready = complete f.epolldid f.epollnt (leb cond n) f.write_ready (died || f.dead);
        dead = died || f.dead;
      }
unfolding count_add count_word_at
count_add_lem cond delta died w n e h =
    let f = fields w in
    let z = ap (λ (a : ℕ). pos a +ℤ delta) (count_from-field w) ∙ e in
    let small : n % 2 ^ 32 ≡ n = omega arith in
    (λ i. fields (count_word_at cond w (z i) (did i) (nt i) (write i) (died || was i)))
    ∙ (λ i. fields (
        count_word w n (leb cond (small i))
          (complete f.epolldid f.epollnt (leb cond (small i)) f.write_ready (died || f.dead))
          (died || f.dead)))
    ∙ fields-count_word w n (leb cond n)
        (complete f.epolldid f.epollnt (leb cond n) f.write_ready (died || f.dead)) (died || f.dead)
        h
    ∙ ap
        (λ (b : Bool). record f {
          count = n;
          read_ready = leb cond n;
          ready = complete f.epolldid f.epollnt (leb cond n) f.write_ready (died || f.dead);
          dead = b;
        })
        (already died f.dead)
  where
    did : meets w epolldid ≡ (fields w).epolldid
    did = unfold fields in meets-bit 58 w

    nt : meets w epollnt ≡ (fields w).epollnt
    nt = unfold fields in meets-bit 59 w

    write : meets w write_ready ≡ (fields w).write_ready
    write = unfold fields in meets-bit 61 w

    was : meets w dead ≡ (fields w).dead
    was = unfold fields in meets-bit 63 w
