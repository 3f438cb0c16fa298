-- ===== src/Queue/Tickets.antt =====
-- What the compare-and-swap of a push or a pop of the destroy queue does to the word, and what holds
-- of the ring at each point of a run of any threads.
use schedi.Prelude.{
  ℕ, ◌+◌, ◌-◌, ◌%◌, ◌^◌, ◌≤◌, ◌<◌, ◌≡◌, ◌≢◌, refl, ◌∙◌, ap, Bool, true, not, ◌||◌, ◌==◌, Option,
  none, some, arith, leb, if◌then◌else◌, inl, inr, Bool-cases,
}
use schedi.Atomic.{atomic}
use schedi.Queue.{Htc, Queue, dq_size, pack, htc_head, htc_tail, htc_count, push_body, pop_body}
use schedi.Queue.Pack.{Fits, parts-pack}

-- The word of a ring after `pushes` pushes and `pops` pops that counts `count` jobs.
pub record IsWord (w pushes pops count : ℕ) : Type 0 where
  pub htc : Htc
  pub packed : w ≡ pack htc
  pub head : htc.head ≡ pushes % dq_size
  pub tail : htc.tail ≡ pops % dq_size
  pub counted : htc.count ≡ count
  pub room : count ≤ dq_size
  pub label_in : htc.label < 2 ^ 16

pub IsWord-Fits : {w pushes pops count : ℕ} (v : IsWord w pushes pops count) → Fits v.htc
IsWord-Fits v =
    let h = v.head in
    let t = v.tail in
    let c = v.counted in
    let r = v.room in
    record { head = omega arith; tail = omega arith; count = omega arith; label = v.label_in }

pub read_word :
    {w pushes pops count : ℕ}
    → IsWord w pushes pops count
    → (htc_head w ≡ pushes % dq_size) × (htc_tail w ≡ pops % dq_size) × (htc_count w ≡ count)
read_word v =
    let p = parts-pack (IsWord-Fits v) in
    (
      ap htc_head v.packed ∙ p.0 ∙ v.head,
      ap htc_tail v.packed ∙ p.1 ∙ v.tail,
      ap htc_count v.packed ∙ p.2 ∙ v.counted,
    )

abbrev pub plus_if : Bool → ℕ → ℕ
plus_if counts n = if counts then n + 1 else n

abbrev pub less_if : Bool → ℕ → ℕ
less_if counts n = if counts then n - 1 else n

-- What a push writes.
abbrev pub Pushed : Bool → (pushes pops count : ℕ) → Option ℕ × ℕ → Type 0
Pushed counts pushes pops count (none, w') = Unit
Pushed counts pushes pops count (some i, w') =
    (i ≡ pushes % dq_size) × (count < dq_size) × IsWord w' (pushes + 1) pops (plus_if counts count)

-- What a pop writes, with a test of `ready` at the tail.
abbrev pub Popped : Bool → (ℕ → Bool) → (pushes pops count : ℕ) → Option ℕ × ℕ → Type 0
Popped counts ready pushes pops count (none, w') = Unit
Popped counts ready pushes pops count (some i, w') =
    (i ≡ pops % dq_size)
    × (ready i ≡ true)
    × (pops % dq_size ≢ pushes % dq_size)
    × (1 ≤ count)
    × IsWord w' pushes (pops + 1) (less_if counts count)

module _ (address : ℕ → ℕ) (counts : Bool) {w p q c : ℕ} where
  pub push-Pushed :
      (job : ℕ) → IsWord w p q c → Pushed counts p q c (atomic (push_body address counts job) w)
  unfolding push_body
  push-Pushed job v =
      let r = read_word v in
      elim (Bool-cases (leb dq_size (htc_count w))) [
        | inl full ↦ rw full tt
        | inr room ↦ rw room (
          r.0,
          ground (arith, r.2),
          record {
            htc = _;
            packed = refl;
            head = omega (arith, r.0);
            tail = r.1;
            counted = ground (arith, r.2);
            room = ground (arith, r.2);
            label_in = omega arith;
          },
        )
      ]

  pub pop-Popped :
      (d : Queue)
      → IsWord w p q c
      → Popped counts d.ready p q c (atomic (pop_body address counts d) w)
  unfolding pop_body
  pop-Popped d v =
      let r = read_word v in
      elim (Bool-cases ((htc_count w == 0) || not (d.ready (htc_tail w)))) [
        | inl quits ↦ rw quits tt
        | inr goes ↦ elim (Bool-cases (htc_tail w == htc_head w)) [
          | inl met ↦ rw (goes, met) tt
          | inr apart ↦
              rw (goes, apart)
                (
                  r.1,
                  ground arith,
                  ground (arith, r.0, r.1),
                  ground (arith, r.2),
                  record {
                    htc = _;
                    packed = refl;
                    head = r.0;
                    tail = omega (arith, r.1);
                    counted = ground (arith, r.2, v.room);
                    room = ground (arith, r.2, v.room);
                    label_in = omega arith;
                  },
                )
        ]
      ]
