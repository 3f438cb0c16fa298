-- ===== src/Log/Recent.antt =====
-- Where an event stands in what `schedi_flog_get` of src/log.c writes.
use schedi.Prelude.{
  ℕ, ◌+◌, ◌-◌, ◌%◌, ◌^◌, ◌<◌, ◌≤◌, ◌≡◌, ◌≢◌, refl, ◌∙◌, ap, List, [], ◌∷◌, length, arith,
}
use schedi.Queue.{update}
use schedi.Log.{Event, Ring, flog_size, flog_explicit, get}

-- A sequence of events.
pub logged : List Event → Ring → Ring
logged [] r = r
logged (ev ∷ evs) r = logged evs (flog_explicit ev r)

head-logged :
    (evs : List Event) (r : Ring)
    → r.head < 2 ^ 32
    → (logged evs r).head ≡ (r.head + length evs) % 2 ^ 32
unfolding logged flog_explicit
head-logged [] r h = omega arith
head-logged (ev ∷ evs) r h = omega (arith, head-logged evs (flog_explicit ev r) (omega arith))

-- A slot that fewer than 4096 later events come to keeps its event: it is d slots behind the head.
events-logged :
    (evs : List Event) (r : Ring) (slot d : ℕ)
    → r.head < 2 ^ 32
    → slot < flog_size
    → r.head % flog_size ≡ (slot + d) % flog_size
    → 0 < d
    → d + length evs ≤ flog_size
    → (logged evs r).events slot ≡ r.events slot
unfolding logged flog_explicit
events-logged [] r slot d h hs e pos le = refl
events-logged (ev ∷ evs) r slot d h hs e pos le =
    let ne : r.head % flog_size ≢ slot = omega arith in
    let kept : update r.events (r.head % flog_size) ev slot ≡ r.events slot = ground arith in
    events-logged evs (flog_explicit ev r) slot (d + 1) (omega arith) hs (omega arith) (omega arith)
      (omega arith)
    ∙ kept

-- After an event and at most 4094 more, the get function writes the event at index 4094 less the
-- number of those: the last one logged is second to last in the buffer.
pub get-logged :
    (ev : Event) (evs : List Event) (r : Ring)
    → r.head < 2 ^ 32
    → length evs ≤ 4094
    → get (logged evs (flog_explicit ev r)) (4094 - length evs) ≡ ev
unfolding get flog_explicit
get-logged ev evs r h le =
    let r' = flog_explicit ev r in
    let at : ((logged evs r').head + 2 ^ 32 - (flog_size - 1 - (4094 - length evs)))
          % 2 ^ 32
          % flog_size
        ≡ r.head % flog_size =
      omega (arith, head-logged evs r' (omega arith)) in
    let new : update r.events (r.head % flog_size) ev (r.head % flog_size) ≡ ev = ground arith in
    ap (logged evs r').events at
    ∙ events-logged evs r' (r.head % flog_size) 1 (omega arith) (omega arith) (omega arith)
        (omega arith) (omega arith)
    ∙ new
