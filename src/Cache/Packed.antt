-- ===== src/Cache/Packed.antt =====
-- Slots whose jobs are in front, and how the loop of `schedi_ready_jobs_cache_reorganize` of
-- src/jobs.c comes to them, slot by slot.
use schedi.Prelude.{
  ℕ, zero, suc, ◌+◌, ◌<◌, ◌≤◌, ◌≡◌, ◌≢◌, refl, sym, ◌∙◌, ap, true, false, Option, none, some, List,
  [], ◌∷◌, set, get_elem?, leb, ltb, arith, ◌⊎◌, inl, inr, if_case,
}
use mathlib.Core.Path.{subst}
use mathlib.Core.Option
use mathlib.Core.Option.{get_or}
use schedi.Cache.{put_first}
use schedi.Cache.Slots.{
  occupied, Full, Clear, Clear-mono, Full-mono, Full-Clear, Puts, put_first_lem,
}

-- The jobs are in the first slots.
abbrev pub Packed : List (Option ℕ) → Type 0
Packed ss = Full (occupied ss) ss × Clear (occupied ss) ss

pub Packed-at : (n : ℕ) (ss : List (Option ℕ)) → Full n ss → Clear n ss → Packed ss
Packed-at n ss f c =
    let e = sym (Full-Clear n ss f c) in
    (subst (λ (m : ℕ). Full m ss) e f, subst (λ (m : ℕ). Clear m ss) e c)

pub Slot-cases :
    (o : Option (Option ℕ))
    → ((job : ℕ) → o ≢ some (some job)) ⊎ ((job : ℕ) × (o ≡ some (some job)))
Slot-cases none = inl (λ job e. cc)
Slot-cases (some none) = inl (λ job e. cc)
Slot-cases (some (some job)) = inr (job, refl)

map-some :
    {A B : Type 0} (f : A → B) (o : Option A) {b : B}
    → Option.map f o ≡ some b
    → (a : A) × (o ≡ some a) × (f a ≡ b)
map-some f none e = cc
map-some f (some a) e = (a, refl, cc)

-- A put into slots that are full up to n makes them full up to n + 1.
put_first-Full :
    (n job : ℕ) (ss : List (Option ℕ)) {ss' : List (Option ℕ)}
    → Full n ss
    → put_first job ss ≡ some ss'
    → Full (suc n) ss'
unfolding put_first
put_first-Full n job [] f e = cc
put_first-Full zero job (none ∷ ss) f e =
    subst (Full 1) (ap (λ (o : Option (List (Option ℕ))). get_or o []) e) tt
put_first-Full (suc n) job (none ∷ ss) f e = elim f [ ]
put_first-Full zero job (some k ∷ ss) f e =
    let m = map-some (λ ss'. some k ∷ ss') (put_first job ss) e in subst (Full 1) m.2 tt
put_first-Full (suc n) job (some k ∷ ss) f e =
    let m = map-some (λ ss'. some k ∷ ss') (put_first job ss) e in
    subst (Full (suc (suc n))) m.2 (put_first-Full n job ss f m.1)

Full-set : (n i : ℕ) (ss : List (Option ℕ)) → n ≤ i → Full n ss → Full n (set ss i none)
Full-set zero i ss le f = tt
Full-set (suc n) i [] le f = f
Full-set (suc n) i (none ∷ ss) le f = elim f [ ]
Full-set (suc n) zero (some k ∷ ss) le f = absurd (omega arith)
Full-set (suc n) (suc i) (some k ∷ ss) le f = Full-set n i ss (omega arith) f

Clear-set : (i : ℕ) (ss : List (Option ℕ)) → Clear (suc i) ss → Clear i (set ss i none)
Clear-set i [] c = tt
Clear-set zero (s ∷ ss) c = c
Clear-set (suc i) (s ∷ ss) c = Clear-set i ss c

Clear-none :
    (i : ℕ) (ss : List (Option ℕ))
    → ((job : ℕ) → get_elem? ss i ≢ some (some job))
    → Clear (suc i) ss
    → Clear i ss
Clear-none i [] n c = tt
Clear-none zero (none ∷ ss) n c = c
Clear-none zero (some k ∷ ss) n c = absurd (n k refl)
Clear-none (suc i) (s ∷ ss) n c = Clear-none i ss n c

-- A put into slots that are empty from i on keeps them so, unless the first i slots are full.
put_first-Clear :
    (i job : ℕ) (ss : List (Option ℕ)) {ss' : List (Option ℕ)}
    → Clear i ss
    → put_first job ss ≡ some ss'
    → Clear i ss' ⊎ Full i ss
unfolding put_first
put_first-Clear i job [] c e = cc
put_first-Clear zero job ss c e = inr tt
put_first-Clear (suc i) job (none ∷ ss) c e =
    inl (subst (Clear (suc i)) (ap (λ (o : Option (List (Option ℕ))). get_or o []) e) c)
put_first-Clear (suc i) job (some k ∷ ss) c e =
    let m = map-some (λ ss'. some k ∷ ss') (put_first job ss) e in
    elim (put_first-Clear i job ss c m.1) [
      | inl c' ↦ inl (subst (Clear (suc i)) m.2 c')
      | inr f ↦ inr f
    ]

-- A job that is taken out below the last full slot goes back where it was.
put_first-back :
    (k i job : ℕ) (ss : List (Option ℕ))
    → Full k ss
    → i < k
    → get_elem? ss i ≡ some (some job)
    → put_first job (set ss i none) ≡ some ss
unfolding put_first
put_first-back zero i job ss f lt e = absurd (omega arith)
put_first-back (suc k) i job [] f lt e = elim f [ ]
put_first-back (suc k) i job (none ∷ ss) f lt e = elim f [ ]
put_first-back (suc k) zero job (some other ∷ ss) f lt e =
    ap (λ (o : Option (Option ℕ)). some (get_or o none ∷ ss)) (sym e)
put_first-back (suc k) (suc i) job (some other ∷ ss) f lt e =
    ap (Option.map (λ ss'. some other ∷ ss')) (put_first-back k i job ss f (omega arith) e)

-- Where the loop stands before it looks below slot i, with n jobs moved: it is done, or the slots
-- from i on are empty and the first n are full.
abbrev pub Stage : ℕ → ℕ → List (Option ℕ) → Type 0
Stage i n ss = Packed ss ⊎ (Clear i ss × Full n ss × (n < i))

pub Stage-start : (i : ℕ) (ss : List (Option ℕ)) → Clear i ss → Stage i 0 ss
Stage-start zero ss c = inl (Packed-at 0 ss tt c)
Stage-start (suc i) ss c = inr (c, tt, omega arith)

pub Stage-end : (n : ℕ) (ss : List (Option ℕ)) → Stage zero n ss → Packed ss
Stage-end n ss (inl p) = p
Stage-end n ss (inr s) = absurd (omega (arith, s.2))

-- An empty slot.
pub Stage-none :
    (i n : ℕ) (ss : List (Option ℕ))
    → ((job : ℕ) → get_elem? ss i ≢ some (some job))
    → Stage (suc i) n ss
    → Stage i n ss
Stage-none i n ss e (inl p) = inl p
Stage-none i n ss e (inr s) =
    let c = Clear-none i ss e s.0 in
    if_case (λ (x : ℕ). Stage i n ss) (ltb n i) {x = 0} {y = 0} (λ lt. inr (c, s.1, ground arith))
      (λ ge. inl (Packed-at i ss (Full-mono i n ss (ground arith) s.1) c))

below_count :
    (n i job : ℕ) (ss : List (Option ℕ)) → Clear n ss → get_elem? ss i ≡ some (some job) → i < n
below_count n i job [] c e = cc
below_count zero zero job (none ∷ ss) c e = cc
below_count zero (suc i) job (none ∷ ss) c e = absurd (omega (arith, below_count zero i job ss c e))
below_count zero i job (some k ∷ ss) c e = elim c [ ]
below_count (suc n) zero job (s ∷ ss) c e = omega arith
below_count (suc n) (suc i) job (s ∷ ss) c e = omega (arith, below_count n i job ss c e)

-- A slot whose job is taken out and put back: the loop is done, or one more slot is full.
pub Stage-some :
    (i n job : ℕ) (ss : List (Option ℕ)) {ss' : List (Option ℕ)}
    → get_elem? ss i ≡ some (some job)
    → put_first job (set ss i none) ≡ some ss'
    → Stage (suc i) n ss
    → Packed ss' ⊎ (Clear i ss' × Full (n + 1) ss')
Stage-some i n job ss {ss'} e put (inl p) =
    let back =
      put_first-back (occupied ss) i job ss p.0 (below_count (occupied ss) i job ss p.1 e) e in
    inl (subst Packed (ap (λ (o : Option (List (Option ℕ))). get_or o []) (sym back ∙ put)) p)
Stage-some i n job ss {ss'} e put (inr s) =
    let full = Full-set n i ss (omega (arith, s.2)) s.1 in
    let clear = Clear-set i ss s.0 in
    let one_more : suc n ≡ n + 1 = omega arith in
    let p = subst (Puts job (set ss i none)) put (put_first_lem job (set ss i none)) in
    elim (put_first-Clear i job (set ss i none) clear put) [
      | inl c ↦ inr (
        c,
        subst (λ (m : ℕ). Full m ss') one_more (put_first-Full n job (set ss i none) full put),
      )
      | inr f ↦ inl (
          Packed-at (suc i) ss' (put_first-Full i job (set ss i none) f put) (
            p.3 (suc i) (Clear-mono i (suc i) (set ss i none) (omega arith) clear)
              (omega (arith, Full-Clear i (set ss i none) f clear))))
    ]

pub Stage-stop :
    (i n : ℕ) (ss : List (Option ℕ))
    → Packed ss ⊎ (Clear i ss × Full (n + 1) ss)
    → leb i (n + 1) ≡ true
    → Packed ss
Stage-stop i n ss (inl p) le = p
Stage-stop i n ss (inr s) le = Packed-at i ss (Full-mono i (n + 1) ss (ground arith) s.1) s.0

pub Stage-go :
    (i n : ℕ) (ss : List (Option ℕ))
    → Packed ss ⊎ (Clear i ss × Full (n + 1) ss)
    → leb i (n + 1) ≡ false
    → Stage i (n + 1) ss
Stage-go i n ss (inl p) gt = inl p
Stage-go i n ss (inr s) gt = inr (s.0, s.1, ground arith)
