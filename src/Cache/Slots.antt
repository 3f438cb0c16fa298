-- ===== src/Cache/Slots.antt =====
-- Lists of slots: how many hold a job, which are empty, and what the loops over them do.
use schedi.Prelude.{
  ℕ, zero, suc, ◌+◌, ◌<◌, ◌≤◌, ◌≡◌, refl, ap, Option, none, some, List, [], ◌∷◌, length, set,
  length-set, get_elem?, ◌==◌, if◌then◌else◌, arith,
}
use mathlib.Core.Option
use schedi.Cache.{take_first, put_first}

abbrev pub occupied : List (Option ℕ) → ℕ
occupied [] = 0
occupied (none ∷ ss) = occupied ss
occupied (some job ∷ ss) = suc (occupied ss)

-- In how many slots a job is.
abbrev pub copies : ℕ → List (Option ℕ) → ℕ
copies j [] = 0
copies j (none ∷ ss) = copies j ss
copies j (some job ∷ ss) = (if j == job then 1 else 0) + copies j ss

-- The first n slots hold jobs; the slots from n on are empty.
abbrev pub Full : ℕ → List (Option ℕ) → Type 0
Full zero ss = Unit
Full (suc n) [] = ⊥
Full (suc n) (none ∷ ss) = ⊥
Full (suc n) (some job ∷ ss) = Full n ss

abbrev pub Clear : ℕ → List (Option ℕ) → Type 0
Clear n [] = Unit
Clear zero (none ∷ ss) = Clear zero ss
Clear zero (some job ∷ ss) = ⊥
Clear (suc n) (s ∷ ss) = Clear n ss

pub occupied-le : (ss : List (Option ℕ)) → occupied ss ≤ length ss
occupied-le [] = omega arith
occupied-le (none ∷ ss) = omega (arith, occupied-le ss)
occupied-le (some job ∷ ss) = omega (arith, occupied-le ss)

pub Clear-zero : (ss : List (Option ℕ)) → Clear zero ss → occupied ss ≡ 0
Clear-zero [] c = refl
Clear-zero (none ∷ ss) c = Clear-zero ss c
Clear-zero (some _ ∷ ss) c = elim c [ ]

-- Full up to n and empty from n on: n jobs.
pub Full-Clear : (n : ℕ) (ss : List (Option ℕ)) → Full n ss → Clear n ss → occupied ss ≡ n
Full-Clear zero ss f c = Clear-zero ss c
Full-Clear (suc n) [] f c = elim f [ ]
Full-Clear (suc n) (none ∷ ss) f c = elim f [ ]
Full-Clear (suc n) (some job ∷ ss) f c = ap suc (Full-Clear n ss f c)

pub Clear-mono : (m n : ℕ) (ss : List (Option ℕ)) → m ≤ n → Clear m ss → Clear n ss
Clear-mono m n [] le c = tt
Clear-mono zero zero (none ∷ ss) le c = c
Clear-mono zero (suc n) (none ∷ ss) le c = Clear-mono zero n ss (omega arith) c
Clear-mono zero zero (some _ ∷ ss) le c = elim c [ ]
Clear-mono zero (suc n) (some _ ∷ ss) le c = elim c [ ]
Clear-mono (suc m) zero (s ∷ ss) le c = absurd (omega arith)
Clear-mono (suc m) (suc n) (s ∷ ss) le c = Clear-mono m n ss (omega arith) c

pub Full-mono : (m n : ℕ) (ss : List (Option ℕ)) → m ≤ n → Full n ss → Full m ss
Full-mono zero n ss le f = tt
Full-mono (suc m) zero ss le f = absurd (omega arith)
Full-mono (suc m) (suc n) [] le f = elim f [ ]
Full-mono (suc m) (suc n) (none ∷ ss) le f = elim f [ ]
Full-mono (suc m) (suc n) (some job ∷ ss) le f = Full-mono m n ss (omega arith) f

-- What a put does to a list of slots: there was no room, or the job is in one more slot, the first
-- that was empty, and nothing else has changed.
abbrev pub Puts : ℕ → List (Option ℕ) → Option (List (Option ℕ)) → Type 0
Puts job ss none = occupied ss ≡ length ss
Puts job ss (some ss') =
    (length ss' ≡ length ss)
    × (occupied ss' ≡ suc (occupied ss))
    × ((j : ℕ) → copies j ss' ≡ copies j ss + (if j == job then 1 else 0))
    × ((n : ℕ) → Clear n ss → occupied ss < n → Clear n ss')

Puts-later :
    (job other : ℕ) (ss : List (Option ℕ)) (out : Option (List (Option ℕ)))
    → Puts job ss out
    → Puts job (some other ∷ ss) (Option.map (λ ss'. some other ∷ ss') out)
Puts-later job other ss none p = ap suc p
Puts-later job other ss (some ss') p =
    (ap suc p.0, ap suc p.1, (λ j. omega (arith, p.2 j)), λ n c lt. later n c lt)
  where
    later :
        (n : ℕ)
        → Clear n (some other ∷ ss)
        → occupied (some other ∷ ss) < n
        → Clear n (some other ∷ ss')
    later zero c lt = c
    later (suc n) c lt = p.3 n c (omega arith)

pub put_first_lem : (job : ℕ) (ss : List (Option ℕ)) → Puts job ss (put_first job ss)
unfolding put_first
put_first_lem job [] = refl
put_first_lem job (none ∷ ss) = (refl, refl, (λ j. omega arith), λ n c lt. filled n c lt)
  where
    filled : (n : ℕ) → Clear n (none ∷ ss) → occupied ss < n → Clear n (some job ∷ ss)
    filled zero c lt = absurd (omega arith)
    filled (suc n) c lt = c
put_first_lem job (some other ∷ ss) =
    Puts-later job other ss (put_first job ss) (put_first_lem job ss)

-- The slots before n are empty.
abbrev pub EmptyBefore : ℕ → List (Option ℕ) → Type 0
EmptyBefore zero ss = Unit
EmptyBefore (suc n) [] = Unit
EmptyBefore (suc n) (none ∷ ss) = EmptyBefore n ss
EmptyBefore (suc n) (some job ∷ ss) = ⊥

-- What a take from the first n slots does: they were all empty, or a job is in one slot less and
-- nothing else has changed.
abbrev pub Takes : ℕ → List (Option ℕ) → Option (ℕ × List (Option ℕ)) → Type 0
Takes n ss none = EmptyBefore n ss
Takes n ss (some (job, ss')) =
    (length ss' ≡ length ss)
    × (occupied ss ≡ suc (occupied ss'))
    × ((j : ℕ) → copies j ss ≡ copies j ss' + (if j == job then 1 else 0))
    × ((m : ℕ) → Clear m ss → Clear m ss')

Takes-later :
    (n : ℕ) (ss : List (Option ℕ)) (out : Option (ℕ × List (Option ℕ)))
    → Takes n ss out
    → Takes (suc n) (none ∷ ss) (Option.map (λ r. (r.0, none ∷ r.1)) out)
Takes-later n ss none t = t
Takes-later n ss (some (job, ss')) t = (ap suc t.0, t.1, t.2, λ m c. later m c)
  where
    later : (m : ℕ) → Clear m (none ∷ ss) → Clear m (none ∷ ss')
    later zero c = t.3 zero c
    later (suc m) c = t.3 m c

pub take_first_lem : (n : ℕ) (ss : List (Option ℕ)) → Takes n ss (take_first n ss)
unfolding take_first
take_first_lem zero ss = tt
take_first_lem (suc n) [] = tt
take_first_lem (suc n) (none ∷ ss) = Takes-later n ss (take_first n ss) (take_first_lem n ss)
take_first_lem (suc n) (some job ∷ ss) = (refl, refl, (λ j. omega arith), λ m c. emptied m c)
  where
    emptied : (m : ℕ) → Clear m (some job ∷ ss) → Clear m (none ∷ ss)
    emptied zero c = absurd c
    emptied (suc m) c = c

-- Emptying slot i takes out the job in it.
pub set-none :
    (i job : ℕ) (ss : List (Option ℕ))
    → get_elem? ss i ≡ some (some job)
    → Takes i ss (some (job, set ss i none))
set-none i job ss e =
    (length-set ss i none, less i ss e, (λ j. fewer i ss j e), λ m c. emptied i ss m c)
  where
    less :
        (i : ℕ) (ss : List (Option ℕ))
        → get_elem? ss i ≡ some (some job)
        → occupied ss ≡ suc (occupied (set ss i none))
    less i [] e = cc
    less zero (none ∷ ss) e = cc
    less zero (some job ∷ ss) e = refl
    less (suc i) (none ∷ ss) e = less i ss e
    less (suc i) (some other ∷ ss) e = ap suc (less i ss e)

    fewer :
        (i : ℕ) (ss : List (Option ℕ)) (j : ℕ)
        → get_elem? ss i ≡ some (some job)
        → copies j ss ≡ copies j (set ss i none) + (if j == job then 1 else 0)
    fewer i [] j e = cc
    fewer zero (none ∷ ss) j e = cc
    fewer zero (some other ∷ ss) j e = ground arith
    fewer (suc i) (none ∷ ss) j e = fewer i ss j e
    fewer (suc i) (some other ∷ ss) j e = omega (arith, fewer i ss j e)

    emptied : (i : ℕ) (ss : List (Option ℕ)) (m : ℕ) → Clear m ss → Clear m (set ss i none)
    emptied i [] m c = tt
    emptied zero (none ∷ ss) m c = c
    emptied zero (some other ∷ ss) zero c = elim c [ ]
    emptied zero (some other ∷ ss) (suc m) c = c
    emptied (suc i) (none ∷ ss) zero c = emptied i ss zero c
    emptied (suc i) (some other ∷ ss) zero c = elim c [ ]
    emptied (suc i) (s ∷ ss) (suc m) c = emptied i ss m c

pub Empty-before : (n : ℕ) (ss : List (Option ℕ)) → occupied ss ≡ 0 → EmptyBefore n ss
Empty-before zero ss e = tt
Empty-before (suc n) [] e = tt
Empty-before (suc n) (none ∷ ss) e = Empty-before n ss e
Empty-before (suc n) (some job ∷ ss) e = absurd (omega arith)
