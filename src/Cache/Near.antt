-- ===== src/Cache/Near.antt =====
-- Slots of the ready jobs cache within reach of `schedi_cache_job_ready_pop`, and the others.
use schedi.Prelude.{
  ℕ, zero, suc, ◌+◌, ◌≡◌, refl, ap, Option, none, some, List, [], ◌∷◌, take, drop, arith, inl, inr,
  ◌⊎◌,
}
use mathlib.Core.Option
use schedi.Cache.{take_first, put_first}
use schedi.Cache.Slots.{occupied, Full, Clear, Clear-zero, EmptyBefore}

-- How many of the first n slots hold jobs, and how many of the others.
abbrev pub near : ℕ → List (Option ℕ) → ℕ
near n ss = occupied (take n ss)

abbrev pub far : ℕ → List (Option ℕ) → ℕ
far n ss = occupied (drop n ss)

pub near-far : (n : ℕ) (ss : List (Option ℕ)) → near n ss + far n ss ≡ occupied ss
near-far zero ss = omega arith
near-far (suc n) [] = refl
near-far (suc n) (none ∷ ss) = near-far n ss
near-far (suc n) (some job ∷ ss) = omega (arith, near-far n ss)

-- A put fills one of the first n slots, or they are full.
abbrev pub Fills : ℕ → List (Option ℕ) → Option (List (Option ℕ)) → Type 0
Fills n ss none = Unit
Fills n ss (some ss') =
    ((near n ss' ≡ suc (near n ss)) × (far n ss' ≡ far n ss))
    ⊎ ((near n ss ≡ n) × (near n ss' ≡ near n ss))

pub put_first-Fills : (n job : ℕ) (ss : List (Option ℕ)) → Fills n ss (put_first job ss)
unfolding put_first
put_first-Fills n job [] = tt
put_first-Fills zero job (none ∷ ss) = inr (refl, refl)
put_first-Fills (suc n) job (none ∷ ss) = inl (refl, refl)
put_first-Fills zero job (some other ∷ ss) = here (put_first job ss)
  where
    here :
        (o : Option (List (Option ℕ)))
        → Fills zero (some other ∷ ss) (Option.map (λ ss'. some other ∷ ss') o)
    here none = tt
    here (some ss') = inr (refl, refl)
put_first-Fills (suc n) job (some other ∷ ss) = later (put_first job ss) (put_first-Fills n job ss)
  where
    later :
        (o : Option (List (Option ℕ)))
        → Fills n ss o
        → Fills (suc n) (some other ∷ ss) (Option.map (λ ss'. some other ∷ ss') o)
    later none f = tt
    later (some ss') (inl (a, b)) = inl (ap suc a, b)
    later (some ss') (inr (a, b)) = inr (ap suc a, ap suc b)

-- A take empties one of the first n slots.
abbrev pub Empties : ℕ → List (Option ℕ) → Option (ℕ × List (Option ℕ)) → Type 0
Empties n ss none = Unit
Empties n ss (some (job, ss')) = (near n ss ≡ suc (near n ss')) × (far n ss' ≡ far n ss)

pub take_first-Empties : (n : ℕ) (ss : List (Option ℕ)) → Empties n ss (take_first n ss)
unfolding take_first
take_first-Empties zero ss = tt
take_first-Empties (suc n) [] = tt
take_first-Empties (suc n) (some job ∷ ss) = (refl, refl)
take_first-Empties (suc n) (none ∷ ss) = later (take_first n ss) (take_first-Empties n ss)
  where
    later :
        (o : Option (ℕ × List (Option ℕ)))
        → Empties n ss o
        → Empties (suc n) (none ∷ ss) (Option.map (λ r. (r.0, none ∷ r.1)) o)
    later none f = tt
    later (some (job, ss')) f = f

pub EmptyBefore-near : (n : ℕ) (ss : List (Option ℕ)) → EmptyBefore n ss → near n ss ≡ 0
EmptyBefore-near zero ss e = refl
EmptyBefore-near (suc n) [] e = refl
EmptyBefore-near (suc n) (none ∷ ss) e = EmptyBefore-near n ss e
EmptyBefore-near (suc n) (some job ∷ ss) e = elim e [ ]

pub Full-near : (n : ℕ) (ss : List (Option ℕ)) → Full n ss → near n ss ≡ n
Full-near zero ss f = refl
Full-near (suc n) [] f = elim f [ ]
Full-near (suc n) (none ∷ ss) f = elim f [ ]
Full-near (suc n) (some job ∷ ss) f = ap suc (Full-near n ss f)

pub Clear-far : (n : ℕ) (ss : List (Option ℕ)) → Clear n ss → far n ss ≡ 0
Clear-far zero ss c = Clear-zero ss c
Clear-far (suc n) [] c = refl
Clear-far (suc n) (none ∷ ss) c = Clear-far n ss c
Clear-far (suc n) (some job ∷ ss) c = Clear-far n ss c
