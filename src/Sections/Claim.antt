-- ===== src/Sections/Claim.antt =====
-- What `section_claim` does to the free slots.
use schedi.Prelude.{
  ℕ, ◌+◌, ◌≤◌, ◌<◌, ◌≡◌, refl, ap, true, false, not, Option, none, some, List, [], ◌∷◌, leb, arith,
  Bool-cases, inl, inr,
}
use schedi.Sections.{Section, maximum_jobs, claim, add_size}
use schedi.Sections.Count.{holds, free, Bounded, same}

-- The first active section, with its first slot gone.
abbrev shrunk : Section → Section
shrunk s = record s { a = add_size s.a 1; active = not (leb s.b (add_size s.a 1)) }

module _ (s : Section) (ss : List Section) where
  claim_active : s.active ≡ true → claim (s ∷ ss) ≡ (some s.a, shrunk s ∷ ss)
  unfolding claim
  claim_active h = ground arith

  claim_inactive : s.active ≡ false → claim (s ∷ ss) ≡ ((claim ss).0, s ∷ (claim ss).1)
  unfolding claim
  claim_inactive h = ground arith

holds-shrunk :
    (s : Section) (i : ℕ)
    → s.active ≡ true
    → s.a < s.b
    → s.b ≤ maximum_jobs
    → holds i (shrunk s) + same i s.a ≡ holds i s
holds-shrunk s i h lt le = ground arith

-- What a claim does: a slot of the array that was free is free no longer, and no other slot
-- changes; NULL comes back only if no slot is free, and then the table stays.
abbrev pub Claims : List Section → Option ℕ × List Section → Type 0
Claims ss (none, ss') = (ss' ≡ ss) × ((i : ℕ) → free i ss ≡ 0)
Claims ss (some idx, ss') =
    (idx < maximum_jobs) × Bounded ss' × ((i : ℕ) → free i ss' + same i idx ≡ free i ss)

holds_inactive : (i : ℕ) (s : Section) → s.active ≡ false → holds i s ≡ 0
holds_inactive i s h = ground arith

Claims-later :
    (s : Section) (ss : List Section) (out : Option ℕ × List Section)
    → s.active ≡ false
    → Claims ss out
    → Claims (s ∷ ss) (out.0, s ∷ out.1)
Claims-later s ss (none, ss') h c =
    (ap (λ (t : List Section). s ∷ t) c.0, λ i. omega (arith, holds_inactive i s h, c.1 i))
Claims-later s ss (some idx, ss') h c =
    (c.0, (λ on. absurd (ground arith), c.1), λ i. omega (arith, c.2 i))

Claims-first :
    (s : Section) (ss : List Section)
    → s.active ≡ true
    → Bounded (s ∷ ss)
    → Claims (s ∷ ss) (some s.a, shrunk s ∷ ss)
Claims-first s ss h b = (
  omega (arith, b.0 h),
  (λ on. ground (arith, b.0 h), b.1),
  λ i. omega (arith, holds-shrunk s i h (b.0 h).0 (b.0 h).1),
)

-- `section_claim` takes one free slot, whatever the table, and fails only if none is left.
pub claim_lem : (ss : List Section) → Bounded ss → Claims ss (claim ss)
claim_lem [] b = unfold claim in (refl, λ i. refl)
claim_lem (s ∷ ss) b = elim (Bool-cases s.active) [
  | inl h ↦ rw (claim_active s ss h) (Claims-first s ss h b)
  | inr h ↦ rw (claim_inactive s ss h) (Claims-later s ss (claim ss) h (claim_lem ss b.1))
]
