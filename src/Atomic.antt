-- ===== src/Atomic.antt =====
-- The compare-and-swap loops of src/jobs.c, such as the one of `schedi_job_mark_or`: load the word
-- into `expected`; while the body does not return, `CAS(&word, &expected, desired)`.
-- The body depends on the expected value alone. The other threads are the list of values that the
-- word holds at the successive CAS instructions.
mod Tests
use schedi.Prelude.{
  ℕ, ◌≡◌, refl, sym, ◌∙◌, ap, ◌++◌, ◌≢◌, false, List, [], ◌∷◌, Option, none, some, ◌==◌,
  if◌then◌else◌, arith, ◌⊎◌, inl, inr, Bool-cases,
}

-- What one round of a loop decides on: to return, or to write and return.
pub data Attempt {ℓ} (R : Type ℓ) : Type ℓ where
  quit : R → Attempt R
  swap : ℕ → R → Attempt R

module _ {ℓ} {R : Type ℓ} where
  -- The operation as one atomic step at the word `w`: the result, and the word after it.
  abbrev pub commit : Attempt R → ℕ → R × ℕ
  commit (quit r) w = (r, w)
  commit (swap desired r) w = (r, desired)

  abbrev pub atomic : (ℕ → Attempt R) → ℕ → R × ℕ
  atomic body w = commit (body w) w

  -- The loop from the expected value on; `none` while it still spins at the end of the list.
  -- A failed CAS loads the actual value into `expected`.
  pub cas_loop : (ℕ → Attempt R) → List ℕ → ℕ → Option (R × ℕ)
  cas_loop body [] expected = elim (body expected) [
    | quit r ↦ some (r, expected)
    | swap desired r ↦ none
  ]
  cas_loop body (actual ∷ later) expected = elim (body expected) [
    | quit r ↦ some (r, expected)
    | swap desired r ↦ if actual == expected then some (r, desired) else cas_loop body later actual
  ]

-- What `expected` is after failed CAS instructions at these values.
abbrev pub last_of : ℕ → List ℕ → ℕ
last_of e [] = e
last_of e (x ∷ xs) = last_of x xs

module _ {ℓ} {R : Type ℓ} (body : ℕ → Attempt R) (e : ℕ) (seen : List ℕ) (out : R × ℕ) where
  -- The loop has written: its CAS instructions failed at the values `before`, and the next one found
  -- the word at the value w that the one before it had loaded, from which the body writes.
  abbrev pub Writes : Type ℓ
  Writes =
      (before : List ℕ) × (later : List ℕ) × (w : ℕ) × (seen ≡ before ++ (w ∷ later))
      × (cas_loop body before e ≡ none)
      × (last_of e before ≡ w)
      × (body w ≡ swap out.1 out.0)

  -- It has returned without a write, on the value that it had loaded.
  abbrev pub Quits : Type ℓ
  Quits =
      (before : List ℕ) × (later : List ℕ) × (seen ≡ before ++ later)
      × (last_of e before ≡ out.1)
      × (body out.1 ≡ quit out.0)

-- Each value differs from the one before it.
abbrev pub Changing : ℕ → List ℕ → Type 0
Changing w [] = Unit
Changing w (x ∷ xs) = (x ≢ w) × Changing x xs

Attempt-cases {ℓ} :
    {R : Type ℓ} (a : Attempt R)
    → ((r : R) × (a ≡ quit r)) ⊎ ((desired : ℕ) × (r : R) × (a ≡ swap desired r))
Attempt-cases (quit r) = inl (r, refl)
Attempt-cases (swap desired r) = inr (desired, r, refl)

-- A round that fails its CAS leaves the rest of the loop at the actual value.
cas_loop_again {ℓ} :
    {R : Type ℓ} (body : ℕ → Attempt R) (later : List ℕ) (actual e d : ℕ) (r : R)
    → body e ≡ swap d r
    → (actual == e) ≡ false
    → cas_loop body (actual ∷ later) e ≡ cas_loop body later actual
unfolding cas_loop
cas_loop_again body later actual e d r b ne = ground arith

-- Whatever the other threads write, a loop that returns has either written, in the one CAS
-- instruction that found the word at the value from which its body made the new one, so that no write
-- of another thread is lost, or returned as its body does on a value that it loaded.
pub cas_loop-atomic {ℓ} :
    {R : Type ℓ} (body : ℕ → Attempt R) (seen : List ℕ) (e : ℕ) {out : R × ℕ}
    → cas_loop body seen e ≡ some out
    → Writes body e seen out ⊎ Quits body e seen out
unfolding cas_loop
cas_loop-atomic body [] e h = elim (Attempt-cases (body e)) [
  | inl (r, b) ↦ inr ([], [], refl, ground arith, ground arith)
  | inr (d, r, b) ↦ absurd (ground arith)
]
cas_loop-atomic body (actual ∷ later) e {out} h = elim (Attempt-cases (body e)) [
  | inl (r, b) ↦ inr ([], actual ∷ later, refl, ground arith, ground arith)
  | inr (d, r, b) ↦ elim (Bool-cases (actual == e)) [
    | inl same ↦ inl ([], later, actual, refl, ground arith, ground arith, ground arith)
    | inr ne ↦
        let again = cas_loop_again body later actual e d r b ne in
        elim (cas_loop-atomic body later actual (sym again ∙ h)) [
          | inl (before, after, w, split, spins, loaded, wrote) ↦ inl (
            actual ∷ before,
            after,
            w,
            ap (λ (l : List ℕ). actual ∷ l) split,
            cas_loop_again body before actual e d r b ne ∙ spins,
            loaded,
            wrote,
          )
          | inr (before, after, split, loaded, ends) ↦
              inr (actual ∷ before, after, ap (λ (l : List ℕ). actual ∷ l) split, loaded, ends)
        ]
  ]
]

-- With no write by another thread between the load and the CAS, one round is enough.
pub cas_loop_quiet {ℓ} :
    {R : Type ℓ} (body : ℕ → Attempt R) (later : List ℕ) (e : ℕ)
    → cas_loop body (e ∷ later) e ≡ some (atomic body e)
unfolding cas_loop
cas_loop_quiet body later e = ground arith

-- A loop goes round again only if another thread has changed the word: while it spins, each value
-- that it has seen differs from the one before.
pub cas_loop_spins {ℓ} :
    {R : Type ℓ} (body : ℕ → Attempt R) (seen : List ℕ) (e : ℕ)
    → cas_loop body seen e ≡ none
    → Changing e seen
unfolding cas_loop
cas_loop_spins body [] e h = tt
cas_loop_spins body (actual ∷ later) e h = elim (Attempt-cases (body e)) [
  | inl (r, b) ↦ absurd (ground arith)
  | inr (d, r, b) ↦ elim (Bool-cases (actual == e)) [
    | inl same ↦ absurd (ground arith)
    | inr ne ↦ (
      ground arith,
      cas_loop_spins body later actual (sym (cas_loop_again body later actual e d r b ne) ∙ h),
    )
  ]
]
