-- ===== src/Sections/Release.antt =====
-- What `section_release` does to the free slots.
use schedi.Prelude.{
  ℕ, ◌+◌, ◌<◌, ◌≡◌, refl, Bool, true, false, not, Option, none, some, List, [], ◌∷◌, arith, ◌==◌,
  Bool-cases, if_case, inl, inr,
}
use mathlib.Core.Option
use schedi.Sections.{Section, maximum_jobs, merge, place, settle, release, add_size}
use schedi.Sections.Count.{free, Bounded, same}

-- What a loop of `section_release` does if it finds its section: slot `idx` becomes free, and no
-- other slot changes.
abbrev Frees : ℕ → List Section → Option (List Section) → Type 0
Frees idx ss none = Unit
Frees idx ss (some ss') = Bounded ss' × ((i : ℕ) → free i ss' ≡ free i ss + same i idx)

Frees-later :
    (idx : ℕ) (s : Section) (ss : List Section) (out : Option (List Section))
    → Bounded (s ∷ ss)
    → Frees idx ss out
    → Frees idx (s ∷ ss) (Option.map (λ ss'. s ∷ ss') out)
Frees-later idx s ss none b f = tt
Frees-later idx s ss (some ss') b f = ((b.0, f.0), λ i. omega (arith, f.1 i))

module _ (idx : ℕ) (s : Section) (ss : List Section) (inside : idx < maximum_jobs) where
  module _ (on : s.active ≡ true) (b : Bounded (s ∷ ss)) where
    Frees-below : add_size idx 1 ≡ s.a → Frees idx (s ∷ ss) (some (record s { a = idx } ∷ ss))
    Frees-below e = ((λ h. ground (arith, b.0 on), b.1), λ i. ground (arith, b.0 on))

    Frees-above : s.b ≡ idx → Frees idx (s ∷ ss) (some (record s { b = add_size idx 1 } ∷ ss))
    Frees-above e = ((λ h. ground (arith, b.0 on), b.1), λ i. ground (arith, b.0 on))

merge-Frees :
    (idx : ℕ) (ss : List Section) → idx < maximum_jobs → Bounded ss → Frees idx ss (merge idx ss)
unfolding merge
merge-Frees idx [] h b = tt
merge-Frees idx (s ∷ ss) h b =
    let later = Frees-later idx s ss (merge idx ss) b (merge-Frees idx ss h b.1) in
    if_case (Frees idx (s ∷ ss)) (not s.active) (λ off. later)
      λ on.
        if_case (Frees idx (s ∷ ss)) (add_size idx 1 == s.a)
          (λ below. Frees-below idx s ss h (ground arith) b (ground arith))
          λ apart.
            if_case (Frees idx (s ∷ ss)) (s.b == idx)
              (λ above. Frees-above idx s ss h (ground arith) b (ground arith)) λ beyond. later

place-Frees :
    (idx : ℕ) (ss : List Section) → idx < maximum_jobs → Bounded ss → Frees idx ss (place idx ss)
unfolding place
place-Frees idx [] h b = tt
place-Frees idx (s ∷ ss) h b =
    if_case (Frees idx (s ∷ ss)) s.active
      (λ on. Frees-later idx s ss (place idx ss) b (place-Frees idx ss h b.1))
      λ off. ((λ _. omega arith, b.1), λ i. ground arith)

abbrev pub AllActive : List Section → Type 0
AllActive [] = Unit
AllActive (s ∷ ss) = (s.active ≡ true) × AllActive ss

place-none : (idx : ℕ) (ss : List Section) → place idx ss ≡ none → AllActive ss
unfolding place
place-none idx [] e = tt
place-none idx (s ∷ ss) e = elim (Bool-cases s.active) [
  | inl on ↦ (on, place-none idx ss (ground arith))
  | inr off ↦ absurd (ground arith)
]

-- What a release does: the slot is free again and no other slot changes; or every section is in
-- use and none is beside the slot, the warning is raised, and the table stays, without the slot.
abbrev pub Releases : ℕ → List Section → List Section × Bool → Type 0
Releases idx ss (ss', false) = Bounded ss' × ((i : ℕ) → free i ss' ≡ free i ss + same i idx)
Releases idx ss (ss', true) = (ss' ≡ ss) × AllActive ss × (merge idx ss ≡ none)

settle-Releases :
    (idx : ℕ) (ss : List Section) (merged placed : Option (List Section))
    → merge idx ss ≡ merged
    → place idx ss ≡ placed
    → Frees idx ss merged
    → Frees idx ss placed
    → Releases idx ss (settle ss merged placed)
unfolding settle
settle-Releases idx ss (some merged) placed em ep fm fp = fm
settle-Releases idx ss none (some placed) em ep fm fp = fp
settle-Releases idx ss none none em ep fm fp = (refl, place-none idx ss ep, em)

-- `section_release` gives back exactly its slot, unless all 64 sections are in use and none is
-- beside it: then it raises the warning and the slot stays taken.
pub release_lem :
    (idx : ℕ) (ss : List Section)
    → idx < maximum_jobs
    → Bounded ss
    → Releases idx ss (release idx ss)
unfolding release
release_lem idx ss h b =
    settle-Releases idx ss (merge idx ss) (place idx ss) refl refl (merge-Frees idx ss h b)
      (place-Frees idx ss h b)
