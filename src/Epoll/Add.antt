-- ===== src/Epoll/Add.antt =====
-- `schedi_epoll_add` of src/epoll.c registers a descriptor with both instances or with none.
use schedi.Prelude.{
  ℕ, ◌≡◌, refl, sym, ◌∙◌, ap, Bool, true, false, not, ◌&&◌, ◌==◌, Option, none, some, bit_and,
  if◌then◌else◌, arith, Bool-cases, inl, inr,
}
use schedi.Prelude.Int.{ℤ, pos, negsuc}
use mathlib.Core.Path.{subst}
use schedi.Meta.{complement}
use schedi.Socket.{meets}
use schedi.Kernel.{Kernel, add, del, negative}
use schedi.Epoll.{Epoll, undo, add_write, epoll_add}

-- The flags and the pointer with which an instance watches a descriptor.
abbrev pub Interest : Type 0
Interest = ℤ → ℤ → Option (ℕ × ℕ)

abbrev pub same_int : ℤ → ℤ → Bool
same_int (pos m) (pos n) = m == n
same_int (negsuc m) (negsuc n) = m == n
same_int _ _ = false

abbrev pub watch : (epfd fd : ℤ) → Option (ℕ × ℕ) → Interest → Interest
watch epfd fd v w = λ p f. if same_int p epfd && same_int f fd then v else w p f

-- What epoll_ctl(2) documents: EPOLL_CTL_ADD fails where the descriptor is watched already or the
-- instance is not open, and then changes nothing; EPOLL_CTL_DEL ends with the descriptor not watched.
-- `free` is about memory only.
pub record Watches {K : Type 0} (os : Kernel K) (interest : K → Interest) : Type 0 where
  pub added :
      (epfd fd : ℤ) (events ptr : ℕ) (k : K)
      → negative (os.epoll_ctl epfd add fd events ptr k).0 ≡ false
      → (negative epfd ≡ false)
        × (interest k epfd fd ≡ none)
        × (interest (os.epoll_ctl epfd add fd events ptr k).1
            ≡ watch epfd fd (some (events, ptr)) (interest k))
  pub refused :
      (epfd fd : ℤ) (events ptr : ℕ) (k : K)
      → negative (os.epoll_ctl epfd add fd events ptr k).0 ≡ true
      → interest (os.epoll_ctl epfd add fd events ptr k).1 ≡ interest k
  pub deleted :
      (epfd fd : ℤ) (events ptr : ℕ) (k : K)
      → interest (os.epoll_ctl epfd del fd events ptr k).1 ≡ watch epfd fd none (interest k)
  pub freed : (ptr : ℕ) (k : K) → interest (os.free ptr k) ≡ interest k

pub same_int-eq : (a b : ℤ) → same_int a b ≡ true → a ≡ b
same_int-eq (pos m) (pos n) e = ground arith
same_int-eq (negsuc m) (negsuc n) e = ground arith
same_int-eq (pos m) (negsuc n) e = cc
same_int-eq (negsuc m) (pos n) e = cc

-- To watch a descriptor that was not watched and to stop again changes nothing.
watch-watch :
    (epfd fd : ℤ) (v : Option (ℕ × ℕ)) (w : Interest)
    → w epfd fd ≡ none
    → watch epfd fd none (watch epfd fd v w) ≡ w
watch-watch epfd fd v w e = λ i p f. restored p f i
  where
    restored : (p f : ℤ) → watch epfd fd none (watch epfd fd v w) p f ≡ w p f
    restored p f = elim (Bool-cases (same_int p epfd && same_int f fd)) [
      | inr other ↦ rw other refl
      | inl h ↦
          let a : p ≡ epfd = same_int-eq p epfd (ground arith) in
          let b : f ≡ fd = same_int-eq f fd (ground arith) in
          rw h (sym e ∙ (λ i. w (sym a i) (sym b i)))
    ]

module _ {K : Type 0} (os : Kernel K) {interest : K → Interest} (laws : Watches os interest) where
  -- What the instances watch once both registrations have gone through.
  abbrev pub registered : Epoll → ℤ → (ptr events : ℕ) → Interest → Interest
  registered ep fd ptr events w =
      let w' =
        if meets events os.epollin
        then watch ep.epfd_read fd (some (bit_and events (complement os.epollout), ptr)) w
        else w in
      if meets events os.epollout
      then watch ep.epfd_write fd (some (bit_and events (complement os.epollin), ptr)) w'
      else w'

  -- 0 with success, or -1 with failure.
  abbrev pub Adds : (before after : Interest) → ℤ × K → Type 0
  Adds before after (pos n, k') = (n ≡ 0) × (interest k' ≡ after)
  Adds before after (negsuc n, k') = (n ≡ 0) × (interest k' ≡ before)

  undone :
      (added fd : ℤ) (ptr : ℕ) (k : K) (before : Interest)
      → (if not (negative added) then watch added fd none (interest k) else interest k) ≡ before
      → interest (undo os added fd ptr k).1 ≡ before
  unfolding undo
  undone (pos n) fd ptr k before e =
      laws.freed ptr (os.epoll_ctl (pos n) del fd 0 0 k).1 ∙ laws.deleted (pos n) fd 0 0 k ∙ e
  undone (negsuc n) fd ptr k before e = laws.freed ptr k ∙ e

  -- The second registration, after one that left what to undo.
  add_write-Adds :
      (ep : Epoll) (added fd : ℤ) (ptr events : ℕ) (k : K) (before : Interest)
      → (if not (negative added) then watch added fd none (interest k) else interest k) ≡ before
      → Adds before
          (if meets events os.epollout
            then watch ep.epfd_write fd
                (some (bit_and events (complement os.epollin), ptr))
                (interest k)
            else interest k)
          (add_write os ep added fd ptr events k)
  unfolding add_write undo
  add_write-Adds ep added fd ptr events k before e = elim (Bool-cases (meets events os.epollout)) [
    | inr skip ↦ rw skip (refl, refl)
    | inl both ↦
        let low = bit_and events (complement os.epollin) in
        let out = os.epoll_ctl ep.epfd_write add fd low ptr k in
        elim (Bool-cases (negative out.0)) [
          | inr ok ↦ rw (both, ok) (refl, (laws.added ep.epfd_write fd low ptr k ok).2)
          | inl bad ↦
              let same = laws.refused ep.epfd_write fd low ptr k bad in
              let back =
                ap (λ (w : Interest). if not (negative added) then watch added fd none w else w)
                  same
                ∙ e in
              rw (both, bad) (refl, failed added out.1 back)
        ]
  ]
    where
      failed :
          (added : ℤ) (k' : K)
          → (if not (negative added) then watch added fd none (interest k') else interest k')
            ≡ before
          → interest (undo os added fd ptr k').1 ≡ before
      failed added k' h = undone added fd ptr k' before h

  -- `schedi_epoll_add` returns 0 with the descriptor registered for reading, writing or both as the
  -- events ask, each instance with the flag of the other taken out; or it returns -1, and what the
  -- two instances watch is as before.
  pub epoll_add_lem :
      (ep : Epoll) (fd : ℤ) (ptr events : ℕ) (k : K)
      → Adds
          (interest k)
          (registered ep fd ptr events (interest k))
          (epoll_add os ep fd ptr events k)
  unfolding epoll_add undo
  epoll_add_lem ep fd ptr events k = elim (Bool-cases (meets events os.epollin)) [
    | inr skip ↦ rw skip (add_write-Adds ep (negsuc 0) fd ptr events k (interest k) refl)
    | inl reads ↦
        let low = bit_and events (complement os.epollout) in
        let out = os.epoll_ctl ep.epfd_read add fd low ptr k in
        elim (Bool-cases (negative out.0)) [
          | inl bad ↦
              rw (reads, bad)
                (
                  refl,
                  undone (negsuc 0) fd ptr out.1 (interest k)
                      (laws.refused ep.epfd_read fd low ptr k bad),
                )
          | inr ok ↦
              let a = laws.added ep.epfd_read fd low ptr k ok in
              let back : (if not (negative ep.epfd_read)
                    then watch ep.epfd_read fd none (interest out.1)
                    else interest out.1)
                  ≡ interest k =
                rw (a.0, a.2) (watch-watch ep.epfd_read fd (some (low, ptr)) (interest k) a.1) in
              rw (reads, ok)
                (subst
                  (λ w.
                    Adds (interest k)
                      (if meets events os.epollout
                        then watch ep.epfd_write fd
                            (some (bit_and events (complement os.epollin), ptr)) w
                        else w)
                      (add_write os ep ep.epfd_read fd ptr events out.1))
                  a.2 (add_write-Adds ep ep.epfd_read fd ptr events out.1 (interest k) back))
        ]
  ]
