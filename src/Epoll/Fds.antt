-- ===== src/Epoll/Fds.antt =====
-- The three descriptors of the epoll loop, and the life of its thread (src/epoll.c).
use schedi.Prelude.{
  ◌≡◌, refl, sym, ◌∙◌, ap, Bool, true, false, if◌then◌else◌, arith, Bool-cases, inl, inr,
}
use schedi.Prelude.Int.{ℤ, pos, negsuc}
use schedi.Kernel.{Kernel, negative}
use schedi.Epoll.{Epoll, init_write, init_wakefd, init_fds, epoll_destroy}
use schedi.Epoll.Add.{same_int, same_int-eq}

-- Which descriptors are open.
abbrev pub Open : Type 0
Open = ℤ → Bool

abbrev pub set_open : ℤ → Bool → Open → Open
set_open fd b o = λ f. if same_int f fd then b else o f

-- What the manual pages say of epoll_create1(2), eventfd(2) and close(2): a new descriptor was not
-- open before, a failure opens none, and a closed one is open no more.
pub record Opens {K : Type 0} (os : Kernel K) (live : K → Open) : Type 0 where
  pub created :
      (k : K)
      → negative (os.epoll_create1 k).0 ≡ false
      → (live k (os.epoll_create1 k).0 ≡ false)
        × (live (os.epoll_create1 k).1 ≡ set_open (os.epoll_create1 k).0 true (live k))
  pub not_created :
      (k : K) → negative (os.epoll_create1 k).0 ≡ true → live (os.epoll_create1 k).1 ≡ live k
  pub eventfd :
      (k : K)
      → negative (os.eventfd k).0 ≡ false
      → (live k (os.eventfd k).0 ≡ false)
        × (live (os.eventfd k).1 ≡ set_open (os.eventfd k).0 true (live k))
  pub no_eventfd : (k : K) → negative (os.eventfd k).0 ≡ true → live (os.eventfd k).1 ≡ live k
  pub closed : (fd : ℤ) (k : K) → live (os.close fd k) ≡ set_open fd false (live k)

-- A descriptor that is closed, or was not open, can be closed with nothing changed.
close_shut : (fd : ℤ) (o : Open) → o fd ≡ false → set_open fd false o ≡ o
close_shut fd o e = λ i f. at f i
  where
    at : (f : ℤ) → set_open fd false o f ≡ o f
    at f = elim (Bool-cases (same_int f fd)) [
      | inr other ↦ rw other refl
      | inl h ↦ rw h (sym e ∙ ap o (sym (same_int-eq f fd h)))
    ]

close-open : (fd : ℤ) (o : Open) → o fd ≡ false → set_open fd false (set_open fd true o) ≡ o
close-open fd o e = (λ i f. at f i) ∙ close_shut fd o e
  where
    at : (f : ℤ) → set_open fd false (set_open fd true o) f ≡ set_open fd false o f
    at f = ground arith

swap_close :
    (a b : ℤ) (o : Open)
    → set_open a false (set_open b false o) ≡ set_open b false (set_open a false o)
swap_close a b o = λ i f. at f i
  where
    at : (f : ℤ) → set_open a false (set_open b false o) f ≡ set_open b false (set_open a false o) f
    at f = ground arith

close_two :
    (a b : ℤ) (o : Open)
    → o a ≡ false
    → set_open a true o b ≡ false
    → set_open b false (set_open a false (set_open b true (set_open a true o))) ≡ o
close_two a b o e e' =
    swap_close b a (set_open b true (set_open a true o))
    ∙ ap (set_open a false) (close-open b (set_open a true o) e')
    ∙ close-open a o e

module _ {K : Type 0} (os : Kernel K) {live : K → Open} (laws : Opens os live) where
  -- The descriptors in the order of their creation.
  abbrev pub opened : Epoll → Open → Open
  opened ep o =
      set_open ep.epoll_wakefd true (set_open ep.epfd_write true (set_open ep.epfd_read true o))

  -- What was not open before each creation.
  abbrev pub Distinct : Epoll → Open → Type 0
  Distinct ep o =
      (o ep.epfd_read ≡ false)
      × (set_open ep.epfd_read true o ep.epfd_write ≡ false)
      × (set_open ep.epfd_write true (set_open ep.epfd_read true o) ep.epoll_wakefd ≡ false)

  -- No descriptor is there, as at the start.
  abbrev pub IsDown : Epoll → Type 0
  IsDown ep =
      (negative ep.epfd_read ≡ true)
      × (negative ep.epfd_write ≡ true)
      × (negative ep.epoll_wakefd ≡ true)

  abbrev pub Inits : (before : Open) → ℤ × Epoll × K → Type 0
  Inits before (pos n, ep, k) =
      (negative ep.epfd_read ≡ false)
      × (negative ep.epfd_write ≡ false)
      × (negative ep.epoll_wakefd ≡ false)
      × Distinct ep before
      × (live k ≡ opened ep before)
  Inits before (negsuc n, ep, k) = IsDown ep × (live k ≡ before)

  init_wakefd-Inits :
      (ep : Epoll) (k : K) (before : Open)
      → negative ep.epfd_read ≡ false
      → negative ep.epfd_write ≡ false
      → before ep.epfd_read ≡ false
      → set_open ep.epfd_read true before ep.epfd_write ≡ false
      → live k ≡ set_open ep.epfd_write true (set_open ep.epfd_read true before)
      → Inits before (init_wakefd os ep k)
  unfolding init_wakefd
  init_wakefd-Inits ep k before read write fresh fresh' e =
      elim (Bool-cases (negative (os.eventfd k).0)) [
        | inl bad ↦ rw bad (
          (refl, refl, bad),
          laws.closed ep.epfd_write (os.close ep.epfd_read (os.eventfd k).1)
              ∙ ap (set_open ep.epfd_write false) (
                  laws.closed ep.epfd_read (os.eventfd k).1
                  ∙ ap (set_open ep.epfd_read false) (laws.no_eventfd k bad ∙ e))
              ∙ close_two ep.epfd_read ep.epfd_write before fresh fresh',
        )
        | inr ok ↦
            let wake = (os.eventfd k).0 in
            rw ok (
              read,
              write,
              ok,
              (fresh, fresh', sym (ap (λ (o : Open). o wake) e) ∙ (laws.eventfd k ok).0),
              (laws.eventfd k ok).1 ∙ ap (set_open wake true) e,
            )
      ]

  init_write-Inits :
      (ep : Epoll) (k : K) (before : Open)
      → negative ep.epfd_read ≡ false
      → negative ep.epoll_wakefd ≡ true
      → before ep.epfd_read ≡ false
      → live k ≡ set_open ep.epfd_read true before
      → Inits before (init_write os ep k)
  unfolding init_write
  init_write-Inits ep k before read down fresh e =
      elim (Bool-cases (negative (os.epoll_create1 k).0)) [
        | inl bad ↦ rw bad (
          (refl, bad, down),
          laws.closed ep.epfd_read (os.epoll_create1 k).1
              ∙ ap (set_open ep.epfd_read false) (laws.not_created k bad ∙ e)
              ∙ close-open ep.epfd_read before fresh,
        )
        | inr ok ↦
            let write = (os.epoll_create1 k).0 in
            let made = laws.created k ok in
            rw ok (
              init_wakefd-Inits (record ep { epfd_write = write }) (os.epoll_create1 k).1 before
                read ok fresh (sym (ap (λ (o : Open). o write) e) ∙ made.0)
                (made.1 ∙ ap (set_open write true) e))
      ]

  init_fds-Inits : (ep : Epoll) (k : K) → IsDown ep → Inits (live k) (init_fds os ep k)
  unfolding init_fds
  init_fds-Inits ep k down = elim (Bool-cases (negative (os.epoll_create1 k).0)) [
    | inl bad ↦ rw (down.0, bad) ((bad, down.1, down.2), laws.not_created k bad)
    | inr ok ↦
        let made = laws.created k ok in
        rw (down.0, ok)
          (init_write-Inits (record ep { epfd_read = (os.epoll_create1 k).0 })
            (os.epoll_create1 k).1 (live k) ok down.2 made.0 made.1)
  ]

  -- All three descriptors closed, from the first to the last.
  close_three :
      (ep : Epoll) (before : Open)
      → Distinct ep before
      → set_open ep.epoll_wakefd false
          (set_open ep.epfd_write false (set_open ep.epfd_read false (opened ep before)))
        ≡ before
  close_three ep before d =
      ap (set_open ep.epoll_wakefd false) (swap_close ep.epfd_write ep.epfd_read (opened ep before))
      ∙ swap_close ep.epoll_wakefd ep.epfd_read (set_open ep.epfd_write false (opened ep before))
      ∙ ap (set_open ep.epfd_read false) (
          swap_close ep.epoll_wakefd ep.epfd_write (opened ep before)
          ∙ ap (set_open ep.epfd_write false) (
              close-open ep.epoll_wakefd
                (set_open ep.epfd_write true (set_open ep.epfd_read true before)) d.2)
          ∙ close-open ep.epfd_write (set_open ep.epfd_read true before) d.1)
      ∙ close-open ep.epfd_read before d.0

  -- What a destruction does after an initialisation.
  abbrev pub Undone : (before : Open) → ℤ × Epoll × K → Type 0
  Undone before (r, ep, k) = let out = epoll_destroy os ep k in (live out.2 ≡ before) × IsDown out.1

  Inits-Undone : (before : Open) (out : ℤ × Epoll × K) → Inits before out → Undone before out
  unfolding epoll_destroy
  Inits-Undone before (negsuc n, ep, k) ((read, write, wake), e) =
      rw (read, write, wake) (e, (read, write, wake))
  Inits-Undone before (pos n, ep, k) (read, write, wake, d, e) =
      rw (read, write, wake)
        (
          laws.closed ep.epoll_wakefd (os.close ep.epfd_write (os.close ep.epfd_read k))
              ∙ ap (set_open ep.epoll_wakefd false) (
                  laws.closed ep.epfd_write (os.close ep.epfd_read k)
                  ∙ ap (set_open ep.epfd_write false)
                      (laws.closed ep.epfd_read k ∙ ap (set_open ep.epfd_read false) e))
              ∙ close_three ep before d,
          (refl, refl, refl),
        )

  -- From a state with no epoll descriptors, `schedi_epoll_init_fds` and then `schedi_epoll_destroy`
  -- leave open exactly the descriptors that were open before, and are back in such a state,
  -- whichever of the three creations fails.
  pub destroy-init_fds : (ep : Epoll) (k : K) → IsDown ep → Undone (live k) (init_fds os ep k)
  destroy-init_fds ep k down = Inits-Undone (live k) (init_fds os ep k) (init_fds-Inits ep k down)
