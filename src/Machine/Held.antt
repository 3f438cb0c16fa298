-- ===== src/Machine/Held.antt =====
-- The registration of a socket and its timer by `schedi_job_epollsocket_epollisize` of src/jobs.c, in
-- the build with SCHEDI_EXT_TIMEOUT.
use schedi.Prelude.{
  ℕ, ◌≡◌, refl, ◌∙◌, ap, bit_or, false, Option, none, some, arith, Bool-cases, inl, inr, if_case,
  Option-cases,
}
use schedi.Prelude.Int.{ℤ, pos, negsuc}
use mathlib.Core.Path.{subst}
use schedi.Kernel.{Kernel, negative, nonzero}
use schedi.Epoll.{epoll_add}
use schedi.Epoll.Add.{Interest, Watches, Adds, registered, epoll_add_lem}
use schedi.Machine.{data_socket, Machine, with_kernel}
use schedi.Machine.Sockets.{push_epoll}
use schedi.Machine.Timers.{
  Timers, timeout_reset, timeout_stop, timer_push_epoll, timer_pushed, rearmed, epollisize_timed,
}

-- What timerfd_settime(2) and malloc(3) leave alone: what the epoll instances watch.
pub record Keeps {K : Type 0} (os : Kernel K) (timers : Timers K) (interest : K → Interest)
    : Type 0 where
  pub settime :
      (fd : ℤ) (sec : ℕ) (k : K) → interest (timers.timerfd_settime fd sec k).1 ≡ interest k
  pub malloc : (k : K) → interest (os.malloc k).1 ≡ interest k

module _ (e : ℕ) {K : Type 0} (os : Kernel K) (timers : Timers K) {interest : K → Interest}
    (laws : Watches os interest) (keeps : Keeps os timers interest) (p : ℕ) where
  abbrev pub socket_events : ℕ
  socket_events = bit_or (bit_or os.epollin os.epollout) os.epolloneshot

  -- What the instances watch once the timer and then the socket have been registered.
  abbrev pub Watched : Machine K → (ptr timer_ptr : ℕ) → Interest → Interest
  Watched m ptr timer_ptr w =
      registered os laws m.host.epoll (m.sockets p).fd ptr socket_events
        (registered os laws m.host.epoll (timers.to_timer_fd p) timer_ptr os.epollin w)

  -- The socket and its timer are registered, beside what was watched before, and the data of the
  -- socket's event leads to the socket.
  abbrev pub IsHeld : Interest → Machine K → Type 0
  IsHeld w m =
      (ptr : ℕ) × (timer_ptr : ℕ) × ((m.sockets p).data_ptr ≡ ptr)
      × (m.data_at ptr ≡ record { type = data_socket; ptr = p })
      × (interest m.host.kernel ≡ Watched m ptr timer_ptr w)

  -- What holds of the machine after a call that returns 0.
  abbrev pub OnSuccess : (Machine K → Type 0) → Option (ℤ × Machine K) → Type 0
  OnSuccess P none = Unit
  OnSuccess P (some (r, m)) = nonzero r ≡ false → P m

  added :
      (before after : Interest) (out : ℤ × K)
      → Adds os laws before after out
      → negative out.0 ≡ false
      → interest out.1 ≡ after
  added before after (pos n, k) a h = a.1
  added before after (negsuc n, k) a h = cc

  not_negative : (r : ℤ) → nonzero r ≡ false → negative r ≡ false
  not_negative (pos n) h = refl
  not_negative (negsuc n) h = cc

  abbrev TimerIn : Interest → Machine K → Type 0
  TimerIn w m =
      (timer_ptr : ℕ) × (interest m.host.kernel
        ≡ registered os laws m.host.epoll (timers.to_timer_fd p) timer_ptr os.epollin w)

  timer-TimerIn :
      (m : Machine K)
      → OnSuccess (TimerIn (interest m.host.kernel)) (timer_push_epoll e os timers p m)
  unfolding timer_push_epoll
  timer-TimerIn m = elim (Bool-cases (negative (timers.to_timer_fd p))) [
    | inl no_timer ↦ rw (OnSuccess, no_timer) (λ h. absurd (ground arith))
    | inr timer ↦ elim (Option-cases (os.malloc m.host.kernel).0) [
      | inl no_memory ↦ rw (OnSuccess, timer, no_memory) tt
      | inr (ptr, memory) ↦
          let k = (os.malloc m.host.kernel).1 in
          let out = epoll_add os m.host.epoll (timers.to_timer_fd p) ptr os.epollin k in
          let adds = epoll_add_lem os laws m.host.epoll (timers.to_timer_fd p) ptr os.epollin k in
          rw (OnSuccess, timer, memory)
            (λ h. (
              ptr,
              added _ _ out adds (ground arith)
                  ∙ ap (registered os laws m.host.epoll (timers.to_timer_fd p) ptr os.epollin)
                      (keeps.malloc m.host.kernel),
            ))
    ]
  ]

  push-IsHeld :
      (w : Interest) (m : Machine K) → TimerIn w m → OnSuccess (IsHeld w) (push_epoll e os p m)
  unfolding push_epoll
  push-IsHeld w m (timer_ptr, before) = elim (Option-cases (os.malloc m.host.kernel).0) [
    | inl no_memory ↦ rw (OnSuccess, no_memory) tt
    | inr (ptr, memory) ↦
        let k = (os.malloc m.host.kernel).1 in
        let fd = (m.sockets p).fd in
        let out = epoll_add os m.host.epoll fd ptr socket_events k in
        let adds = epoll_add_lem os laws m.host.epoll fd ptr socket_events k in
        let watches : nonzero out.0 ≡ false
            → interest out.1
              ≡ registered os laws m.host.epoll fd ptr socket_events
                  (registered os laws m.host.epoll (timers.to_timer_fd p) timer_ptr os.epollin w) =
          λ h.
            added _ _ out adds (not_negative out.0 h)
            ∙ ap (registered os laws m.host.epoll fd ptr socket_events)
                (keeps.malloc m.host.kernel ∙ before) in
        rw (OnSuccess, memory)
          (λ h. (
            ptr,
            timer_ptr,
            ground arith,
            ground arith,
            watches h
                ∙ ap
                    (λ (f : ℤ). registered os laws m.host.epoll f ptr socket_events (
                      registered os laws m.host.epoll (timers.to_timer_fd p) timer_ptr os.epollin
                        w))
                    (ground arith),
          ))
  ]

  rearmed-IsHeld :
      (w : Interest) (o : Option (ℤ × Machine K))
      → OnSuccess (IsHeld w) o
      → OnSuccess (IsHeld w) (rearmed e os timers p o)
  unfolding rearmed
  rearmed-IsHeld w none held = tt
  rearmed-IsHeld w (some (r, m)) held =
      if_case (OnSuccess (IsHeld w)) (nonzero r) (λ h success. cc)
        λ ok.
          if_case (OnSuccess (IsHeld w)) (nonzero (timeout_reset e os timers p m.host.kernel).0)
            (λ h success. cc)
            (λ h success.
              let (ptr, timer_ptr, at, leads, watched) = held ok in
              (
                ptr,
                timer_ptr,
                at,
                leads,
                keeps.settime (timers.to_timer_fd p) (timers.timeout_sec p) m.host.kernel ∙ watched,
              ))

  pushed-IsHeld :
      (w : Interest) (o : Option (ℤ × Machine K))
      → OnSuccess (TimerIn w) o
      → OnSuccess (IsHeld w) (timer_pushed e os timers p o)
  unfolding timer_pushed
  pushed-IsHeld w none timer = tt
  pushed-IsHeld w (some (r, m)) timer =
      if_case (OnSuccess (IsHeld w)) (nonzero r) (λ h success. cc)
        (λ ok. rearmed-IsHeld w (push_epoll e os p m) (push-IsHeld w m (timer ok)))

  -- Once it returns 0, the socket and its timer are registered.
  pub epollisize-IsHeld :
      (w : Interest) (m : Machine K)
      → interest m.host.kernel ≡ w
      → OnSuccess (IsHeld w) (epollisize_timed e os timers p m)
  unfolding epollisize_timed
  epollisize-IsHeld w m same =
      let m' = with_kernel (timeout_stop e os timers p m.host.kernel).1 m in
      let same' : interest m'.host.kernel ≡ w =
        keeps.settime (timers.to_timer_fd p) 0 m.host.kernel ∙ same in
      if_case (OnSuccess (IsHeld w)) (nonzero (timeout_stop e os timers p m.host.kernel).0)
        (λ h success. cc)
        (λ h. pushed-IsHeld w (timer_push_epoll e os timers p m') (
          subst (λ v. OnSuccess (TimerIn v) (timer_push_epoll e os timers p m')) same'
            (timer-TimerIn m')))
