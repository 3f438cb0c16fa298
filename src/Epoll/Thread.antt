-- ===== src/Epoll/Thread.antt =====
-- The stop flag of the epoll thread (src/epoll.c).
use schedi.Prelude.{◌≡◌, refl, true, not, if_case}
use schedi.Prelude.Int.{ℤ}
use schedi.Kernel.{Kernel, negative, nonzero}
use schedi.Epoll.{Epoll, init_wakefd, init_write, init_fds, close_fds, thread_init, thread_deinit}

module _ {K : Type 0} (os : Kernel K) where
  -- `schedi_epoll_thread_init` never changes the stop flag.
  stop-init_fds : (ep : Epoll) (k : K) → (init_fds os ep k).1.epoll_stop ≡ ep.epoll_stop
  unfolding init_fds init_write init_wakefd
  stop-init_fds ep k =
      if_case (λ (out : ℤ × Epoll × K). out.1.epoll_stop ≡ ep.epoll_stop)
        (not (negative ep.epfd_read)) (λ h. refl)
        λ h.
          if_case (λ (out : ℤ × Epoll × K). out.1.epoll_stop ≡ ep.epoll_stop)
            (negative (os.epoll_create1 k).0) (λ h. refl)
            λ h.
              let k' = (os.epoll_create1 k).1 in
              if_case (λ (out : ℤ × Epoll × K). out.1.epoll_stop ≡ ep.epoll_stop)
                (negative (os.epoll_create1 k').0) (λ h. refl)
                λ h.
                  if_case (λ (out : ℤ × Epoll × K). out.1.epoll_stop ≡ ep.epoll_stop)
                    (negative (os.eventfd (os.epoll_create1 k').1).0) (λ h. refl) (λ h. refl)

  pub stop-thread_init : (ep : Epoll) (k : K) → (thread_init os ep k).1.epoll_stop ≡ ep.epoll_stop
  unfolding thread_init
  stop-thread_init ep k =
      if_case (λ (out : ℤ × Epoll × K). out.1.epoll_stop ≡ ep.epoll_stop) ep.epoll_thread_running
        (λ h. refl)
        λ h.
          if_case (λ (out : ℤ × Epoll × K). out.1.epoll_stop ≡ ep.epoll_stop)
            (negative (init_fds os ep k).0) (λ h. stop-init_fds ep k)
            λ h.
              if_case (λ (out : ℤ × Epoll × K). out.1.epoll_stop ≡ ep.epoll_stop)
                (nonzero (os.pthread_create (init_fds os ep k).2).0) (λ h. stop-init_fds ep k)
                (λ h. stop-init_fds ep k)

  -- `schedi_epoll_thread_deinit` of a running thread leaves it set.
  pub stop-thread_deinit :
      (ep : Epoll) (k : K)
      → ep.epoll_thread_running ≡ true
      → (thread_deinit os (close_fds os) ep k).1.epoll_stop ≡ true
  unfolding thread_deinit close_fds
  stop-thread_deinit ep k runs = rw runs refl
