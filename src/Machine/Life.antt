-- ===== src/Machine/Life.antt =====
-- Ends and new starts: the last reference to an epoll socket, a restart of the epoll thread, and
-- a socket that becomes READY for a job that counts 15 already (src/jobs.c, src/epoll.c).
use schedi.Prelude.{
  ℕ, ◌≡◌, refl, ◌∙◌, ap, true, false, not, ◌==◌, List, some, arith, Bool-cases, inl, inr,
}
use schedi.Prelude.Int.{pos, negsuc}
use schedi.Meta.{mark_access}
use schedi.Meta.Flags.{Flags, flags}
use schedi.Jobs.{System, mark}
use schedi.Jobs.Complete.{update_job-refused}
use schedi.Kernel.{Kernel}
use schedi.Epoll.{Epoll, close_fds, thread_init, thread_deinit}
use schedi.Epoll.Thread.{stop-thread_init, stop-thread_deinit}
use schedi.Socket.{ready, meets}
use schedi.Socket.Buffer.{Socket}
use schedi.Socket.Owner.{accessjob, jobready_update, epollsocket_done_cas, change}
use schedi.Machine.{Machine}
use schedi.Machine.Sockets.{done_with}
use schedi.Machine.Loop.{Stops, epoll_loop}
use schedi.Machine.Returned.{accessible, accessed-flags, access-flags, gen-mark}

fall-done :
    (e epollside : ℕ) (sock : Socket) (s : System)
    → (epollsocket_done_cas e epollside sock s).0.fall ≡ sock.fall
unfolding change
fall-done e epollside sock s = elim (Bool-cases (epollside == 0)) [
  | inl job ↦ rw job refl
  | inr epoll ↦ rw epoll refl
]

module _ (e : ℕ) {K : Type 0} (os : Kernel K) where
  -- A call that is not the last.
  done_before :
      (side p : ℕ) (m : Machine K)
      → (m.sockets p).fall ≡ pos 2
      → let (r, m') = done_with e os side p m in
        (r ≡ negsuc 0) × (m'.host.kernel ≡ m.host.kernel) × ((m'.sockets p).fall ≡ pos 1)
  unfolding done_with
  done_before side p m two =
      let here = fall-done e side (m.sockets p) m.host.system ∙ two in
      rw here (refl, refl, ground arith)

  done_last :
      (side p : ℕ) (m : Machine K)
      → (m.sockets p).fall ≡ pos 1
      → let (r, m') = done_with e os side p m in
        (r ≡ pos 0) × (m'.host.kernel ≡ os.free p m.host.kernel)
  unfolding done_with
  done_last side p m one =
      let here = fall-done e side (m.sockets p) m.host.system ∙ one in rw here (refl, refl)

  -- Of a socket that both ends hold, the first `schedi_job_epollsocket_done_` frees nothing and
  -- returns -1, and the second frees it and returns 0, whichever of the ends is the first.
  pub done-done :
      (first second p : ℕ) (m : Machine K)
      → (m.sockets p).fall ≡ pos 2
      → let (r, m') = done_with e os first p m in
        let (r', m'') = done_with e os second p m' in
        (r ≡ negsuc 0)
        × (m'.host.kernel ≡ m.host.kernel)
        × (r' ≡ pos 0)
        × (m''.host.kernel ≡ os.free p m.host.kernel)
  done-done first second p m two =
      let (a, b, c) = done_before first p m two in
      let (d, f) = done_last second p (done_with e os first p m).1 c in
      (a, b, d, f ∙ ap (os.free p) b)

  -- Once the epoll thread has been stopped by `schedi_epoll_thread_deinit`, the loop that a later
  -- `schedi_epoll_thread_init` starts returns 0 at once and serves nothing: the stop flag is still
  -- set.
  pub epoll_loop-restarted :
      (ep : Epoll) (k : K) (others : List (System → System)) (fuel : ℕ) (stops : List Stops)
      (m : Machine K)
      → ep.epoll_thread_running ≡ true
      → m.host.epoll
        ≡ (let (ret, ep', k') = thread_deinit os (close_fds os) ep k in (thread_init os ep' k').1)
      → epoll_loop e others os fuel stops m ≡ some (pos 0, m)
  unfolding epoll_loop
  epoll_loop-restarted ep k others fuel stops m runs at =
      let out = thread_deinit os (close_fds os) ep k in
      let stopped : m.host.epoll.epoll_stop ≡ true =
        ap (λ (x : Epoll). x.epoll_stop) at
        ∙ stop-thread_init os out.1 out.2
        ∙ stop-thread_deinit os ep k runs in
      rw stopped refl

avsock-mark :
    (i : ℕ) (s : System)
    → accessible (flags (s.jobs i).meta_flag) ≡ true
    → (flags ((mark mark_access i s).1.jobs i).meta_flag).avsock
      ≡ (flags (s.jobs i).meta_flag).avsock
avsock-mark i s free = ap (λ (f : Flags). f.avsock) (accessed-flags i s free)

-- A socket that becomes READY is not counted where its job, which can be accessed and is of its
-- generation, counts 15 READY sockets already: the job's flags and counts stay.
pub jobready_update-full :
    (e old_htc new_htc : ℕ) (sock : Socket) (s : System)
    → meets old_htc ready ≡ false
    → meets new_htc ready ≡ true
    → accessible (flags (s.jobs sock.job).meta_flag) ≡ true
    → ((s.jobs sock.job).gen == sock.gen) ≡ true
    → (flags (s.jobs sock.job).meta_flag).avsock ≡ 15
    → flags ((jobready_update e sock old_htc new_htc s).jobs sock.job).meta_flag
      ≡ flags (s.jobs sock.job).meta_flag
unfolding jobready_update accessjob
jobready_update-full e old_htc new_htc sock s was now free same full =
    let i = sock.job in
    let p = access-flags i s free in
    let s₁ = (mark mark_access i s).1 in
    let got : not ((mark mark_access i s).0 == 0) ≡ false = ground (arith, p.0) in
    let its : ((s₁.jobs i).gen == sock.gen) ≡ true =
      ap (λ (g : ℕ). g == sock.gen) (gen-mark mark_access i s) ∙ same in
    let most = avsock-mark i s free ∙ full in
    let refused = update_job-refused e i (pos 1) (pos 0) (pos 0) s₁ (ground arith) in
    rw (was, now, got, its, refused) p.1
