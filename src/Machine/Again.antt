-- ===== src/Machine/Again.antt =====
-- `schedi_job_epollsocket_epollagain` of src/jobs.c: a socket that goes back to the epoll loop.
use schedi.Prelude.{ℕ, ◌≡◌, Option, none, some, ◌⊎◌}
use schedi.Prelude.Int.{ℤ, pos, negsuc}
use schedi.Kernel.{Kernel}
use schedi.Socket.Buffer.{Socket}
use schedi.Epoll.Add.{Interest, Watches}
use schedi.Machine.Held.{Keeps, IsHeld}
use schedi.Machine.{Machine}
use schedi.Machine.Timers.{Timers}

module _ (e : ℕ) {K : Type 0} (os : Kernel K) (timers : Timers K) (p : ℕ) where
  -- The references to the socket after a call.
  abbrev Counts : ℤ → Option (ℤ × Machine K) → Type 0
  Counts n none = Unit
  Counts n (some (r, m)) = (m.sockets p).fall ≡ n

  module _ {interest : K → Interest} (laws : Watches os interest)
      (keeps : Keeps os timers interest) where
    -- What `schedi_job_epollsocket_epollagain` returns, where the epoll instances watched w: with 0
    -- both ends hold the socket, which is registered with its timer; with -1 the job alone does.
    abbrev pub Returns : Interest → Option (ℤ × Machine K) → Type 0
    Returns w none = Unit
    Returns w (some (r, m)) =
        ((r ≡ pos 0) × ((m.sockets p).fall ≡ pos 2) × IsHeld e os timers laws keeps p w m)
        ⊎ ((r ≡ negsuc 0) × ((m.sockets p).fall ≡ pos 1))
