-- ===== src/Epoll/Tests.antt =====
-- Runs of the registrations and of the descriptors of the epoll loop.
use schedi.Prelude.{◌≡◌, refl, true, false}
use schedi.Prelude.Int.{pos, negsuc}
use schedi.Kernel.Sample.{idle, sample, sample-Watches, sample-Opens}
use schedi.Epoll.{Epoll, start, epoll_add, init_fds, thread_init, thread_deinit, close_fds}
use schedi.Epoll.Add.{Adds, registered, epoll_add_lem}
use schedi.Epoll.Fds.{Undone, destroy-init_fds}

abbrev up : Epoll
up = record {
  epfd_read = pos 3;
  epfd_write = pos 4;
  epoll_wakefd = pos 5;
  epoll_thread = 9;
  epoll_thread_running = true;
  epoll_stop = false;
}

-- Descriptor 7 for reading and writing, with its data at 64.
epoll_add_lem_example :
    Adds sample sample-Watches idle.watched
      (registered sample sample-Watches up (pos 7) 64 5 idle.watched)
      (epoll_add sample up (pos 7) 64 5 idle)
epoll_add_lem_example = epoll_add_lem sample sample-Watches up (pos 7) 64 5 idle

added : (epoll_add sample up (pos 7) 64 5 idle).0 ≡ pos 0
unfolding epoll_add
added = refl

abbrev down : Epoll
down = record up {
  epfd_read = negsuc 0;
  epfd_write = negsuc 0;
  epoll_wakefd = negsuc 0;
  epoll_thread_running = false;
}

down-start : start ≡ record down { epoll_thread = 0 }
unfolding start
down-start = refl

destroy-init_fds_example : Undone sample sample-Opens (λ f. false) (init_fds sample down idle)
destroy-init_fds_example = destroy-init_fds sample sample-Opens down idle (refl, refl, refl)

-- A thread that is started and stopped leaves the stop flag set.
started : (thread_init sample down idle).0 ≡ pos 0
unfolding thread_init
started = refl

ended : (thread_deinit sample (close_fds sample) up idle).1.epoll_stop ≡ true
unfolding thread_deinit close_fds
ended = refl
