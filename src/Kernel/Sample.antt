-- ===== src/Kernel/Sample.antt =====
-- A kernel that can be run, for the tests.
use schedi.Prelude.{
  ℕ, ◌+◌, ◌-◌, ◌≡◌, refl, min, Bool, true, false, ◌&&◌, Option, none, some, [], leb, ltb,
  if◌then◌else◌, arith, Bool-cases, inl, inr,
}
use schedi.Prelude.Int.{ℤ, pos, negsuc}
use schedi.Kernel.{Kernel, Control, add, modify, del, negative}
use schedi.Epoll.Add.{Interest, Watches, watch, same_int}
use schedi.Epoll.Fds.{Opens, set_open}
use schedi.Socket.Stream.{Sends, Receives}

-- What each instance watches, which descriptors are open, the next descriptor and the next address,
-- and the bytes that went out and came in.
pub record Sample : Type 0 where
  pub watched : Interest
  pub live : ℤ → Bool
  pub next : ℕ
  pub address : ℕ
  pub sent : ℤ → ℕ
  pub output : ℤ → ℕ → ℕ
  pub received : ℤ → ℕ

abbrev pub input : ℤ → ℕ → ℕ
input fd j = 1000 + j

abbrev pub idle : Sample
idle = record {
  watched = λ p f. none;
  live = λ f. false;
  next = 3;
  address = 64;
  sent = λ f. 0;
  output = λ f j. 0;
  received = λ f. 0;
}

abbrev open_next : Sample → ℤ × Sample
open_next k =
    if k.live (pos k.next)
    then (negsuc 0, k)
    else (pos k.next, record k { live = set_open (pos k.next) true k.live; next = k.next + 1 })

abbrev add_watch : ℤ → ℤ → ℕ → ℕ → Sample → Option (ℕ × ℕ) → ℤ × Sample
add_watch epfd fd events ptr k none =
    if negative epfd
    then (negsuc 0, k)
    else (pos 0, record k { watched = watch epfd fd (some (events, ptr)) k.watched })
add_watch epfd fd events ptr k (some old) = (negsuc 0, k)

abbrev control : ℤ → Control → ℤ → (events ptr : ℕ) → Sample → ℤ × Sample
control epfd add fd events ptr k = add_watch epfd fd events ptr k (k.watched epfd fd)
control epfd modify fd events ptr k = (pos 0, k)
control epfd del fd events ptr k = (pos 0, record k { watched = watch epfd fd none k.watched })

-- At most 8 bytes go out or come in at a time.
abbrev pub sample : Kernel Sample
sample = record {
  epollin = 1;
  epollout = 4;
  epollerr = 8;
  epollhup = 16;
  epolloneshot = 0x40000000;
  malloc = λ k. (some k.address, record k { address = k.address + 64 });
  free = λ ptr k. k;
  epoll_create1 = open_next;
  eventfd = open_next;
  close = λ fd k. record k { live = set_open fd false k.live };
  epoll_ctl = control;
  epoll_wait = λ epfd k. ([], k);
  poll = λ w r x k.
      (record { result = pos 1; interrupted = false; wake = true; read = false; write = false }, k);
  read_all = λ fd k. k;
  write_one = λ fd k. k;
  send = λ fd bytes from size k. (
    record { result = pos (min size 8); again = false },
    record k {
      sent = λ f. if same_int f fd then k.sent f + min size 8 else k.sent f;
      output = λ f j.
          if same_int f fd && leb (k.sent f) j && ltb j (k.sent f + min size 8)
          then bytes (from + (j - k.sent f))
          else k.output f j;
    },
  );
  recv = λ fd size k. (
    record { result = pos (min size 8); again = false },
    λ j. input fd (k.received fd + j),
    record k { received = λ f. if same_int f fd then k.received f + min size 8 else k.received f },
  );
  pthread_create = λ k. (pos 0, k.next, record k { next = k.next + 1 });
  pthread_join = λ thread k. (pos 0, k);
}

same_int_refl : (a : ℤ) → same_int a a ≡ true
same_int_refl (pos n) = ground arith
same_int_refl (negsuc n) = ground arith

control-sent :
    (epfd : ℤ) (op : Control) (fd : ℤ) (events ptr : ℕ) (k : Sample)
    → ((control epfd op fd events ptr k).1.sent ≡ k.sent)
      × ((control epfd op fd events ptr k).1.output ≡ k.output)
control-sent epfd add fd events ptr k = watched_now (k.watched epfd fd)
  where
    watched_now :
        (old : Option (ℕ × ℕ))
        → ((add_watch epfd fd events ptr k old).1.sent ≡ k.sent)
          × ((add_watch epfd fd events ptr k old).1.output ≡ k.output)
    watched_now (some old) = (refl, refl)
    watched_now none = elim (Bool-cases (negative epfd)) [
      | inl bad ↦ rw bad (refl, refl)
      | inr ok ↦ rw ok (refl, refl)
    ]
control-sent epfd modify fd events ptr k = (refl, refl)
control-sent epfd del fd events ptr k = (refl, refl)

pub sample-Sends : Sends sample (λ k. k.sent) (λ k. k.output)
sample-Sends = record {
  bounded = λ fd bytes from size k. omega arith;
  appended = λ fd bytes from size k.
      let e = same_int_refl fd in rw e (refl, λ j h. ground arith, λ j h. ground arith);
  controlled = control-sent;
}

pub sample-Receives : Receives sample (λ k. k.received) (λ k. input)
sample-Receives = record {
  bounded = λ fd size k. omega arith;
  delivered = λ fd size k. let e = same_int_refl fd in rw e (refl, λ j h. refl, λ j h. refl);
}

pub sample-Opens : Opens sample (λ k. k.live)
sample-Opens = record {
  created = λ k h. opens k h;
  not_created = λ k h. refused k h;
  eventfd = λ k h. opens k h;
  no_eventfd = λ k h. refused k h;
  closed = λ fd k. refl;
}
  where
    opens :
        (k : Sample)
        → negative (open_next k).0 ≡ false
        → (k.live (open_next k).0 ≡ false)
          × ((open_next k).1.live ≡ set_open (open_next k).0 true k.live)
    opens k h = elim (Bool-cases (k.live (pos k.next))) [
      | inl taken ↦ absurd (ground arith)
      | inr free ↦ rw free (free, refl)
    ]

    refused : (k : Sample) → negative (open_next k).0 ≡ true → (open_next k).1.live ≡ k.live
    refused k h = elim (Bool-cases (k.live (pos k.next))) [
      | inl taken ↦ rw taken refl
      | inr free ↦ absurd (ground arith)
    ]

pub sample-Watches : Watches sample (λ k. k.watched)
sample-Watches = record {
  added = λ epfd fd events ptr k h. watches epfd fd events ptr k (k.watched epfd fd) h;
  refused = λ epfd fd events ptr k h. keeps epfd fd events ptr k (k.watched epfd fd) h;
  deleted = λ epfd fd events ptr k. refl;
  freed = λ ptr k. refl;
}
  where
    watches :
        (epfd fd : ℤ) (events ptr : ℕ) (k : Sample) (old : Option (ℕ × ℕ))
        → negative (add_watch epfd fd events ptr k old).0 ≡ false
        → (negative epfd ≡ false)
          × (old ≡ none)
          × ((add_watch epfd fd events ptr k old).1.watched
              ≡ watch epfd fd (some (events, ptr)) k.watched)
    watches (pos n) fd events ptr k none h = (refl, refl, refl)
    watches (negsuc n) fd events ptr k none h = cc
    watches epfd fd events ptr k (some old) h = cc

    keeps :
        (epfd fd : ℤ) (events ptr : ℕ) (k : Sample) (old : Option (ℕ × ℕ))
        → negative (add_watch epfd fd events ptr k old).0 ≡ true
        → (add_watch epfd fd events ptr k old).1.watched ≡ k.watched
    keeps (pos n) fd events ptr k none h = cc
    keeps (negsuc n) fd events ptr k none h = refl
    keeps epfd fd events ptr k (some old) h = refl
