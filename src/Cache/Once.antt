-- ===== src/Cache/Once.antt =====
-- Every job is at one place, under any threads at the ready jobs cache.
use schedi.Prelude.{ℕ, ◌+◌, ◌≡◌, Bool, false, Option, none, some, ◌==◌, if◌then◌else◌}
use schedi.Cache.Slots.{copies}
use schedi.Cache.Steps.{Thread, putting, taken, holding, State}

-- Whether a thread has the job in its hands.
abbrev pub in_hand : ℕ → Thread → Bool
in_hand j (putting i k) = j == k
in_hand j (taken k) = j == k
in_hand j (holding k) = j == k
in_hand j x = false

abbrev pub is_at : Option ℕ → ℕ → Bool
is_at none u = false
is_at (some t) u = t == u

abbrev pub hands_of : Option ℕ → ℕ
hands_of none = 0
hands_of (some t) = 1

-- A job that is READY is in exactly one slot or in the hands of exactly one thread, the holder; one
-- that is not READY is in no slot and no hands.
pub record IsOnce (j : ℕ) (s : State) : Type 0 where
  pub holder : Option ℕ
  pub hands : (u : ℕ) → in_hand j (s.thread u) ≡ is_at holder u
  pub once : copies j s.slots + hands_of holder ≡ (if s.ready j then 1 else 0)
