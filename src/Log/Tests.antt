-- ===== src/Log/Tests.antt =====
-- Runs of the fast log.
use schedi.Prelude.{ℕ, ◌≡◌, refl, [], ◌∷◌, arith}
use schedi.Prelude.Int.{pos}
use schedi.Log.{Event, Ring, flog_explicit, get, ferr}
use schedi.Log.Recent.{logged, get-logged}

abbrev ev : ℕ → Event
ev n = record { tid = 1; msg = 2; param = pos n }

abbrev start : Ring
start = record { head = 0; events = λ i. ev 0 }

-- The last element is not the last event.
last_element : get (flog_explicit (ev 7) start) 4095 ≡ ev 0
unfolding get flog_explicit
last_element = refl

both : (ferr (ev 7) (record { flog_ring = start; ferr_ring = start })).flog_ring.head ≡ 1
unfolding ferr flog_explicit
both = refl

get-logged_example : get (logged (ev 8 ∷ ev 9 ∷ []) (flog_explicit (ev 7) start)) 4092 ≡ ev 7
get-logged_example = get-logged (ev 7) (ev 8 ∷ ev 9 ∷ []) start (omega arith) (omega arith)
