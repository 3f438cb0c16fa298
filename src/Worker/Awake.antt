-- ===== src/Worker/Awake.antt =====
-- The invariant of the workers' sleep and shutdown (src/worker.c).
use schedi.Prelude.{ℕ, ◌≡◌, ◌≢◌, refl, true, false, arith}
use schedi.Worker.Sleep.{
  worker, closer, inside, tested, asleep, State, Step, picking, found, leaves, stays, sleeps, wakes,
  waited, ends, locks, marks, signals, unlocks, Reach, begin, step, holds, has_marked,
  has_signalled,
}

-- What holds at each point of a run.
pub record IsSafe (s : State) : Type 0 where
  pub inside_owns : (i : ℕ) → s.place i ≡ inside → s.owner ≡ worker i
  pub tested_owns : (i : ℕ) → s.place i ≡ tested → s.owner ≡ worker i
  pub tested_open : (i : ℕ) → s.place i ≡ tested → s.shutdown ≡ false
  pub closer_owns : holds s.phase ≡ true → s.owner ≡ closer
  pub marked_shut : has_marked s.phase ≡ true → s.shutdown ≡ true
  pub signalled_awake : (i : ℕ) → has_signalled s.phase ≡ true → s.place i ≢ asleep

-- The facts about one worker j.
abbrev IsSafeAt : (j : ℕ) → State → Type 0
IsSafeAt j s =
    (s.place j ≡ inside → s.owner ≡ worker j)
    × (s.place j ≡ tested → s.owner ≡ worker j)
    × (s.place j ≡ tested → s.shutdown ≡ false)
    × (has_signalled s.phase ≡ true → s.place j ≢ asleep)

safe_at : {s : State} → IsSafe s → (j : ℕ) → IsSafeAt j s
safe_at v j = (v.inside_owns j, v.tested_owns j, v.tested_open j, v.signalled_awake j)

safe :
    {s : State}
    → ((j : ℕ) → IsSafeAt j s)
    → (holds s.phase ≡ true → s.owner ≡ closer)
    → (has_marked s.phase ≡ true → s.shutdown ≡ true)
    → IsSafe s
safe each own shut = record {
  inside_owns = λ j. (each j).0;
  tested_owns = λ j. (each j).1;
  tested_open = λ j. (each j).2;
  closer_owns = own;
  marked_shut = shut;
  signalled_awake = λ j. (each j).3;
}

step-IsSafe : (s t : State) → IsSafe s → Step s t → IsSafe t
step-IsSafe s _ v (picking _ i at free) =
    safe
      (λ j.
        let (a, b, c, d) = safe_at v j in
        (λ e. ground arith, λ e. ground arith, λ e. ground arith, λ e e'. ground arith))
      (λ h. ground (arith, v.closer_owns h)) v.marked_shut
step-IsSafe s _ v (found _ i at) =
    let (p, q, r, u) = safe_at v i in
    safe
      (λ j.
        let (a, b, c, d) = safe_at v j in
        (λ e. ground arith, λ e. ground arith, λ e. ground arith, λ e e'. ground arith))
      (λ h. ground (arith, v.closer_owns h)) v.marked_shut
step-IsSafe s _ v (leaves _ i at shut) =
    let (p, q, r, u) = safe_at v i in
    safe
      (λ j.
        let (a, b, c, d) = safe_at v j in
        (λ e. ground arith, λ e. ground arith, λ e. ground arith, λ e e'. ground arith))
      (λ h. ground (arith, v.closer_owns h)) v.marked_shut
step-IsSafe s _ v (stays _ i at open_still) =
    let (p, q, r, u) = safe_at v i in
    safe
      (λ j.
        let (a, b, c, d) = safe_at v j in
        (λ e. ground arith, λ e. ground arith, λ e. ground arith, λ e e'. ground arith))
      (λ h. ground (arith, v.closer_owns h)) v.marked_shut
step-IsSafe s _ v (sleeps _ i at) =
    let (p, q, r, u) = safe_at v i in
    safe
      (λ j.
        let (a, b, c, d) = safe_at v j in
        (
          λ e. ground arith,
          λ e. ground arith,
          λ e. ground arith,
          λ e e'. ground (arith, v.marked_shut),
        ))
      (λ h. ground (arith, v.closer_owns h)) v.marked_shut
step-IsSafe s _ v (wakes _ i at) =
    let (p, q, r, u) = safe_at v i in
    safe
      (λ j.
        let (a, b, c, d) = safe_at v j in
        (λ e. ground arith, λ e. ground arith, λ e. ground arith, λ e e'. ground arith))
      (λ h. ground (arith, v.closer_owns h)) v.marked_shut
step-IsSafe s _ v (waited _ i at free) =
    let (p, q, r, u) = safe_at v i in
    safe
      (λ j.
        let (a, b, c, d) = safe_at v j in
        (λ e. ground arith, λ e. ground arith, λ e. ground arith, λ e e'. ground arith))
      (λ h. ground (arith, v.closer_owns h)) v.marked_shut
step-IsSafe s _ v (ends _ i at shut) =
    let (p, q, r, u) = safe_at v i in
    safe
      (λ j.
        let (a, b, c, d) = safe_at v j in
        (λ e. ground arith, λ e. ground arith, λ e. ground arith, λ e e'. ground arith))
      (λ h. ground (arith, v.closer_owns h)) v.marked_shut
step-IsSafe s _ v (locks _ ph free) =
    safe
      (λ j.
        let (a, b, c, d) = safe_at v j in
        (λ e. ground arith, λ e. ground arith, λ e. ground arith, λ e e'. ground arith))
      (λ h. refl) (λ h. ground arith)
step-IsSafe s _ v (marks _ ph) =
    safe
      (λ j.
        let (a, b, c, d) = safe_at v j in
        (λ e. ground arith, λ e. ground arith, λ e. ground arith, λ e e'. ground arith))
      (λ h. ground (arith, v.closer_owns)) (λ h. refl)
step-IsSafe s _ v (signals _ ph) =
    safe
      (λ j.
        let (a, b, c, d) = safe_at v j in
        (λ e. ground arith, λ e. ground arith, λ e. ground arith, λ e e'. ground arith))
      (λ h. ground (arith, v.closer_owns)) (λ h. ground (arith, v.marked_shut))
step-IsSafe s _ v (unlocks _ ph) =
    safe
      (λ j.
        let (a, b, c, d) = safe_at v j in
        (λ e. ground arith, λ e. ground arith, λ e. ground arith, λ e e'. ground arith))
      (λ h. ground arith) (λ h. ground (arith, v.marked_shut))

Reach-IsSafe : (s : State) → Reach s → IsSafe s
Reach-IsSafe s begin = safe (λ j. (λ e. cc, λ e. cc, λ e. cc, λ e e'. cc)) (λ h. cc) (λ h. cc)
Reach-IsSafe _ (step s t r st) = step-IsSafe s t (Reach-IsSafe s r) st

-- Whatever the workers do and however their sleeps end, no worker is asleep on the condition once
-- `schedi_worker_deinit` has woken the workers, so that none of its joins waits for a sleeper.
pub Reach-awake : (s : State) (i : ℕ) → Reach s → has_signalled s.phase ≡ true → s.place i ≢ asleep
Reach-awake s i r h = (Reach-IsSafe s r).signalled_awake i h
