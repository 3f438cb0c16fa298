-- ===== src/Socket/Timeout.antt =====
-- The word of an epoll socket in the build with SCHEDI_EXT_TIMEOUT (src/jobs.c,
-- include/schedi/jobs.h): the counts have 28 bits each, and one bit says that the socket timed out.
use schedi.Prelude.{
  ℕ, ◌-◌, ◌^◌, ◌%◌, arith, ◌≡◌, refl, ◌∙◌, sym, ap, bit_and, bit_or, Bool, true, false, not, ◌&&◌,
  ◌||◌, if◌then◌else◌,
}
use schedi.Prelude.Bits.{
  bit, field, bit-bit_or, bit-bit_and, field-bit_or, field-bit_and, bit_and_low,
}
use schedi.Atomic.{Attempt, atomic, quit, swap}
use schedi.Socket.{
  epolldid, epollnt, read_ready, write_ready, ready, dead, complement64, meets, complete,
  done_cas_epollside,
}
use mathlib.Core.Bool.{or-false, or-true, and-true, and-false}
use mathlib.Core.Path.{subst}
use schedi.Socket.Bits.{fields_rules, meets-bit}

abbrev pub timeout : ℕ
timeout = 2 ^ 57

-- `schedi_job_epollsocket_timeout_cas`
unfoldable pub timeout_cas : ℕ → Attempt (Unit {0})
timeout_cas w = swap (bit_or w (bit_or timeout ready)) tt

-- `schedi_job_epollsocket_timeout`
abbrev pub timed_out : ℕ → Bool
timed_out w = meets w timeout

-- The loop of `schedi_job_epollsocket_untimeout`, and whether it returns 0.
unfoldable pub untimeout : ℕ → Attempt Bool
untimeout w =
    let des = bit_and (bit_and w (complement64 epolldid)) (complement64 timeout) in
    let done =
      complete false (meets w epollnt) (meets w read_ready) (meets w write_ready) (meets w dead) in
    if not (meets w epolldid)
    then quit false
    else swap (if done then bit_or des ready else bit_and des (complement64 ready)) true

-- The fields of the word in this build.
pub record Timed : Type 0 where
  pub count : ℕ
  pub avail : ℕ
  pub timeout : Bool
  pub epolldid : Bool
  pub epollnt : Bool
  pub read_ready : Bool
  pub write_ready : Bool
  pub ready : Bool
  pub dead : Bool

unfoldable pub timed : ℕ → Timed
timed w = record {
  count = field 0 28 w;
  avail = field 28 28 w;
  timeout = bit 57 w;
  epolldid = bit 58 w;
  epollnt = bit 59 w;
  read_ready = bit 60 w;
  write_ready = bit 61 w;
  ready = bit 62 w;
  dead = bit 63 w;
}

abbrev pub joined : Timed → Timed → Timed
joined f g = record {
  count = bit_or f.count g.count;
  avail = bit_or f.avail g.avail;
  timeout = f.timeout || g.timeout;
  epolldid = f.epolldid || g.epolldid;
  epollnt = f.epollnt || g.epollnt;
  read_ready = f.read_ready || g.read_ready;
  write_ready = f.write_ready || g.write_ready;
  ready = f.ready || g.ready;
  dead = f.dead || g.dead;
}

abbrev shared : Timed → Timed → Timed
shared f g = record {
  count = bit_and f.count g.count;
  avail = bit_and f.avail g.avail;
  timeout = f.timeout && g.timeout;
  epolldid = f.epolldid && g.epolldid;
  epollnt = f.epollnt && g.epollnt;
  read_ready = f.read_ready && g.read_ready;
  write_ready = f.write_ready && g.write_ready;
  ready = f.ready && g.ready;
  dead = f.dead && g.dead;
}

pub timed-bit_or : (a b : ℕ) → timed (bit_or a b) ≡ joined (timed a) (timed b)
unfolding timed
timed-bit_or a b = λ i. record {
  count = field-bit_or 0 28 a b i;
  avail = field-bit_or 28 28 a b i;
  timeout = bit-bit_or 57 a b i;
  epolldid = bit-bit_or 58 a b i;
  epollnt = bit-bit_or 59 a b i;
  read_ready = bit-bit_or 60 a b i;
  write_ready = bit-bit_or 61 a b i;
  ready = bit-bit_or 62 a b i;
  dead = bit-bit_or 63 a b i;
}

pub timed-bit_and : (a b : ℕ) → timed (bit_and a b) ≡ shared (timed a) (timed b)
unfolding timed
timed-bit_and a b = λ i. record {
  count = field-bit_and 0 28 a b i;
  avail = field-bit_and 28 28 a b i;
  timeout = bit-bit_and 57 a b i;
  epolldid = bit-bit_and 58 a b i;
  epollnt = bit-bit_and 59 a b i;
  read_ready = bit-bit_and 60 a b i;
  write_ready = bit-bit_and 61 a b i;
  ready = bit-bit_and 62 a b i;
  dead = bit-bit_and 63 a b i;
}

-- A timeout sets TIMEOUT and READY, and changes nothing else.
pub timeout_cas_lem :
    (w : ℕ) → timed (atomic timeout_cas w).1 ≡ record (timed w) { timeout = true; ready = true }
unfolding timeout_cas timed
timeout_cas_lem w = timed-bit_or w (bit_or timeout ready) ∙ simp fields_rules

epollside_lem :
    (w : ℕ)
    → timed (atomic done_cas_epollside w).1 ≡ record (timed w) { epolldid = true; ready = true }
unfolding done_cas_epollside timed
epollside_lem w = timed-bit_or w (bit_or epolldid ready) ∙ simp fields_rules

pub low_28 : (x : ℕ) → bit_and (x % 2 ^ 28) (2 ^ 28 - 1) ≡ x % 2 ^ 28
low_28 x = bit_and_low 28 (x % 2 ^ 28) ∙ omega arith

ruleset timed_rules = (or-false, or-true, and-true, and-false, low_28)

cleared :
    (w : ℕ)
    → timed (bit_and (bit_and w (complement64 epolldid)) (complement64 timeout))
      ≡ record (timed w) { timeout = false; epolldid = false }
unfolding timed
cleared w =
    timed-bit_and (bit_and w (complement64 epolldid)) (complement64 timeout)
    ∙ ap (λ (f : Timed). shared f (timed (complement64 timeout)))
        (timed-bit_and w (complement64 epolldid))
    ∙ simp timed_rules

made_ready :
    (b : Bool) (w : ℕ)
    → timed (if b then bit_or w ready else bit_and w (complement64 ready))
      ≡ record (timed w) { ready = b }
unfolding timed
made_ready true w = timed-bit_or w ready ∙ simp fields_rules
made_ready false w = timed-bit_and w (complement64 ready) ∙ simp timed_rules

-- What `schedi_job_epollsocket_untimeout` does, for a socket that is EPOLLDID or not.
abbrev pub Untimes : ℕ → (did : Bool) → Bool × ℕ → Type 0
Untimes w false (r, w') = (r ≡ false) × (w' ≡ w)
Untimes w true (r, w') =
    let f = timed w in
    (r ≡ true)
    × (timed w' ≡ record f {
      timeout = false;
      epolldid = false;
      ready = complete false f.epollnt f.read_ready f.write_ready f.dead;
    })

pub untimeout_lem : (w : ℕ) → Untimes w (timed w).epolldid (atomic untimeout w)
unfolding untimeout timed
untimeout_lem w = go (bit 58 w) (meets-bit 58 w)
  where
    done : Bool
    done =
        complete false (meets w epollnt) (meets w read_ready) (meets w write_ready) (meets w dead)

    go : (b : Bool) → meets w epolldid ≡ b → Untimes w b (atomic untimeout w)
    go false e = rw e (refl, refl)
    go true e = rw e (
      refl,
      made_ready done (bit_and (bit_and w (complement64 epolldid)) (complement64 timeout))
          ∙ ap (λ (f : Timed). record f { ready = done }) (cleared w)
          ∙ (λ i. record (timed w) {
            timeout = false;
            epolldid = false;
            ready =
                complete false (meets-bit 59 w i) (meets-bit 60 w i) (meets-bit 61 w i)
                  (meets-bit 63 w i);
          }),
    )

-- A socket that times out, and that the epoll side is done with, comes back by
-- `schedi_job_epollsocket_untimeout` with the counts and the flags that it had, where READY was what
-- the other flags make it.
pub untimeout-timed_out :
    (w : ℕ)
    → let f = timed w in
      f.timeout ≡ false
      → f.epolldid ≡ false
      → f.ready ≡ complete false f.epollnt f.read_ready f.write_ready f.dead
      → let out = atomic untimeout (atomic done_cas_epollside (atomic timeout_cas w).1).1 in
        (out.0 ≡ true) × (timed out.1 ≡ timed w)
untimeout-timed_out w fresh open_still consistent =
    let a = timeout_cas_lem w in
    let w₁ = (atomic timeout_cas w).1 in
    let w₂ = (atomic done_cas_epollside w₁).1 in
    let b : timed w₂ ≡ record (timed w) { timeout = true; epolldid = true; ready = true } =
      epollside_lem w₁ ∙ ap (λ (f : Timed). record f { epolldid = true; ready = true }) a in
    let u =
      subst (λ d. Untimes w₂ d (atomic untimeout w₂)) (ap (λ (f : Timed). f.epolldid) b)
        (untimeout_lem w₂) in
    let back : Timed → Timed = λ f. record f {
      timeout = false;
      epolldid = false;
      ready = complete false f.epollnt f.read_ready f.write_ready f.dead;
    } in
    (
      u.0,
      u.1 ∙ ap back b ∙ (λ i. record (timed w) {
        timeout = sym fresh i;
        epolldid = sym open_still i;
        ready = sym consistent i;
      }),
    )
