-- ===== src/Meta/Flags.antt =====
-- The fields that a `meta_flag` word packs, as a record.
use schedi.Prelude.{ℕ, ◌≡◌, Bool, ◌&&◌, ◌||◌, bit_and, bit_or}
use schedi.Prelude.Bits.{bit, field, bit-bit_or, bit-bit_and, field-bit_or, field-bit_and}

-- The access count and the three 4-bit counts are numbers below 16.
pub record Flags : Type 0 where
  pub alive : Bool
  pub unstable : Bool
  pub executing : Bool
  pub wlldestroy : Bool
  pub destroynotent : Bool
  pub ready : Bool
  pub readybasic : Bool
  pub readyepolltool : Bool
  pub readyepollsock : Bool
  pub readyjob : Bool
  pub avsock : ℕ
  pub wait : ℕ
  pub avjobs : ℕ
  pub access : ℕ

unfoldable pub flags : ℕ → Flags
flags w = record {
  alive = bit 0 w;
  unstable = bit 1 w;
  executing = bit 2 w;
  wlldestroy = bit 3 w;
  destroynotent = bit 4 w;
  ready = bit 5 w;
  readybasic = bit 6 w;
  readyepolltool = bit 7 w;
  readyepollsock = bit 8 w;
  readyjob = bit 21 w;
  avsock = field 9 4 w;
  wait = field 13 4 w;
  avjobs = field 17 4 w;
  access = field 28 4 w;
}

-- `|` and `&`, field by field.
abbrev pub either : Flags → Flags → Flags
either f g = record {
  alive = f.alive || g.alive;
  unstable = f.unstable || g.unstable;
  executing = f.executing || g.executing;
  wlldestroy = f.wlldestroy || g.wlldestroy;
  destroynotent = f.destroynotent || g.destroynotent;
  ready = f.ready || g.ready;
  readybasic = f.readybasic || g.readybasic;
  readyepolltool = f.readyepolltool || g.readyepolltool;
  readyepollsock = f.readyepollsock || g.readyepollsock;
  readyjob = f.readyjob || g.readyjob;
  avsock = bit_or f.avsock g.avsock;
  wait = bit_or f.wait g.wait;
  avjobs = bit_or f.avjobs g.avjobs;
  access = bit_or f.access g.access;
}

abbrev pub both : Flags → Flags → Flags
both f g = record {
  alive = f.alive && g.alive;
  unstable = f.unstable && g.unstable;
  executing = f.executing && g.executing;
  wlldestroy = f.wlldestroy && g.wlldestroy;
  destroynotent = f.destroynotent && g.destroynotent;
  ready = f.ready && g.ready;
  readybasic = f.readybasic && g.readybasic;
  readyepolltool = f.readyepolltool && g.readyepolltool;
  readyepollsock = f.readyepollsock && g.readyepollsock;
  readyjob = f.readyjob && g.readyjob;
  avsock = bit_and f.avsock g.avsock;
  wait = bit_and f.wait g.wait;
  avjobs = bit_and f.avjobs g.avjobs;
  access = bit_and f.access g.access;
}

pub flags-bit_or : (a b : ℕ) → flags (bit_or a b) ≡ either (flags a) (flags b)
unfolding flags
flags-bit_or a b = λ i. record {
  alive = bit-bit_or 0 a b i;
  unstable = bit-bit_or 1 a b i;
  executing = bit-bit_or 2 a b i;
  wlldestroy = bit-bit_or 3 a b i;
  destroynotent = bit-bit_or 4 a b i;
  ready = bit-bit_or 5 a b i;
  readybasic = bit-bit_or 6 a b i;
  readyepolltool = bit-bit_or 7 a b i;
  readyepollsock = bit-bit_or 8 a b i;
  readyjob = bit-bit_or 21 a b i;
  avsock = field-bit_or 9 4 a b i;
  wait = field-bit_or 13 4 a b i;
  avjobs = field-bit_or 17 4 a b i;
  access = field-bit_or 28 4 a b i;
}

pub flags-bit_and : (a b : ℕ) → flags (bit_and a b) ≡ both (flags a) (flags b)
unfolding flags
flags-bit_and a b = λ i. record {
  alive = bit-bit_and 0 a b i;
  unstable = bit-bit_and 1 a b i;
  executing = bit-bit_and 2 a b i;
  wlldestroy = bit-bit_and 3 a b i;
  destroynotent = bit-bit_and 4 a b i;
  ready = bit-bit_and 5 a b i;
  readybasic = bit-bit_and 6 a b i;
  readyepolltool = bit-bit_and 7 a b i;
  readyepollsock = bit-bit_and 8 a b i;
  readyjob = bit-bit_and 21 a b i;
  avsock = field-bit_and 9 4 a b i;
  wait = field-bit_and 13 4 a b i;
  avjobs = field-bit_and 17 4 a b i;
  access = field-bit_and 28 4 a b i;
}
