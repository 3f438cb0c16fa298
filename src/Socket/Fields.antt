-- ===== src/Socket/Fields.antt =====
-- The fields that the word of an epoll socket packs.
use schedi.Prelude.{ℕ, ◌≡◌, Bool, ◌&&◌, ◌||◌, bit_and, bit_or}
use schedi.Prelude.Bits.{bit, field, bit-bit_or, bit-bit_and, field-bit_or, field-bit_and}

pub record Fields : Type 0 where
  pub count : ℕ
  pub avail : ℕ
  pub epolldid : Bool
  pub epollnt : Bool
  pub read_ready : Bool
  pub write_ready : Bool
  pub ready : Bool
  pub dead : Bool

unfoldable pub fields : ℕ → Fields
fields w = record {
  count = field 0 29 w;
  avail = field 29 29 w;
  epolldid = bit 58 w;
  epollnt = bit 59 w;
  read_ready = bit 60 w;
  write_ready = bit 61 w;
  ready = bit 62 w;
  dead = bit 63 w;
}

-- `|` and `&`, field by field.
abbrev pub joined : Fields → Fields → Fields
joined f g = record {
  count = bit_or f.count g.count;
  avail = bit_or f.avail g.avail;
  epolldid = f.epolldid || g.epolldid;
  epollnt = f.epollnt || g.epollnt;
  read_ready = f.read_ready || g.read_ready;
  write_ready = f.write_ready || g.write_ready;
  ready = f.ready || g.ready;
  dead = f.dead || g.dead;
}

abbrev pub shared : Fields → Fields → Fields
shared f g = record {
  count = bit_and f.count g.count;
  avail = bit_and f.avail g.avail;
  epolldid = f.epolldid && g.epolldid;
  epollnt = f.epollnt && g.epollnt;
  read_ready = f.read_ready && g.read_ready;
  write_ready = f.write_ready && g.write_ready;
  ready = f.ready && g.ready;
  dead = f.dead && g.dead;
}

pub fields-bit_or : (a b : ℕ) → fields (bit_or a b) ≡ joined (fields a) (fields b)
unfolding fields
fields-bit_or a b = λ i. record {
  count = field-bit_or 0 29 a b i;
  avail = field-bit_or 29 29 a b i;
  epolldid = bit-bit_or 58 a b i;
  epollnt = bit-bit_or 59 a b i;
  read_ready = bit-bit_or 60 a b i;
  write_ready = bit-bit_or 61 a b i;
  ready = bit-bit_or 62 a b i;
  dead = bit-bit_or 63 a b i;
}

pub fields-bit_and : (a b : ℕ) → fields (bit_and a b) ≡ shared (fields a) (fields b)
unfolding fields
fields-bit_and a b = λ i. record {
  count = field-bit_and 0 29 a b i;
  avail = field-bit_and 29 29 a b i;
  epolldid = bit-bit_and 58 a b i;
  epollnt = bit-bit_and 59 a b i;
  read_ready = bit-bit_and 60 a b i;
  write_ready = bit-bit_and 61 a b i;
  ready = bit-bit_and 62 a b i;
  dead = bit-bit_and 63 a b i;
}
