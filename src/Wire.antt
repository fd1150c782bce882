-- ===== src/Wire.antt =====
-- What perfkit uses of the byte buffers and the time arithmetic that it keeps copies of under
-- cut-n-paste (egg-buffer.c, egg-time.h): operations that the encoder and the decoders take as
-- parameters, and the documented behaviour that their theorems rely on.
use perfkit.Prelude.{
  ℕ, ◌+◌, ◌-◌, ◌^◌, ◌≤◌, ◌<◌, ◌≡◌, Bool, true, false, ◌||◌, Option, some, List, ◌++◌, ◌==◌, length,
}

-- A C string or a block of bytes.
abbrev pub Bytes : Type 0
Bytes = List ℕ

-- A buffer being read: how far, and the bytes from there on.
pub record Reader : Type 0 where
  pub pos : ℕ
  pub rest : Bytes

-- `struct timespec`, its two words as 64-bit patterns.
pub record Timespec : Type 0 where
  pub tv_sec : ℕ
  pub tv_nsec : ℕ

-- The wire tags: EGG_BUFFER_INT, UINT, INT64, UINT64, ENUM and BOOLEAN are one, and so are
-- EGG_BUFFER_STRING, DATA and REPEATED.
abbrev pub tag_varint : ℕ
tag_varint = 0

abbrev pub tag_double : ℕ
tag_double = 1

abbrev pub tag_bytes : ℕ
tag_bytes = 2

abbrev pub tag_float : ℕ
tag_float = 5

abbrev pub is_tag : ℕ → Bool
is_tag t = t == tag_varint || t == tag_double || t == tag_bytes || t == tag_float

-- A write appends the bytes given here; numbers, also signed ones and floats, are bit patterns.
pub record Buffer : Type 0 where
  pub write_tag : ℕ → ℕ → Bytes
  pub write_uint : ℕ → Bytes
  pub write_uint64 : ℕ → Bytes
  pub write_int : ℕ → Bytes
  pub write_int64 : ℕ → Bytes
  pub write_boolean : Bool → Bytes
  pub write_double : ℕ → Bytes
  pub write_float : ℕ → Bytes
  pub write_string : Bytes → Bytes
  pub write_data : Bytes → Bytes
  pub read_tag : Reader → Option (ℕ × ℕ × Reader)
  pub read_uint : Reader → Option (ℕ × Reader)
  pub read_uint64 : Reader → Option (ℕ × Reader)
  pub read_int : Reader → Option (ℕ × Reader)
  pub read_int64 : Reader → Option (ℕ × Reader)
  pub read_double : Reader → Option (ℕ × Reader)
  pub read_float : Reader → Option (ℕ × Reader)
  pub read_string : Reader → Option (Bytes × Reader)

-- The reader behind what was written.
abbrev pub past : ℕ → Bytes → Bytes → Reader
past pos written rest = record { pos = pos + length written; rest = rest }

abbrev pub at : ℕ → Bytes → Bytes → Reader
at pos written rest = record { pos = pos; rest = written ++ rest }

-- A reader has as many bytes in all as it had before, and is further on.
abbrev pub Advances : Reader → Reader → Type 0
Advances r s = (s.pos + length s.rest ≡ r.pos + length r.rest) × (r.pos < s.pos)

-- No byte of a C string is its terminator.
abbrev pub has_nul : Bytes → Bool
has_nul List.[] = false
has_nul (List.◌∷◌ c s) = c == 0 || has_nul s

-- What is written is read back, whatever follows, and a read that succeeds moves on.
pub record BufferLaws (b : Buffer) : Type 0 where
  pub tag_back :
      (field tag pos : ℕ) (rest : Bytes)
      → field < 2 ^ 29
      → is_tag tag ≡ true
      → b.read_tag (at pos (b.write_tag field tag) rest)
        ≡ some (field, tag, past pos (b.write_tag field tag) rest)
  pub uint_back :
      (n pos : ℕ) (rest : Bytes)
      → n < 2 ^ 32
      → b.read_uint (at pos (b.write_uint n) rest) ≡ some (n, past pos (b.write_uint n) rest)
  pub uint64_back :
      (n pos : ℕ) (rest : Bytes)
      → n < 2 ^ 64
      → b.read_uint64 (at pos (b.write_uint64 n) rest) ≡ some (n, past pos (b.write_uint64 n) rest)
  pub int_back :
      (n pos : ℕ) (rest : Bytes)
      → n < 2 ^ 32
      → b.read_int (at pos (b.write_int n) rest) ≡ some (n, past pos (b.write_int n) rest)
  pub int64_back :
      (n pos : ℕ) (rest : Bytes)
      → n < 2 ^ 64
      → b.read_int64 (at pos (b.write_int64 n) rest) ≡ some (n, past pos (b.write_int64 n) rest)
  pub double_back :
      (n pos : ℕ) (rest : Bytes)
      → n < 2 ^ 64
      → b.read_double (at pos (b.write_double n) rest) ≡ some (n, past pos (b.write_double n) rest)
  pub float_back :
      (n pos : ℕ) (rest : Bytes)
      → n < 2 ^ 32
      → b.read_float (at pos (b.write_float n) rest) ≡ some (n, past pos (b.write_float n) rest)
  pub string_back :
      (s : Bytes) (pos : ℕ) (rest : Bytes)
      → length s < 2 ^ 32
      → has_nul s ≡ false
      → b.read_string (at pos (b.write_string s) rest) ≡ some (s, past pos (b.write_string s) rest)
  pub data_layout : (d : Bytes) → length d < 2 ^ 32 → b.write_data d ≡ b.write_uint (length d) ++ d
  pub uint_advances : (r s : Reader) (n : ℕ) → b.read_uint r ≡ some (n, s) → Advances r s
  pub tag_advances :
      (r s : Reader) (field tag : ℕ) → b.read_tag r ≡ some (field, tag, s) → Advances r s
  pub string_advances : (r s : Reader) (t : Bytes) → b.read_string r ≡ some (t, s) → Advances r s

-- The functions of egg-time.h.
pub record Time : Type 0 where
  pub to_usec : Timespec → ℕ
  pub from_usec : ℕ → Timespec
  pub subtract : Timespec → Timespec → Timespec
  pub add : Timespec → Timespec → Timespec

pub record TimeLaws (t : Time) : Type 0 where
  pub to_usec-from_usec : (u : ℕ) → u < 2 ^ 64 → t.to_usec (t.from_usec u) ≡ u
  pub to_usec_bound : (ts : Timespec) → t.to_usec ts < 2 ^ 64
  pub to_usec-add :
      (u v : ℕ) → u + v < 2 ^ 64 → t.to_usec (t.add (t.from_usec u) (t.from_usec v)) ≡ u + v
  pub to_usec-subtract :
      (u v : ℕ)
      → v ≤ u
      → u < 2 ^ 64
      → t.to_usec (t.subtract (t.from_usec u) (t.from_usec v)) ≡ u - v
