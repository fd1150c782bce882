-- ===== src/Sample.antt =====
-- perfkit-agent/pka-sample.c: a sample collects tagged fields in a buffer.
use perfkit.Prelude.{ℕ, ◌+◌, ◌*◌, ◌-◌, ◌%◌, ◌^◌, Bool, [], ◌++◌, ◌==◌, if◌then◌else◌}
use perfkit.Wire.{Bytes, Timespec, Buffer, tag_varint, tag_double, tag_bytes, tag_float}

-- `struct _PkaSample`; `source_id` is a gint, kept as its 32-bit pattern.
pub record Sample : Type 0 where
  pub ref_count : ℕ
  pub ts : Timespec
  pub source_id : ℕ
  pub buf : Bytes

-- The `source_id` -1 of a sample that no source has delivered.
abbrev pub no_source : ℕ
no_source = 2 ^ 32 - 1

-- `pka_sample_new`; the clock is read by the caller.
unfoldable pub new : Timespec → Sample
new now = record { ref_count = 1; ts = now; source_id = no_source; buf = [] }

-- Set once: a sample that has a source keeps it.
unfoldable pub set_source_id : Sample → ℕ → Sample
set_source_id s source_id =
    if s.source_id == no_source then record s { source_id = source_id } else s

unfoldable pub set_timespec : Sample → Timespec → Sample
set_timespec s ts = record s { ts = ts }

module _ (b : Buffer) where
  -- A tag and a value, as every `pka_sample_append_*` writes them.
  abbrev field_bytes : ℕ → ℕ → Bytes → Bytes
  field_bytes field tag value = b.write_tag field tag ++ value

  abbrev append_field : Sample → ℕ → ℕ → Bytes → Sample
  append_field s field tag value = record s { buf = s.buf ++ field_bytes field tag value }

  unfoldable pub append_boolean : Sample → ℕ → Bool → Sample
  append_boolean s field v = append_field s field tag_varint (b.write_boolean v)

  unfoldable pub append_double : Sample → ℕ → ℕ → Sample
  append_double s field d = append_field s field tag_double (b.write_double d)

  unfoldable pub append_float : Sample → ℕ → ℕ → Sample
  append_float s field f = append_field s field tag_float (b.write_float f)

  unfoldable pub append_int : Sample → ℕ → ℕ → Sample
  append_int s field i = append_field s field tag_varint (b.write_int i)

  unfoldable pub append_int64 : Sample → ℕ → ℕ → Sample
  append_int64 s field i = append_field s field tag_varint (b.write_int64 i)

  unfoldable pub append_string : Sample → ℕ → Bytes → Sample
  append_string s field t = append_field s field tag_bytes (b.write_string t)

  unfoldable pub append_uint : Sample → ℕ → ℕ → Sample
  append_uint s field u = append_field s field tag_varint (b.write_uint u)

  unfoldable pub append_uint64 : Sample → ℕ → ℕ → Sample
  append_uint64 s field u = append_field s field tag_varint (b.write_uint64 u)

  -- The time as microseconds in 64 bits.
  unfoldable pub append_timeval : Sample → ℕ → ℕ → ℕ → Sample
  append_timeval s field tv_sec tv_usec =
      append_field s field tag_varint (b.write_uint64 ((tv_sec * 1000000 + tv_usec) % 2 ^ 64))
