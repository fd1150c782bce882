-- ===== src/Client/Sample.antt =====
-- perfkit/pk-sample.c: a sample as the client decodes it. The number of bytes that
-- `pk_sample_new_from_data` reports as read is left out.
pub mod Fields
pub mod Roundtrip
use perfkit.Prelude.{
  ◌>>=◌, ℕ, zero, suc, ◌+◌, ◌*◌, ◌%◌, ◌^◌, Bool, true, false, Option, none, some, List, [], ◌∷◌,
  ◌==◌, if◌then◌else◌, ltb, length,
}
use perfkit.Wire.{
  Bytes, Reader, Timespec, Buffer, Time, tag_varint, tag_double, tag_bytes, tag_float,
}
use perfkit.Manifest.{
  Resolution, g_type_int, g_type_uint, g_type_int64, g_type_uint64, g_type_double, g_type_float,
  g_type_string, g_type_invalid,
}
use perfkit.Encoder.{resolution_unit}
use perfkit.Client.Reading.{reader, expect}
use perfkit.Client.Manifest.{Manifest, get_row_type}

-- A GValue of one of the types that a field may have.
pub data Value : Type 0 where
  int_value uint_value int64_value uint64_value double_value float_value : ℕ → Value
  string_value : Bytes → Value

-- `struct _PkSample`, with each `PkSampleField` as a field number and a value.
pub record Sample : Type 0 where
  pub ref_count : ℕ
  pub source_id : ℕ
  pub ts : Timespec
  pub ar : List (ℕ × Value)

abbrev lift : (ℕ → Value) → Option (ℕ × Reader) → Option (Value × Reader)
lift make none = none
lift make (some (n, r)) = some (make n, r)

-- The first field of this number.
unfoldable pub find_value : ℕ → List (ℕ × Value) → Option Value
find_value row_id [] = none
find_value row_id ((field, v) ∷ ar) = if field == row_id then some v else find_value row_id ar

unfoldable pub get_value : Sample → ℕ → Option Value
unfolding find_value
get_value s row_id = find_value row_id s.ar

module _ (b : Buffer) where
  -- The two nested switches: by the tag, then by the type of the row.
  unfoldable pub decode_value : ℕ → ℕ → Reader → Option (Value × Reader)
  decode_value tag type r =
      if tag == tag_varint
      then (if type == g_type_int
          then lift int_value (b.read_int r)
          else if type == g_type_uint
          then lift uint_value (b.read_uint r)
          else if type == g_type_int64
          then lift int64_value (b.read_int64 r)
          else if type == g_type_uint64
          then lift uint64_value (b.read_uint64 r)
          else none)
      else if tag == tag_double
      then (if type == g_type_double then lift double_value (b.read_double r) else none)
      else if tag == tag_bytes
      then (if type == g_type_string
          then elim (b.read_string r) [ none ↦ none | some (s, r') ↦ some (string_value s, r') ]
          else none)
      else if tag == tag_float
      then (if type == g_type_float then lift float_value (b.read_float r) else none)
      else none

  -- One round of the loop of `pk_sample_decode_data`.
  unfoldable pub decode_field : Manifest → Reader → Option ((ℕ × Value) × Reader)
  unfolding get_row_type decode_value
  decode_field m r0 = do
    (field, tag, r1) ← b.read_tag r0
    let type = get_row_type m field
    (v, r2) ← (if type == g_type_invalid then none else decode_value tag type r1)
    some ((field, v), r2)

  -- The loop, up to the end of the buffer, with the number of bytes left as fuel.
  unfoldable pub decode_fields : ℕ → ℕ → Manifest → Reader → Option (List (ℕ × Value))
  unfolding decode_field
  decode_fields zero total m r = if ltb r.pos total then none else some []
  decode_fields (suc fuel) total m r = elim (ltb r.pos total) [
    | false ↦ some []
    | true ↦ elim (decode_field m r) [
      | none ↦ none
      | some (item, r') ↦ elim (decode_fields fuel total m r') [
        | none ↦ none
        | some items ↦ some (item ∷ items)
      ]
    ]
  ]

  -- `total_len < offset + data_len` fails; the loop then runs to the end of the buffer.
  unfoldable pub decode_data : Manifest → Reader → Option (List (ℕ × Value))
  unfolding expect decode_fields
  decode_data m r0 = do
    r1 ← expect b 3 tag_bytes r0
    (data_len, r2) ← b.read_uint r1
    let total = r2.pos + length r2.rest
    if ltb total (r2.pos + data_len) then none else decode_fields (length r2.rest) total m r2

  -- The ticks of the wire as microseconds, in 64 bits, after the manifest's time.
  unfoldable pub decode_timespec : Time → Manifest → Reader → Option (Timespec × Reader)
  unfolding expect resolution_unit
  decode_timespec t m r0 = do
    r1 ← expect b 2 tag_varint r0
    (u64, r2) ← b.read_uint64 r1
    some (t.add (t.from_usec ((u64 * resolution_unit m.resolution) % 2 ^ 64)) m.ts, r2)

  -- `resolver` finds the manifest of a source.
  unfoldable pub new_from_data : Time → (ℕ → Option Manifest) → Bytes → Option Sample
  unfolding expect decode_timespec decode_data
  new_from_data t resolver bytes = do
    r1 ← expect b 1 tag_varint (reader 0 bytes)
    (source_id, r2) ← b.read_uint r1
    m ← resolver source_id
    (ts, r3) ← decode_timespec t m r2
    ar ← decode_data m r3
    some (record { ref_count = 1; source_id = source_id; ts = ts; ar = ar })
