-- ===== src/Encoder.antt =====
-- perfkit-agent/pka-encoder.c: manifests and samples as the bytes that go to a client.
use perfkit.Prelude.{ℕ, zero, suc, ◌+◌, ◌*◌, ◌/◌, ◌%◌, ◌^◌, Option, none, some, List, [], ◌∷◌, ◌++◌}
use perfkit.Wire.{Bytes, Timespec, Buffer, Time, tag_varint, tag_bytes}
use perfkit.Manifest.{
  Manifest, Resolution, usec, msec, second, minute, hour, get_n_rows, get_row_type, get_row_name,
}
use perfkit.Sample.{Sample}

-- The value of a `PkaResolution` on the wire.
unfoldable pub resolution_code : Resolution → ℕ
resolution_code usec = 0
resolution_code msec = 1
resolution_code second = 2
resolution_code minute = 3
resolution_code hour = 4

-- How many microseconds a tick of a resolution lasts.
unfoldable pub resolution_unit : Resolution → ℕ
resolution_unit usec = 1
resolution_unit msec = 1000
resolution_unit second = 1000000
resolution_unit minute = 60 * 1000000
resolution_unit hour = 3600 * 1000000

-- A `PkaEncoder` object is a plugin's: it may fail.
pub record Encoder : Type 0 where
  pub encode_manifest : Manifest → Option Bytes
  pub encode_samples : Manifest → List Sample → Option Bytes

-- `pka_resolution_apply`
unfoldable pub resolution_apply : Time → Resolution → Timespec → ℕ
unfolding resolution_unit
resolution_apply t res ts = t.to_usec ts / resolution_unit res

module _ (b : Buffer) (t : Time) where
  -- One round of the loop of `pka_encoder_real_encode_samples`.
  unfoldable pub encode_sample : Manifest → Sample → Bytes
  encode_sample m s =
      b.write_tag 1 tag_varint
      ++ (b.write_uint s.source_id
          ++ (b.write_tag 2 tag_varint
              ++ (b.write_uint64 (resolution_apply t m.resolution (t.subtract s.ts m.ts))
                  ++ (b.write_tag 3 tag_bytes ++ b.write_data s.buf))))

  unfoldable pub real_encode_samples : Manifest → List Sample → Bytes
  unfolding encode_sample
  real_encode_samples m [] = []
  real_encode_samples m (s ∷ samples) = encode_sample m s ++ real_encode_samples m samples

  -- `mbuf`: one row, by the getters of the manifest. A null name is written as the empty string.
  unfoldable pub encode_row : Manifest → ℕ → Bytes
  unfolding get_row_type get_row_name
  encode_row m i =
      b.write_tag 1 tag_varint
      ++ (b.write_uint i
          ++ (b.write_tag 2 tag_varint
              ++ (b.write_uint (get_row_type m i % 2 ^ 32)
                  ++ (b.write_tag 3 tag_bytes
                      ++ b.write_string
                          (elim (get_row_name m i) [ some name ↦ name | none ↦ [] ])))))

  -- `ebuf`: `n` rows from row `i` on, each behind its length.
  unfoldable pub encode_rows : Manifest → ℕ → ℕ → Bytes
  unfolding encode_row
  encode_rows m i zero = []
  encode_rows m i (suc n) = b.write_data (encode_row m i) ++ encode_rows m (i + 1) n

  unfoldable pub real_encode_manifest : Manifest → Bytes
  unfolding resolution_code encode_rows get_n_rows
  real_encode_manifest m =
      b.write_tag 1 tag_varint
      ++ (b.write_uint64 (t.to_usec m.ts)
          ++ (b.write_tag 2 tag_varint
              ++ (b.write_uint (resolution_code m.resolution)
                  ++ (b.write_tag 3 tag_varint
                      ++ (b.write_uint m.source_id
                          ++ (b.write_tag 4 tag_bytes
                              ++ b.write_data (encode_rows m 1 (get_n_rows m))))))))

  -- Without an encoder the agent's own format is used, which does not fail.
  unfoldable pub encode_samples : Option Encoder → Manifest → List Sample → Option Bytes
  encode_samples none m samples = some (real_encode_samples m samples)
  encode_samples (some encoder) m samples = encoder.encode_samples m samples

  unfoldable pub encode_manifest : Option Encoder → Manifest → Option Bytes
  encode_manifest none m = some (real_encode_manifest m)
  encode_manifest (some encoder) m = encoder.encode_manifest m
