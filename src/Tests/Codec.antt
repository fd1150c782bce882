-- ===== src/Tests/Codec.antt =====
-- The theorems on the wire format, at concrete manifests and samples.
use perfkit.Prelude.{ℕ, ◌+◌, ◌<◌, ◌≤◌, ◌≡◌, refl, Option, some, List, [], ◌∷◌, arith}
use perfkit.Manifest
use perfkit.Manifest.{usec, msec}
use perfkit.Sample
use perfkit.Encoder.{real_encode_manifest, real_encode_samples, resolution_unit}
use perfkit.Client.Reading.{reader}
use perfkit.Client.Manifest as Received
use perfkit.Client.Manifest.{Row, decode_rows}
use perfkit.Client.Manifest.Fuel.{decode_rows_enough}
use perfkit.Client.Manifest.Loop.{IsSendable}
use perfkit.Client.Manifest.Roundtrip.{received, decode-encode}
use perfkit.Client.Sample as Decoded
use perfkit.Client.Sample.{Value, int_value, string_value}
use perfkit.Client.Sample.Fields.{append_all, IsDescribed}
use perfkit.Client.Sample.Roundtrip.{decode-encode_sample}
use perfkit.Tests.{words, clock, manifest}
use perfkit.Tests.Laws.{words-BufferLaws, clock-TimeLaws, sort_rows, sort_rows-SortLaws}

manifest-IsSendable : IsSendable words 1 (record { id = 1; type = 24; name = 99 ∷ 112 ∷ 117 ∷ [] })
manifest-IsSendable = record {
  id_fits = ground arith;
  type_fits = ground arith;
  name_fits = ground arith;
  no_nul = refl;
  fits = ground arith;
}

decode-encode_example :
    Received.new_from_data words sort_rows clock (real_encode_manifest words clock manifest)
    ≡ some (received clock manifest)
decode-encode_example =
    decode-encode words clock sort_rows manifest words-BufferLaws clock-TimeLaws sort_rows-SortLaws
      (ground arith) (manifest-IsSendable, tt) (ground arith)

-- The bytes break off within a row.
decode_rows_enough_example :
    decode_rows words sort_rows 5 20 [] (reader 0 (9 ∷ 8 ∷ 1 ∷ []))
    ≡ decode_rows words sort_rows 3 20 [] (reader 0 (9 ∷ 8 ∷ 1 ∷ []))
decode_rows_enough_example =
    decode_rows_enough words words-BufferLaws sort_rows 5 3 20 [] (reader 0 (9 ∷ 8 ∷ 1 ∷ []))
      (ground arith) (ground arith)

abbrev agent_manifest : Manifest.Manifest
agent_manifest = record {
  ref_count = 1;
  rows =
      record { id = 1; type = 24; name = 97 ∷ [] }
      ∷ record { id = 2; type = 64; name = 98 ∷ [] }
      ∷ [];
  source_id = 9;
  ts = clock.from_usec 1000000;
  resolution = msec;
}

abbrev sample : Sample.Sample
sample = record { ref_count = 1; ts = clock.from_usec 1002500; source_id = 9; buf = [] }

abbrev resolver : ℕ → Option Received.Manifest
resolver id = some (received clock agent_manifest)

abbrev fields : List (ℕ × Value)
fields = (1, int_value 7) ∷ (2, string_value (104 ∷ 105 ∷ [])) ∷ []

int-IsDescribed : IsDescribed (received clock agent_manifest) 1 (int_value 7)
unfolding Received.get_row_type
int-IsDescribed = record { field_fits = ground arith; type_same = refl; value_fits = ground arith }

string-IsDescribed : IsDescribed (received clock agent_manifest) 2 (string_value (104 ∷ 105 ∷ []))
unfolding Received.get_row_type
string-IsDescribed = record {
  field_fits = ground arith;
  type_same = refl;
  value_fits = (ground arith, refl);
}

decode-encode_sample_example :
    (x : Decoded.Sample) × ((Decoded.new_from_data words clock resolver
          (real_encode_samples words clock agent_manifest (append_all words sample fields ∷ []))
        ≡ some x)
      × ((x.source_id ≡ 9)
          × ((x.ar ≡ fields)
              × ((clock.to_usec x.ts ≤ 1002500)
                  × (1002500 < clock.to_usec x.ts + resolution_unit agent_manifest.resolution)))))
decode-encode_sample_example =
    decode-encode_sample words clock resolver agent_manifest (received clock agent_manifest) sample
      fields 1002500 1000000 words-BufferLaws clock-TimeLaws refl (ground arith) refl
      (int-IsDescribed, (string-IsDescribed, tt)) (ground arith) refl refl refl refl (ground arith)
      (ground arith)
