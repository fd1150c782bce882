-- ===== src/Client/Sample/Roundtrip.antt =====
-- A sample on its way through the encoder of the agent and the decoder of the client.
use perfkit.Prelude.{
  ℕ, ◌+◌, ◌-◌, ◌*◌, ◌/◌, ◌%◌, ◌^◌, ◌<◌, ◌≤◌, ◌≡◌, refl, ◌∙◌, ap, false, Option, some, List, [], ◌∷◌,
  ◌++◌, length, ltb, arith,
}
use mathlib.Core.List.{append-nil}
use perfkit.Wire.{Buffer, BufferLaws, Time, TimeLaws, Timespec, tag_varint, tag_bytes}
use perfkit.Manifest
use perfkit.Manifest.{Resolution}
use perfkit.Sample
use perfkit.Encoder.{encode_sample, real_encode_samples, resolution_apply, resolution_unit}
use perfkit.Client.Reading.{reader, expect_back}
use perfkit.Client.Manifest as Received
use perfkit.Client.Sample.{Value, decode_fields, decode_data, decode_timespec, new_from_data}
use perfkit.Client.Sample as Decoded
use perfkit.Client.Sample.Fields.{
  AllDescribed, append_all, append_all_is, fields_bytes, length-fields_bytes, decode_fields_back,
}

-- The time of the wire, in ticks, as the client puts it behind the manifest's.
abbrev client_time : Time → Manifest.Manifest → Received.Manifest → Timespec → Timespec
client_time t m cm ts =
    t.add
      (t.from_usec (
        (resolution_apply t m.resolution (t.subtract ts m.ts) * resolution_unit cm.resolution)
        % 2 ^ 64))
      cm.ts

module _ (b : Buffer) (t : Time) where
  data_back :
      BufferLaws b
      → (cm : Received.Manifest) (pos : ℕ) (fields : List (ℕ × Value)) → AllDescribed cm fields
      → length (fields_bytes b fields) < 2 ^ 32
      → decode_data b cm
          (reader pos (b.write_tag 3 tag_bytes ++ b.write_data (fields_bytes b fields)))
        ≡ some fields
  unfolding decode_data
  data_back laws cm pos fields h l =
      let d = fields_bytes b fields in
      let p1 = pos + length (b.write_tag 3 tag_bytes) in
      let p2 = p1 + length (b.write_uint (length d)) in
      let enough : ltb (p2 + length d) (p2 + length d) ≡ false = ground arith in
      rw
        (
          laws.data_layout d l,
          expect_back b laws 3 tag_bytes pos (b.write_uint (length d) ++ d) (ground arith) refl,
          laws.uint_back (length d) p1 d l,
          enough,
        )
        (decode_fields_back b laws cm (length d) (p2 + length d) p2 fields
          (length-fields_bytes b laws cm fields h) refl h)

  ticks_fit : TimeLaws t → (res : Resolution) (ts : Timespec) → resolution_apply t res ts < 2 ^ 64
  unfolding resolution_apply resolution_unit
  ticks_fit times Resolution.usec ts = let h = times.to_usec_bound ts in omega arith
  ticks_fit times Resolution.msec ts = let h = times.to_usec_bound ts in omega arith
  ticks_fit times Resolution.second ts = let h = times.to_usec_bound ts in omega arith
  ticks_fit times Resolution.minute ts = let h = times.to_usec_bound ts in omega arith
  ticks_fit times Resolution.hour ts = let h = times.to_usec_bound ts in omega arith

  -- Rounding down to a whole tick loses less than a tick.
  tick_bounds :
      (res : Resolution) (d : ℕ)
      → (d / resolution_unit res * resolution_unit res ≤ d)
        × (d < d / resolution_unit res * resolution_unit res + resolution_unit res)
  unfolding resolution_unit
  tick_bounds Resolution.usec d = (omega arith, omega arith)
  tick_bounds Resolution.msec d = (omega arith, omega arith)
  tick_bounds Resolution.second d = (omega arith, omega arith)
  tick_bounds Resolution.minute d = (omega arith, omega arith)
  tick_bounds Resolution.hour d = (omega arith, omega arith)

  decoded :
      BufferLaws b
      → TimeLaws t
      → (resolver : ℕ → Option Received.Manifest) (m : Manifest.Manifest) (cm : Received.Manifest)
        (s : Sample.Sample) (fields : List (ℕ × Value))
      → s.buf ≡ fields_bytes b fields
      → s.source_id < 2 ^ 32
      → resolver s.source_id ≡ some cm
      → AllDescribed cm fields
      → length (fields_bytes b fields) < 2 ^ 32
      → new_from_data b t resolver (real_encode_samples b t m (s ∷ []))
        ≡ some (record {
          ref_count = 1;
          source_id = s.source_id;
          ts = client_time t m cm s.ts;
          ar = fields;
        })
  unfolding new_from_data real_encode_samples encode_sample decode_timespec
  decoded laws times resolver m cm s fields built hs found described l =
      let ticks = resolution_apply t m.resolution (t.subtract s.ts m.ts) in
      let behind = b.write_tag 3 tag_bytes ++ b.write_data (fields_bytes b fields) in
      let time = b.write_tag 2 tag_varint ++ (b.write_uint64 ticks ++ behind) in
      let p1 = 0 + length (b.write_tag 1 tag_varint) in
      let p2 = p1 + length (b.write_uint s.source_id) in
      let p3 = p2 + length (b.write_tag 2 tag_varint) in
      let p4 = p3 + length (b.write_uint64 ticks) in
      rw
        (
          append-nil (encode_sample b t m s),
          built,
          expect_back b laws 1 tag_varint 0 (b.write_uint s.source_id ++ time) (ground arith) refl,
          laws.uint_back s.source_id p1 time hs,
          found,
          expect_back b laws 2 tag_varint p2 (b.write_uint64 ticks ++ behind) (ground arith) refl,
          laws.uint64_back ticks p3 behind (ticks_fit times m.resolution (t.subtract s.ts m.ts)),
          data_back laws cm p4 fields described l,
        )
        refl

  -- Where the two times are whole microseconds `u` and `v`.
  time_back :
      TimeLaws t
      → (m : Manifest.Manifest) (cm : Received.Manifest) (ts : Timespec) (u v : ℕ)
      → ts ≡ t.from_usec u
      → m.ts ≡ t.from_usec v
      → cm.ts ≡ t.from_usec v
      → cm.resolution ≡ m.resolution
      → v ≤ u
      → u < 2 ^ 64
      → (t.to_usec (client_time t m cm ts) ≤ u)
        × (u < t.to_usec (client_time t m cm ts) + resolution_unit m.resolution)
  unfolding resolution_apply
  time_back times m cm ts u v e em ec er le lt =
      let unit = resolution_unit m.resolution in
      let ticks = (u - v) / unit * unit in
      let (below, above) = tick_bounds m.resolution (u - v) in
      let whole : ticks % 2 ^ 64 ≡ ticks = omega arith in
      let applied : resolution_apply t m.resolution (t.subtract ts m.ts) ≡ (u - v) / unit =
        ap (λ x. t.to_usec (t.subtract x m.ts) / unit) e
        ∙ ap (λ x. t.to_usec (t.subtract (t.from_usec u) x) / unit) em
        ∙ ap (λ n. n / unit) (times.to_usec-subtract u v le lt) in
      let time : t.to_usec (client_time t m cm ts) ≡ ticks + v =
        ap
          (λ n.
            t.to_usec (t.add (t.from_usec ((n * resolution_unit cm.resolution) % 2 ^ 64)) cm.ts))
          applied
        ∙ ap
            (λ r.
              t.to_usec (t.add (t.from_usec (((u - v) / unit * resolution_unit r) % 2 ^ 64)) cm.ts))
            er
        ∙ ap (λ n. t.to_usec (t.add (t.from_usec n) cm.ts)) whole
        ∙ ap (λ x. t.to_usec (t.add (t.from_usec ticks) x)) ec
        ∙ times.to_usec-add ticks v (omega arith) in
      (omega arith, omega arith)

-- The buffer and the time have their laws. A sample of the agent whose buffer was empty is given the values `fields` and encoded by its
-- manifest `m`. The client resolves the source's identifier to a manifest `cm` with the same time
-- and resolution, in which each field has the type of its value; the numbers and the bytes of the
-- fields fit the wire; and the sample, `u` microseconds, is not older than the manifest, `v`. Then
-- the decoding succeeds with the same source and the same fields and values in their order, and the
-- decoded time is not after `u` and less than a tick of the resolution before it.
pub decode-encode_sample :
    (b : Buffer) (t : Time) (resolver : ℕ → Option Received.Manifest) (m : Manifest.Manifest)
    (cm : Received.Manifest) (s : Sample.Sample) (fields : List (ℕ × Value)) (u v : ℕ)
    → BufferLaws b
    → TimeLaws t
    → s.buf ≡ []
    → s.source_id < 2 ^ 32
    → resolver s.source_id ≡ some cm
    → AllDescribed cm fields
    → length (fields_bytes b fields) < 2 ^ 32
    → s.ts ≡ t.from_usec u
    → m.ts ≡ t.from_usec v
    → cm.ts ≡ t.from_usec v
    → cm.resolution ≡ m.resolution
    → v ≤ u
    → u < 2 ^ 64
    → (x : Decoded.Sample) × ((new_from_data b t resolver
            (real_encode_samples b t m (append_all b s fields ∷ []))
          ≡ some x)
        × ((x.source_id ≡ s.source_id)
            × ((x.ar ≡ fields)
                × ((t.to_usec x.ts ≤ u) × (u < t.to_usec x.ts + resolution_unit m.resolution)))))
decode-encode_sample b t resolver m cm s fields u v laws times empty hs found described l e em ec er
      le lt =
    let built = record s { buf = fields_bytes b fields } in
    let same : append_all b s fields ≡ built =
      append_all_is b s fields ∙ ap (λ l. record s { buf = l ++ fields_bytes b fields }) empty in
    let x : Decoded.Sample = record {
      ref_count = 1;
      source_id = s.source_id;
      ts = client_time t m cm s.ts;
      ar = fields;
    } in
    let bounds = time_back b t times m cm s.ts u v e em ec er le lt in
    (
      x,
      (
        ap (λ y. new_from_data b t resolver (real_encode_samples b t m (y ∷ []))) same
            ∙ decoded b t laws times resolver m cm built fields refl hs found described l,
        (refl, (refl, bounds)),
      ),
    )
