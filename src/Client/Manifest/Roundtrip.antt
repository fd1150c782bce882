-- ===== src/Client/Manifest/Roundtrip.antt =====
-- A manifest on its way through the encoder of the agent and the decoder of the client.
use perfkit.Prelude.{
  ℕ, suc, ◌+◌, ◌-◌, ◌%◌, ◌^◌, ◌<◌, ◌≡◌, refl, sym, ◌∙◌, ap, true, ◌&&◌, some, List, [], ◌∷◌, ◌++◌,
  length, length-append, ltb, leb, arith, get_elem?,
}
use mathlib.Core.List.{append_assoc, append-nil}
use perfkit.Wire.{Buffer, BufferLaws, Time, TimeLaws, tag_varint, tag_bytes}
use perfkit.Manifest
use perfkit.Manifest.{Resolution}
use perfkit.Encoder.{encode_row, encode_rows, real_encode_manifest, resolution_code}
use perfkit.Client.Reading.{reader, expect_back}
use perfkit.Client.Manifest.{Row, resolution_of, all_sent, decode_rows, decode, new_from_data}
use perfkit.Client.Manifest.Rows.{sent_rows, SortLaws, all_sent_rows, length-sent_rows, row_bytes}
use perfkit.Client.Manifest.Loop.{AllSendable, rows_bytes, length-rows_bytes, decode_rows_back}

resolution_back : (res : Resolution) → resolution_of (resolution_code res) ≡ some res
unfolding resolution_of resolution_code
resolution_back Resolution.usec = refl
resolution_back Resolution.msec = refl
resolution_back Resolution.second = refl
resolution_back Resolution.minute = refl
resolution_back Resolution.hour = refl

resolution_code_fits : (res : Resolution) → resolution_code res < 2 ^ 32
unfolding resolution_code
resolution_code_fits Resolution.usec = omega arith
resolution_code_fits Resolution.msec = omega arith
resolution_code_fits Resolution.second = omega arith
resolution_code_fits Resolution.minute = omega arith
resolution_code_fits Resolution.hour = omega arith

get_elem_behind :
    (front back : List Manifest.Row) (row : Manifest.Row)
    → get_elem? (front ++ (row ∷ back)) (length front) ≡ some row
get_elem_behind [] back row = refl
get_elem_behind (x ∷ front) back row = get_elem_behind front back row

-- The agent's getters read the rows in their order.
getters_behind :
    (m : Manifest.Manifest) (i : ℕ) (front back : List Manifest.Row) (row : Manifest.Row)
    → m.rows ≡ front ++ (row ∷ back)
    → i ≡ 1 + length front
    → (Manifest.get_row_type m i ≡ row.type) × (Manifest.get_row_name m i ≡ some row.name)
unfolding Manifest.get_row_type Manifest.get_row_name
getters_behind m i front back row e p =
    let place : i - 1 ≡ length front = omega arith in
    let elem : get_elem? m.rows (i - 1) ≡ some row =
      ap (λ l. get_elem? l (i - 1)) e
      ∙ ap (get_elem? (front ++ (row ∷ back))) place
      ∙ get_elem_behind front back row in
    let long : length m.rows ≡ length front + suc (length back) =
      ap length e ∙ length-append front (row ∷ back) in
    let inside : (ltb 0 i && leb i (length m.rows)) ≡ true = ground arith in
    (rw (inside, elem) refl, rw (inside, elem) refl)

module _ (b : Buffer) (t : Time) where
  encode_row_bytes :
      (m : Manifest.Manifest) (i : ℕ) (front back : List Manifest.Row) (row : Manifest.Row)
      → m.rows ≡ front ++ (row ∷ back)
      → i ≡ 1 + length front
      → row.type < 2 ^ 32
      → encode_row b t m i ≡ row_bytes b i row.type row.name
  unfolding encode_row
  encode_row_bytes m i front back row e p h =
      let (type, name) = getters_behind m i front back row e p in
      let small : row.type % 2 ^ 32 ≡ row.type = omega arith in rw (type, name, small) refl

  encode_rows_bytes :
      (m : Manifest.Manifest) (i : ℕ) (front back : List Manifest.Row)
      → m.rows ≡ front ++ back
      → i ≡ 1 + length front
      → AllSendable b i back
      → encode_rows b t m i (length back) ≡ rows_bytes b i back
  unfolding encode_rows
  encode_rows_bytes m i front [] e p h = refl
  encode_rows_bytes m i front (row ∷ back) e p (h, hs) =
      let rest =
        encode_rows_bytes m (i + 1) (front ++ (row ∷ [])) back
          (e ∙ sym (append_assoc front (row ∷ []) back))
          (ground (arith, length-append front (row ∷ []))) hs in
      rw (encode_row_bytes m i front back row e p h.type_fits, rest) refl

rows_back :
    (b : Buffer)
    → BufferLaws b
    → (sort : List Row → List Row) → SortLaws sort
    → (pos : ℕ) (rows : List Manifest.Row) → AllSendable b 1 rows
    → decode_rows b sort
        (length (rows_bytes b 1 rows))
        (pos + length (rows_bytes b 1 rows))
        []
        (reader pos (rows_bytes b 1 rows))
      ≡ some (sent_rows 1 rows)
rows_back b laws sort sorts pos rows h =
    let bytes = rows_bytes b 1 rows in
    ap (λ l. decode_rows b sort (length bytes) (pos + length bytes) [] (reader pos l))
      (sym (append-nil bytes))
    ∙ decode_rows_back b laws sort sorts (length bytes) (pos + length bytes) pos 1 [] rows []
        (length-rows_bytes b laws 1 rows h) refl refl h

-- What the client makes of the agent's manifest `m`.
abbrev pub received : Time → Manifest.Manifest → perfkit.Client.Manifest.Manifest
received t m = record {
  ref_count = 1;
  ts = t.from_usec (t.to_usec m.ts);
  resolution = m.resolution;
  source_id = m.source_id;
  n_rows = length m.rows;
  rows = sent_rows 1 m.rows;
}

-- The manifest `m` of the agent is encoded and decoded by the client, with a buffer, a time and a
-- sort that have their laws. If the source's identifier
-- and every row fit the wire and the rows take less than 2 ^ 32 bytes, then the decoding succeeds:
-- the client has the same resolution, the same source, the time in microseconds, and the rows with
-- their types and names in the same order, numbered from 1.
pub decode-encode :
    (b : Buffer) (t : Time) (sort : List Row → List Row) (m : Manifest.Manifest)
    → BufferLaws b
    → TimeLaws t
    → SortLaws sort
    → m.source_id < 2 ^ 32
    → AllSendable b 1 m.rows
    → length (rows_bytes b 1 m.rows) < 2 ^ 32
    → new_from_data b sort t (real_encode_manifest b t m) ≡ some (received t m)
unfolding new_from_data decode real_encode_manifest Manifest.get_n_rows
decode-encode b t sort m laws times sorts hs hr hl =
    let u = t.to_usec m.ts in
    let code = resolution_code m.resolution in
    let rows = rows_bytes b 1 m.rows in
    let d4 = b.write_tag 4 tag_bytes ++ (b.write_uint (length rows) ++ rows) in
    let d3 = b.write_tag 3 tag_varint ++ (b.write_uint m.source_id ++ d4) in
    let d2 = b.write_tag 2 tag_varint ++ (b.write_uint code ++ d3) in
    let p1 = 0 + length (b.write_tag 1 tag_varint) in
    let p2 = p1 + length (b.write_uint64 u) in
    let p3 = p2 + length (b.write_tag 2 tag_varint) in
    let p4 = p3 + length (b.write_uint code) in
    let p5 = p4 + length (b.write_tag 3 tag_varint) in
    let p6 = p5 + length (b.write_uint m.source_id) in
    let p7 = p6 + length (b.write_tag 4 tag_bytes) in
    let p8 = p7 + length (b.write_uint (length rows)) in
    rw
      (
        encode_rows_bytes b t m 1 [] m.rows refl refl hr,
        laws.data_layout rows hl,
        expect_back b laws 1 tag_varint 0 (b.write_uint64 u ++ d2) (ground arith) refl,
        laws.uint64_back u p1 d2 (times.to_usec_bound m.ts),
        expect_back b laws 2 tag_varint p2 (b.write_uint code ++ d3) (ground arith) refl,
        laws.uint_back code p3 d3 (resolution_code_fits m.resolution),
        resolution_back m.resolution,
        expect_back b laws 3 tag_varint p4 (b.write_uint m.source_id ++ d4) (ground arith) refl,
        laws.uint_back m.source_id p5 d4 hs,
        expect_back b laws 4 tag_bytes p6 (b.write_uint (length rows) ++ rows) (ground arith) refl,
        laws.uint_back (length rows) p7 rows hl,
        rows_back b laws sort sorts p8 m.rows hr,
        all_sent_rows 1 m.rows,
      )
      (ap (λ n. some (record (received t m) { n_rows = n })) (length-sent_rows 1 m.rows))
