-- ===== src/Client/Manifest/Loop.antt =====
-- The row loop of the client on the rows that the loop of the agent has written.
use perfkit.Prelude.{
  ℕ, zero, suc, ◌+◌, ◌^◌, ◌<◌, ◌≤◌, ◌≡◌, sym, ◌∙◌, ap, true, false, some, List, [], ◌∷◌, ◌++◌,
  length, length-append, ltb, arith,
}
use mathlib.Core.List.{append_assoc, append-nil}
use perfkit.Wire.{Bytes, Reader, Buffer, BufferLaws, at, past, has_nul}
use perfkit.Manifest
use perfkit.Client.Reading.{reader}
use perfkit.Client.Manifest.{Row, decode_row, decode_rows}
use perfkit.Client.Manifest.Rows.{
  sent_rows, SortLaws, sent_rows-ascending, sent_rows-add, row_bytes, row_fields,
}

module _ (b : Buffer) where
  -- A row that fits the wire under the id `i`: its numbers into 32 bits, and its name is a string.
  pub record IsSendable (i : ℕ) (row : Manifest.Row) : Type 0 where
    pub id_fits : i < 2 ^ 32
    pub type_fits : row.type < 2 ^ 32
    pub name_fits : length row.name < 2 ^ 32
    pub no_nul : has_nul row.name ≡ false
    pub fits : length (row_bytes b i row.type row.name) < 2 ^ 32

  abbrev pub AllSendable : ℕ → List Manifest.Row → Type 0
  AllSendable i [] = Unit
  AllSendable i (row ∷ rows) = IsSendable i row × AllSendable (i + 1) rows

  abbrev pub rows_bytes : ℕ → List Manifest.Row → Bytes
  rows_bytes i [] = []
  rows_bytes i (row ∷ rows) =
      b.write_data (row_bytes b i row.type row.name) ++ rows_bytes (i + 1) rows

  pub uint_length : BufferLaws b → (n : ℕ) → n < 2 ^ 32 → 0 < length (b.write_uint n)
  uint_length laws n h =
      let (_, moved) =
        laws.uint_advances (at 0 (b.write_uint n) []) (past 0 (b.write_uint n) []) n
          (laws.uint_back n 0 [] h) in
      omega arith

  data_length : BufferLaws b → (d : Bytes) → length d < 2 ^ 32 → 0 < length (b.write_data d)
  data_length laws d h =
      let some_bytes = uint_length laws (length d) h in
      rw (laws.data_layout d h, length-append (b.write_uint (length d)) d) (omega arith)

  -- Each row takes a byte at least.
  pub length-rows_bytes :
      BufferLaws b
      → (i : ℕ) (rows : List Manifest.Row) → AllSendable i rows
      → length rows ≤ length (rows_bytes i rows)
  length-rows_bytes laws i [] h = omega arith
  length-rows_bytes laws i (row ∷ rows) (h, hs) =
      let d = row_bytes b i row.type row.name in
      let one = data_length laws d h.fits in
      let more = length-rows_bytes laws (i + 1) rows hs in
      rw (length-append (b.write_data d) (rows_bytes (i + 1) rows)) (omega arith)

  pub decode_rows_end :
      (sort : List Row → List Row) (fuel end : ℕ) (rows : List Row) (r : Reader)
      → ltb r.pos end ≡ false
      → decode_rows b sort fuel end rows r ≡ some rows
  unfolding decode_rows
  decode_rows_end sort zero end rows r h = ground arith
  decode_rows_end sort (suc fuel) end rows r h = ground arith

  pub decode_rows_step :
      (sort : List Row → List Row) (fuel end : ℕ) (rows : List Row) (r r' : Reader) (row : Row)
      → ltb r.pos end ≡ true
      → decode_row b sort r ≡ some (row, r')
      → decode_rows b sort (suc fuel) end rows r
        ≡ decode_rows b sort fuel end (sort (rows ++ (row ∷ []))) r'
  unfolding decode_rows
  decode_rows_step sort fuel end rows r r' row h e = ground arith

  pub decode_rows_back :
      BufferLaws b
      → (sort : List Row → List Row) → SortLaws sort
      → (fuel end pos i : ℕ) (front back : List Manifest.Row) (rest : Bytes) → length back ≤ fuel
      → end ≡ pos + length (rows_bytes i back)
      → i ≡ 1 + length front
      → AllSendable i back
      → decode_rows b sort fuel end (sent_rows 1 front) (reader pos (rows_bytes i back ++ rest))
        ≡ some (sent_rows 1 (front ++ back))
  decode_rows_back laws sort sorts fuel end pos i front [] rest f p e h =
      decode_rows_end sort fuel end (sent_rows 1 front) (reader pos rest) (ground arith)
      ∙ ap (λ l. some (sent_rows 1 l)) (sym (append-nil front))
  decode_rows_back laws sort sorts zero end pos i front (row ∷ back) rest f p e (h, hs) =
      absurd (omega arith)
  decode_rows_back laws sort sorts (suc fuel) end pos i front (row ∷ back) rest f p e (h, hs) =
      let d = row_bytes b i row.type row.name in
      let written = b.write_data d in
      let one = data_length laws d h.fits in
      let split = length-append written (rows_bytes (i + 1) back) in
      let row' : Row = record { id = i; type = row.type; name = row.name } in
      let decoded =
        row_fields b laws sort i row.type pos row.name (rows_bytes (i + 1) back ++ rest) h.id_fits
          h.type_fits h.name_fits h.no_nul h.fits in
      let added : sent_rows 1 front ++ (row' ∷ []) ≡ sent_rows 1 (front ++ (row ∷ [])) =
        ap (λ n. sent_rows 1 front ++ (record { id = n; type = row.type; name = row.name } ∷ [])) e
        ∙ sent_rows-add 1 front row in
      let sorted : sort (sent_rows 1 front ++ (row' ∷ [])) ≡ sent_rows 1 (front ++ (row ∷ [])) =
        ap sort added ∙ sorts.sorted _ (sent_rows-ascending 1 (front ++ (row ∷ []))) in
      ap (λ l. decode_rows b sort (suc fuel) end (sent_rows 1 front) (reader pos l))
        (append_assoc written (rows_bytes (i + 1) back) rest)
      ∙ decode_rows_step sort fuel end (sent_rows 1 front) _ _ row' (ground arith) decoded
      ∙ ap
          (λ l.
            decode_rows b sort fuel end l
              (reader (pos + length written) (rows_bytes (i + 1) back ++ rest)))
          sorted
      ∙ decode_rows_back laws sort sorts fuel end (pos + length written) (i + 1)
          (front ++ (row ∷ [])) back rest (omega arith) (omega arith)
          (ground (arith, length-append front (row ∷ []))) hs
      ∙ ap (λ l. some (sent_rows 1 l)) (append_assoc front (row ∷ []) back)
