-- ===== src/Client/Manifest/Rows.antt =====
-- The rows of a manifest, as the agent has written them and the client reads them.
use perfkit.Prelude.{
  ℕ, suc, ◌+◌, ◌^◌, ◌<◌, ◌≡◌, refl, ◌∙◌, ap, Bool, true, false, ◌&&◌, some, List, [], ◌∷◌, ◌++◌,
  length, length-append, ltb, arith,
}
use perfkit.Wire.{Bytes, Buffer, BufferLaws, tag_varint, tag_bytes, has_nul}
use perfkit.Manifest
use perfkit.Client.Reading.{reader, expect_in, uint_in}
use perfkit.Client.Manifest.{Row, all_sent, decode_row}

-- The rows of a manifest under the ids from `i` on, as the client keeps them.
abbrev pub sent_rows : ℕ → List Manifest.Row → List Row
sent_rows i [] = []
sent_rows i (row ∷ rows) =
    record { id = i; type = row.type; name = row.name } ∷ sent_rows (i + 1) rows

-- The ids grow.
abbrev pub ascending : List Row → Bool
ascending [] = true
ascending (x ∷ []) = true
ascending (x ∷ y ∷ rows) = ltb x.id y.id && ascending (y ∷ rows)

-- `g_array_sort` leaves an array alone that is sorted.
pub record SortLaws (sort : List Row → List Row) : Type 0 where
  pub sorted : (rows : List Row) → ascending rows ≡ true → sort rows ≡ rows

pub sent_rows-ascending : (i : ℕ) (rows : List Manifest.Row) → ascending (sent_rows i rows) ≡ true
sent_rows-ascending i [] = refl
sent_rows-ascending i (x ∷ []) = refl
sent_rows-ascending i (x ∷ y ∷ rows) = ground (arith, sent_rows-ascending (i + 1) (y ∷ rows))

pub sent_rows-add :
    (i : ℕ) (front : List Manifest.Row) (row : Manifest.Row)
    → sent_rows i front ++ (record { id = i + length front; type = row.type; name = row.name } ∷ [])
      ≡ sent_rows i (front ++ (row ∷ []))
sent_rows-add i [] row =
    ap (λ n. record { id = n; type = row.type; name = row.name } ∷ []) (omega arith)
sent_rows-add i (x ∷ front) row =
    ap (λ l. record { id = i; type = x.type; name = x.name } ∷ l)
      (ap
          (λ n.
            sent_rows (i + 1) front ++ (record { id = n; type = row.type; name = row.name } ∷ []))
          (omega arith)
        ∙ sent_rows-add (i + 1) front row)

pub all_sent_rows : (i : ℕ) (rows : List Manifest.Row) → all_sent i (sent_rows i rows) ≡ true
unfolding all_sent
all_sent_rows i [] = refl
all_sent_rows i (x ∷ rows) = ground (arith, all_sent_rows (i + 1) rows)

pub length-sent_rows : (i : ℕ) (rows : List Manifest.Row) → length (sent_rows i rows) ≡ length rows
length-sent_rows i [] = refl
length-sent_rows i (x ∷ rows) = ap suc (length-sent_rows (i + 1) rows)

module _ (b : Buffer) where
  -- The bytes of one row, by its fields.
  abbrev pub row_bytes : ℕ → ℕ → Bytes → Bytes
  row_bytes i ty name =
      b.write_tag 1 tag_varint
      ++ (b.write_uint i
          ++ (b.write_tag 2 tag_varint
              ++ (b.write_uint ty ++ (b.write_tag 3 tag_bytes ++ b.write_string name))))

module _ (b : Buffer) (laws : BufferLaws b) where
  pub row_fields :
      (sort : List Row → List Row) (i ty pos : ℕ) (name rest : Bytes)
      → i < 2 ^ 32
      → ty < 2 ^ 32
      → length name < 2 ^ 32
      → has_nul name ≡ false
      → length (row_bytes b i ty name) < 2 ^ 32
      → decode_row b sort (reader pos (b.write_data (row_bytes b i ty name) ++ rest))
        ≡ some (
          record { id = i; type = ty; name = name },
          reader (pos + length (b.write_data (row_bytes b i ty name))) rest,
        )
  unfolding decode_row
  row_fields sort i ty pos name rest hi ht hl hz he =
      let d = row_bytes b i ty name in
      let name_bytes = b.write_tag 3 tag_bytes ++ b.write_string name in
      let type_bytes = b.write_tag 2 tag_varint ++ (b.write_uint ty ++ name_bytes) in
      let p1 = pos + length (b.write_uint (length d)) in
      let p2 = p1 + length (b.write_tag 1 tag_varint) in
      let p3 = p2 + length (b.write_uint i) in
      let p4 = p3 + length (b.write_tag 2 tag_varint) in
      let p5 = p4 + length (b.write_uint ty) in
      let p6 = p5 + length (b.write_tag 3 tag_bytes) in
      rw
        (
          laws.data_layout d he,
          uint_in b laws (length d) pos d rest he,
          expect_in b laws 1 tag_varint p1 (b.write_uint i ++ type_bytes) rest (ground arith) refl,
          uint_in b laws i p2 type_bytes rest hi,
          expect_in b laws 2 tag_varint p3 (b.write_uint ty ++ name_bytes) rest (ground arith) refl,
          uint_in b laws ty p4 name_bytes rest ht,
          expect_in b laws 3 tag_bytes p5 (b.write_string name) rest (ground arith) refl,
          laws.string_back name p6 rest hl hz,
        )
        (ap (λ p. some (record { id = i; type = ty; name = name }, reader p rest))
          (rw
            (
              length-append (b.write_uint (length d)) d,
              length-append (b.write_tag 1 tag_varint) (b.write_uint i ++ type_bytes),
              length-append (b.write_uint i) type_bytes,
              length-append (b.write_tag 2 tag_varint) (b.write_uint ty ++ name_bytes),
              length-append (b.write_uint ty) name_bytes,
              length-append (b.write_tag 3 tag_bytes) (b.write_string name),
            )
            (omega arith)))
