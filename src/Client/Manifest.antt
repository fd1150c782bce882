-- ===== src/Client/Manifest.antt =====
-- perfkit/pk-manifest.c: a manifest as the client decodes it.
pub mod Rows
pub mod Loop
pub mod Fuel
pub mod Roundtrip
use perfkit.Prelude.{
  ◌>>=◌, ℕ, zero, suc, ◌+◌, ◌-◌, Bool, true, false, ◌&&◌, Option, none, some, List, [], ◌∷◌, ◌++◌,
  ◌==◌, if◌then◌else◌, ltb, leb, length, get_elem?, same_bytes,
}
use perfkit.Wire.{Bytes, Reader, Timespec, Buffer, Time, tag_varint, tag_bytes}
use perfkit.Manifest.{Resolution, usec, msec, second, minute, hour, g_type_invalid}
use perfkit.Client.Reading.{reader, expect}

-- `PkManifestRow`
pub record Row : Type 0 where
  pub id : ℕ
  pub type : ℕ
  pub name : Bytes

-- `struct _PkManifest`
pub record Manifest : Type 0 where
  pub ref_count : ℕ
  pub ts : Timespec
  pub resolution : Resolution
  pub source_id : ℕ
  pub n_rows : ℕ
  pub rows : List Row

-- The resolution behind a number of the wire: none above PK_RESOLUTION_HOUR.
unfoldable pub resolution_of : ℕ → Option Resolution
resolution_of zero = some usec
resolution_of (suc zero) = some msec
resolution_of (suc (suc zero)) = some second
resolution_of (suc (suc (suc zero))) = some minute
resolution_of (suc (suc (suc (suc zero)))) = some hour
resolution_of (suc (suc (suc (suc (suc n))))) = none

-- The last loop of `decode`: the rows have the ids from `i` on, without a gap.
unfoldable pub all_sent : ℕ → List Row → Bool
all_sent i [] = true
all_sent i (row ∷ rows) = row.id == i && all_sent (i + 1) rows

-- The loop of `pk_manifest_get_row_id`, at index `i`; `none` is -1.
unfoldable pub find_row : Bytes → ℕ → List Row → Option ℕ
find_row name i [] = none
find_row name i (row ∷ rows) =
    if same_bytes name row.name then some (i + 1) else find_row name (i + 1) rows

unfoldable pub get_row_id : Manifest → Bytes → Option ℕ
unfolding find_row
get_row_id m name = find_row name 0 m.rows

unfoldable pub get_row_type : Manifest → ℕ → ℕ
get_row_type m row =
    if ltb 0 row && leb row m.n_rows
    then elim (get_elem? m.rows (row - 1)) [ some r ↦ r.type | none ↦ g_type_invalid ]
    else g_type_invalid

unfoldable pub get_row_name : Manifest → ℕ → Option Bytes
get_row_name m row =
    if ltb 0 row && leb row m.n_rows
    then elim (get_elem? m.rows (row - 1)) [ some r ↦ some r.name | none ↦ none ]
    else none

-- `sort` is `g_array_sort` by the ids.
module _ (b : Buffer) (sort : List Row → List Row) where
  -- One round of the row loop.
  unfoldable pub decode_row : Reader → Option (Row × Reader)
  unfolding expect
  decode_row r0 = do
    (len, r1) ← b.read_uint r0
    r2 ← expect b 1 tag_varint r1
    (id, r3) ← b.read_uint r2
    r4 ← expect b 2 tag_varint r3
    (type, r5) ← b.read_uint r4
    r6 ← expect b 3 tag_bytes r5
    (name, r7) ← b.read_string r6
    some (record { id = id; type = type; name = name }, r7)

  -- The row loop, up to the position `end`. `decode` gives it the number of bytes left as fuel.
  unfoldable pub decode_rows : ℕ → ℕ → List Row → Reader → Option (List Row)
  unfolding decode_row
  decode_rows zero end rows r = if ltb r.pos end then none else some rows
  decode_rows (suc fuel) end rows r = elim (ltb r.pos end) [
    | false ↦ some rows
    | true ↦ elim (decode_row r) [
      | none ↦ none
      | some (row, r') ↦ decode_rows fuel end (sort (rows ++ (row ∷ []))) r'
    ]
  ]

  unfoldable pub decode : Time → Reader → Option Manifest
  unfolding expect resolution_of decode_rows all_sent
  decode t r0 = do
    r1 ← expect b 1 tag_varint r0
    (u64, r2) ← b.read_uint64 r1
    r3 ← expect b 2 tag_varint r2
    (code, r4) ← b.read_uint r3
    resolution ← resolution_of code
    r5 ← expect b 3 tag_varint r4
    (source_id, r6) ← b.read_uint r5
    r7 ← expect b 4 tag_bytes r6
    (len, r8) ← b.read_uint r7
    rows ← decode_rows (length r8.rest) (r8.pos + len) [] r8
    let manifest : Manifest = record {
      ref_count = 1;
      ts = t.from_usec u64;
      resolution = resolution;
      source_id = source_id;
      n_rows = length rows;
      rows = rows;
    }
    if all_sent 1 rows then some manifest else none

  -- `pk_manifest_new_from_data`
  unfoldable pub new_from_data : Time → Bytes → Option Manifest
  unfolding decode
  new_from_data t bytes = decode t (reader 0 bytes)
