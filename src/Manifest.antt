-- ===== src/Manifest.antt =====
-- perfkit-agent/pka-manifest.c: the rows that describe the fields of a source's samples.
use perfkit.Prelude.{
  ℕ, ◌+◌, ◌-◌, ◌%◌, ◌^◌, Bool, ◌||◌, ◌&&◌, Option, none, some, List, [], ◌∷◌, ◌++◌, ◌==◌, ltb, leb,
  if◌then◌else◌, length, get_elem?,
}
use perfkit.Wire.{Bytes, Timespec}
-- The GType numbers of GObject that the code names.
mod GType
unfoldable pub use GType.*

-- `PkaResolution`
pub data Resolution : Type 0 where
  usec msec second minute hour : Resolution

-- `PkaManifestRow`
pub record Row : Type 0 where
  pub id : ℕ
  pub type : ℕ
  pub name : Bytes

-- `struct _PkaManifest`; `source_id` is a gint, kept as its 32-bit pattern.
pub record Manifest : Type 0 where
  pub ref_count : ℕ
  pub rows : List Row
  pub source_id : ℕ
  pub ts : Timespec
  pub resolution : Resolution

-- `pka_manifest_sized_new`: the size only reserves room. The clock is read by the caller.
unfoldable pub sized_new : Timespec → Manifest
sized_new now = record { ref_count = 1; rows = []; source_id = 0; ts = now; resolution = usec }

unfoldable pub set_timespec : Manifest → Timespec → Manifest
set_timespec m ts = record m { ts = ts }

unfoldable pub set_resolution : Manifest → Resolution → Manifest
set_resolution m r = record m { resolution = r }

unfoldable pub set_source_id : Manifest → ℕ → Manifest
set_source_id m source_id = record m { source_id = source_id }

-- The types that the `switch` of `pka_manifest_append` lets through.
unfoldable pub is_row_type : ℕ → Bool
is_row_type type =
    type == g_type_int
    || type == g_type_uint
    || type == g_type_long
    || type == g_type_ulong
    || type == g_type_string
    || type == g_type_char
    || type == g_type_boolean
    || type == g_type_double
    || type == g_type_float

-- `pka_manifest_append`, with the row id that it returns. A null name or the type 0 returns 0 and
-- appends nothing; `none` is the failed assertion on any other type.
unfoldable pub append : Manifest → Option Bytes → ℕ → Option (Manifest × ℕ)
unfolding is_row_type
append m none type = some (m, 0)
append m (some name) type =
    if type == 0
    then some (m, 0)
    else if is_row_type type
    then some (record m { rows = m.rows ++ (row ∷ []) }, row.id)
    else none
  where
    row : Row
    row = record { id = (length m.rows + 1) % 2 ^ 32; type = type; name = name }

unfoldable pub get_n_rows : Manifest → ℕ
get_n_rows m = length m.rows

-- `row && row <= len`. The row is read as unsigned there, so a negative one fails the bound.
unfoldable pub get_row_type : Manifest → ℕ → ℕ
get_row_type m row =
    if ltb 0 row && leb row (length m.rows)
    then elim (get_elem? m.rows (row - 1)) [ some r ↦ r.type | none ↦ g_type_invalid ]
    else g_type_invalid

-- `row > 0 && row <= len`, for a row below 2 ^ 31; the null name is `none`.
unfoldable pub get_row_name : Manifest → ℕ → Option Bytes
get_row_name m row =
    if ltb 0 row && leb row (length m.rows)
    then elim (get_elem? m.rows (row - 1)) [ some r ↦ some r.name | none ↦ none ]
    else none
