-- ===== src/Manifest/GType.antt =====
-- The GType numbers of GObject that pka-manifest.c and pk-sample.c name.
use perfkit.Prelude.{ℕ}

abbrev pub g_type_invalid : ℕ
g_type_invalid = 0

abbrev pub g_type_char : ℕ
g_type_char = 12

abbrev pub g_type_boolean : ℕ
g_type_boolean = 20

abbrev pub g_type_int : ℕ
g_type_int = 24

abbrev pub g_type_uint : ℕ
g_type_uint = 28

abbrev pub g_type_long : ℕ
g_type_long = 32

abbrev pub g_type_ulong : ℕ
g_type_ulong = 36

abbrev pub g_type_int64 : ℕ
g_type_int64 = 40

abbrev pub g_type_uint64 : ℕ
g_type_uint64 = 44

abbrev pub g_type_float : ℕ
g_type_float = 56

abbrev pub g_type_double : ℕ
g_type_double = 60

abbrev pub g_type_string : ℕ
g_type_string = 64
