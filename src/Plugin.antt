-- ===== src/Plugin.antt =====
-- perfkit-agent/pka-plugin.c: plugins, what they say of themselves, and the objects they make.
use perfkit.Prelude.{
  ℕ, zero, suc, ◌+◌, Bool, true, false, ◌&&◌, ◌||◌, Option, none, some, [], ◌∷◌, ◌++◌, leb, map,
  if◌then◌else◌,
}
use perfkit.Context.{Error}
use perfkit.Wire.{Bytes}

-- `PkaPluginType`
pub data PluginType : Type 0 where
  invalid listener source encoder : PluginType

-- `PkaPluginInfo`; of the factory, whether there is one.
pub record PluginInfo : Type 0 where
  pub factory : Bool
  pub plugin_type : PluginType
  pub id : Bytes
  pub name : Bytes
  pub version : Bytes
  pub description : Bytes
  pub copyright : Bytes

-- `struct _PkaPluginPrivate`, less the module.
pub record Plugin : Type 0 where
  pub info : Option PluginInfo

-- The four texts are empty without information.
abbrev info_text : (PluginInfo → Bytes) → Option PluginInfo → Bytes
info_text field none = []
info_text field (some info) = field info

unfoldable pub get_description : Plugin → Bytes
get_description p = info_text (λ i. i.description) p.info

unfoldable pub get_copyright : Plugin → Bytes
get_copyright p = info_text (λ i. i.copyright) p.info

unfoldable pub get_name : Plugin → Bytes
get_name p = info_text (λ i. i.name) p.info

unfoldable pub get_version : Plugin → Bytes
get_version p = info_text (λ i. i.version) p.info

unfoldable pub get_plugin_type : Plugin → PluginType
get_plugin_type p = elim p.info [ none ↦ invalid | some info ↦ info.plugin_type ]

-- The null id is `none`.
unfoldable pub get_id : Plugin → Option Bytes
get_id p = elim p.info [ none ↦ none | some info ↦ some info.id ]

abbrev between : ℕ → ℕ → ℕ → Bool
between low high c = leb low c && leb c high

-- `g_ascii_isalnum` and `g_ascii_tolower`
abbrev is_alnum : ℕ → Bool
is_alnum c = between 48 57 c || between 65 90 c || between 97 122 c

abbrev to_lower : ℕ → ℕ
to_lower c = if between 65 90 c then c + 32 else c

abbrev all_alnum : Bytes → Bool
all_alnum [] = true
all_alnum (c ∷ id) = is_alnum c && all_alnum id

-- `pka_plugin_load_from_file`, with the information that the module exports: `none` where it is no
-- module or exports none. The plugin is kept as it was where the call fails.
unfoldable pub load_from_file : Plugin → Option PluginInfo → Plugin × Bool
load_from_file p none = (p, false)
load_from_file p (some info) =
    if all_alnum info.id then (record { info = some info }, true) else (p, false)

-- What a factory answers: an object, or none with the error that it may set.
pub data Made : Type 0 where
  made : Made
  unmade : Option Error → Made

abbrev pub first : ℕ → Bytes → Bytes
first zero s = []
first (suc n) [] = []
first (suc n) (c ∷ s) = c ∷ first n s

-- The group of the configuration: 31 characters at most, in lower case.
abbrev group : Bytes → Bytes → Bytes
group kind id = map to_lower (first 31 (kind ++ id))

abbrev text_of : Option Bytes → Bytes
text_of none = []
text_of (some s) = s

-- `pka_plugin_is_disabled`, with what the configuration says of "disabled" in a group.
unfoldable pub is_disabled : (Bytes → Option Bool) → Plugin → Bool
unfolding get_plugin_type get_id
is_disabled configured p = elim (get_plugin_type p) [
  | invalid ↦ true
  | source ↦ said (group (115 ∷ 111 ∷ 117 ∷ 114 ∷ 99 ∷ 101 ∷ 46 ∷ []) (text_of (get_id p)))
  | encoder ↦ said (group (101 ∷ 110 ∷ 99 ∷ 111 ∷ 100 ∷ 101 ∷ 114 ∷ 46 ∷ []) (text_of (get_id p)))
  | listener ↦
      said (group (108 ∷ 105 ∷ 115 ∷ 116 ∷ 101 ∷ 110 ∷ 101 ∷ 114 ∷ 46 ∷ []) (text_of (get_id p)))
]
  where
    said : Bytes → Bool
    said g = elim (configured g) [ none ↦ true | some v ↦ v ]
