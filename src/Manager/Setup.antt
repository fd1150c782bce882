-- ===== src/Manager/Setup.antt =====
-- perfkit-agent/pka-manager.c: what its operations share, and the start of the manager.
use perfkit.Prelude.{
  ℕ, ◌+◌, Bool, true, false, not, ◌&&◌, Option, none, some, List, [], ◌∷◌, ◌++◌, ◌==◌,
  if◌then◌else◌, length, update,
}
use perfkit.Context.{Context, Ioctl, not_authorized, is_authorized}
use perfkit.Wire.{Bytes}
use perfkit.Plugin.{
  Plugin, PluginInfo, PluginType, Made, made, unmade, get_plugin_type, get_id, load_from_file,
  is_disabled,
}
use perfkit.World.{World}
use perfkit.Agent.{Agent, Notice, plugin_added, Answer, refused}

-- AUTHORIZE_IOCTL
abbrev pub authorized : {A : Type 0} → Context → Ioctl → Agent → Agent × Answer A → Agent × Answer A
authorized context ioctl a outcome =
    if is_authorized context ioctl then outcome else (a, refused (some not_authorized))

-- NOTIFY_LISTENERS: each listener in turn; the notices stand newest first.
abbrev pub tell : Notice → List ℕ → List (ℕ × Notice) → List (ℕ × Notice)
tell n [] notices = notices
tell n (l ∷ listeners) notices = tell n listeners ((l, n) ∷ notices)

abbrev pub notify : Notice → Agent → Agent
notify n a = record a { notices = tell n a.listeners a.notices }

-- `g_ptr_array_remove`: the first match goes.
abbrev pub remove_first : ℕ → List ℕ → List ℕ
remove_first p [] = []
remove_first p (x ∷ xs) = if x == p then xs else x ∷ remove_first p xs

-- `pka_encoder_get_id`: an id that is 0 is taken for none.
unfoldable pub get_encoder_id : ℕ → Agent → Agent × ℕ
get_encoder_id e a =
    if a.encoder_ids e == 0
    then (
      record a {
        encoder_ids = update a.encoder_ids e a.encoder_seq;
        encoder_seq = a.encoder_seq + 1;
      },
      a.encoder_seq,
    )
    else (a, a.encoder_ids e)

-- A loaded plugin is added behind the others.
abbrev add_plugin : Plugin → Agent → Agent
add_plugin p a = record a {
  plugins = a.plugins ++ (length a.plugins ∷ []);
  plugin_at = update a.plugin_at (length a.plugins) p;
}

-- `pka_manager_load_plugins`, over the files of the directories: whether the name has the suffix of
-- a module, and what the module exports.
unfoldable pub load_plugins : List (Bool × Option PluginInfo) → Agent → Agent
unfolding load_from_file
load_plugins [] a = a
load_plugins ((false, info) ∷ files) a = load_plugins files a
load_plugins ((true, info) ∷ files) a =
    let (p, loaded) = load_from_file (record { info = none }) info in
    load_plugins files (if loaded then add_plugin p a else a)

abbrev is_listener : PluginType → Bool
is_listener PluginType.listener = true
is_listener _ = false

abbrev pub is_source : PluginType → Bool
is_source PluginType.source = true
is_source _ = false

abbrev pub is_encoder : PluginType → Bool
is_encoder PluginType.encoder = true
is_encoder _ = false

-- `pka_plugin_create`, less the setting of a source's plugin.
abbrev pub create : (ℕ → Made) → Agent → ℕ → Made
create factory a p = elim (a.plugin_at p).info [
  | none ↦ unmade none
  | some info ↦ if info.factory then factory p else unmade none
]

abbrev pub when_made : Made → Agent → Agent → Agent
when_made made added skipped = added
when_made (unmade e) added skipped = skipped

-- The first loop of `pka_manager_init_listeners`.
unfoldable pub create_listeners : (Bytes → Option Bool) → (ℕ → Made) → List ℕ → Agent → Agent
unfolding get_plugin_type is_disabled
create_listeners configured factory [] a = a
create_listeners configured factory (p ∷ plugins) a =
    let plugin = a.plugin_at p in
    let skipped = create_listeners configured factory plugins a in
    let added =
      create_listeners configured factory plugins
        (record a { listeners = a.listeners ++ (length a.listeners ∷ []) }) in
    if is_listener (get_plugin_type plugin) && not (is_disabled configured plugin)
    then when_made (create factory a p) added skipped
    else skipped

-- What a listener that has started to listen is told of the plugins.
unfoldable pub announce : ℕ → List ℕ → Agent → Agent
unfolding get_plugin_type get_id
announce l [] a = a
announce l (p ∷ plugins) a = announce l plugins (
    if is_listener (get_plugin_type (a.plugin_at p))
    then a
    else record a { notices = (l, plugin_added (get_id (a.plugin_at p))) ∷ a.notices })

-- The second loop, over the listeners; `listens` says which of them come up.
unfoldable pub start_listeners : (ℕ → Bool) → List ℕ → Agent → Agent
unfolding announce
start_listeners listens [] a = a
start_listeners listens (l ∷ listeners) a =
    start_listeners listens listeners (if listens l then announce l a.plugins a else a)

-- A manager with empty arrays.
abbrev pub empty : World → Agent
empty w = record {
  world = w;
  channels = [];
  encoders = [];
  listeners = [];
  plugins = [];
  sources = [];
  subscriptions = [];
  plugin_at = λ p. record { info = none };
  encoder_ids = λ e. 0;
  next_channel = 0;
  next_source = 0;
  next_subscription = 0;
  next_encoder = 0;
  encoder_seq = 0;
  notices = [];
}

unfoldable pub init :
    List (Bool × Option PluginInfo)
    → (Bytes → Option Bool)
    → (ℕ → Made)
    → (ℕ → Bool)
    → World
    → Agent
unfolding load_plugins create_listeners start_listeners
init files configured factory listens w =
    let loaded = load_plugins files (empty w) in
    let created = create_listeners configured factory loaded.plugins loaded in
    start_listeners listens created.listeners created
