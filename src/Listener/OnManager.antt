-- ===== src/Listener/OnManager.antt =====
-- perfkit-agent/pka-listener.c, the calls on the manager, on plugins and on sources.
use perfkit.Prelude.{ℕ, Bool, true, Option, none, some, List, [], ◌∷◌, map}
use perfkit.Context.{default_context}
use perfkit.Wire.{Bytes}
use perfkit.Plugin
use perfkit.Plugin.{Plugin, PluginType, Made}
use perfkit.Agent.{Agent, Answer, answer, refused}
use perfkit.Manager
use perfkit.Listener.{
  Value, Outcome, done, flag, number, numbers, text, texts, with_found, with_channel, with_source,
  with_subscription, with_plugin,
}

unfoldable pub add_channel : Bytes → ℕ → Agent → Outcome
add_channel tmp_dir now a =
    let (a', c) = Manager.add_channel default_context tmp_dir now a in
    with_found a' c (λ p. (a', answer (number (a'.world.channels p).id)))

unfoldable pub add_source : (ℕ → Made) → Option Bytes → Agent → Outcome
add_source factory plugin a = with_plugin plugin a (λ p.
    let (a', s) = Manager.add_source default_context factory p a in
    with_found a' s (λ q. (a', answer (number (a'.world.sources q).id))))

-- The size of the buffer and the timeout are not applied.
unfoldable pub add_subscription : ℕ → ℕ → ℕ → Agent → Outcome
add_subscription buffer_size timeout now a =
    let (a', s) = Manager.add_subscription default_context now a in
    with_found a' s (λ p. (a', answer (number (a'.world.subscriptions p).id)))

unfoldable pub get_channels : Agent → Outcome
get_channels a = (
  a,
  answer (numbers (map (λ c. (a.world.channels c).id) (Manager.get_channels default_context a))),
)

unfoldable pub get_sources : Agent → Outcome
get_sources a = (
  a,
  answer (numbers (map (λ s. (a.world.sources s).id) (Manager.get_sources default_context a))),
)

unfoldable pub get_subscriptions : Agent → Outcome
get_subscriptions a = (
  a,
  answer (
      numbers
        (map (λ p. (a.world.subscriptions p).id) (Manager.get_subscriptions default_context a))),
)

-- The ids of the plugins that are no listeners; a null id ends the array for its reader.
unfoldable pub plugin_names : (ℕ → Plugin) → List ℕ → List Bytes
unfolding Plugin.get_plugin_type Plugin.get_id
plugin_names plugin_at [] = []
plugin_names plugin_at (p ∷ plugins) =
    let rest = plugin_names plugin_at plugins in
    elim (Plugin.get_plugin_type (plugin_at p)) [
      | PluginType.listener ↦ rest
      | _ ↦ elim (Plugin.get_id (plugin_at p)) [ none ↦ [] | some id ↦ id ∷ rest ]
    ]

unfoldable pub get_plugins : Agent → Outcome
unfolding plugin_names
get_plugins a =
    (a, answer (texts (some (plugin_names a.plugin_at (Manager.get_plugins default_context a)))))

unfoldable pub get_hostname : Bytes → Agent → Outcome
get_hostname hostname a = (a, answer (text (some hostname)))

unfoldable pub get_version : Bytes → Agent → Outcome
get_version version a = (a, answer (text (some version)))

unfoldable pub ping : ℕ → Agent → Outcome
ping now a = (a, answer (number now))

-- What is handed out for a removal that says TRUE or FALSE, or its error.
abbrev pub removal : (Bool → Value) → Agent × Answer Bool → Outcome
removal value (a, answer r) = (a, answer (value r))
removal value (a, refused e) = (a, refused e)

-- The flag that is handed out is TRUE whatever the removal says.
unfoldable pub remove_channel : ℕ → Agent → Outcome
remove_channel id a =
    with_channel id a (λ c. removal (λ r. flag true) (Manager.remove_channel default_context c a))

unfoldable pub remove_source : ℕ → Agent → Outcome
remove_source id a =
    with_source id a (λ s. removal (λ r. done) (Manager.remove_source default_context s a))

unfoldable pub remove_subscription : ℕ → Agent → Outcome
remove_subscription id a =
    with_subscription id a
      (λ p. removal (λ r. flag r) (Manager.remove_subscription default_context p a))

unfoldable pub get_copyright : Option Bytes → Agent → Outcome
get_copyright plugin a =
    with_plugin plugin a (λ p. (a, answer (text (some (Plugin.get_copyright (a.plugin_at p))))))

unfoldable pub get_description : Option Bytes → Agent → Outcome
get_description plugin a =
    with_plugin plugin a (λ p. (a, answer (text (some (Plugin.get_description (a.plugin_at p))))))

unfoldable pub get_name : Option Bytes → Agent → Outcome
get_name plugin a =
    with_plugin plugin a (λ p. (a, answer (text (some (Plugin.get_name (a.plugin_at p))))))

-- The number of a `PkaPluginType`.
unfoldable pub type_code : PluginType → ℕ
type_code PluginType.invalid = 0
type_code PluginType.listener = 1
type_code PluginType.source = 2
type_code PluginType.encoder = 3

unfoldable pub get_plugin_type : Option Bytes → Agent → Outcome
unfolding type_code
get_plugin_type plugin a =
    with_plugin plugin a
      (λ p. (a, answer (number (type_code (Plugin.get_plugin_type (a.plugin_at p))))))

unfoldable pub get_plugin_version : Option Bytes → Agent → Outcome
get_plugin_version plugin a =
    with_plugin plugin a (λ p. (a, answer (text (some (Plugin.get_version (a.plugin_at p))))))

-- The plugin of a source; the null plugin has the null id.
unfoldable pub get_source_plugin : ℕ → Agent → Outcome
get_source_plugin id a = with_source id a (λ s. (
  a,
  answer (
      text
        (elim (a.world.sources s).plugin [ none ↦ none | some p ↦ Plugin.get_id (a.plugin_at p) ])),
))
