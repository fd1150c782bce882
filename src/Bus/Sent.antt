-- ===== src/Bus/Sent.antt =====
-- The calls of the client (perfkit/connections/pk-connection-dbus.c) as the requests that they mean.
use perfkit.Prelude.{ℕ, ◌==◌, ◌&&◌, Bool, true, false, Option, none, some, [], ◌∷◌}
use perfkit.Wire.{Bytes}
use perfkit.Bus.{ObjectPath, Message}
use perfkit.Bus.Decimal.{is_word}
use perfkit.Listener.Serve.{
  ChannelCall, channel_add_source, channel_set_args, channel_set_env, channel_set_target,
  channel_set_working_dir, channel_set_kill_pid, channel_set_pid, channel_start, channel_stop,
  channel_mute, channel_unmute, channel_get_args, channel_get_created_at, channel_get_env,
  channel_get_exit_status, channel_get_kill_pid, channel_get_pid, channel_get_pid_set,
  channel_get_sources, channel_get_state, channel_get_target, channel_get_working_dir,
  manager_remove_channel, SourceCall, source_get_plugin, manager_remove_source, SubscriptionCall,
  subscription_add_channel, subscription_remove_channel, subscription_add_source,
  subscription_remove_source, subscription_get_buffer, subscription_get_created_at,
  subscription_get_sources, subscription_mute, subscription_unmute, subscription_set_buffer,
  manager_remove_subscription, PluginCall, manager_add_source, plugin_get_copyright,
  plugin_get_description, plugin_get_name, plugin_get_plugin_type, plugin_get_version, ManagerCall,
  manager_add_channel, manager_add_subscription, manager_get_channels, manager_get_sources,
  manager_get_subscriptions, manager_get_plugins, manager_get_hostname, manager_get_version,
  manager_ping, Request, on_channel, on_source, on_subscription, on_plugin, on_manager,
}
use perfkit.Listener.Messages.{Handling, unhandled, handle}
use perfkit.Client.Connection
use perfkit.Client.Connection.{message, id_path, plugin_path}

abbrev pub channel_sent : ℕ → ChannelCall → Option Message
channel_sent id (channel_add_source x) = some (Connection.channel_add_source id x)
channel_sent id channel_get_args = some (Connection.channel_get_args id)
channel_sent id channel_get_created_at = some (Connection.channel_get_created_at id)
channel_sent id channel_get_env = some (Connection.channel_get_env id)
channel_sent id channel_get_exit_status = some (Connection.channel_get_exit_status id)
channel_sent id channel_get_kill_pid = some (Connection.channel_get_kill_pid id)
channel_sent id channel_get_pid = some (Connection.channel_get_pid id)
channel_sent id channel_get_pid_set = some (Connection.channel_get_pid_set id)
channel_sent id channel_get_sources = some (Connection.channel_get_sources id)
channel_sent id channel_get_state = some (Connection.channel_get_state id)
channel_sent id channel_get_target = some (Connection.channel_get_target id)
channel_sent id channel_get_working_dir = some (Connection.channel_get_working_dir id)
channel_sent id channel_mute = some (Connection.channel_mute id)
channel_sent id (channel_set_args none) = none
channel_sent id (channel_set_args (some l)) = some (Connection.channel_set_args id l)
channel_sent id (channel_set_env none) = none
channel_sent id (channel_set_env (some l)) = some (Connection.channel_set_env id l)
channel_sent id (channel_set_kill_pid x) = some (Connection.channel_set_kill_pid id x)
channel_sent id (channel_set_pid x) = some (Connection.channel_set_pid id x)
channel_sent id (channel_set_target x) = some (Connection.channel_set_target id x)
channel_sent id (channel_set_working_dir x) = some (Connection.channel_set_working_dir id x)
channel_sent id channel_start = some (Connection.channel_start id)
channel_sent id channel_stop = some (Connection.channel_stop id)
channel_sent id channel_unmute = some (Connection.channel_unmute id)
channel_sent id manager_remove_channel = some (Connection.manager_remove_channel id)

abbrev pub subscription_sent : ℕ → SubscriptionCall → Message
subscription_sent id (subscription_add_channel x monitor) =
    Connection.subscription_add_channel id x monitor
subscription_sent id (subscription_add_source x) = Connection.subscription_add_source id x
subscription_sent id subscription_get_buffer = Connection.subscription_get_buffer id
subscription_sent id subscription_get_created_at = Connection.subscription_get_created_at id
subscription_sent id subscription_get_sources = Connection.subscription_get_sources id
subscription_sent id (subscription_mute x) = Connection.subscription_mute id x
subscription_sent id (subscription_remove_channel x) = Connection.subscription_remove_channel id x
subscription_sent id (subscription_remove_source x) = Connection.subscription_remove_source id x
subscription_sent id (subscription_set_buffer x y) = Connection.subscription_set_buffer id x y
subscription_sent id subscription_unmute = Connection.subscription_unmute id
subscription_sent id manager_remove_subscription = Connection.manager_remove_subscription id

abbrev pub source_sent : ℕ → SourceCall → Message
source_sent id source_get_plugin = Connection.source_get_plugin id
source_sent id manager_remove_source = Connection.manager_remove_source id

abbrev pub plugin_sent : Bytes → PluginCall → Message
plugin_sent name manager_add_source = Connection.manager_add_source name
plugin_sent name plugin_get_copyright = Connection.plugin_get_copyright name
plugin_sent name plugin_get_description = Connection.plugin_get_description name
plugin_sent name plugin_get_name = Connection.plugin_get_name name
plugin_sent name plugin_get_plugin_type = Connection.plugin_get_plugin_type name
plugin_sent name plugin_get_version = Connection.plugin_get_version name

abbrev pub manager_sent : ManagerCall → Message
manager_sent manager_add_channel = Connection.manager_add_channel
manager_sent manager_get_channels = Connection.manager_get_channels
manager_sent manager_get_hostname = Connection.manager_get_hostname
manager_sent manager_get_plugins = Connection.manager_get_plugins
manager_sent manager_get_sources = Connection.manager_get_sources
manager_sent manager_get_subscriptions = Connection.manager_get_subscriptions
manager_sent manager_get_version = Connection.manager_get_version
manager_sent manager_ping = Connection.manager_ping
manager_sent (manager_add_subscription size timeout) =
    Connection.manager_add_subscription size timeout

-- The message of a call; the client cannot send a null array or the name of no plugin.
abbrev pub sent : Request → Option Message
sent (on_channel id x) = channel_sent id x
sent (on_source id x) = some (source_sent id x)
sent (on_subscription id x) = some (subscription_sent id x)
sent (on_plugin none x) = none
sent (on_plugin (some name) x) = some (plugin_sent name x)
sent (on_manager x) = some (manager_sent x)

-- A name of one character at least, without spaces.
abbrev pub is_name : Bytes → Bool
is_name [] = false
is_name (c ∷ s) = is_word (c ∷ s)

-- The calls that the messages express: a null string is sent as an empty one, the message that
-- removes a channel is not read, nor are the buffer size and the timeout of a new subscription.
abbrev pub is_expressed : Request → Bool
is_expressed (on_channel id (channel_set_args none)) = false
is_expressed (on_channel id (channel_set_env none)) = false
is_expressed (on_channel id (channel_set_target none)) = false
is_expressed (on_channel id (channel_set_working_dir none)) = false
is_expressed (on_channel id manager_remove_channel) = false
is_expressed (on_manager (manager_add_subscription size timeout)) = size == 0 && timeout == 0
is_expressed (on_plugin none x) = false
is_expressed (on_plugin (some name) x) = is_name name
is_expressed _ = true

-- What becomes of a message, where there is one, and whether its path is registered.
abbrev pub delivered : (ObjectPath → Bool) → Option Message → Handling
delivered registered none = unhandled
delivered registered (some m) = handle registered m

abbrev pub is_registered : (ObjectPath → Bool) → Option Message → Bool
is_registered registered none = false
is_registered registered (some m) = registered m.path
