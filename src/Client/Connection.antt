-- ===== src/Client/Connection.antt =====
-- perfkit/connections/pk-connection-dbus.c: the message that each call of the client sends, by the
-- `_async` function of the call.
use perfkit.Prelude.{ℕ, Bool, Option, none, some, List, [], ◌∷◌}
use perfkit.Wire.{Bytes}
use perfkit.Bus.{
  Kind, ObjectPath, Member, Argument, int32, boolean, string, object_path, strings, Message,
  print_int,
}

-- The path of an object with an id, and of a plugin.
abbrev pub id_path : Kind → ℕ → ObjectPath
id_path kind id = record { kind = kind; rest = print_int id }

abbrev pub plugin_path : Bytes → ObjectPath
plugin_path plugin = record { kind = Kind.plugin; rest = plugin }

abbrev pub message : ObjectPath → Member → List Argument → Message
message path member args = record {
  path = path;
  interface = path.kind;
  member = member;
  args = args;
}

-- APPEND_STRING_PARAM: a null string is sent as an empty one.
abbrev pub or_empty : Option Bytes → Bytes
or_empty none = []
or_empty (some s) = s

unfoldable pub channel_add_source : ℕ → ℕ → Message
channel_add_source id source =
    message (id_path Kind.channel id) Member.add_source (int32 source ∷ [])

unfoldable pub channel_get_args : ℕ → Message
channel_get_args id = message (id_path Kind.channel id) Member.get_args []

unfoldable pub channel_get_created_at : ℕ → Message
channel_get_created_at id = message (id_path Kind.channel id) Member.get_created_at []

unfoldable pub channel_get_env : ℕ → Message
channel_get_env id = message (id_path Kind.channel id) Member.get_env []

unfoldable pub channel_get_exit_status : ℕ → Message
channel_get_exit_status id = message (id_path Kind.channel id) Member.get_exit_status []

unfoldable pub channel_get_kill_pid : ℕ → Message
channel_get_kill_pid id = message (id_path Kind.channel id) Member.get_kill_pid []

unfoldable pub channel_get_pid : ℕ → Message
channel_get_pid id = message (id_path Kind.channel id) Member.get_pid []

unfoldable pub channel_get_pid_set : ℕ → Message
channel_get_pid_set id = message (id_path Kind.channel id) Member.get_pid_set []

unfoldable pub channel_get_sources : ℕ → Message
channel_get_sources id = message (id_path Kind.channel id) Member.get_sources []

unfoldable pub channel_get_state : ℕ → Message
channel_get_state id = message (id_path Kind.channel id) Member.get_state []

unfoldable pub channel_get_target : ℕ → Message
channel_get_target id = message (id_path Kind.channel id) Member.get_target []

unfoldable pub channel_get_working_dir : ℕ → Message
channel_get_working_dir id = message (id_path Kind.channel id) Member.get_working_dir []

unfoldable pub channel_mute : ℕ → Message
channel_mute id = message (id_path Kind.channel id) Member.mute []

unfoldable pub channel_set_args : ℕ → List Bytes → Message
channel_set_args id args = message (id_path Kind.channel id) Member.set_args (strings args ∷ [])

unfoldable pub channel_set_env : ℕ → List Bytes → Message
channel_set_env id env = message (id_path Kind.channel id) Member.set_env (strings env ∷ [])

unfoldable pub channel_set_kill_pid : ℕ → Bool → Message
channel_set_kill_pid id kill_pid =
    message (id_path Kind.channel id) Member.set_kill_pid (boolean kill_pid ∷ [])

unfoldable pub channel_set_pid : ℕ → ℕ → Message
channel_set_pid id pid = message (id_path Kind.channel id) Member.set_pid (int32 pid ∷ [])

unfoldable pub channel_set_target : ℕ → Option Bytes → Message
channel_set_target id target =
    message (id_path Kind.channel id) Member.set_target (string (or_empty target) ∷ [])

unfoldable pub channel_set_working_dir : ℕ → Option Bytes → Message
channel_set_working_dir id working_dir =
    message (id_path Kind.channel id) Member.set_working_dir (string (or_empty working_dir) ∷ [])

unfoldable pub channel_start : ℕ → Message
channel_start id = message (id_path Kind.channel id) Member.start []

unfoldable pub channel_stop : ℕ → Message
channel_stop id = message (id_path Kind.channel id) Member.stop []

unfoldable pub channel_unmute : ℕ → Message
channel_unmute id = message (id_path Kind.channel id) Member.unmute []

unfoldable pub subscription_add_channel : ℕ → ℕ → Bool → Message
subscription_add_channel id channel monitor =
    message (id_path Kind.subscription id) Member.add_channel (int32 channel ∷ boolean monitor ∷ [])

unfoldable pub subscription_add_source : ℕ → ℕ → Message
subscription_add_source id source =
    message (id_path Kind.subscription id) Member.add_source (int32 source ∷ [])

unfoldable pub subscription_get_buffer : ℕ → Message
subscription_get_buffer id = message (id_path Kind.subscription id) Member.get_buffer []

unfoldable pub subscription_get_created_at : ℕ → Message
subscription_get_created_at id = message (id_path Kind.subscription id) Member.get_created_at []

unfoldable pub subscription_get_sources : ℕ → Message
subscription_get_sources id = message (id_path Kind.subscription id) Member.get_sources []

unfoldable pub subscription_mute : ℕ → Bool → Message
subscription_mute id drain = message (id_path Kind.subscription id) Member.mute (boolean drain ∷ [])

unfoldable pub subscription_remove_channel : ℕ → ℕ → Message
subscription_remove_channel id channel =
    message (id_path Kind.subscription id) Member.remove_channel (int32 channel ∷ [])

unfoldable pub subscription_remove_source : ℕ → ℕ → Message
subscription_remove_source id source =
    message (id_path Kind.subscription id) Member.remove_source (int32 source ∷ [])

unfoldable pub subscription_set_buffer : ℕ → ℕ → ℕ → Message
subscription_set_buffer id timeout size =
    message (id_path Kind.subscription id) Member.set_buffer (int32 timeout ∷ int32 size ∷ [])

unfoldable pub subscription_unmute : ℕ → Message
subscription_unmute id = message (id_path Kind.subscription id) Member.unmute []

unfoldable pub source_get_plugin : ℕ → Message
source_get_plugin id = message (id_path Kind.source id) Member.get_plugin []

unfoldable pub plugin_get_copyright : Bytes → Message
plugin_get_copyright plugin = message (plugin_path plugin) Member.get_copyright []

unfoldable pub plugin_get_description : Bytes → Message
plugin_get_description plugin = message (plugin_path plugin) Member.get_description []

unfoldable pub plugin_get_name : Bytes → Message
plugin_get_name plugin = message (plugin_path plugin) Member.get_name []

unfoldable pub plugin_get_plugin_type : Bytes → Message
plugin_get_plugin_type plugin = message (plugin_path plugin) Member.get_type []

unfoldable pub plugin_get_version : Bytes → Message
plugin_get_version plugin = message (plugin_path plugin) Member.get_version []

abbrev pub manager_message : Member → List Argument → Message
manager_message member args = message (record { kind = Kind.manager; rest = [] }) member args

unfoldable pub manager_add_channel : Message
manager_add_channel = manager_message Member.add_channel []

unfoldable pub manager_get_channels : Message
manager_get_channels = manager_message Member.get_channels []

unfoldable pub manager_get_hostname : Message
manager_get_hostname = manager_message Member.get_hostname []

unfoldable pub manager_get_plugins : Message
manager_get_plugins = manager_message Member.get_plugins []

unfoldable pub manager_get_sources : Message
manager_get_sources = manager_message Member.get_sources []

unfoldable pub manager_get_subscriptions : Message
manager_get_subscriptions = manager_message Member.get_subscriptions []

unfoldable pub manager_get_version : Message
manager_get_version = manager_message Member.get_version []

unfoldable pub manager_ping : Message
manager_ping = manager_message Member.ping []

unfoldable pub manager_add_source : Bytes → Message
manager_add_source plugin =
    manager_message Member.add_source (object_path (plugin_path plugin) ∷ [])

unfoldable pub manager_add_subscription : ℕ → ℕ → Message
manager_add_subscription buffer_size timeout =
    manager_message Member.add_subscription (int32 buffer_size ∷ int32 timeout ∷ [])

unfoldable pub manager_remove_channel : ℕ → Message
manager_remove_channel channel = manager_message Member.remove_channel (int32 channel ∷ [])

unfoldable pub manager_remove_source : ℕ → Message
manager_remove_source source =
    manager_message Member.remove_source (object_path (id_path Kind.source source) ∷ [])

unfoldable pub manager_remove_subscription : ℕ → Message
manager_remove_subscription subscription =
    manager_message Member.remove_subscription
      (object_path (id_path Kind.subscription subscription) ∷ [])
