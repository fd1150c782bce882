-- ===== src/Listener/Messages.antt =====
-- perfkit-agent/listeners/pka-listener-dbus.c: the handlers that take the messages of the clients
-- apart. A handler asks for the arguments that it names, in order; further ones are not looked at.
use perfkit.Prelude.{◌>>=◌, ℕ, Bool, true, false, Option, none, some, List, ◌∷◌, if◌then◌else◌}
use perfkit.Wire.{Bytes}
use perfkit.Bus.{
  Kind, ObjectPath, Member, Argument, int32, boolean, string, object_path, strings, Message,
  same_kind, scan_id, scan_name,
}
use perfkit.Listener.Serve.{
  ChannelCall, channel_add_source, channel_set_args, channel_set_env, channel_set_target,
  channel_set_working_dir, channel_set_kill_pid, channel_set_pid, channel_start, channel_stop,
  channel_mute, channel_unmute, channel_get_args, channel_get_created_at, channel_get_env,
  channel_get_exit_status, channel_get_kill_pid, channel_get_pid, channel_get_pid_set,
  channel_get_sources, channel_get_state, channel_get_target, channel_get_working_dir,
  manager_remove_channel, SourceCall, source_get_plugin, manager_remove_source, SubscriptionCall,
  subscription_add_channel, subscription_remove_channel, subscription_add_source,
  subscription_remove_source, subscription_get_buffer, subscription_get_created_at,
  subscription_get_sources, subscription_mute, subscription_unmute, subscription_set_buffer,
  manager_remove_subscription, PluginCall, manager_add_source, plugin_get_copyright,
  plugin_get_description, plugin_get_name, plugin_get_plugin_type, plugin_get_version, ManagerCall,
  manager_add_channel, manager_add_subscription, manager_get_channels, manager_get_sources,
  manager_get_subscriptions, manager_get_plugins, manager_get_hostname, manager_get_version,
  manager_ping, Request, on_channel, on_source, on_subscription, on_plugin, on_manager,
}

-- A message is left to others, is taken for a request of Listener/Serve.antt, or is handled by code
-- that is not modelled.
pub data Handling : Type 0 where
  unhandled : Handling
  requested : Request → Handling
  elsewhere : Handling

abbrev pub handling_of : Option Request → Handling
handling_of none = unhandled
handling_of (some r) = requested r

-- `dbus_message_get_args`, by the type of the first argument.
abbrev pub take_int32 : List Argument → Option (ℕ × List Argument)
take_int32 (int32 n ∷ args) = some (n, args)
take_int32 _ = none

abbrev pub take_boolean : List Argument → Option (Bool × List Argument)
take_boolean (boolean x ∷ args) = some (x, args)
take_boolean _ = none

abbrev pub take_string : List Argument → Option (Bytes × List Argument)
take_string (string s ∷ args) = some (s, args)
take_string _ = none

abbrev pub take_path : List Argument → Option (ObjectPath × List Argument)
take_path (object_path p ∷ args) = some (p, args)
take_path _ = none

abbrev pub take_strings : List Argument → Option (List Bytes × List Argument)
take_strings (strings l ∷ args) = some (l, args)
take_strings _ = none

-- The methods of a channel that only ask.
unfoldable pub channel_get : Member → Option ChannelCall
channel_get Member.get_args = some channel_get_args
channel_get Member.get_created_at = some channel_get_created_at
channel_get Member.get_env = some channel_get_env
channel_get Member.get_exit_status = some channel_get_exit_status
channel_get Member.get_kill_pid = some channel_get_kill_pid
channel_get Member.get_pid = some channel_get_pid
channel_get Member.get_pid_set = some channel_get_pid_set
channel_get Member.get_sources = some channel_get_sources
channel_get Member.get_state = some channel_get_state
channel_get Member.get_target = some channel_get_target
channel_get Member.get_working_dir = some channel_get_working_dir
channel_get _ = none

-- The methods that set a property.
unfoldable pub channel_set : Member → List Argument → Option ChannelCall
channel_set Member.set_args args = do
  (l, rest) ← take_strings args
  some (channel_set_args (some l))
channel_set Member.set_env args = do (l, rest) ← take_strings args; some (channel_set_env (some l))
channel_set Member.set_kill_pid args = do
  (x, rest) ← take_boolean args
  some (channel_set_kill_pid x)
channel_set Member.set_pid args = do (n, rest) ← take_int32 args; some (channel_set_pid n)
channel_set Member.set_target args = do
  (s, rest) ← take_string args
  some (channel_set_target (some s))
channel_set Member.set_working_dir args = do
  (s, rest) ← take_string args
  some (channel_set_working_dir (some s))
channel_set member args = channel_get member

unfoldable pub channel_call : Member → List Argument → Option ChannelCall
unfolding channel_get channel_set
channel_call Member.add_source args = do (n, rest) ← take_int32 args; some (channel_add_source n)
channel_call Member.mute args = some channel_mute
channel_call Member.start args = some channel_start
channel_call Member.stop args = some channel_stop
channel_call Member.unmute args = some channel_unmute
channel_call member args = channel_set member args

unfoldable pub handle_channel_message : Message → Option Request
unfolding channel_call
handle_channel_message m = do
  id ← scan_id Kind.channel m.path
  call ← channel_call m.member m.args
  some (on_channel id call)

unfoldable pub subscription_call : Member → List Argument → Option SubscriptionCall
subscription_call Member.add_channel args = do
  (n, more) ← take_int32 args
  (monitor, rest) ← take_boolean more
  some (subscription_add_channel n monitor)
subscription_call Member.add_source args = do
  (n, rest) ← take_int32 args
  some (subscription_add_source n)
subscription_call Member.get_buffer args = some subscription_get_buffer
subscription_call Member.get_created_at args = some subscription_get_created_at
subscription_call Member.get_sources args = some subscription_get_sources
subscription_call Member.mute args = do
  (drain, rest) ← take_boolean args
  some (subscription_mute drain)
subscription_call Member.remove_channel args = do
  (n, rest) ← take_int32 args
  some (subscription_remove_channel n)
subscription_call Member.remove_source args = do
  (n, rest) ← take_int32 args
  some (subscription_remove_source n)
subscription_call Member.set_buffer args = do
  (timeout, more) ← take_int32 args
  (size, rest) ← take_int32 more
  some (subscription_set_buffer timeout size)
subscription_call Member.unmute args = some subscription_unmute
subscription_call _ args = none

unfoldable pub handle_subscription_message : Message → Option Request
unfolding subscription_call
handle_subscription_message m = do
  id ← scan_id Kind.subscription m.path
  call ← subscription_call m.member m.args
  some (on_subscription id call)

unfoldable pub plugin_call : Member → Option PluginCall
plugin_call Member.get_copyright = some plugin_get_copyright
plugin_call Member.get_description = some plugin_get_description
plugin_call Member.get_name = some plugin_get_name
plugin_call Member.get_type = some plugin_get_plugin_type
plugin_call Member.get_version = some plugin_get_version
plugin_call _ = none

unfoldable pub handle_plugin_message : Message → Option Request
unfolding plugin_call
handle_plugin_message m = do
  name ← scan_name m.path
  call ← plugin_call m.member
  some (on_plugin (some name) call)

abbrev pub source_call : Member → Option SourceCall
source_call Member.get_plugin = some source_get_plugin
source_call _ = none

unfoldable pub handle_source_message : Message → Option Request
handle_source_message m = do
  id ← scan_id Kind.source m.path
  call ← source_call m.member
  some (on_source id call)

-- The methods of the manager that name no object. "AddSubscription" asks for no arguments: the size
-- and the timeout are the initial ones.
unfoldable pub manager_call : Member → Option ManagerCall
manager_call Member.add_channel = some manager_add_channel
manager_call Member.add_subscription = some (manager_add_subscription 0 0)
manager_call Member.get_channels = some manager_get_channels
manager_call Member.get_hostname = some manager_get_hostname
manager_call Member.get_plugins = some manager_get_plugins
manager_call Member.get_sources = some manager_get_sources
manager_call Member.get_subscriptions = some manager_get_subscriptions
manager_call Member.get_version = some manager_get_version
manager_call Member.ping = some manager_ping
manager_call _ = none

-- "RemoveChannel" asks for no argument: the channel is the one of the initial value, 0.
unfoldable pub handle_manager_message : Member → List Argument → Option Request
unfolding manager_call
handle_manager_message Member.add_source args = do
  (p, rest) ← take_path args
  name ← scan_name p
  some (on_plugin (some name) manager_add_source)
handle_manager_message Member.remove_channel args = some (on_channel 0 manager_remove_channel)
handle_manager_message Member.remove_source args = do
  (p, rest) ← take_path args
  id ← scan_id Kind.source p
  some (on_source id manager_remove_source)
handle_manager_message Member.remove_subscription args = do
  (p, rest) ← take_path args
  id ← scan_id Kind.subscription p
  some (on_subscription id manager_remove_subscription)
handle_manager_message member args = do call ← manager_call member; some (on_manager call)

-- Whether a method is handled by code that is not modelled.
abbrev pub is_elsewhere : Kind → Member → Bool
is_elsewhere Kind.subscription Member.set_encoder = true
is_elsewhere Kind.subscription Member.set_handler = true
is_elsewhere Kind.manager Member.set_delivery_path = true
is_elsewhere Kind.encoder Member.get_plugin = true
is_elsewhere _ _ = false

-- The handler of a path, which the listener has registered for each object that it was told of; it
-- takes the messages of its own interface.
abbrev pub by_path : Kind → Message → Option Request
by_path Kind.manager m = handle_manager_message m.member m.args
by_path Kind.channel m = handle_channel_message m
by_path Kind.source m = handle_source_message m
by_path Kind.subscription m = handle_subscription_message m
by_path Kind.plugin m = handle_plugin_message m
by_path Kind.encoder m = none

unfoldable pub handle : (ObjectPath → Bool) → Message → Handling
unfolding handle_manager_message handle_channel_message handle_source_message
    handle_subscription_message handle_plugin_message
handle registered m =
    if registered m.path
    then if same_kind m.path.kind m.interface
      then if is_elsewhere m.interface m.member
        then elsewhere
        else handling_of (by_path m.path.kind m)
      else unhandled
    else unhandled
