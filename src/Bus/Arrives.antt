-- ===== src/Bus/Arrives.antt =====
-- What the client sends is what the agent takes it for.
use perfkit.Prelude.{arith, ◌>>=◌, ℕ, ◌≡◌, refl, ap, Bool, true, false, none, some, List, [], ◌∷◌}
use perfkit.Wire.{Bytes}
use perfkit.Bus.{Kind, ObjectPath, Member, Argument}
use perfkit.Bus.Decimal.{scan_int-print_int, scan_word_word, is_word}
use perfkit.Listener.Serve.{
  ChannelCall, channel_add_source, channel_set_args, channel_set_env, channel_set_target,
  channel_set_working_dir, channel_set_kill_pid, channel_set_pid, channel_start, channel_stop,
  channel_mute, channel_unmute, channel_get_args, channel_get_created_at, channel_get_env,
  channel_get_exit_status, channel_get_kill_pid, channel_get_pid, channel_get_pid_set,
  channel_get_sources, channel_get_state, channel_get_target, channel_get_working_dir,
  manager_remove_channel, SourceCall, source_get_plugin, manager_remove_source, SubscriptionCall,
  subscription_add_channel, subscription_remove_channel, subscription_add_source,
  subscription_remove_source, subscription_get_buffer, subscription_get_created_at,
  subscription_get_sources, subscription_mute, subscription_unmute, subscription_set_buffer,
  manager_remove_subscription, PluginCall, manager_add_source, plugin_get_copyright,
  plugin_get_description, plugin_get_name, plugin_get_plugin_type, plugin_get_version, ManagerCall,
  manager_add_channel, manager_add_subscription, manager_get_channels, manager_get_sources,
  manager_get_subscriptions, manager_get_plugins, manager_get_hostname, manager_get_version,
  manager_ping, Request, on_channel, on_source, on_subscription, on_plugin, on_manager,
}
use perfkit.Listener.Messages.{
  requested, handle, channel_call, channel_get, channel_set, subscription_call, plugin_call,
  manager_call, is_elsewhere, handle_manager_message, handle_channel_message, handle_source_message,
  handle_subscription_message, handle_plugin_message,
}
use perfkit.Client.Connection
use perfkit.Client.Connection.{message, id_path, plugin_path}
use perfkit.Bus.Sent.{
  channel_sent, subscription_sent, source_sent, plugin_sent, manager_sent, sent, is_expressed,
  delivered, is_registered,
}

handled_channel :
    (registered : ObjectPath → Bool) (id : ℕ) (member : Member) (args : List Argument)
    (x : ChannelCall)
    → registered (id_path Kind.channel id) ≡ true
    → channel_call member args ≡ some x
    → handle registered (message (id_path Kind.channel id) member args)
      ≡ requested (on_channel id x)
unfolding handle handle_channel_message
handled_channel registered id member args x h c = rw (h, scan_int-print_int id, c) refl

handled_subscription :
    (registered : ObjectPath → Bool) (id : ℕ) (member : Member) (args : List Argument)
    (x : SubscriptionCall)
    → registered (id_path Kind.subscription id) ≡ true
    → is_elsewhere Kind.subscription member ≡ false
    → subscription_call member args ≡ some x
    → handle registered (message (id_path Kind.subscription id) member args)
      ≡ requested (on_subscription id x)
unfolding handle handle_subscription_message
handled_subscription registered id member args x h e c = rw (h, e, scan_int-print_int id, c) refl

handled_plugin :
    (registered : ObjectPath → Bool) (c : ℕ) (s : Bytes) (member : Member) (x : PluginCall)
    → registered (plugin_path (c ∷ s)) ≡ true
    → is_word (c ∷ s) ≡ true
    → plugin_call member ≡ some x
    → handle registered (message (plugin_path (c ∷ s)) member [])
      ≡ requested (on_plugin (some (c ∷ s)) x)
unfolding handle handle_plugin_message
handled_plugin registered c s member x h w e = rw (h, scan_word_word c s w, e) refl

-- The messages to the manager.
abbrev manager_path : ObjectPath
manager_path = record { kind = Kind.manager; rest = [] }

handled_manager :
    (registered : ObjectPath → Bool) (member : Member) (args : List Argument) (r : Request)
    → registered manager_path ≡ true
    → is_elsewhere Kind.manager member ≡ false
    → handle_manager_message member args ≡ some r
    → handle registered (message manager_path member args) ≡ requested r
unfolding handle
handled_manager registered member args r h e c = rw (h, e, c) refl

channel_arrives :
    (registered : ObjectPath → Bool) (id : ℕ) (x : ChannelCall)
    → is_expressed (on_channel id x) ≡ true
    → is_registered registered (channel_sent id x) ≡ true
    → delivered registered (channel_sent id x) ≡ requested (on_channel id x)
unfolding channel_call channel_get channel_set Connection.channel_add_source
    Connection.channel_get_args Connection.channel_get_created_at Connection.channel_get_env
    Connection.channel_get_exit_status Connection.channel_get_kill_pid Connection.channel_get_pid
    Connection.channel_get_pid_set Connection.channel_get_sources Connection.channel_get_state
    Connection.channel_get_target Connection.channel_get_working_dir Connection.channel_mute
    Connection.channel_set_args Connection.channel_set_env Connection.channel_set_kill_pid
    Connection.channel_set_pid Connection.channel_set_target Connection.channel_set_working_dir
    Connection.channel_start Connection.channel_stop Connection.channel_unmute
channel_arrives registered id (channel_add_source x) e h =
    handled_channel registered id _ _ _ h refl
channel_arrives registered id channel_get_args e h = handled_channel registered id _ _ _ h refl
channel_arrives registered id channel_get_created_at e h =
    handled_channel registered id _ _ _ h refl
channel_arrives registered id channel_get_env e h = handled_channel registered id _ _ _ h refl
channel_arrives registered id channel_get_exit_status e h =
    handled_channel registered id _ _ _ h refl
channel_arrives registered id channel_get_kill_pid e h = handled_channel registered id _ _ _ h refl
channel_arrives registered id channel_get_pid e h = handled_channel registered id _ _ _ h refl
channel_arrives registered id channel_get_pid_set e h = handled_channel registered id _ _ _ h refl
channel_arrives registered id channel_get_sources e h = handled_channel registered id _ _ _ h refl
channel_arrives registered id channel_get_state e h = handled_channel registered id _ _ _ h refl
channel_arrives registered id channel_get_target e h = handled_channel registered id _ _ _ h refl
channel_arrives registered id channel_get_working_dir e h =
    handled_channel registered id _ _ _ h refl
channel_arrives registered id channel_mute e h = handled_channel registered id _ _ _ h refl
channel_arrives registered id (channel_set_args none) e h = cc
channel_arrives registered id (channel_set_args (some x)) e h =
    handled_channel registered id _ _ _ h refl
channel_arrives registered id (channel_set_env none) e h = cc
channel_arrives registered id (channel_set_env (some x)) e h =
    handled_channel registered id _ _ _ h refl
channel_arrives registered id (channel_set_kill_pid x) e h =
    handled_channel registered id _ _ _ h refl
channel_arrives registered id (channel_set_pid x) e h = handled_channel registered id _ _ _ h refl
channel_arrives registered id (channel_set_target none) e h = cc
channel_arrives registered id (channel_set_target (some x)) e h =
    handled_channel registered id _ _ _ h refl
channel_arrives registered id (channel_set_working_dir none) e h = cc
channel_arrives registered id (channel_set_working_dir (some x)) e h =
    handled_channel registered id _ _ _ h refl
channel_arrives registered id channel_start e h = handled_channel registered id _ _ _ h refl
channel_arrives registered id channel_stop e h = handled_channel registered id _ _ _ h refl
channel_arrives registered id channel_unmute e h = handled_channel registered id _ _ _ h refl
channel_arrives registered id manager_remove_channel e h = cc

subscription_arrives :
    (registered : ObjectPath → Bool) (id : ℕ) (x : SubscriptionCall)
    → registered (subscription_sent id x).path ≡ true
    → handle registered (subscription_sent id x) ≡ requested (on_subscription id x)
unfolding subscription_call handle_manager_message Connection.manager_remove_subscription
    Connection.subscription_get_buffer Connection.subscription_get_created_at
    Connection.subscription_get_sources Connection.subscription_unmute
    Connection.subscription_add_channel Connection.subscription_add_source
    Connection.subscription_mute Connection.subscription_remove_channel
    Connection.subscription_remove_source Connection.subscription_set_buffer
subscription_arrives registered id subscription_get_buffer h =
    handled_subscription registered id _ _ _ h refl refl
subscription_arrives registered id subscription_get_created_at h =
    handled_subscription registered id _ _ _ h refl refl
subscription_arrives registered id subscription_get_sources h =
    handled_subscription registered id _ _ _ h refl refl
subscription_arrives registered id subscription_unmute h =
    handled_subscription registered id _ _ _ h refl refl
subscription_arrives registered id (subscription_add_channel x monitor) h =
    handled_subscription registered id _ _ _ h refl refl
subscription_arrives registered id (subscription_add_source x) h =
    handled_subscription registered id _ _ _ h refl refl
subscription_arrives registered id (subscription_mute x) h =
    handled_subscription registered id _ _ _ h refl refl
subscription_arrives registered id (subscription_remove_channel x) h =
    handled_subscription registered id _ _ _ h refl refl
subscription_arrives registered id (subscription_remove_source x) h =
    handled_subscription registered id _ _ _ h refl refl
subscription_arrives registered id (subscription_set_buffer x y) h =
    handled_subscription registered id _ _ _ h refl refl
subscription_arrives registered id manager_remove_subscription h =
    handled_manager registered _ _ _ h refl (
      ap (λ o. o >>= λ n. some (on_subscription n manager_remove_subscription))
        (scan_int-print_int id))

handled_source :
    (registered : ObjectPath → Bool) (id : ℕ)
    → registered (id_path Kind.source id) ≡ true
    → handle registered (message (id_path Kind.source id) Member.get_plugin [])
      ≡ requested (on_source id source_get_plugin)
unfolding handle handle_source_message
handled_source registered id h = rw (h, scan_int-print_int id) refl

source_arrives :
    (registered : ObjectPath → Bool) (id : ℕ) (x : SourceCall)
    → registered (source_sent id x).path ≡ true
    → handle registered (source_sent id x) ≡ requested (on_source id x)
unfolding handle_manager_message Connection.source_get_plugin Connection.manager_remove_source
source_arrives registered id source_get_plugin h = handled_source registered id h
source_arrives registered id manager_remove_source h =
    handled_manager registered _ _ _ h refl
      (ap (λ o. o >>= λ n. some (on_source n manager_remove_source)) (scan_int-print_int id))

plugin_arrives :
    (registered : ObjectPath → Bool) (c : ℕ) (s : Bytes) (x : PluginCall)
    → is_word (c ∷ s) ≡ true
    → registered (plugin_sent (c ∷ s) x).path ≡ true
    → handle registered (plugin_sent (c ∷ s) x) ≡ requested (on_plugin (some (c ∷ s)) x)
unfolding plugin_call handle_manager_message Connection.manager_add_source
    Connection.plugin_get_copyright Connection.plugin_get_description Connection.plugin_get_name
    Connection.plugin_get_plugin_type Connection.plugin_get_version
plugin_arrives registered c s manager_add_source w h =
    handled_manager registered _ _ _ h refl
      (ap (λ o. o >>= λ n. some (on_plugin (some n) manager_add_source)) (scan_word_word c s w))
plugin_arrives registered c s plugin_get_copyright w h = handled_plugin registered c s _ _ h w refl
plugin_arrives registered c s plugin_get_description w h =
    handled_plugin registered c s _ _ h w refl
plugin_arrives registered c s plugin_get_name w h = handled_plugin registered c s _ _ h w refl
plugin_arrives registered c s plugin_get_plugin_type w h =
    handled_plugin registered c s _ _ h w refl
plugin_arrives registered c s plugin_get_version w h = handled_plugin registered c s _ _ h w refl

manager_arrives :
    (registered : ObjectPath → Bool) (x : ManagerCall)
    → is_expressed (on_manager x) ≡ true
    → registered (manager_sent x).path ≡ true
    → handle registered (manager_sent x) ≡ requested (on_manager x)
unfolding handle_manager_message manager_call Connection.manager_add_channel
    Connection.manager_add_subscription Connection.manager_get_channels
    Connection.manager_get_hostname Connection.manager_get_plugins Connection.manager_get_sources
    Connection.manager_get_subscriptions Connection.manager_get_version Connection.manager_ping
manager_arrives registered manager_add_channel e h = handled_manager registered _ _ _ h refl refl
manager_arrives registered (manager_add_subscription size timeout) e h =
    handled_manager registered _ _ _ h refl (ground (arith, e))
manager_arrives registered manager_get_channels e h = handled_manager registered _ _ _ h refl refl
manager_arrives registered manager_get_hostname e h = handled_manager registered _ _ _ h refl refl
manager_arrives registered manager_get_plugins e h = handled_manager registered _ _ _ h refl refl
manager_arrives registered manager_get_sources e h = handled_manager registered _ _ _ h refl refl
manager_arrives registered manager_get_subscriptions e h =
    handled_manager registered _ _ _ h refl refl
manager_arrives registered manager_get_version e h = handled_manager registered _ _ _ h refl refl
manager_arrives registered manager_ping e h = handled_manager registered _ _ _ h refl refl

-- The client makes a call with no null string, array or name, names plugins by words without spaces,
-- does not remove a channel, and gives a new subscription no buffer and no timeout; and the agent has
-- registered the path that the message goes to. Then the agent takes the message for just this call
-- with just these arguments.
pub call_arrives :
    (registered : ObjectPath → Bool) (r : Request)
    → is_expressed r ≡ true
    → is_registered registered (sent r) ≡ true
    → delivered registered (sent r) ≡ requested r
call_arrives registered (on_channel id x) e h = channel_arrives registered id x e h
call_arrives registered (on_source id x) e h = source_arrives registered id x h
call_arrives registered (on_subscription id x) e h = subscription_arrives registered id x h
call_arrives registered (on_plugin none x) e h = cc
call_arrives registered (on_plugin (some []) x) e h = cc
call_arrives registered (on_plugin (some (c ∷ s)) x) e h = plugin_arrives registered c s x e h
call_arrives registered (on_manager x) e h = manager_arrives registered x e h

-- The client removes a channel by its id, at an agent that has registered the path of its manager.
-- The agent takes the message for the removal of the channel 0, whatever the id.
pub removal_misdirected :
    (registered : ObjectPath → Bool) (id : ℕ)
    → is_registered registered (sent (on_channel id manager_remove_channel)) ≡ true
    → delivered registered (sent (on_channel id manager_remove_channel))
      ≡ requested (on_channel 0 manager_remove_channel)
unfolding handle_manager_message Connection.manager_remove_channel
removal_misdirected registered id h = handled_manager registered _ _ _ h refl refl

-- The client asks for a new subscription with any buffer size and timeout, at an agent that has
-- registered the path of its manager. The agent takes the message for a subscription with the size 0
-- and the timeout 0.
pub buffer_dropped :
    (registered : ObjectPath → Bool) (size timeout : ℕ)
    → is_registered registered (sent (on_manager (manager_add_subscription size timeout))) ≡ true
    → delivered registered (sent (on_manager (manager_add_subscription size timeout)))
      ≡ requested (on_manager (manager_add_subscription 0 0))
unfolding handle_manager_message manager_call Connection.manager_add_subscription
buffer_dropped registered size timeout h = handled_manager registered _ _ _ h refl refl
