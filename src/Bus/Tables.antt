-- ===== src/Bus/Tables.antt =====
-- The type of each request's result, the callback of the agent that answers it, and the function of
-- the client that finishes its call.
use perfkit.Agent.{Answer}
use perfkit.Bus.{Kind, Reply, ErrorText, TimeText}
use perfkit.Listener.{Value}
use perfkit.Listener.Serve.{
  ChannelCall, channel_add_source, channel_set_args, channel_set_env, channel_set_target,
  channel_set_working_dir, channel_set_kill_pid, channel_set_pid, channel_start, channel_stop,
  channel_mute, channel_unmute, channel_get_args, channel_get_created_at, channel_get_env,
  channel_get_exit_status, channel_get_kill_pid, channel_get_pid, channel_get_pid_set,
  channel_get_sources, channel_get_state, channel_get_target, channel_get_working_dir,
  manager_remove_channel, SourceCall, source_get_plugin, manager_remove_source, SubscriptionCall,
  subscription_add_channel, subscription_remove_channel, subscription_add_source,
  subscription_remove_source, subscription_get_buffer, subscription_get_created_at,
  subscription_get_sources, subscription_mute, subscription_unmute, subscription_set_buffer,
  manager_remove_subscription, PluginCall, manager_add_source, plugin_get_copyright,
  plugin_get_description, plugin_get_name, plugin_get_plugin_type, plugin_get_version, ManagerCall,
  manager_add_channel, manager_add_subscription, manager_get_channels, manager_get_sources,
  manager_get_subscriptions, manager_get_plugins, manager_get_hostname, manager_get_version,
  manager_ping, Request, on_channel, on_source, on_subscription, on_plugin, on_manager,
}
use perfkit.Listener.Replies
use perfkit.Listener.Replies.{
  reply_with, no_args, flag_args, int_args, two_ints_args, id_args, ids_args, text_args, texts_args,
  time_args, name_args, names_args, path_of, name_path,
}
use perfkit.Client.Answers
use perfkit.Client.Answers.{
  Finished, given, failed, garbled, lost, finish_with, read_nothing, read_flag, read_int,
  read_two_ints, read_id, read_ids, read_text, read_texts, read_time, read_name, read_names,
  or_zero, scan_names,
}
use perfkit.Bus.Shapes.{
  Shape, a_nothing, a_flag, an_int, two_ints, a_text, some_texts, a_time, a_name, some_names, an_id,
  some_ids,
}

abbrev pub channel_shape : ChannelCall → Shape
channel_shape manager_remove_channel = a_flag
channel_shape (channel_add_source x) = a_nothing
channel_shape channel_get_args = some_texts
channel_shape channel_get_created_at = a_time
channel_shape channel_get_env = some_texts
channel_shape channel_get_exit_status = an_int
channel_shape channel_get_kill_pid = a_flag
channel_shape channel_get_pid = an_int
channel_shape channel_get_pid_set = a_flag
channel_shape channel_get_sources = (some_ids Kind.source)
channel_shape channel_get_state = an_int
channel_shape channel_get_target = a_text
channel_shape channel_get_working_dir = a_text
channel_shape channel_mute = a_nothing
channel_shape (channel_set_args x) = a_nothing
channel_shape (channel_set_env x) = a_nothing
channel_shape (channel_set_kill_pid x) = a_nothing
channel_shape (channel_set_pid x) = a_nothing
channel_shape (channel_set_target x) = a_nothing
channel_shape (channel_set_working_dir x) = a_nothing
channel_shape channel_start = a_nothing
channel_shape channel_stop = a_nothing
channel_shape channel_unmute = a_nothing

abbrev pub channel_replied : ErrorText → TimeText → ChannelCall → Answer Value → Reply
channel_replied u t manager_remove_channel = Replies.manager_remove_channel_cb u
channel_replied u t (channel_add_source x) = Replies.channel_add_source_cb u
channel_replied u t channel_get_args = Replies.channel_get_args_cb u
channel_replied u t channel_get_created_at = Replies.channel_get_created_at_cb u t
channel_replied u t channel_get_env = Replies.channel_get_env_cb u
channel_replied u t channel_get_exit_status = Replies.channel_get_exit_status_cb u
channel_replied u t channel_get_kill_pid = Replies.channel_get_kill_pid_cb u
channel_replied u t channel_get_pid = Replies.channel_get_pid_cb u
channel_replied u t channel_get_pid_set = Replies.channel_get_pid_set_cb u
channel_replied u t channel_get_sources = Replies.channel_get_sources_cb u
channel_replied u t channel_get_state = Replies.channel_get_state_cb u
channel_replied u t channel_get_target = Replies.channel_get_target_cb u
channel_replied u t channel_get_working_dir = Replies.channel_get_working_dir_cb u
channel_replied u t channel_mute = Replies.channel_mute_cb u
channel_replied u t (channel_set_args x) = Replies.channel_set_args_cb u
channel_replied u t (channel_set_env x) = Replies.channel_set_env_cb u
channel_replied u t (channel_set_kill_pid x) = Replies.channel_set_kill_pid_cb u
channel_replied u t (channel_set_pid x) = Replies.channel_set_pid_cb u
channel_replied u t (channel_set_target x) = Replies.channel_set_target_cb u
channel_replied u t (channel_set_working_dir x) = Replies.channel_set_working_dir_cb u
channel_replied u t channel_start = Replies.channel_start_cb u
channel_replied u t channel_stop = Replies.channel_stop_cb u
channel_replied u t channel_unmute = Replies.channel_unmute_cb u

abbrev pub channel_finished : TimeText → ChannelCall → Reply → Finished
channel_finished t manager_remove_channel = Answers.manager_remove_channel_finish
channel_finished t (channel_add_source x) = Answers.channel_add_source_finish
channel_finished t channel_get_args = Answers.channel_get_args_finish
channel_finished t channel_get_created_at = Answers.channel_get_created_at_finish t
channel_finished t channel_get_env = Answers.channel_get_env_finish
channel_finished t channel_get_exit_status = Answers.channel_get_exit_status_finish
channel_finished t channel_get_kill_pid = Answers.channel_get_kill_pid_finish
channel_finished t channel_get_pid = Answers.channel_get_pid_finish
channel_finished t channel_get_pid_set = Answers.channel_get_pid_set_finish
channel_finished t channel_get_sources = Answers.channel_get_sources_finish
channel_finished t channel_get_state = Answers.channel_get_state_finish
channel_finished t channel_get_target = Answers.channel_get_target_finish
channel_finished t channel_get_working_dir = Answers.channel_get_working_dir_finish
channel_finished t channel_mute = Answers.channel_mute_finish
channel_finished t (channel_set_args x) = Answers.channel_set_args_finish
channel_finished t (channel_set_env x) = Answers.channel_set_env_finish
channel_finished t (channel_set_kill_pid x) = Answers.channel_set_kill_pid_finish
channel_finished t (channel_set_pid x) = Answers.channel_set_pid_finish
channel_finished t (channel_set_target x) = Answers.channel_set_target_finish
channel_finished t (channel_set_working_dir x) = Answers.channel_set_working_dir_finish
channel_finished t channel_start = Answers.channel_start_finish
channel_finished t channel_stop = Answers.channel_stop_finish
channel_finished t channel_unmute = Answers.channel_unmute_finish

abbrev pub source_shape : SourceCall → Shape
source_shape source_get_plugin = a_name
source_shape manager_remove_source = a_nothing

abbrev pub source_replied : ErrorText → TimeText → SourceCall → Answer Value → Reply
source_replied u t source_get_plugin = Replies.source_get_plugin_cb u
source_replied u t manager_remove_source = Replies.manager_remove_source_cb u

abbrev pub source_finished : TimeText → SourceCall → Reply → Finished
source_finished t source_get_plugin = Answers.source_get_plugin_finish
source_finished t manager_remove_source = Answers.manager_remove_source_finish

abbrev pub subscription_shape : SubscriptionCall → Shape
subscription_shape manager_remove_subscription = a_flag
subscription_shape (subscription_add_channel x monitor) = a_nothing
subscription_shape (subscription_add_source x) = a_nothing
subscription_shape subscription_get_buffer = two_ints
subscription_shape subscription_get_created_at = a_time
subscription_shape subscription_get_sources = (some_ids Kind.source)
subscription_shape (subscription_mute x) = a_nothing
subscription_shape (subscription_remove_channel x) = a_nothing
subscription_shape (subscription_remove_source x) = a_nothing
subscription_shape (subscription_set_buffer x y) = a_nothing
subscription_shape subscription_unmute = a_nothing

abbrev pub subscription_replied : ErrorText → TimeText → SubscriptionCall → Answer Value → Reply
subscription_replied u t manager_remove_subscription = Replies.manager_remove_subscription_cb u
subscription_replied u t (subscription_add_channel x monitor) =
    Replies.subscription_add_channel_cb u
subscription_replied u t (subscription_add_source x) = Replies.subscription_add_source_cb u
subscription_replied u t subscription_get_buffer = Replies.subscription_get_buffer_cb u
subscription_replied u t subscription_get_created_at = Replies.subscription_get_created_at_cb u t
subscription_replied u t subscription_get_sources = Replies.subscription_get_sources_cb u
subscription_replied u t (subscription_mute x) = Replies.subscription_mute_cb u
subscription_replied u t (subscription_remove_channel x) = Replies.subscription_remove_channel_cb u
subscription_replied u t (subscription_remove_source x) = Replies.subscription_remove_source_cb u
subscription_replied u t (subscription_set_buffer x y) = Replies.subscription_set_buffer_cb u
subscription_replied u t subscription_unmute = Replies.subscription_unmute_cb u

abbrev pub subscription_finished : TimeText → SubscriptionCall → Reply → Finished
subscription_finished t manager_remove_subscription = Answers.manager_remove_subscription_finish
subscription_finished t (subscription_add_channel x monitor) =
    Answers.subscription_add_channel_finish
subscription_finished t (subscription_add_source x) = Answers.subscription_add_source_finish
subscription_finished t subscription_get_buffer = Answers.subscription_get_buffer_finish
subscription_finished t subscription_get_created_at = Answers.subscription_get_created_at_finish t
subscription_finished t subscription_get_sources = Answers.subscription_get_sources_finish
subscription_finished t (subscription_mute x) = Answers.subscription_mute_finish
subscription_finished t (subscription_remove_channel x) = Answers.subscription_remove_channel_finish
subscription_finished t (subscription_remove_source x) = Answers.subscription_remove_source_finish
subscription_finished t (subscription_set_buffer x y) = Answers.subscription_set_buffer_finish
subscription_finished t subscription_unmute = Answers.subscription_unmute_finish

abbrev pub plugin_shape : PluginCall → Shape
plugin_shape plugin_get_copyright = a_text
plugin_shape plugin_get_description = a_text
plugin_shape plugin_get_name = a_text
plugin_shape plugin_get_plugin_type = an_int
plugin_shape plugin_get_version = a_text
plugin_shape manager_add_source = (an_id Kind.source)

abbrev pub plugin_replied : ErrorText → TimeText → PluginCall → Answer Value → Reply
plugin_replied u t plugin_get_copyright = Replies.plugin_get_copyright_cb u
plugin_replied u t plugin_get_description = Replies.plugin_get_description_cb u
plugin_replied u t plugin_get_name = Replies.plugin_get_name_cb u
plugin_replied u t plugin_get_plugin_type = Replies.plugin_get_plugin_type_cb u
plugin_replied u t plugin_get_version = Replies.plugin_get_version_cb u
plugin_replied u t manager_add_source = Replies.manager_add_source_cb u

abbrev pub plugin_finished : TimeText → PluginCall → Reply → Finished
plugin_finished t plugin_get_copyright = Answers.plugin_get_copyright_finish
plugin_finished t plugin_get_description = Answers.plugin_get_description_finish
plugin_finished t plugin_get_name = Answers.plugin_get_name_finish
plugin_finished t plugin_get_plugin_type = Answers.plugin_get_plugin_type_finish
plugin_finished t plugin_get_version = Answers.plugin_get_version_finish
plugin_finished t manager_add_source = Answers.manager_add_source_finish

abbrev pub manager_shape : ManagerCall → Shape
manager_shape manager_add_channel = (an_id Kind.channel)
manager_shape (manager_add_subscription size timeout) = (an_id Kind.subscription)
manager_shape manager_get_channels = (some_ids Kind.channel)
manager_shape manager_get_hostname = a_text
manager_shape manager_get_plugins = some_names
manager_shape manager_get_sources = (some_ids Kind.source)
manager_shape manager_get_subscriptions = (some_ids Kind.subscription)
manager_shape manager_get_version = a_text
manager_shape manager_ping = a_time

abbrev pub manager_replied : ErrorText → TimeText → ManagerCall → Answer Value → Reply
manager_replied u t manager_add_channel = Replies.manager_add_channel_cb u
manager_replied u t (manager_add_subscription size timeout) = Replies.manager_add_subscription_cb u
manager_replied u t manager_get_channels = Replies.manager_get_channels_cb u
manager_replied u t manager_get_hostname = Replies.manager_get_hostname_cb u
manager_replied u t manager_get_plugins = Replies.manager_get_plugins_cb u
manager_replied u t manager_get_sources = Replies.manager_get_sources_cb u
manager_replied u t manager_get_subscriptions = Replies.manager_get_subscriptions_cb u
manager_replied u t manager_get_version = Replies.manager_get_version_cb u
manager_replied u t manager_ping = Replies.manager_ping_cb u t

abbrev pub manager_finished : TimeText → ManagerCall → Reply → Finished
manager_finished t manager_add_channel = Answers.manager_add_channel_finish
manager_finished t (manager_add_subscription size timeout) = Answers.manager_add_subscription_finish
manager_finished t manager_get_channels = Answers.manager_get_channels_finish
manager_finished t manager_get_hostname = Answers.manager_get_hostname_finish
manager_finished t manager_get_plugins = Answers.manager_get_plugins_finish
manager_finished t manager_get_sources = Answers.manager_get_sources_finish
manager_finished t manager_get_subscriptions = Answers.manager_get_subscriptions_finish
manager_finished t manager_get_version = Answers.manager_get_version_finish
manager_finished t manager_ping = Answers.manager_ping_finish t

-- The type of a request's result, the callback that answers it, and the function that the client
-- finishes the call with.
abbrev pub shape : Request → Shape
shape (on_channel id x) = channel_shape x
shape (on_source id x) = source_shape x
shape (on_subscription id x) = subscription_shape x
shape (on_plugin name x) = plugin_shape x
shape (on_manager x) = manager_shape x

abbrev pub replied : ErrorText → TimeText → Request → Answer Value → Reply
replied u t (on_channel id x) = channel_replied u t x
replied u t (on_source id x) = source_replied u t x
replied u t (on_subscription id x) = subscription_replied u t x
replied u t (on_plugin name x) = plugin_replied u t x
replied u t (on_manager x) = manager_replied u t x

abbrev pub finished : TimeText → Request → Reply → Finished
finished t (on_channel id x) = channel_finished t x
finished t (on_source id x) = source_finished t x
finished t (on_subscription id x) = subscription_finished t x
finished t (on_plugin name x) = plugin_finished t x
finished t (on_manager x) = manager_finished t x
