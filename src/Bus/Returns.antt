-- ===== src/Bus/Returns.antt =====
-- What the agent answers is what the client's call hands out, call by call.
use perfkit.Prelude.{◌≡◌}
use perfkit.Agent.{Answer}
use perfkit.Bus.{Kind, ErrorText, TimeText, TimeTextLaw}
use perfkit.Listener.{Value}
use perfkit.Listener.Serve.{
  ChannelCall, channel_add_source, channel_set_args, channel_set_env, channel_set_target,
  channel_set_working_dir, channel_set_kill_pid, channel_set_pid, channel_start, channel_stop,
  channel_mute, channel_unmute, channel_get_args, channel_get_created_at, channel_get_env,
  channel_get_exit_status, channel_get_kill_pid, channel_get_pid, channel_get_pid_set,
  channel_get_sources, channel_get_state, channel_get_target, channel_get_working_dir,
  manager_remove_channel, SourceCall, source_get_plugin, manager_remove_source, SubscriptionCall,
  subscription_add_channel, subscription_remove_channel, subscription_add_source,
  subscription_remove_source, subscription_get_buffer, subscription_get_created_at,
  subscription_get_sources, subscription_mute, subscription_unmute, subscription_set_buffer,
  manager_remove_subscription, PluginCall, manager_add_source, plugin_get_copyright,
  plugin_get_description, plugin_get_name, plugin_get_plugin_type, plugin_get_version, ManagerCall,
  manager_add_channel, manager_add_subscription, manager_get_channels, manager_get_sources,
  manager_get_subscriptions, manager_get_plugins, manager_get_hostname, manager_get_version,
  manager_ping, Request, on_channel, on_source, on_subscription, on_plugin, on_manager,
}
use perfkit.Listener.Replies
use perfkit.Listener.Replies.{
  reply_with, no_args, flag_args, int_args, two_ints_args, id_args, ids_args, text_args, texts_args,
  time_args, name_args, names_args, path_of, name_path,
}
use perfkit.Client.Answers
use perfkit.Client.Answers.{
  Finished, given, failed, garbled, lost, finish_with, read_nothing, read_flag, read_int,
  read_two_ints, read_id, read_ids, read_text, read_texts, read_time, read_name, read_names,
  or_zero, scan_names,
}
use perfkit.Bus.Shapes.{
  a_nothing, a_flag, an_int, two_ints, a_text, some_texts, a_time, a_name, some_names, an_id,
  some_ids, Yields, seen_answer, answer_back,
}
use perfkit.Bus.Tables.{
  shape, replied, finished, channel_shape, channel_replied, channel_finished, source_shape,
  source_replied, source_finished, subscription_shape, subscription_replied, subscription_finished,
  plugin_shape, plugin_replied, plugin_finished, manager_shape, manager_replied, manager_finished,
}

channel_returns :
    (u : ErrorText) (t : TimeText) (law : TimeTextLaw t) (x : ChannelCall) (y : Answer Value)
    → Yields (channel_shape x) y
    → channel_finished t x (channel_replied u t x y) ≡ seen_answer u y
unfolding Replies.manager_remove_channel_cb Answers.manager_remove_channel_finish
    Replies.channel_add_source_cb Answers.channel_add_source_finish Replies.channel_get_args_cb
    Answers.channel_get_args_finish Replies.channel_get_created_at_cb
    Answers.channel_get_created_at_finish Replies.channel_get_env_cb Answers.channel_get_env_finish
    Replies.channel_get_exit_status_cb Answers.channel_get_exit_status_finish
    Replies.channel_get_kill_pid_cb Answers.channel_get_kill_pid_finish Replies.channel_get_pid_cb
    Answers.channel_get_pid_finish Replies.channel_get_pid_set_cb Answers.channel_get_pid_set_finish
    Replies.channel_get_sources_cb Answers.channel_get_sources_finish Replies.channel_get_state_cb
    Answers.channel_get_state_finish Replies.channel_get_target_cb Answers.channel_get_target_finish
    Replies.channel_get_working_dir_cb Answers.channel_get_working_dir_finish
    Replies.channel_mute_cb Answers.channel_mute_finish Replies.channel_set_args_cb
    Answers.channel_set_args_finish Replies.channel_set_env_cb Answers.channel_set_env_finish
    Replies.channel_set_kill_pid_cb Answers.channel_set_kill_pid_finish Replies.channel_set_pid_cb
    Answers.channel_set_pid_finish Replies.channel_set_target_cb Answers.channel_set_target_finish
    Replies.channel_set_working_dir_cb Answers.channel_set_working_dir_finish
    Replies.channel_start_cb Answers.channel_start_finish Replies.channel_stop_cb
    Answers.channel_stop_finish Replies.channel_unmute_cb Answers.channel_unmute_finish
channel_returns u t law manager_remove_channel y h = answer_back u t law a_flag y h
channel_returns u t law (channel_add_source x) y h = answer_back u t law a_nothing y h
channel_returns u t law channel_get_args y h = answer_back u t law some_texts y h
channel_returns u t law channel_get_created_at y h = answer_back u t law a_time y h
channel_returns u t law channel_get_env y h = answer_back u t law some_texts y h
channel_returns u t law channel_get_exit_status y h = answer_back u t law an_int y h
channel_returns u t law channel_get_kill_pid y h = answer_back u t law a_flag y h
channel_returns u t law channel_get_pid y h = answer_back u t law an_int y h
channel_returns u t law channel_get_pid_set y h = answer_back u t law a_flag y h
channel_returns u t law channel_get_sources y h = answer_back u t law (some_ids Kind.source) y h
channel_returns u t law channel_get_state y h = answer_back u t law an_int y h
channel_returns u t law channel_get_target y h = answer_back u t law a_text y h
channel_returns u t law channel_get_working_dir y h = answer_back u t law a_text y h
channel_returns u t law channel_mute y h = answer_back u t law a_nothing y h
channel_returns u t law (channel_set_args x) y h = answer_back u t law a_nothing y h
channel_returns u t law (channel_set_env x) y h = answer_back u t law a_nothing y h
channel_returns u t law (channel_set_kill_pid x) y h = answer_back u t law a_nothing y h
channel_returns u t law (channel_set_pid x) y h = answer_back u t law a_nothing y h
channel_returns u t law (channel_set_target x) y h = answer_back u t law a_nothing y h
channel_returns u t law (channel_set_working_dir x) y h = answer_back u t law a_nothing y h
channel_returns u t law channel_start y h = answer_back u t law a_nothing y h
channel_returns u t law channel_stop y h = answer_back u t law a_nothing y h
channel_returns u t law channel_unmute y h = answer_back u t law a_nothing y h

source_returns :
    (u : ErrorText) (t : TimeText) (law : TimeTextLaw t) (x : SourceCall) (y : Answer Value)
    → Yields (source_shape x) y
    → source_finished t x (source_replied u t x y) ≡ seen_answer u y
unfolding Replies.source_get_plugin_cb Answers.source_get_plugin_finish
    Replies.manager_remove_source_cb Answers.manager_remove_source_finish
source_returns u t law source_get_plugin y h = answer_back u t law a_name y h
source_returns u t law manager_remove_source y h = answer_back u t law a_nothing y h

subscription_returns :
    (u : ErrorText) (t : TimeText) (law : TimeTextLaw t) (x : SubscriptionCall) (y : Answer Value)
    → Yields (subscription_shape x) y
    → subscription_finished t x (subscription_replied u t x y) ≡ seen_answer u y
unfolding Replies.manager_remove_subscription_cb Answers.manager_remove_subscription_finish
    Replies.subscription_add_channel_cb Answers.subscription_add_channel_finish
    Replies.subscription_add_source_cb Answers.subscription_add_source_finish
    Replies.subscription_get_buffer_cb Answers.subscription_get_buffer_finish
    Replies.subscription_get_created_at_cb Answers.subscription_get_created_at_finish
    Replies.subscription_get_sources_cb Answers.subscription_get_sources_finish
    Replies.subscription_mute_cb Answers.subscription_mute_finish
    Replies.subscription_remove_channel_cb Answers.subscription_remove_channel_finish
    Replies.subscription_remove_source_cb Answers.subscription_remove_source_finish
    Replies.subscription_set_buffer_cb Answers.subscription_set_buffer_finish
    Replies.subscription_unmute_cb Answers.subscription_unmute_finish
subscription_returns u t law manager_remove_subscription y h = answer_back u t law a_flag y h
subscription_returns u t law (subscription_add_channel x monitor) y h =
    answer_back u t law a_nothing y h
subscription_returns u t law (subscription_add_source x) y h = answer_back u t law a_nothing y h
subscription_returns u t law subscription_get_buffer y h = answer_back u t law two_ints y h
subscription_returns u t law subscription_get_created_at y h = answer_back u t law a_time y h
subscription_returns u t law subscription_get_sources y h =
    answer_back u t law (some_ids Kind.source) y h
subscription_returns u t law (subscription_mute x) y h = answer_back u t law a_nothing y h
subscription_returns u t law (subscription_remove_channel x) y h = answer_back u t law a_nothing y h
subscription_returns u t law (subscription_remove_source x) y h = answer_back u t law a_nothing y h
subscription_returns u t law (subscription_set_buffer m n) y h = answer_back u t law a_nothing y h
subscription_returns u t law subscription_unmute y h = answer_back u t law a_nothing y h

plugin_returns :
    (u : ErrorText) (t : TimeText) (law : TimeTextLaw t) (x : PluginCall) (y : Answer Value)
    → Yields (plugin_shape x) y
    → plugin_finished t x (plugin_replied u t x y) ≡ seen_answer u y
unfolding Replies.plugin_get_copyright_cb Answers.plugin_get_copyright_finish
    Replies.plugin_get_description_cb Answers.plugin_get_description_finish
    Replies.plugin_get_name_cb Answers.plugin_get_name_finish Replies.plugin_get_plugin_type_cb
    Answers.plugin_get_plugin_type_finish Replies.plugin_get_version_cb
    Answers.plugin_get_version_finish Replies.manager_add_source_cb
    Answers.manager_add_source_finish
plugin_returns u t law plugin_get_copyright y h = answer_back u t law a_text y h
plugin_returns u t law plugin_get_description y h = answer_back u t law a_text y h
plugin_returns u t law plugin_get_name y h = answer_back u t law a_text y h
plugin_returns u t law plugin_get_plugin_type y h = answer_back u t law an_int y h
plugin_returns u t law plugin_get_version y h = answer_back u t law a_text y h
plugin_returns u t law manager_add_source y h = answer_back u t law (an_id Kind.source) y h

manager_returns :
    (u : ErrorText) (t : TimeText) (law : TimeTextLaw t) (x : ManagerCall) (y : Answer Value)
    → Yields (manager_shape x) y
    → manager_finished t x (manager_replied u t x y) ≡ seen_answer u y
unfolding Replies.manager_add_channel_cb Answers.manager_add_channel_finish
    Replies.manager_add_subscription_cb Answers.manager_add_subscription_finish
    Replies.manager_get_channels_cb Answers.manager_get_channels_finish
    Replies.manager_get_hostname_cb Answers.manager_get_hostname_finish
    Replies.manager_get_plugins_cb Answers.manager_get_plugins_finish Replies.manager_get_sources_cb
    Answers.manager_get_sources_finish Replies.manager_get_subscriptions_cb
    Answers.manager_get_subscriptions_finish Replies.manager_get_version_cb
    Answers.manager_get_version_finish Replies.manager_ping_cb Answers.manager_ping_finish
manager_returns u t law manager_add_channel y h = answer_back u t law (an_id Kind.channel) y h
manager_returns u t law (manager_add_subscription size timeout) y h =
    answer_back u t law (an_id Kind.subscription) y h
manager_returns u t law manager_get_channels y h = answer_back u t law (some_ids Kind.channel) y h
manager_returns u t law manager_get_hostname y h = answer_back u t law a_text y h
manager_returns u t law manager_get_plugins y h = answer_back u t law some_names y h
manager_returns u t law manager_get_sources y h = answer_back u t law (some_ids Kind.source) y h
manager_returns u t law manager_get_subscriptions y h =
    answer_back u t law (some_ids Kind.subscription) y h
manager_returns u t law manager_get_version y h = answer_back u t law a_text y h
manager_returns u t law manager_ping y h = answer_back u t law a_time y h

-- The agent answers a request with a value of the request's type, or with a failure; a name in it
-- has a character and no spaces, and the text of a time gives the time back. Then the client's call
-- hands out this value, or fails with an error of the client's own domain and code whose message is
-- the name that errors are sent under, a colon, a space and the text of the agent's error; a null
-- string or array is handed out as an empty one, and a failure without an error gets no answer.
pub answer_returns :
    (u : ErrorText) (t : TimeText) (law : TimeTextLaw t) (r : Request) (y : Answer Value)
    → Yields (shape r) y
    → finished t r (replied u t r y) ≡ seen_answer u y
answer_returns u t law (on_channel id x) y h = channel_returns u t law x y h
answer_returns u t law (on_source id x) y h = source_returns u t law x y h
answer_returns u t law (on_subscription id x) y h = subscription_returns u t law x y h
answer_returns u t law (on_plugin name x) y h = plugin_returns u t law x y h
answer_returns u t law (on_manager x) y h = manager_returns u t law x y h
