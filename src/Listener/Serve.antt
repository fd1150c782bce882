-- ===== src/Listener/Serve.antt =====
-- The calls that a client can make, as data, and how the agent answers them: the structures of
-- perfkit-agent/pka-listener-closures.h, grouped by the object whose id a call takes first, and the
-- functions of perfkit-agent/pka-listener.c.
use perfkit.Prelude.{ℕ, Bool, Option, List, [], ◌∷◌}
use perfkit.Wire.{Bytes, Buffer, Time}
use perfkit.Plugin.{Made}
use perfkit.Channel.Start.{Host}
use perfkit.Agent.{Agent}
use perfkit.Listener.{Outcome}
use perfkit.Listener.OnChannels
use perfkit.Listener.OnManager
use perfkit.Listener.OnSubscriptions

pub data ChannelCall : Type 0 where
  channel_add_source : ℕ → ChannelCall
  channel_set_args channel_set_env : Option (List Bytes) → ChannelCall
  channel_set_target channel_set_working_dir : Option Bytes → ChannelCall
  channel_set_kill_pid : Bool → ChannelCall
  channel_set_pid : ℕ → ChannelCall
  channel_start channel_stop channel_mute channel_unmute : ChannelCall
  channel_get_args channel_get_created_at channel_get_env channel_get_exit_status : ChannelCall
  channel_get_kill_pid channel_get_pid channel_get_pid_set channel_get_sources : ChannelCall
  channel_get_state channel_get_target channel_get_working_dir : ChannelCall
  manager_remove_channel : ChannelCall

pub data SourceCall : Type 0 where
  source_get_plugin manager_remove_source : SourceCall

pub data SubscriptionCall : Type 0 where
  subscription_add_channel : ℕ → Bool → SubscriptionCall
  subscription_remove_channel : ℕ → SubscriptionCall
  subscription_add_source subscription_remove_source : ℕ → SubscriptionCall
  subscription_get_buffer subscription_get_created_at subscription_get_sources : SubscriptionCall
  subscription_mute : Bool → SubscriptionCall
  subscription_unmute : SubscriptionCall
  subscription_set_buffer : ℕ → ℕ → SubscriptionCall
  manager_remove_subscription : SubscriptionCall

pub data PluginCall : Type 0 where
  manager_add_source : PluginCall
  plugin_get_copyright plugin_get_description plugin_get_name : PluginCall
  plugin_get_plugin_type plugin_get_version : PluginCall

pub data ManagerCall : Type 0 where
  manager_add_channel : ManagerCall
  manager_add_subscription : ℕ → ℕ → ManagerCall
  manager_get_channels manager_get_sources manager_get_subscriptions : ManagerCall
  manager_get_plugins manager_get_hostname manager_get_version manager_ping : ManagerCall

pub data Request : Type 0 where
  on_channel : ℕ → ChannelCall → Request
  on_source : ℕ → SourceCall → Request
  on_subscription : ℕ → SubscriptionCall → Request
  on_plugin : Option Bytes → PluginCall → Request
  on_manager : ManagerCall → Request

-- What the calls ask of the libraries and of the host.
pub record Outside : Type 0 where
  pub buffer : Buffer
  pub time : Time
  pub host : Host
  pub factory : ℕ → Made
  pub tmp_dir : Bytes
  pub now : ℕ
  pub hostname : Bytes
  pub version : Bytes

unfoldable pub serve_channel : Outside → ℕ → ChannelCall → Agent → Outcome
serve_channel o id (channel_add_source s) a = OnChannels.add_source o.buffer o.time id s a
serve_channel o id (channel_set_args v) a = OnChannels.set_args id v a
serve_channel o id (channel_set_env v) a = OnChannels.set_env id v a
serve_channel o id (channel_set_target v) a = OnChannels.set_target id v a
serve_channel o id (channel_set_working_dir v) a = OnChannels.set_working_dir id v a
serve_channel o id (channel_set_kill_pid v) a = OnChannels.set_kill_pid id v a
serve_channel o id (channel_set_pid v) a = OnChannels.set_pid id v a
serve_channel o id channel_start a = OnChannels.start o.host id a
serve_channel o id channel_stop a = OnChannels.stop id a
serve_channel o id channel_mute a = OnChannels.mute id a
serve_channel o id channel_unmute a = OnChannels.unmute id a
serve_channel o id channel_get_args a = OnChannels.get_args id a
serve_channel o id channel_get_created_at a = OnChannels.get_created_at id a
serve_channel o id channel_get_env a = OnChannels.get_env id a
serve_channel o id channel_get_exit_status a = OnChannels.get_exit_status id a
serve_channel o id channel_get_kill_pid a = OnChannels.get_kill_pid id a
serve_channel o id channel_get_pid a = OnChannels.get_pid id a
serve_channel o id channel_get_pid_set a = OnChannels.get_pid_set id a
serve_channel o id channel_get_sources a = OnChannels.get_sources id a
serve_channel o id channel_get_state a = OnChannels.get_state id a
serve_channel o id channel_get_target a = OnChannels.get_target id a
serve_channel o id channel_get_working_dir a = OnChannels.get_working_dir id a
serve_channel o id manager_remove_channel a = OnManager.remove_channel id a

unfoldable pub serve_source : Outside → ℕ → SourceCall → Agent → Outcome
serve_source o id source_get_plugin a = OnManager.get_source_plugin id a
serve_source o id manager_remove_source a = OnManager.remove_source id a

unfoldable pub serve_subscription : Outside → ℕ → SubscriptionCall → Agent → Outcome
serve_subscription o id (subscription_add_channel c monitor) a =
    OnSubscriptions.add_channel o.buffer o.time id c monitor a
serve_subscription o id (subscription_remove_channel c) a = OnSubscriptions.remove_channel id c a
serve_subscription o id (subscription_add_source s) a =
    OnSubscriptions.add_source o.buffer o.time id s a
serve_subscription o id (subscription_remove_source s) a = OnSubscriptions.remove_source id s a
serve_subscription o id subscription_get_buffer a = OnSubscriptions.get_buffer id a
serve_subscription o id subscription_get_created_at a = OnSubscriptions.get_created_at id a
serve_subscription o id subscription_get_sources a = OnSubscriptions.get_sources id a
serve_subscription o id (subscription_mute drain) a = OnSubscriptions.mute id drain a
serve_subscription o id subscription_unmute a = OnSubscriptions.unmute id a
serve_subscription o id (subscription_set_buffer timeout size) a =
    OnSubscriptions.set_buffer id timeout size a
serve_subscription o id manager_remove_subscription a = OnManager.remove_subscription id a

unfoldable pub serve_plugin : Outside → Option Bytes → PluginCall → Agent → Outcome
serve_plugin o id manager_add_source a = OnManager.add_source o.factory id a
serve_plugin o id plugin_get_copyright a = OnManager.get_copyright id a
serve_plugin o id plugin_get_description a = OnManager.get_description id a
serve_plugin o id plugin_get_name a = OnManager.get_name id a
serve_plugin o id plugin_get_plugin_type a = OnManager.get_plugin_type id a
serve_plugin o id plugin_get_version a = OnManager.get_plugin_version id a

unfoldable pub serve_manager : Outside → ManagerCall → Agent → Outcome
serve_manager o manager_add_channel a = OnManager.add_channel o.tmp_dir o.now a
serve_manager o (manager_add_subscription size timeout) a =
    OnManager.add_subscription size timeout o.now a
serve_manager o manager_get_channels a = OnManager.get_channels a
serve_manager o manager_get_sources a = OnManager.get_sources a
serve_manager o manager_get_subscriptions a = OnManager.get_subscriptions a
serve_manager o manager_get_plugins a = OnManager.get_plugins a
serve_manager o manager_get_hostname a = OnManager.get_hostname o.hostname a
serve_manager o manager_get_version a = OnManager.get_version o.version a
serve_manager o manager_ping a = OnManager.ping o.now a

unfoldable pub serve : Outside → Request → Agent → Outcome
unfolding serve_channel serve_source serve_subscription serve_plugin serve_manager
serve o (on_channel id x) a = serve_channel o id x a
serve o (on_source id x) a = serve_source o id x a
serve o (on_subscription id x) a = serve_subscription o id x a
serve o (on_plugin id x) a = serve_plugin o id x a
serve o (on_manager x) a = serve_manager o x a

-- One request after the other, each with what the host answers to it.
unfoldable pub serve_all : List (Outside × Request) → Agent → Agent
unfolding serve
serve_all [] a = a
serve_all ((o, r) ∷ requests) a = serve_all requests (serve o r a).0
