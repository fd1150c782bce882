-- ===== src/Registry/Refines.antt =====
-- Each request on registered objects makes the calls on them that Registry/Commands.antt lists.
use perfkit.Prelude.{
  ℕ, ◌≡◌, refl, inl, inr, contains, Bool-cases, Bool, false, Option, none, some, List, [], ◌∷◌,
}
use perfkit.Context.{Reply, accepted, rejected, default_context}
use perfkit.Wire.{Bytes}
use perfkit.Agent.{Agent, Answer, answer, refused}
use perfkit.Subscription
use perfkit.Manager
use perfkit.Listener.{Value, flag}
use perfkit.Listener.OnChannels
use perfkit.Listener.OnManager
use perfkit.Listener.OnSubscriptions
use perfkit.Listener.Serve.{
  ChannelCall, channel_add_source, channel_set_args, channel_set_env, channel_set_target,
  channel_set_working_dir, channel_set_kill_pid, channel_set_pid, channel_start, channel_stop,
  channel_mute, channel_unmute, channel_get_args, channel_get_created_at, channel_get_env,
  channel_get_exit_status, channel_get_kill_pid, channel_get_pid, channel_get_pid_set,
  channel_get_sources, channel_get_state, channel_get_target, channel_get_working_dir,
  manager_remove_channel, SourceCall, source_get_plugin, manager_remove_source, SubscriptionCall,
  subscription_add_channel, subscription_remove_channel, subscription_add_source,
  subscription_remove_source, subscription_get_buffer, subscription_get_created_at,
  subscription_get_sources, subscription_mute, subscription_unmute, subscription_set_buffer,
  manager_remove_subscription, PluginCall, manager_add_source, plugin_get_copyright,
  plugin_get_description, plugin_get_name, plugin_get_plugin_type, plugin_get_version, ManagerCall,
  manager_add_channel, manager_add_subscription, manager_get_channels, manager_get_sources,
  manager_get_subscriptions, manager_get_plugins, manager_get_hostname, manager_get_version,
  manager_ping, Request, on_channel, on_source, on_subscription, on_plugin, on_manager, Outside,
  serve_channel, serve_source, serve_subscription, serve_plugin, serve_manager, serve,
}
use perfkit.System.{Command, step, run}
use perfkit.Registry.Commands.{
  on_found, channel_commands, source_commands, subscription_commands, commands, is_addition,
  Follows, here, found_Follows, unchanged,
}

exit_status_Follows :
    (o : Outside) (a : Agent) (status : Option ℕ) (r : Reply)
    → Follows o a [] (OnChannels.status_outcome a status r)
unfolding run
exit_status_Follows o a status (rejected e) = here o a _ _ _ refl
exit_status_Follows o a none accepted = here o a _ _ _ refl
exit_status_Follows o a (some n) accepted = here o a _ _ _ refl

-- A request without commands has none, whatever its lookup finds.
on_found-nothing : (x : Answer ℕ) → on_found x (λ c. []) ≡ []
unfolding on_found
on_found-nothing (refused e) = refl
on_found-nothing (answer c) = refl

channel_Follows :
    (o : Outside) (x : ChannelCall) (id : ℕ) (a : Agent)
    → Follows o a
        (on_found (Manager.find_channel default_context id a) (λ c. channel_commands o x c a))
        (serve_channel o id x a)
unfolding run step serve_channel OnChannels.add_source OnChannels.set_args OnChannels.set_env
    OnChannels.set_target OnChannels.set_working_dir OnChannels.set_kill_pid OnChannels.set_pid
    OnChannels.start OnChannels.stop OnChannels.mute OnChannels.unmute OnChannels.get_args
    OnChannels.get_created_at OnChannels.get_env OnChannels.get_exit_status OnChannels.get_kill_pid
    OnChannels.get_pid OnChannels.get_pid_set OnChannels.get_sources OnChannels.get_state
    OnChannels.get_target OnChannels.get_working_dir OnManager.remove_channel Manager.remove_channel
channel_Follows o (channel_add_source s) id a =
    found_Follows o a _ _ _ (λ c. found_Follows o a _ _ _ (λ q. here o a _ _ _ refl))
channel_Follows o (channel_set_args v) id a = found_Follows o a _ _ _ (λ c. here o a _ _ _ refl)
channel_Follows o (channel_set_env v) id a = found_Follows o a _ _ _ (λ c. here o a _ _ _ refl)
channel_Follows o (channel_set_target v) id a = found_Follows o a _ _ _ (λ c. here o a _ _ _ refl)
channel_Follows o (channel_set_working_dir v) id a =
    found_Follows o a _ _ _ (λ c. here o a _ _ _ refl)
channel_Follows o (channel_set_kill_pid v) id a = found_Follows o a _ _ _ (λ c. here o a _ _ _ refl)
channel_Follows o (channel_set_pid v) id a = found_Follows o a _ _ _ (λ c. here o a _ _ _ refl)
channel_Follows o channel_start id a = found_Follows o a _ _ _ (λ c. here o a _ _ _ refl)
channel_Follows o channel_stop id a = found_Follows o a _ _ _ (λ c. here o a _ _ _ refl)
channel_Follows o channel_mute id a = found_Follows o a _ _ _ (λ c. here o a _ _ _ refl)
channel_Follows o channel_unmute id a = found_Follows o a _ _ _ (λ c. here o a _ _ _ refl)
channel_Follows o channel_get_args id a = found_Follows o a _ _ _ (λ c. here o a _ _ _ refl)
channel_Follows o channel_get_created_at id a = found_Follows o a _ _ _ (λ c. here o a _ _ _ refl)
channel_Follows o channel_get_env id a = found_Follows o a _ _ _ (λ c. here o a _ _ _ refl)
channel_Follows o channel_get_exit_status id a =
    found_Follows o a _ _ _ (λ c. exit_status_Follows o a _ _)
channel_Follows o channel_get_kill_pid id a = found_Follows o a _ _ _ (λ c. here o a _ _ _ refl)
channel_Follows o channel_get_pid id a = found_Follows o a _ _ _ (λ c. here o a _ _ _ refl)
channel_Follows o channel_get_pid_set id a =
    rw (on_found-nothing (Manager.find_channel default_context id a))
      (unchanged o a _ _ (λ c. here o a _ _ _ refl))
channel_Follows o channel_get_sources id a = found_Follows o a _ _ _ (λ c. here o a _ _ _ refl)
channel_Follows o channel_get_state id a = found_Follows o a _ _ _ (λ c. here o a _ _ _ refl)
channel_Follows o channel_get_target id a = found_Follows o a _ _ _ (λ c. here o a _ _ _ refl)
channel_Follows o channel_get_working_dir id a = found_Follows o a _ _ _ (λ c. here o a _ _ _ refl)
channel_Follows o manager_remove_channel id a = found_Follows o a _ _ _ (λ c. here o a _ _ _ refl)

removal-Follows :
    (o : Outside) (a : Agent) (value : Bool → Value) (xs : List Command) (x : Agent × Answer Bool)
    → ((v : Answer Value) → Follows o a xs (x.0, v))
    → Follows o a xs (OnManager.removal value x)
removal-Follows o a value xs (a', answer r) h = h _
removal-Follows o a value xs (a', refused e) h = h _

remove_source-Follows :
    (o : Outside) (s : ℕ) (a : Agent) (v : Answer Value)
    → Follows o a (Command.retire_source s ∷ []) ((Manager.remove_source default_context s a).0, v)
unfolding run step Manager.remove_source
remove_source-Follows o s a v = elim (Bool-cases (contains a.sources s)) [
  | inl p ↦ rw p (record {
    same = refl;
    channels = refl;
    next_channel = refl;
    next_source = refl;
    next_subscription = refl;
  })
  | inr n ↦ rw n (record {
    same = refl;
    channels = refl;
    next_channel = refl;
    next_source = refl;
    next_subscription = refl;
  })
]

remove_subscription-Follows :
    (o : Outside) (p : ℕ) (a : Agent) (v : Answer Value)
    → Follows o a [] ((Manager.remove_subscription default_context p a).0, v)
unfolding run Manager.remove_subscription
remove_subscription-Follows o p a v = record {
  same = refl;
  channels = refl;
  next_channel = refl;
  next_source = refl;
  next_subscription = refl;
}

source_Follows :
    (o : Outside) (x : SourceCall) (id : ℕ) (a : Agent)
    → Follows o a
        (on_found (Manager.find_source default_context id a) (λ s. source_commands x s))
        (serve_source o id x a)
unfolding run step serve_source OnManager.get_source_plugin OnManager.remove_source
source_Follows o source_get_plugin id a = found_Follows o a _ _ _ (λ s. here o a _ _ _ refl)
source_Follows o manager_remove_source id a =
    found_Follows o a _ _ _
      (λ s. removal-Follows o a _ (Command.retire_source s ∷ []) _ (remove_source-Follows o s a))

subscription_Follows :
    (o : Outside) (x : SubscriptionCall) (id : ℕ) (a : Agent)
    → Follows o a
        (on_found
          (Manager.find_subscription default_context id a)
          (λ p. subscription_commands x p a))
        (serve_subscription o id x a)
unfolding run step serve_subscription OnSubscriptions.add_channel OnSubscriptions.remove_channel
    OnSubscriptions.add_source OnSubscriptions.remove_source OnSubscriptions.get_buffer
    OnSubscriptions.get_created_at OnSubscriptions.get_sources OnSubscriptions.mute
    OnSubscriptions.unmute OnSubscriptions.set_buffer OnManager.remove_subscription
    Manager.remove_subscription Subscription.mute Subscription.unmute
subscription_Follows o (subscription_add_channel c monitor) id a =
    found_Follows o a _ _ _ (λ p. found_Follows o a _ _ _ (λ q. here o a _ _ _ refl))
subscription_Follows o (subscription_remove_channel c) id a =
    found_Follows o a _ _ _ (λ p. found_Follows o a _ _ _ (λ q. here o a _ _ _ refl))
subscription_Follows o (subscription_add_source s) id a =
    found_Follows o a _ _ _ (λ p. found_Follows o a _ _ _ (λ q. here o a _ _ _ refl))
subscription_Follows o (subscription_remove_source s) id a =
    found_Follows o a _ _ _ (λ p. found_Follows o a _ _ _ (λ q. here o a _ _ _ refl))
subscription_Follows o subscription_get_buffer id a =
    found_Follows o a _ _ _ (λ p. here o a _ _ _ refl)
subscription_Follows o subscription_get_created_at id a =
    found_Follows o a _ _ _ (λ p. here o a _ _ _ refl)
subscription_Follows o subscription_get_sources id a =
    found_Follows o a _ _ _ (λ p. here o a _ _ _ refl)
subscription_Follows o (subscription_mute drain) id a =
    found_Follows o a _ _ _ (λ p. here o a _ _ _ refl)
subscription_Follows o subscription_unmute id a = found_Follows o a _ _ _ (λ p. here o a _ _ _ refl)
subscription_Follows o (subscription_set_buffer timeout size) id a =
    found_Follows o a _ _ _ (λ p. here o a _ _ _ refl)
subscription_Follows o manager_remove_subscription id a = found_Follows o a _ _ _ (λ p.
    removal-Follows o a flag [] (Manager.remove_subscription default_context p a)
      (remove_subscription-Follows o p a))

plugin_Follows :
    (o : Outside) (x : PluginCall) (name : Option Bytes) (a : Agent)
    → is_addition (on_plugin name x) ≡ false
    → Follows o a [] (serve_plugin o name x a)
unfolding run serve_plugin OnManager.get_copyright OnManager.get_description OnManager.get_name
    OnManager.get_plugin_type OnManager.get_plugin_version
plugin_Follows o manager_add_source name a h = cc
plugin_Follows o plugin_get_copyright name a h = unchanged o a _ _ (λ p. here o a _ _ _ refl)
plugin_Follows o plugin_get_description name a h = unchanged o a _ _ (λ p. here o a _ _ _ refl)
plugin_Follows o plugin_get_name name a h = unchanged o a _ _ (λ p. here o a _ _ _ refl)
plugin_Follows o plugin_get_plugin_type name a h = unchanged o a _ _ (λ p. here o a _ _ _ refl)
plugin_Follows o plugin_get_version name a h = unchanged o a _ _ (λ p. here o a _ _ _ refl)

manager_Follows :
    (o : Outside) (x : ManagerCall) (a : Agent)
    → is_addition (on_manager x) ≡ false
    → Follows o a [] (serve_manager o x a)
unfolding run serve_manager OnManager.get_channels OnManager.get_sources OnManager.get_subscriptions
    OnManager.get_plugins OnManager.get_hostname OnManager.get_version OnManager.ping
manager_Follows o manager_add_channel a h = cc
manager_Follows o (manager_add_subscription size timeout) a h = cc
manager_Follows o manager_get_channels a h = here o a _ _ _ refl
manager_Follows o manager_get_sources a h = here o a _ _ _ refl
manager_Follows o manager_get_subscriptions a h = here o a _ _ _ refl
manager_Follows o manager_get_plugins a h = here o a _ _ _ refl
manager_Follows o manager_get_hostname a h = here o a _ _ _ refl
manager_Follows o manager_get_version a h = here o a _ _ _ refl
manager_Follows o manager_ping a h = here o a _ _ _ refl

pub serve-Follows :
    (o : Outside) (r : Request) (a : Agent)
    → is_addition r ≡ false
    → Follows o a (commands o r a) (serve o r a)
unfolding serve
serve-Follows o (on_channel id x) a h = channel_Follows o x id a
serve-Follows o (on_source id x) a h = source_Follows o x id a
serve-Follows o (on_subscription id x) a h = subscription_Follows o x id a
serve-Follows o (on_plugin name x) a h = plugin_Follows o x name a h
serve-Follows o (on_manager x) a h = manager_Follows o x a h

-- A request that makes no new object changes the objects as `commands` says: it makes the call that
-- it names on the objects that its ids stand for, and none if one of them is not found.
pub serve_follows :
    (o : Outside) (r : Request) (a : Agent)
    → is_addition r ≡ false
    → (serve o r a).0.world ≡ run o.buffer o.time default_context (commands o r a) a.world
serve_follows o r a h = (serve-Follows o r a h).same
