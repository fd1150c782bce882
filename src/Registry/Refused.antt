-- ===== src/Registry/Refused.antt =====
-- Requests for objects that are not registered.
use perfkit.Prelude.{
  ℕ, ◌≡◌, refl, ap, Bool, true, false, Option, none, some, List, [], ◌∷◌, arith, contains, map,
  ◌||◌,
}
use perfkit.Context.{Error, not_authorized, invalid_type, default_context}
use perfkit.Wire.{Bytes}
use perfkit.Plugin
use perfkit.Agent.{Agent, Answer, refused}
use perfkit.Manager.{found_or, find_by}
use perfkit.Manager
use perfkit.Listener.{Outcome, with_found}
use perfkit.Listener.OnChannels
use perfkit.Listener.OnManager
use perfkit.Listener.OnSubscriptions
use perfkit.Listener.Serve.{
  ChannelCall, channel_add_source, channel_set_args, channel_set_env, channel_set_target,
  channel_set_working_dir, channel_set_kill_pid, channel_set_pid, channel_start, channel_stop,
  channel_mute, channel_unmute, channel_get_args, channel_get_created_at, channel_get_env,
  channel_get_exit_status, channel_get_kill_pid, channel_get_pid, channel_get_pid_set,
  channel_get_sources, channel_get_state, channel_get_target, channel_get_working_dir,
  manager_remove_channel, SourceCall, source_get_plugin, manager_remove_source, SubscriptionCall,
  subscription_add_channel, subscription_remove_channel, subscription_add_source,
  subscription_remove_source, subscription_get_buffer, subscription_get_created_at,
  subscription_get_sources, subscription_mute, subscription_unmute, subscription_set_buffer,
  manager_remove_subscription, PluginCall, manager_add_source, plugin_get_copyright,
  plugin_get_description, plugin_get_name, plugin_get_plugin_type, plugin_get_version, Request,
  on_channel, on_source, on_subscription, on_plugin, on_manager, Outside, serve_channel,
  serve_source, serve_subscription, serve_plugin, serve,
}

abbrev any_named : Bytes → (ℕ → Plugin.Plugin) → List ℕ → Bool
any_named name plugin_at [] = false
any_named name plugin_at (p ∷ plugins) =
    Manager.is_named name (Plugin.get_id (plugin_at p)) || any_named name plugin_at plugins

-- The id under which a request looks its channel up: "get_pid_set" asks for the channel 0, whatever
-- the id.
abbrev pub looked_up : ℕ → ChannelCall → ℕ
looked_up id channel_get_pid_set = 0
looked_up id _ = id

-- Whether the first object that a request looks up is in its array; a null plugin is in none.
abbrev pub is_known : Request → Agent → Bool
is_known (on_channel id x) a =
    contains (map (λ c. (a.world.channels c).id) a.channels) (looked_up id x)
is_known (on_source id x) a = contains (map (λ s. (a.world.sources s).id) a.sources) id
is_known (on_subscription id x) a =
    contains (map (λ p. (a.world.subscriptions p).id) a.subscriptions) id
is_known (on_plugin none x) a = false
is_known (on_plugin (some name) x) a = any_named name a.plugin_at a.plugins
is_known (on_manager x) a = true

-- The error of a finder.
abbrev pub unknown_error : Request → Error
unknown_error (on_plugin name x) = invalid_type
unknown_error _ = not_authorized

none_found :
    (id_of : ℕ → ℕ) (id : ℕ) (xs : List ℕ)
    → contains (map id_of xs) id ≡ false
    → found_or not_authorized (find_by id_of id xs) ≡ refused (some not_authorized)
none_found id_of id [] h = refl
none_found id_of id (x ∷ xs) h = ground (arith, none_found id_of id xs (ground arith))

find_plugin_in-none :
    (name : Bytes) (xs : List ℕ) (a : Agent)
    → any_named name a.plugin_at xs ≡ false
    → Manager.find_plugin_in name xs a ≡ none
unfolding Manager.find_plugin_in
find_plugin_in-none name [] a h = refl
find_plugin_in-none name (x ∷ xs) a h = ground (arith, find_plugin_in-none name xs a (ground arith))

no_plugin :
    (id : Option Bytes) (x : PluginCall) (a : Agent)
    → is_known (on_plugin id x) a ≡ false
    → Manager.find_plugin default_context id a ≡ refused (some invalid_type)
unfolding Manager.find_plugin
no_plugin none x a h = refl
no_plugin (some name) x a h = ap (found_or invalid_type) (find_plugin_in-none name a.plugins a h)

-- A failed lookup decides the outcome.
stops :
    {e : Option Error} (a : Agent) (x : Answer ℕ) (f : ℕ → Outcome)
    → x ≡ refused e
    → with_found a x f ≡ (a, refused e)
unfolding with_found
stops a x f h = ap (λ y. with_found a y f) h

unknown_channel :
    (o : Outside) (id : ℕ) (x : ChannelCall) (a : Agent)
    → Manager.find_channel default_context (looked_up id x) a ≡ refused (some not_authorized)
    → serve_channel o id x a ≡ (a, refused (some not_authorized))
unfolding serve_channel OnChannels.add_source OnChannels.set_args OnChannels.set_env
    OnChannels.set_target OnChannels.set_working_dir OnChannels.set_kill_pid OnChannels.set_pid
    OnChannels.start OnChannels.stop OnChannels.mute OnChannels.unmute OnChannels.get_args
    OnChannels.get_created_at OnChannels.get_env OnChannels.get_exit_status OnChannels.get_kill_pid
    OnChannels.get_pid OnChannels.get_pid_set OnChannels.get_sources OnChannels.get_state
    OnChannels.get_target OnChannels.get_working_dir OnManager.remove_channel
unknown_channel o id (channel_add_source s) a h = stops a _ _ h
unknown_channel o id (channel_set_args v) a h = stops a _ _ h
unknown_channel o id (channel_set_env v) a h = stops a _ _ h
unknown_channel o id (channel_set_target v) a h = stops a _ _ h
unknown_channel o id (channel_set_working_dir v) a h = stops a _ _ h
unknown_channel o id (channel_set_kill_pid v) a h = stops a _ _ h
unknown_channel o id (channel_set_pid v) a h = stops a _ _ h
unknown_channel o id channel_start a h = stops a _ _ h
unknown_channel o id channel_stop a h = stops a _ _ h
unknown_channel o id channel_mute a h = stops a _ _ h
unknown_channel o id channel_unmute a h = stops a _ _ h
unknown_channel o id channel_get_args a h = stops a _ _ h
unknown_channel o id channel_get_created_at a h = stops a _ _ h
unknown_channel o id channel_get_env a h = stops a _ _ h
unknown_channel o id channel_get_exit_status a h = stops a _ _ h
unknown_channel o id channel_get_kill_pid a h = stops a _ _ h
unknown_channel o id channel_get_pid a h = stops a _ _ h
unknown_channel o id channel_get_pid_set a h = stops a _ _ h
unknown_channel o id channel_get_sources a h = stops a _ _ h
unknown_channel o id channel_get_state a h = stops a _ _ h
unknown_channel o id channel_get_target a h = stops a _ _ h
unknown_channel o id channel_get_working_dir a h = stops a _ _ h
unknown_channel o id manager_remove_channel a h = stops a _ _ h

unknown_source :
    (o : Outside) (id : ℕ) (x : SourceCall) (a : Agent)
    → Manager.find_source default_context id a ≡ refused (some not_authorized)
    → serve_source o id x a ≡ (a, refused (some not_authorized))
unfolding serve_source OnManager.get_source_plugin OnManager.remove_source
unknown_source o id source_get_plugin a h = stops a _ _ h
unknown_source o id manager_remove_source a h = stops a _ _ h

unknown_subscription :
    (o : Outside) (id : ℕ) (x : SubscriptionCall) (a : Agent)
    → Manager.find_subscription default_context id a ≡ refused (some not_authorized)
    → serve_subscription o id x a ≡ (a, refused (some not_authorized))
unfolding serve_subscription OnSubscriptions.add_channel OnSubscriptions.remove_channel
    OnSubscriptions.add_source OnSubscriptions.remove_source OnSubscriptions.get_buffer
    OnSubscriptions.get_created_at OnSubscriptions.get_sources OnSubscriptions.mute
    OnSubscriptions.unmute OnSubscriptions.set_buffer OnManager.remove_subscription
unknown_subscription o id (subscription_add_channel c monitor) a h = stops a _ _ h
unknown_subscription o id (subscription_remove_channel c) a h = stops a _ _ h
unknown_subscription o id (subscription_add_source s) a h = stops a _ _ h
unknown_subscription o id (subscription_remove_source s) a h = stops a _ _ h
unknown_subscription o id subscription_get_buffer a h = stops a _ _ h
unknown_subscription o id subscription_get_created_at a h = stops a _ _ h
unknown_subscription o id subscription_get_sources a h = stops a _ _ h
unknown_subscription o id (subscription_mute drain) a h = stops a _ _ h
unknown_subscription o id subscription_unmute a h = stops a _ _ h
unknown_subscription o id (subscription_set_buffer timeout size) a h = stops a _ _ h
unknown_subscription o id manager_remove_subscription a h = stops a _ _ h

unknown_plugin :
    (o : Outside) (id : Option Bytes) (x : PluginCall) (a : Agent)
    → Manager.find_plugin default_context id a ≡ refused (some invalid_type)
    → serve_plugin o id x a ≡ (a, refused (some invalid_type))
unfolding serve_plugin OnManager.add_source OnManager.get_copyright OnManager.get_description
    OnManager.get_name OnManager.get_plugin_type OnManager.get_plugin_version
unknown_plugin o id manager_add_source a h = stops a _ _ h
unknown_plugin o id plugin_get_copyright a h = stops a _ _ h
unknown_plugin o id plugin_get_description a h = stops a _ _ h
unknown_plugin o id plugin_get_name a h = stops a _ _ h
unknown_plugin o id plugin_get_plugin_type a h = stops a _ _ h
unknown_plugin o id plugin_get_version a h = stops a _ _ h

-- A request whose first object is not registered changes nothing, and fails: with "not authorized"
-- for the id of a channel, a source or a subscription, with "invalid type" for the name of a plugin
-- or none. The object is the one of the id or the name that the request gives, save that the
-- question whether a channel's pid was set looks up the channel 0, whatever id it gives.
pub unknown_refused :
    (o : Outside) (r : Request) (a : Agent)
    → is_known r a ≡ false
    → serve o r a ≡ (a, refused (some (unknown_error r)))
unfolding serve Manager.find_channel Manager.find_source Manager.find_subscription
unknown_refused o (on_channel id x) a h =
    unknown_channel o id x a (none_found _ (looked_up id x) a.channels h)
unknown_refused o (on_source id x) a h = unknown_source o id x a (none_found _ id a.sources h)
unknown_refused o (on_subscription id x) a h =
    unknown_subscription o id x a (none_found _ id a.subscriptions h)
unknown_refused o (on_plugin id x) a h = unknown_plugin o id x a (no_plugin id x a h)
unknown_refused o (on_manager x) a h = cc
