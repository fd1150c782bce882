-- ===== src/Bus/Calls.antt =====
-- A whole call: the client sends a message, the agent takes it for a request, serves it and answers,
-- and the client finishes the call.
use perfkit.Prelude.{ℕ, ◌≡◌, ◌∙◌, ap, Bool, true, false, Option, none, some}
use perfkit.Context.{Error, accepted, rejected, default_context}
use perfkit.Wire.{Bytes}
use perfkit.Agent.{Agent, Answer, answer, refused}
use perfkit.Manager
use perfkit.Bus.{ObjectPath, ErrorText, TimeText, TimeTextLaw}
use perfkit.Listener.{Value, Outcome, with_found, reply_answer}
use perfkit.Listener.OnChannels
use perfkit.Listener.OnManager
use perfkit.Listener.OnSubscriptions
use perfkit.Listener.Serve.{
  ChannelCall, channel_add_source, channel_set_args, channel_set_env, channel_set_target,
  channel_set_working_dir, channel_set_kill_pid, channel_set_pid, channel_start, channel_stop,
  channel_mute, channel_unmute, channel_get_args, channel_get_created_at, channel_get_env,
  channel_get_exit_status, channel_get_kill_pid, channel_get_pid, channel_get_pid_set,
  channel_get_sources, channel_get_state, channel_get_target, channel_get_working_dir,
  manager_remove_channel, SourceCall, source_get_plugin, manager_remove_source, SubscriptionCall,
  subscription_add_channel, subscription_remove_channel, subscription_add_source,
  subscription_remove_source, subscription_get_buffer, subscription_get_created_at,
  subscription_get_sources, subscription_mute, subscription_unmute, subscription_set_buffer,
  manager_remove_subscription, PluginCall, manager_add_source, plugin_get_copyright,
  plugin_get_description, plugin_get_name, plugin_get_plugin_type, plugin_get_version, ManagerCall,
  manager_add_channel, manager_add_subscription, manager_get_channels, manager_get_sources,
  manager_get_subscriptions, manager_get_plugins, manager_get_hostname, manager_get_version,
  manager_ping, Request, on_channel, on_source, on_subscription, on_plugin, on_manager, Outside,
  serve_channel, serve_source, serve_subscription, serve_plugin, serve_manager, serve,
}
use perfkit.Listener.Messages.{Handling, unhandled, requested, elsewhere}
use perfkit.Client.Answers.{Finished, lost}
use perfkit.Registry.Lookup.{with_found-cases}
use perfkit.Bus.Sent.{sent, is_expressed, delivered, is_registered}
use perfkit.Bus.Arrives.{call_arrives}
use perfkit.Bus.Shapes.{
  Shape, a_nothing, an_int, Fits, fits_nothing, fits_flag, fits_int, fits_two, fits_text,
  fits_texts, fits_time, fits_id, fits_ids, Yields, yields, stops, seen_answer,
}
use perfkit.Bus.Tables.{
  shape, channel_shape, source_shape, subscription_shape, plugin_shape, manager_shape, replied,
  finished,
}
use perfkit.Bus.Returns.{answer_returns}

found_Yields :
    (s : Shape) (a : Agent) (x : Answer ℕ) (f : ℕ → Outcome)
    → ((c : ℕ) → Yields s (f c).1)
    → Yields s (with_found a x f).1
found_Yields s a x f h = with_found-cases (λ r. Yields s r.1) a x f (λ e. stops e) (λ c e. h c)

reply_Yields : (r : perfkit.Context.Reply) → Yields a_nothing (reply_answer r)
reply_Yields accepted = yields _ fits_nothing
reply_Yields (rejected e) = stops e

status_Yields :
    (a : Agent) (status : Option ℕ) (r : perfkit.Context.Reply)
    → Yields an_int (OnChannels.status_outcome a status r).1
status_Yields a status (rejected e) = stops e
status_Yields a none accepted = yields _ (fits_int _)
status_Yields a (some n) accepted = yields _ (fits_int _)

removal-Yields :
    (s : Shape) (value : Bool → Value) (x : Agent × Answer Bool)
    → ((r : Bool) → Fits s (value r))
    → Yields s (OnManager.removal value x).1
removal-Yields s value (a, answer r) h = yields _ (h r)
removal-Yields s value (a, refused e) h = stops e

channel_Yields :
    (o : Outside) (id : ℕ) (x : ChannelCall) (a : Agent)
    → Yields (channel_shape x) (serve_channel o id x a).1
unfolding serve_channel OnChannels.add_source OnChannels.get_args OnChannels.get_created_at
    OnChannels.get_env OnChannels.get_exit_status OnChannels.get_kill_pid OnChannels.get_pid
    OnChannels.get_pid_set OnChannels.get_sources OnChannels.get_state OnChannels.get_target
    OnChannels.get_working_dir OnChannels.mute OnChannels.set_args OnChannels.set_env
    OnChannels.set_kill_pid OnChannels.set_pid OnChannels.set_target OnChannels.set_working_dir
    OnChannels.start OnChannels.stop OnChannels.unmute OnManager.remove_channel
channel_Yields o id (channel_add_source x) a =
    found_Yields _ a _ _ (λ c. found_Yields _ a _ _ (λ q. reply_Yields _))
channel_Yields o id channel_get_args a = found_Yields _ a _ _ (λ c. yields _ (fits_texts _))
channel_Yields o id channel_get_created_at a = found_Yields _ a _ _ (λ c. yields _ (fits_time _))
channel_Yields o id channel_get_env a = found_Yields _ a _ _ (λ c. yields _ (fits_texts _))
channel_Yields o id channel_get_exit_status a = found_Yields _ a _ _ (λ c. status_Yields a _ _)
channel_Yields o id channel_get_kill_pid a = found_Yields _ a _ _ (λ c. yields _ (fits_flag _))
channel_Yields o id channel_get_pid a = found_Yields _ a _ _ (λ c. yields _ (fits_int _))
channel_Yields o id channel_get_pid_set a = found_Yields _ a _ _ (λ c. yields _ (fits_flag _))
channel_Yields o id channel_get_sources a = found_Yields _ a _ _ (λ c. yields _ (fits_ids _ _))
channel_Yields o id channel_get_state a = found_Yields _ a _ _ (λ c. yields _ (fits_int _))
channel_Yields o id channel_get_target a = found_Yields _ a _ _ (λ c. yields _ (fits_text _))
channel_Yields o id channel_get_working_dir a = found_Yields _ a _ _ (λ c. yields _ (fits_text _))
channel_Yields o id channel_mute a = found_Yields _ a _ _ (λ c. reply_Yields _)
channel_Yields o id (channel_set_args x) a = found_Yields _ a _ _ (λ c. reply_Yields _)
channel_Yields o id (channel_set_env x) a = found_Yields _ a _ _ (λ c. reply_Yields _)
channel_Yields o id (channel_set_kill_pid x) a = found_Yields _ a _ _ (λ c. reply_Yields _)
channel_Yields o id (channel_set_pid x) a = found_Yields _ a _ _ (λ c. reply_Yields _)
channel_Yields o id (channel_set_target x) a = found_Yields _ a _ _ (λ c. reply_Yields _)
channel_Yields o id (channel_set_working_dir x) a = found_Yields _ a _ _ (λ c. reply_Yields _)
channel_Yields o id channel_start a = found_Yields _ a _ _ (λ c. reply_Yields _)
channel_Yields o id channel_stop a = found_Yields _ a _ _ (λ c. reply_Yields _)
channel_Yields o id channel_unmute a = found_Yields _ a _ _ (λ c. reply_Yields _)
channel_Yields o id manager_remove_channel a =
    found_Yields _ a _ _ (λ c. removal-Yields _ _ _ (λ r. fits_flag true))

subscription_Yields :
    (o : Outside) (id : ℕ) (x : SubscriptionCall) (a : Agent)
    → Yields (subscription_shape x) (serve_subscription o id x a).1
unfolding serve_subscription OnSubscriptions.add_channel OnSubscriptions.add_source
    OnSubscriptions.get_buffer OnSubscriptions.get_created_at OnSubscriptions.get_sources
    OnSubscriptions.mute OnSubscriptions.remove_channel OnSubscriptions.remove_source
    OnSubscriptions.set_buffer OnSubscriptions.unmute OnManager.remove_subscription
subscription_Yields o id (subscription_add_channel x monitor) a =
    found_Yields _ a _ _ (λ p. found_Yields _ a _ _ (λ q. reply_Yields _))
subscription_Yields o id (subscription_add_source x) a =
    found_Yields _ a _ _ (λ p. found_Yields _ a _ _ (λ q. reply_Yields _))
subscription_Yields o id subscription_get_buffer a =
    found_Yields _ a _ _ (λ p. yields _ (fits_two _ _))
subscription_Yields o id subscription_get_created_at a =
    found_Yields _ a _ _ (λ p. yields _ (fits_time _))
subscription_Yields o id subscription_get_sources a =
    found_Yields _ a _ _ (λ p. yields _ (fits_ids _ _))
subscription_Yields o id (subscription_mute x) a = found_Yields _ a _ _ (λ p. reply_Yields _)
subscription_Yields o id (subscription_remove_channel x) a =
    found_Yields _ a _ _ (λ p. found_Yields _ a _ _ (λ q. reply_Yields _))
subscription_Yields o id (subscription_remove_source x) a =
    found_Yields _ a _ _ (λ p. found_Yields _ a _ _ (λ q. reply_Yields _))
subscription_Yields o id (subscription_set_buffer x y) a =
    found_Yields _ a _ _ (λ p. reply_Yields _)
subscription_Yields o id subscription_unmute a = found_Yields _ a _ _ (λ p. reply_Yields _)
subscription_Yields o id manager_remove_subscription a =
    found_Yields _ a _ _ (λ p. removal-Yields _ _ _ (λ r. fits_flag r))

plugin_Yields :
    (o : Outside) (name : Option Bytes) (x : PluginCall) (a : Agent)
    → Yields (plugin_shape x) (serve_plugin o name x a).1
unfolding serve_plugin OnManager.add_source OnManager.get_copyright OnManager.get_description
    OnManager.get_name OnManager.get_plugin_type OnManager.get_plugin_version
plugin_Yields o name manager_add_source a = found_Yields _ a _ _ (λ p.
    found_Yields _ (Manager.add_source default_context o.factory p a).0 _ _
      (λ q. yields _ (fits_id _ _)))
plugin_Yields o name plugin_get_copyright a = found_Yields _ a _ _ (λ p. yields _ (fits_text _))
plugin_Yields o name plugin_get_description a = found_Yields _ a _ _ (λ p. yields _ (fits_text _))
plugin_Yields o name plugin_get_name a = found_Yields _ a _ _ (λ p. yields _ (fits_text _))
plugin_Yields o name plugin_get_plugin_type a = found_Yields _ a _ _ (λ p. yields _ (fits_int _))
plugin_Yields o name plugin_get_version a = found_Yields _ a _ _ (λ p. yields _ (fits_text _))

-- The results that hold names of plugins, which the plugins' modules choose.
abbrev pub has_names : Request → Bool
has_names (on_source id source_get_plugin) = true
has_names (on_manager manager_get_plugins) = true
has_names _ = false

source_Yields :
    (o : Outside) (id : ℕ) (x : SourceCall) (a : Agent)
    → has_names (on_source id x) ≡ false
    → Yields (source_shape x) (serve_source o id x a).1
unfolding serve_source OnManager.remove_source
source_Yields o id source_get_plugin a h = cc
source_Yields o id manager_remove_source a h =
    found_Yields _ a _ _ (λ s. removal-Yields _ _ _ (λ r. fits_nothing))

manager_Yields :
    (o : Outside) (x : ManagerCall) (a : Agent)
    → has_names (on_manager x) ≡ false
    → Yields (manager_shape x) (serve_manager o x a).1
unfolding serve_manager OnManager.add_channel OnManager.add_subscription OnManager.get_channels
    OnManager.get_sources OnManager.get_subscriptions OnManager.get_hostname OnManager.get_version
    OnManager.ping
manager_Yields o manager_add_channel a h = found_Yields _ _ _ _ (λ c. yields _ (fits_id _ _))
manager_Yields o (manager_add_subscription size timeout) a h =
    found_Yields _ _ _ _ (λ c. yields _ (fits_id _ _))
manager_Yields o manager_get_channels a h = yields _ (fits_ids _ _)
manager_Yields o manager_get_sources a h = yields _ (fits_ids _ _)
manager_Yields o manager_get_subscriptions a h = yields _ (fits_ids _ _)
manager_Yields o manager_get_plugins a h = cc
manager_Yields o manager_get_hostname a h = yields _ (fits_text _)
manager_Yields o manager_get_version a h = yields _ (fits_text _)
manager_Yields o manager_ping a h = yields _ (fits_time _)

serve-Yields :
    (o : Outside) (r : Request) (a : Agent) → has_names r ≡ false → Yields (shape r) (serve o r a).1
unfolding serve
serve-Yields o (on_channel id x) a h = channel_Yields o id x a
serve-Yields o (on_source id x) a h = source_Yields o id x a h
serve-Yields o (on_subscription id x) a h = subscription_Yields o id x a
serve-Yields o (on_plugin name x) a h = plugin_Yields o name x a
serve-Yields o (on_manager x) a h = manager_Yields o x a h

-- The agent and the result of the client after a call.
abbrev pub handled : ErrorText → TimeText → Outside → Request → Agent → Handling → Agent × Finished
handled u t o r a (requested q) = let (a', y) = serve o q a in (a', finished t r (replied u t q y))
handled u t o r a unhandled = (a, lost)
handled u t o r a elsewhere = (a, lost)

abbrev pub remote_call :
    (ObjectPath → Bool) → ErrorText → TimeText → Outside → Request → Agent → Agent × Finished
remote_call registered u t o r a = handled u t o r a (delivered registered (sent r))

-- The client makes a call with no null string, array or name, names plugins by words without
-- spaces, does not remove a channel, asks for no names of plugins, and gives a new subscription no
-- buffer and no timeout; the agent has registered the path that the message goes to, and the text
-- of a time gives the time back. Then the agent changes as if it were asked directly, and the
-- client's call hands out the value of this answer, or fails with an error of the client's own
-- domain and code whose message is the name that errors are sent under, a colon, a space and the
-- text of this answer's error; a null string or array is handed out as an empty one, and a failure
-- without an error gets no answer.
pub remote_direct :
    (registered : ObjectPath → Bool) (u : ErrorText) (t : TimeText) (law : TimeTextLaw t)
    (o : Outside) (r : Request) (a : Agent)
    → is_expressed r ≡ true
    → has_names r ≡ false
    → is_registered registered (sent r) ≡ true
    → remote_call registered u t o r a ≡ ((serve o r a).0, seen_answer u (serve o r a).1)
remote_direct registered u t law o r a e n h =
    ap (handled u t o r a) (call_arrives registered r e h)
    ∙ ap (λ y. ((serve o r a).0, y))
        (answer_returns u t law r (serve o r a).1 (serve-Yields o r a n))
