-- ===== src/Tests/Requests.antt =====
-- The theorems on the registry, at an agent with one plugin that has served some requests.
use perfkit.Prelude.{
  ℕ, ◌+◌, ◌≡◌, refl, ◌↔◌, Bool, true, false, Option, none, some, List, [], ◌∷◌, contains, map,
  length,
}
use perfkit.Context.{not_authorized, is_authorized, default_context}
use perfkit.Wire.{Bytes}
use perfkit.Sample.{Sample}
use perfkit.Plugin
use perfkit.Plugin.{PluginInfo, PluginType, Made, made}
use perfkit.Tests.{words, clock, context, host, fresh}
use perfkit.Agent.{Agent, answer, refused}
use perfkit.Source
use perfkit.Subscription
use perfkit.Manager
use perfkit.Listener.{done, flag, number, with_found}
use perfkit.Listener.OnManager
use perfkit.Listener.Serve.{
  channel_add_source, channel_start, channel_stop, manager_remove_source, subscription_add_channel,
  manager_remove_subscription, manager_add_source, manager_add_channel, manager_add_subscription,
  manager_remove_channel, Request, on_channel, on_source, on_subscription, on_plugin, on_manager,
  Outside, serve_plugin, serve_manager, serve, serve_all,
}
use perfkit.System.{run}
use perfkit.System.Signals.{signals}
use perfkit.System.Idle.{IsFresh}
use perfkit.Registry.Refused.{unknown_refused}
use perfkit.Registry.Commands.{commands}
use perfkit.Registry.Refines.{serve_follows}
use perfkit.Registry.Consistent.{IsConsistent}
use perfkit.Registry.Begun.{requests-IsConsistent}
use perfkit.Registry.Ended.{shutdown_silences}
use perfkit.Registry.Growth.{ids_bounded, given, all_below}
use perfkit.Registry.Reach.{
  new_channel_reached, listed_iff_found, removed_source, removed_subscription,
}

fresh-IsFresh : IsFresh fresh
fresh-IsFresh = record {
  no_members = λ c. refl;
  not_running = λ s. refl;
  no_timeouts = refl;
  no_calls = refl;
}

-- A plugin that makes sources.
abbrev files : List (Bool × Option PluginInfo)
files =
    (
      true,
      some (record {
        factory = true;
        plugin_type = PluginType.source;
        id = 99 ∷ [];
        name = [];
        version = [];
        description = [];
        copyright = [];
      }),
    )
    ∷ (false, none)
    ∷ []

abbrev configured : Bytes → Option Bool
configured g = some false

abbrev factory : ℕ → Made
factory p = made

abbrev listens : ℕ → Bool
listens l = true

abbrev pub outside : Outside
outside = record {
  buffer = words;
  time = clock;
  host = host;
  factory = factory;
  tmp_dir = 47 ∷ [];
  now = 12;
  hostname = 104 ∷ [];
  version = 48 ∷ [];
}

abbrev born : Agent
born = Manager.init files configured factory listens fresh

-- A channel with a source, and a subscription to the channel; the channel is started.
abbrev requests : List (Outside × Request)
requests =
    (outside, on_manager manager_add_channel)
    ∷ (outside, on_plugin (some (99 ∷ [])) manager_add_source)
    ∷ (outside, on_manager (manager_add_subscription 0 0))
    ∷ (outside, on_channel 0 (channel_add_source 0))
    ∷ (outside, on_subscription 0 (subscription_add_channel 0 true))
    ∷ (outside, on_channel 0 channel_start)
    ∷ []

abbrev pub agent : Agent
agent = serve_all requests born

requests-IsConsistent_example :
    IsConsistent (serve_all requests (Manager.init files configured factory listens fresh))
requests-IsConsistent_example =
    requests-IsConsistent files configured factory listens requests fresh fresh-IsFresh

agent-IsConsistent : IsConsistent agent
agent-IsConsistent =
    requests-IsConsistent files configured factory listens requests fresh fresh-IsFresh

unknown_refused_example :
    serve outside (on_plugin none manager_add_source) agent
    ≡ (agent, refused (some perfkit.Context.invalid_type))
unknown_refused_example = unknown_refused outside (on_plugin none manager_add_source) agent refl

serve_follows_example :
    (serve outside (on_channel 0 channel_stop) agent).0.world
    ≡ run words clock default_context
        (commands outside (on_channel 0 channel_stop) agent)
        agent.world
serve_follows_example = serve_follows outside (on_channel 0 channel_stop) agent refl

shutdown_silences_example :
    let a = Manager.shutdown agent in
    (a.channels ≡ [])
    × (a.subscriptions ≡ [])
    × ((s : ℕ) → ((a.world.sources s).running ≡ false) × (signals s a.world ≡ false))
shutdown_silences_example = shutdown_silences agent agent-IsConsistent

ids_bounded_example :
    let a = serve_all requests agent in
    let bound = given agent + length requests in
    (all_below bound (map (λ c. (a.world.channels c).id) a.channels) ≡ true)
    × (all_below bound (map (λ s. (a.world.sources s).id) a.sources) ≡ true)
    × (all_below bound (map (λ p. (a.world.subscriptions p).id) a.subscriptions) ≡ true)
ids_bounded_example = ids_bounded requests agent agent-IsConsistent

new_channel_reached_example :
    let (a, reply) = serve outside (on_manager manager_add_channel) agent in
    (reply ≡ answer (number agent.next_channel))
    × (Manager.find_channel context agent.next_channel (serve_all requests a)
        ≡ answer agent.next_channel)
    × ((o : Outside)
        → serve o (on_channel agent.next_channel manager_remove_channel) (serve_all requests a)
          ≡ (serve_all requests a, answer (flag true)))
new_channel_reached_example = new_channel_reached outside requests context agent agent-IsConsistent

listed_iff_found_example :
    ((contains (map (λ c. (agent.world.channels c).id) (Manager.get_channels context agent)) 0
        ≡ true)
      ↔ (Manager.find_channel context 0 agent ≡ answer 0))
    × ((contains (map (λ s. (agent.world.sources s).id) (Manager.get_sources context agent)) 0
          ≡ true)
        ↔ (Manager.find_source context 0 agent ≡ answer 0))
    × ((contains
            (map (λ p. (agent.world.subscriptions p).id) (Manager.get_subscriptions context agent))
            0
          ≡ true)
        ↔ (Manager.find_subscription context 0 agent ≡ answer 0))
listed_iff_found_example = listed_iff_found 0 context agent agent-IsConsistent

-- The same agent before its channel is started.
abbrev young : Agent
young =
    serve_all
      ((outside, on_plugin (some (99 ∷ [])) manager_add_source)
        ∷ (outside, on_manager (manager_add_subscription 0 0))
        ∷ [])
      born

young-IsConsistent : IsConsistent young
young-IsConsistent = requests-IsConsistent files configured factory listens _ fresh fresh-IsFresh

young_source : Manager.find_source context 0 young ≡ answer 0
unfolding serve_all serve serve_plugin serve_manager OnManager.add_source OnManager.add_subscription
    Manager.add_source Manager.made_source Manager.add_subscription Manager.find_source
    Manager.find_plugin Manager.find_plugin_in Manager.init Manager.load_plugins
    Manager.create_listeners Manager.start_listeners Manager.announce Plugin.load_from_file
    Plugin.get_plugin_type Plugin.get_id Plugin.is_disabled Source.new Source.set_plugin
    Subscription.new with_found is_authorized
young_source = refl

young_subscription : Manager.find_subscription context 0 young ≡ answer 0
unfolding serve_all serve serve_plugin serve_manager OnManager.add_source OnManager.add_subscription
    Manager.add_source Manager.made_source Manager.add_subscription Manager.find_subscription
    Manager.find_plugin Manager.find_plugin_in Manager.init Manager.load_plugins
    Manager.create_listeners Manager.start_listeners Manager.announce Plugin.load_from_file
    Plugin.get_plugin_type Plugin.get_id Plugin.is_disabled Source.new Source.set_plugin
    Subscription.new with_found is_authorized
young_subscription = refl

removed_source_example :
    let (a, reply) = serve outside (on_source 0 manager_remove_source) young in
    (reply ≡ answer done)
    × (Manager.find_source context 0 a ≡ refused (some not_authorized))
    × ((c : ℕ) → (a.world.channels c).sources ≡ (young.world.channels c).sources)
removed_source_example = removed_source outside 0 0 context young young-IsConsistent young_source

removed_subscription_example :
    let (a, reply) = serve outside (on_subscription 0 manager_remove_subscription) young in
    (reply ≡ answer (flag true))
    × (Manager.find_subscription context 0 a ≡ refused (some not_authorized))
    × ((serve outside (on_subscription 0 manager_remove_subscription) young).0.world ≡ young.world)
    × ((s : ℕ) (x : Sample)
        → (Source.deliver_sample words clock s x a.world).calls
          ≡ (Source.deliver_sample words clock s x young.world).calls)
removed_subscription_example =
    removed_subscription outside 0 0 context young young-IsConsistent young_subscription
