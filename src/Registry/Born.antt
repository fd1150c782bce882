-- ===== src/Registry/Born.antt =====
-- New objects, and the invariant over any sequence of requests.
use perfkit.Prelude.{
  ℕ, ◌+◌, ◌≡◌, refl, inl, inr, false, Option, none, some, List, [], ◌∷◌, ◌++◌, arith, contains,
  Bool-cases, Option-cases,
}
use perfkit.Context.{default_context}
use perfkit.Wire.{Bytes}
use perfkit.World.{World, put_source}
use perfkit.Plugin
use perfkit.Plugin.{Plugin, PluginInfo, Made, made, unmade}
use perfkit.Agent.{Agent, Answer}
use perfkit.Source
use perfkit.Subscription
use perfkit.Channel
use perfkit.Manager
use perfkit.Listener.{Outcome, with_found}
use perfkit.Listener.OnManager
use perfkit.Listener.Serve.{
  PluginCall, manager_add_source, plugin_get_copyright, plugin_get_description, plugin_get_name,
  plugin_get_plugin_type, plugin_get_version, ManagerCall, manager_add_channel,
  manager_add_subscription, manager_get_channels, manager_get_sources, manager_get_subscriptions,
  manager_get_plugins, manager_get_hostname, manager_get_version, manager_ping, Request, on_channel,
  on_source, on_subscription, on_plugin, on_manager, Outside, serve_plugin, serve_manager, serve,
  serve_all,
}
use perfkit.System.Frame.{put_subscription-Keeps, put_source-Keeps}
use perfkit.System.Invariant.{Keeps-Inv, contains-append}
use perfkit.Registry.Lookup.{with_found-cases}
use perfkit.Registry.Consistent.{
  IsConsistent, Fixed-IsConsistent, grown-IsArray, new_channel-Inv, new_source-Inv,
}
use perfkit.Registry.Fixed.{put_source-Fixed}
use perfkit.Registry.Kept.{channel_kept}
use perfkit.Registry.Left.{source_kept, subscription_kept, noted-IsConsistent}

-- No channel has the sources of a pointer that was not given out, and none has such a source.
no_channel_members :
    (a : Agent) (s : ℕ)
    → IsConsistent a
    → contains (a.world.channels a.next_channel).sources s ≡ false
no_channel_members a s v =
    elim (Bool-cases (contains (a.world.channels a.next_channel).sources s)) [
      | inl m ↦ let (below, _) = v.members a.next_channel s m in absurd (omega (arith, below))
      | inr n ↦ n
    ]

no_source_member :
    (a : Agent) (c : ℕ)
    → IsConsistent a
    → contains (a.world.channels c).sources a.next_source ≡ false
no_source_member a c v = elim (Bool-cases (contains (a.world.channels c).sources a.next_source)) [
  | inl m ↦ let (_, below) = v.members c a.next_source m in absurd (omega (arith, below))
  | inr n ↦ n
]

pub new_channel_kept :
    (tmp_dir : Bytes) (now : ℕ) (a : Agent)
    → IsConsistent a
    → IsConsistent (Manager.add_channel default_context tmp_dir now a).0
unfolding Manager.add_channel Channel.new
new_channel_kept tmp_dir now a v =
    let c = a.next_channel in
    let x = Channel.new c tmp_dir now in
    noted-IsConsistent _ _ (record {
      inv = new_channel-Inv c x a.world (λ s. no_channel_members a s v) refl v.inv;
      channels = grown-IsArray (ground arith) (λ d h. ground arith) v.channels;
      sources = v.sources;
      subscriptions = v.subscriptions;
      complete = λ d h. ground (arith, contains-append a.channels c d, v.complete d);
      members = λ d s m. ground (arith, v.members d s);
    })

pub new_subscription_kept :
    (now : ℕ) (a : Agent)
    → IsConsistent a
    → IsConsistent (Manager.add_subscription default_context now a).0
unfolding Manager.add_subscription Subscription.new
new_subscription_kept now a v =
    let p = a.next_subscription in
    let x = Subscription.new p now in
    noted-IsConsistent _ _ (record {
      inv = Keeps-Inv (put_subscription-Keeps p x a.world) v.inv;
      channels = v.channels;
      sources = v.sources;
      subscriptions = grown-IsArray (ground arith) (λ d h. ground arith) v.subscriptions;
      complete = v.complete;
      members = v.members;
    })

set_plugin_taken :
    (s p q : ℕ) (w : World) → (w.sources s).plugin ≡ some q → Source.set_plugin s p w ≡ w
unfolding Source.set_plugin
set_plugin_taken s p q w e = ground arith

set_plugin_free :
    (s p : ℕ) (w : World)
    → (w.sources s).plugin ≡ none
    → Source.set_plugin s p w ≡ put_source s (record (w.sources s) { plugin = some p }) w
unfolding Source.set_plugin
set_plugin_free s p w e = ground arith

-- A source's plugin says nothing of its name and its channel.
set_plugin_kept :
    (s p : ℕ) (a : Agent)
    → IsConsistent a
    → IsConsistent (record a { world = Source.set_plugin s p a.world })
set_plugin_kept s p a v = elim (Option-cases (a.world.sources s).plugin) [
  | inr (q, e) ↦ rw (set_plugin_taken s p q a.world e) v
  | inl e ↦
      let x = record (a.world.sources s) { plugin = some p } in
      rw (set_plugin_free s p a.world e) (
        Fixed-IsConsistent a _ (put_source-Fixed s x a.world refl)
          (Keeps-Inv (put_source-Keeps s x a.world refl refl) v.inv) v)
]

born_source_kept :
    (a : Agent)
    → IsConsistent a
    → IsConsistent (record a {
      world = put_source a.next_source (Source.new a.next_source) a.world;
      sources = a.sources ++ (a.next_source ∷ []);
      next_source = a.next_source + 1;
    })
unfolding Source.new
born_source_kept a v =
    let s = a.next_source in
    record {
      inv = new_source-Inv s (Source.new s) a.world (λ c. no_source_member a c v) refl v.inv;
      channels = v.channels;
      sources = grown-IsArray (ground arith) (λ d h. ground arith) v.sources;
      subscriptions = v.subscriptions;
      complete = v.complete;
      members = λ d q m. let (l, k) = v.members d q m in (l, omega (arith, k));
    }

made_source_kept :
    (plugin : ℕ) (m : Made) (a : Agent)
    → IsConsistent a
    → IsConsistent (Manager.made_source plugin m a).0
unfolding Manager.made_source
made_source_kept plugin (unmade e) a v = v
made_source_kept plugin made a v =
    noted-IsConsistent _ _ (set_plugin_kept a.next_source plugin _ (born_source_kept a v))

pub new_source_kept :
    (factory : ℕ → Made) (plugin : ℕ) (a : Agent)
    → IsConsistent a
    → IsConsistent (Manager.add_source default_context factory plugin a).0
unfolding Manager.add_source
new_source_kept factory plugin a v =
    elim (Bool-cases (Manager.is_source (Plugin.get_plugin_type (a.plugin_at plugin)))) [
      | inl p ↦ rw p (made_source_kept plugin _ a v)
      | inr n ↦ rw n v
    ]

found_kept :
    (a : Agent) (x : Answer ℕ) (f : ℕ → Outcome)
    → IsConsistent a
    → ((c : ℕ) → IsConsistent (f c).0)
    → IsConsistent (with_found a x f).0
found_kept a x f v h = with_found-cases (λ r. IsConsistent r.0) a x f (λ e. v) (λ c e. h c)

plugin_kept :
    (o : Outside) (x : PluginCall) (name : Option Bytes) (a : Agent)
    → IsConsistent a
    → IsConsistent (serve_plugin o name x a).0
unfolding serve_plugin OnManager.add_source OnManager.get_copyright OnManager.get_description
    OnManager.get_name OnManager.get_plugin_type OnManager.get_plugin_version
plugin_kept o manager_add_source name a v = found_kept a _ _ v (λ p.
    let u = new_source_kept o.factory p a v in
    found_kept (Manager.add_source default_context o.factory p a).0 _ _ u (λ q. u))
plugin_kept o plugin_get_copyright name a v = found_kept a _ _ v (λ p. v)
plugin_kept o plugin_get_description name a v = found_kept a _ _ v (λ p. v)
plugin_kept o plugin_get_name name a v = found_kept a _ _ v (λ p. v)
plugin_kept o plugin_get_plugin_type name a v = found_kept a _ _ v (λ p. v)
plugin_kept o plugin_get_version name a v = found_kept a _ _ v (λ p. v)

manager_kept :
    (o : Outside) (x : ManagerCall) (a : Agent)
    → IsConsistent a
    → IsConsistent (serve_manager o x a).0
unfolding serve_manager OnManager.add_channel OnManager.add_subscription OnManager.get_channels
    OnManager.get_sources OnManager.get_subscriptions OnManager.get_plugins OnManager.get_hostname
    OnManager.get_version OnManager.ping
manager_kept o manager_add_channel a v =
    let u = new_channel_kept o.tmp_dir o.now a v in found_kept _ _ _ u (λ c. u)
manager_kept o (manager_add_subscription size timeout) a v =
    let u = new_subscription_kept o.now a v in found_kept _ _ _ u (λ c. u)
manager_kept o manager_get_channels a v = v
manager_kept o manager_get_sources a v = v
manager_kept o manager_get_subscriptions a v = v
manager_kept o manager_get_plugins a v = v
manager_kept o manager_get_hostname a v = v
manager_kept o manager_get_version a v = v
manager_kept o manager_ping a v = v

pub serve_kept :
    (o : Outside) (r : Request) (a : Agent) → IsConsistent a → IsConsistent (serve o r a).0
unfolding serve
serve_kept o (on_channel id x) a v = channel_kept o x id a v
serve_kept o (on_source id x) a v = source_kept o x id a v
serve_kept o (on_subscription id x) a v = subscription_kept o x id a v
serve_kept o (on_plugin name x) a v = plugin_kept o x name a v
serve_kept o (on_manager x) a v = manager_kept o x a v

pub serve_all_kept :
    (requests : List (Outside × Request)) (a : Agent)
    → IsConsistent a
    → IsConsistent (serve_all requests a)
unfolding serve_all
serve_all_kept [] a v = v
serve_all_kept ((o, r) ∷ requests) a v = serve_all_kept requests _ (serve_kept o r a v)
