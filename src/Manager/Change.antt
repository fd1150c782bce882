-- ===== src/Manager/Change.antt =====
-- perfkit-agent/pka-manager.c: adding and removing objects, and the shutdown.
use mathlib.Core.List.{reverse}
use perfkit.Prelude.{
  ℕ, ◌+◌, Bool, true, false, none, some, List, [], ◌∷◌, ◌++◌, if◌then◌else◌, contains,
}
use perfkit.Context
use perfkit.Context.{
  Context, Ioctl, Error, not_authorized, invalid_type, is_authorized, default_context,
}
use perfkit.Wire.{Bytes}
use perfkit.Plugin.{Made, made, unmade, get_plugin_type}
use perfkit.World.{World, put_channel, put_source, put_subscription}
use perfkit.Agent.{
  Agent, encoder_added, source_added, source_removed, channel_added, subscription_added,
  subscription_removed, Answer, answer, refused,
}
use perfkit.Source
use perfkit.Subscription
use perfkit.Channel
use perfkit.Manager.Setup.{
  authorized, notify, remove_first, get_encoder_id, is_source, is_encoder, create,
}

unfoldable pub add_channel : Context → Bytes → ℕ → Agent → Agent × Answer ℕ
unfolding is_authorized Channel.new
add_channel context tmp_dir now a =
    let c = a.next_channel in
    authorized context Context.add_channel a (
      notify (channel_added c) (record a {
        world = put_channel c (Channel.new c tmp_dir now) a.world;
        channels = a.channels ++ (c ∷ []);
        next_channel = c + 1;
      }),
      answer c,
    )

unfoldable pub add_encoder : Context → (ℕ → Made) → ℕ → Agent → Agent × Answer ℕ
unfolding is_authorized get_plugin_type get_encoder_id
add_encoder context factory plugin a = authorized context Context.add_encoder a (
    if is_encoder (get_plugin_type (a.plugin_at plugin))
    then elim (create factory a plugin) [
      | unmade e ↦ (a, refused e)
      | made ↦
          let e = a.next_encoder in
          let (a', id) =
            get_encoder_id e
              (record a { encoders = a.encoders ++ (e ∷ []); next_encoder = e + 1 }) in
          (notify (encoder_added id) a', answer e)
    ]
    else (a, refused (some invalid_type)))

-- The end of `pka_manager_add_source`, by what the factory answers; the plugin of a new object is
-- set by `pka_plugin_create`.
unfoldable pub made_source : ℕ → Made → Agent → Agent × Answer ℕ
unfolding Source.new Source.set_plugin
made_source plugin (unmade e) a = (a, refused e)
made_source plugin made a =
    let s = a.next_source in
    (
      notify (source_added s) (record a {
        world = Source.set_plugin s plugin (put_source s (Source.new s) a.world);
        sources = a.sources ++ (s ∷ []);
        next_source = s + 1;
      }),
      answer s,
    )

unfoldable pub add_source : Context → (ℕ → Made) → ℕ → Agent → Agent × Answer ℕ
unfolding is_authorized get_plugin_type made_source
add_source context factory plugin a = authorized context Context.add_source a (
    if is_source (get_plugin_type (a.plugin_at plugin))
    then made_source plugin (create factory a plugin) a
    else (a, refused (some invalid_type)))

unfoldable pub add_subscription : Context → ℕ → Agent → Agent × Answer ℕ
unfolding is_authorized Subscription.new
add_subscription context now a =
    let p = a.next_subscription in
    authorized context Context.add_subscription a (
      notify (subscription_added p) (record a {
        world = put_subscription p (Subscription.new p now) a.world;
        subscriptions = a.subscriptions ++ (p ∷ []);
        next_subscription = p + 1;
      }),
      answer p,
    )

-- The removal is under `if (FALSE)`.
unfoldable pub remove_channel : Context → ℕ → Agent → Agent × Answer Bool
unfolding is_authorized
remove_channel context c a = authorized context Context.remove_channel a (a, answer true)

unfoldable pub remove_encoder : Context → ℕ → Agent → Agent × Answer Bool
unfolding is_authorized
remove_encoder context e a = authorized context Context.remove_encoder a (a, answer true)

-- FALSE, with no error, for a source that is not there.
unfoldable pub remove_source : Context → ℕ → Agent → Agent × Answer Bool
unfolding is_authorized Source.notify_stopped
remove_source context s a =
    let a' = record a {
      world = Source.notify_stopped s a.world;
      sources = remove_first s a.sources;
    } in
    authorized context Context.remove_source a (
      if contains a.sources s
      then (notify (source_removed (a.world.sources s).id) a', answer true)
      else (a', refused none))

unfoldable pub remove_subscription : Context → ℕ → Agent → Agent × Answer Bool
unfolding is_authorized
remove_subscription context p a = authorized context Context.remove_subscription a (
  notify (subscription_removed (a.world.subscriptions p).id)
      (record a { subscriptions = remove_first p a.subscriptions }),
  answer true,
)

-- The two loops of `pka_manager_shutdown`, from the last object to the first.
unfoldable pub mute_all : List ℕ → World → World
unfolding Subscription.mute default_context
mute_all [] w = w
mute_all (p ∷ ps) w = mute_all ps (Subscription.mute p default_context false w).0

unfoldable pub stop_all : List ℕ → World → World
unfolding Channel.stop default_context
stop_all [] w = w
stop_all (c ∷ cs) w = stop_all cs (Channel.stop c default_context w).0

unfoldable pub shutdown : Agent → Agent
unfolding mute_all stop_all
shutdown a = record a {
  world = stop_all (reverse a.channels) (mute_all (reverse a.subscriptions) a.world);
  channels = [];
  subscriptions = [];
}
