-- ===== src/Registry/Commands.antt =====
-- The requests on registered objects, as calls on the objects: what a client can do to them is what
-- the steps of System.antt do.
use perfkit.Prelude.{ℕ, ◌≡◌, refl, Bool, true, false, List, [], ◌∷◌}
use perfkit.Context.{default_context}
use perfkit.World.{World}
use perfkit.Agent.{Agent, Answer, answer, refused}
use perfkit.Manager
use perfkit.Listener.{Value, Outcome, with_found}
use perfkit.Listener.Serve.{
  ChannelCall, channel_add_source, channel_set_args, channel_set_env, channel_set_target,
  channel_set_working_dir, channel_set_kill_pid, channel_set_pid, channel_start, channel_stop,
  channel_mute, channel_unmute, SourceCall, source_get_plugin, manager_remove_source,
  SubscriptionCall, subscription_add_channel, subscription_remove_channel, subscription_add_source,
  subscription_remove_source, subscription_mute, subscription_unmute, subscription_set_buffer,
  manager_add_source, manager_add_channel, manager_add_subscription, Request, on_channel, on_source,
  on_subscription, on_plugin, on_manager, Outside,
}
use perfkit.System.{Command, run}

-- The commands on what a lookup finds.
unfoldable pub on_found : Answer ℕ → (ℕ → List Command) → List Command
on_found (refused e) f = []
on_found (answer x) f = f x

abbrev pub channel_commands : Outside → ChannelCall → ℕ → Agent → List Command
channel_commands o (channel_add_source id) c a =
    on_found (Manager.find_source default_context id a) (λ s. Command.add_source c s ∷ [])
channel_commands o (channel_set_args v) c a = Command.set_args c v ∷ []
channel_commands o (channel_set_env v) c a = Command.set_env c v ∷ []
channel_commands o (channel_set_target v) c a = Command.set_target c v ∷ []
channel_commands o (channel_set_working_dir v) c a = Command.set_working_dir c v ∷ []
channel_commands o (channel_set_kill_pid v) c a = Command.set_kill_pid c v ∷ []
channel_commands o (channel_set_pid v) c a = Command.set_pid c v ∷ []
channel_commands o channel_start c a = Command.start c o.host ∷ []
channel_commands o channel_stop c a = Command.stop c ∷ []
channel_commands o channel_mute c a = Command.mute c ∷ []
channel_commands o channel_unmute c a = Command.unmute c ∷ []
channel_commands o _ c a = []

abbrev pub source_commands : SourceCall → ℕ → List Command
source_commands source_get_plugin s = []
source_commands manager_remove_source s = Command.retire_source s ∷ []

abbrev pub subscription_commands : SubscriptionCall → ℕ → Agent → List Command
subscription_commands (subscription_add_channel id monitor) p a =
    on_found (Manager.find_channel default_context id a) (λ c. Command.subscribe_channel p c ∷ [])
subscription_commands (subscription_remove_channel id) p a =
    on_found (Manager.find_channel default_context id a) (λ c. Command.unsubscribe_channel p c ∷ [])
subscription_commands (subscription_add_source id) p a =
    on_found (Manager.find_source default_context id a) (λ s. Command.subscribe_source p s ∷ [])
subscription_commands (subscription_remove_source id) p a =
    on_found (Manager.find_source default_context id a) (λ s. Command.unsubscribe_source p s ∷ [])
subscription_commands (subscription_mute drain) p a = Command.set_state p 1 ∷ []
subscription_commands subscription_unmute p a = Command.set_state p 0 ∷ []
subscription_commands (subscription_set_buffer timeout size) p a =
    Command.set_buffer p timeout size ∷ []
subscription_commands _ p a = []

-- At most one call on the objects for each request.
abbrev pub commands : Outside → Request → Agent → List Command
commands o (on_channel id x) a =
    on_found (Manager.find_channel default_context id a) (λ c. channel_commands o x c a)
commands o (on_source id x) a =
    on_found (Manager.find_source default_context id a) (λ s. source_commands x s)
commands o (on_subscription id x) a =
    on_found (Manager.find_subscription default_context id a) (λ p. subscription_commands x p a)
commands o (on_plugin name x) a = []
commands o (on_manager x) a = []

-- Whether a request makes a new object.
abbrev pub is_addition : Request → Bool
is_addition (on_plugin name manager_add_source) = true
is_addition (on_manager manager_add_channel) = true
is_addition (on_manager (manager_add_subscription size timeout)) = true
is_addition _ = false

-- The objects follow the commands, none is new, and no channel is registered or removed.
pub record Follows (o : Outside) (a : Agent) (xs : List Command) (r : Outcome) : Type 0 where
  pub same : r.0.world ≡ run o.buffer o.time default_context xs a.world
  pub channels : r.0.channels ≡ a.channels
  pub next_channel : r.0.next_channel ≡ a.next_channel
  pub next_source : r.0.next_source ≡ a.next_source
  pub next_subscription : r.0.next_subscription ≡ a.next_subscription

pub here :
    (o : Outside) (a : Agent) (xs : List Command) (w : World) (v : Answer Value)
    → w ≡ run o.buffer o.time default_context xs a.world
    → Follows o a xs (record a { world = w }, v)
here o a xs w v h = record {
  same = h;
  channels = refl;
  next_channel = refl;
  next_source = refl;
  next_subscription = refl;
}

pub found_Follows :
    (o : Outside) (a : Agent) (x : Answer ℕ) (f : ℕ → Outcome) (g : ℕ → List Command)
    → ((c : ℕ) → Follows o a (g c) (f c))
    → Follows o a (on_found x g) (with_found a x f)
unfolding run on_found with_found
found_Follows o a (refused e) f g h = here o a _ _ _ refl
found_Follows o a (answer c) f g h = h c

pub unchanged :
    (o : Outside) (a : Agent) (x : Answer ℕ) (f : ℕ → Outcome)
    → ((c : ℕ) → Follows o a [] (f c))
    → Follows o a [] (with_found a x f)
unfolding run with_found
unchanged o a (refused e) f h = here o a _ _ _ refl
unchanged o a (answer c) f h = h c
