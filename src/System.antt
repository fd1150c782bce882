-- ===== src/System.antt =====
-- The agent as one machine: the calls that its listeners, its plugins and its main loop make on
-- channels, sources and subscriptions, in any order.
pub mod Signals
pub mod Frame
pub mod Quiet
pub mod Notify
pub mod Invariant
pub mod Preserved
pub mod Moves
pub mod Lifecycle
pub mod Starting
pub mod Stopping
pub mod Idle
pub mod Subscribing
pub mod Delivering
use perfkit.Prelude.{ℕ, Bool, Option, List, [], ◌∷◌}
use perfkit.Context.{Context}
use perfkit.Wire.{Bytes, Buffer, Time}
use perfkit.Sample.{Sample}
use perfkit.World.{World}
use perfkit.Source
use perfkit.Subscription
use perfkit.Channel
use perfkit.Channel.Start
use perfkit.Channel.Start.{Host}

-- One call: its pointers and arguments.
pub data Command : Type 0 where
  set_target set_working_dir : ℕ → Option Bytes → Command
  set_args set_env : ℕ → Option (List Bytes) → Command
  set_pid : ℕ → ℕ → Command
  set_kill_pid : ℕ → Bool → Command
  add_source : ℕ → ℕ → Command
  start : ℕ → Host → Command
  stop mute unmute : ℕ → Command
  inferior_exited : ℕ → ℕ → Command
  subscribe_channel unsubscribe_channel subscribe_source unsubscribe_source : ℕ → ℕ → Command
  set_state : ℕ → ℕ → Command
  set_encoder : ℕ → Option ℕ → Command
  set_handlers set_buffer : ℕ → ℕ → ℕ → Command
  deliver_manifest : ℕ → ℕ → Command
  deliver_sample : ℕ → Sample → Command
  -- `pka_manager_remove_source` tells a source that it has stopped.
  retire_source : ℕ → Command
  main_loop : Command

module _ (b : Buffer) (t : Time) (context : Context) where
  unfoldable pub step : Command → World → World
  step (set_target c v) w = (Channel.set_target c context v w).0
  step (set_working_dir c v) w = (Channel.set_working_dir c context v w).0
  step (set_args c v) w = (Channel.set_args c context v w).0
  step (set_env c v) w = (Channel.set_env c context v w).0
  step (set_pid c v) w = (Channel.set_pid c context v w).0
  step (set_kill_pid c v) w = (Channel.set_kill_pid c context v w).0
  step (add_source c s) w = (Channel.add_source b t c context s w).0
  step (start c host) w = (Start.start host c context w).0
  step (stop c) w = (Channel.stop c context w).0
  step (mute c) w = (Channel.mute c context w).0
  step (unmute c) w = (Channel.unmute c context w).0
  step (inferior_exited status c) w = Channel.inferior_exited status c w
  step (subscribe_channel p c) w = (Subscription.add_channel b t p context c w).0
  step (unsubscribe_channel p c) w = (Subscription.remove_channel p context c w).0
  step (subscribe_source p s) w = (Subscription.add_source b t p context s w).0
  step (unsubscribe_source p s) w = (Subscription.remove_source p context s w).0
  step (set_state p code) w = (Subscription.set_state p context code w).0
  step (set_encoder p e) w = (Subscription.set_encoder p context e w).0
  step (set_handlers p m s) w = Subscription.set_handlers p context m s w
  step (set_buffer p timeout size) w = (Subscription.set_buffer p context timeout size w).0
  step (deliver_manifest s m) w = Source.deliver_manifest b t s m w
  step (deliver_sample s sample) w = Source.deliver_sample b t s sample w
  step (retire_source s) w = Source.notify_stopped s w
  step main_loop w = Source.dispatch w

  unfoldable pub run : List Command → World → World
  unfolding step
  run [] w = w
  run (x ∷ xs) w = run xs (step x w)
