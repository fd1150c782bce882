-- ===== src/Tests/Agent.antt =====
-- The theorems on the agent, at concrete runs.
use perfkit.Prelude.{◌≡◌, refl, true, false, some, List, [], ◌∷◌, arith, contains}
use perfkit.Context.{is_authorized}
use perfkit.World.{ready, running, stopped, failed, kill, spawn_info_copy}
use perfkit.Tests.{words, clock, context, host, channel_in, manifest, fresh, with_channel}
use perfkit.Source
use perfkit.Source.Handover.{
  deliverer, subscriber, race, turn, deliver_turn, subscribe_turn, begin, last_manifest, after,
}
use perfkit.Source.Handover.Order.{race_delivers}
use perfkit.Encoder.{real_encode_manifest}
use perfkit.Manifest
use perfkit.Channel
use perfkit.Channel.Start
use perfkit.Channel.Start.{start, child}
use perfkit.System.{Command, run, step}
use perfkit.System.Signals.{heard}
use perfkit.System.Invariant.{Inv, is_live}
use perfkit.System.Preserved.{run-Inv}
use perfkit.System.Moves.{Moves}
use perfkit.System.Lifecycle.{step-Moves, failed_forever}
use perfkit.System.Starting.{Outcome, start-Outcome, start_with_pid}
use perfkit.System.Stopping.{stop_kills, inferior_exited_kills}
use perfkit.System.Idle.{IsFresh, IsFresh-Inv, idle_sources_silent}

fresh-IsFresh : IsFresh fresh
fresh-IsFresh = record {
  no_members = λ c. refl;
  not_running = λ s. refl;
  no_timeouts = refl;
  no_calls = refl;
}

-- A source joins a channel, the channel is started and stopped, and the main loop runs.
abbrev session : List Command
session =
    Command.add_source 1 5
    ∷ Command.start 1 host
    ∷ Command.stop 1
    ∷ Command.main_loop
    ∷ Command.main_loop
    ∷ Command.main_loop
    ∷ []

session_stops : is_live ((run words clock context session fresh).channels 1).state ≡ false
unfolding run step Channel.add_source Start.start Start.rewind Start.launch Start.launch_target
    Start.spawned Start.init_spawn_info Start.modify_all Start.spawn_dir Start.argv Start.run
    Channel.stop Channel.stop_in Channel.halt is_authorized Source.set_channel Source.notify_started
    Source.notify_reset Source.notify_stopped Source.queue_started Source.queue_muted
    Source.queue_stopped Source.queue_reset Source.dispatch spawn_info_copy
session_stops = refl

session_keeps : contains ((run words clock context session fresh).channels 1).sources 5 ≡ true
unfolding run step Channel.add_source Start.start Start.rewind Start.launch Start.launch_target
    Start.spawned Start.init_spawn_info Start.modify_all Start.spawn_dir Start.argv Start.run
    Channel.stop Channel.stop_in Channel.halt is_authorized Source.set_channel Source.notify_started
    Source.notify_reset Source.notify_stopped Source.queue_started Source.queue_muted
    Source.queue_stopped Source.queue_reset Source.dispatch spawn_info_copy
session_keeps = refl

session_drains : (run words clock context session fresh).timeouts ≡ []
unfolding run step Channel.add_source Start.start Start.rewind Start.launch Start.launch_target
    Start.spawned Start.init_spawn_info Start.modify_all Start.spawn_dir Start.argv Start.run
    Channel.stop Channel.stop_in Channel.halt is_authorized Source.set_channel Source.notify_started
    Source.notify_reset Source.notify_stopped Source.queue_started Source.queue_muted
    Source.queue_stopped Source.queue_reset Source.dispatch spawn_info_copy
session_drains = refl

run-Inv_example : Inv (run words clock context session fresh)
run-Inv_example = run-Inv words clock context session (IsFresh-Inv fresh-IsFresh)

idle_sources_silent_example :
    (((run words clock context session fresh).sources 5).running ≡ false)
    × (heard 5 (run words clock context session fresh).calls ≡ false)
idle_sources_silent_example =
    idle_sources_silent words clock context session 1 5 fresh fresh-IsFresh session_stops
      session_keeps session_drains

step-Moves_example : Moves fresh (step words clock context (Command.start 1 host) fresh)
step-Moves_example = step-Moves words clock context (Command.start 1 host) fresh

failed_forever_example :
    ((run words clock context session (with_channel (channel_in failed 0 []))).channels 1).state
    ≡ failed
failed_forever_example =
    failed_forever words clock context session 1 (with_channel (channel_in failed 0 [])) refl

start-Outcome_example :
    Outcome 1
      (5 ∷ [])
      (with_channel (channel_in ready 0 (5 ∷ [])))
      (start host 1 context (with_channel (channel_in ready 0 (5 ∷ []))))
start-Outcome_example = start-Outcome host 1 context (with_channel (channel_in ready 0 (5 ∷ [])))

start_with_pid_example :
    start
      (record host { spawn = λ dir arguments env. child 78 })
      1
      context
      (with_channel (channel_in stopped 77 (5 ∷ [])))
    ≡ start host 1 context (with_channel (channel_in stopped 77 (5 ∷ [])))
start_with_pid_example =
    start_with_pid host (λ dir arguments env. child 78) 1 context
      (with_channel (channel_in stopped 77 (5 ∷ []))) (ground arith) (λ s info. refl)

stop_kills_example :
    (Channel.stop 1 context (with_channel (channel_in running 77 (5 ∷ [])))).0.calls ≡ kill 77 ∷ []
stop_kills_example = stop_kills 1 context (with_channel (channel_in running 77 (5 ∷ [])))

inferior_exited_kills_example :
    (Channel.inferior_exited 0 1 (with_channel (channel_in running 77 (5 ∷ [])))).calls
    ≡ kill 77 ∷ []
inferior_exited_kills_example =
    inferior_exited_kills 0 1 (with_channel (channel_in running 77 (5 ∷ []))) refl

race_ends_delivering :
    (race words clock 5 3 8
      (subscriber ∷ deliverer ∷ deliverer ∷ subscriber ∷ [])
      (begin fresh)).delivering
    ≡ after
unfolding race turn begin deliver_turn subscribe_turn
race_ends_delivering = refl

race_ends_subscribing :
    (race words clock 5 3 8
      (subscriber ∷ deliverer ∷ deliverer ∷ subscriber ∷ [])
      (begin fresh)).subscribing
    ≡ after
unfolding race turn begin deliver_turn subscribe_turn
race_ends_subscribing = refl

race_delivers_example :
    last_manifest 3
      (race words clock 5 3 8
        (subscriber ∷ deliverer ∷ deliverer ∷ subscriber ∷ [])
        (begin fresh)).world.calls
    ≡ some (real_encode_manifest words clock (Manifest.set_source_id manifest 9))
race_delivers_example =
    race_delivers words clock 5 3 8 30 fresh (subscriber ∷ deliverer ∷ deliverer ∷ subscriber ∷ [])
      refl race_ends_delivering race_ends_subscribing
