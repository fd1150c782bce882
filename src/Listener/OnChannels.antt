-- ===== src/Listener/OnChannels.antt =====
-- perfkit-agent/pka-listener.c, the calls on channels, by the id of the channel.
use perfkit.Prelude.{ℕ, Bool, Option, none, some, List, map}
use perfkit.Context.{Reply, accepted, rejected, default_context}
use perfkit.Wire.{Bytes, Buffer, Time}
use perfkit.World.{ChannelState, ready, running, muted, stopped, failed}
use perfkit.Agent.{Agent, answer, refused}
use perfkit.Channel
use perfkit.Channel.Start
use perfkit.Channel.Start.{Host}
use perfkit.Listener.{
  Outcome, flag, number, numbers, text, texts, with_channel, with_source, in_world,
}

-- The number of a `PkaChannelState`.
unfoldable pub state_code : ChannelState → ℕ
state_code ready = 1
state_code running = 2
state_code muted = 3
state_code stopped = 4
state_code failed = 5

unfoldable pub add_source : Buffer → Time → ℕ → ℕ → Agent → Outcome
add_source b t id source a = with_channel id a (λ c.
    with_source source a (λ s. in_world a (Channel.add_source b t c default_context s a.world)))

unfoldable pub mute : ℕ → Agent → Outcome
mute id a = with_channel id a (λ c. in_world a (Channel.mute c default_context a.world))

unfoldable pub unmute : ℕ → Agent → Outcome
unmute id a = with_channel id a (λ c. in_world a (Channel.unmute c default_context a.world))

unfoldable pub start : Host → ℕ → Agent → Outcome
start host id a = with_channel id a (λ c. in_world a (Start.start host c default_context a.world))

unfoldable pub stop : ℕ → Agent → Outcome
stop id a = with_channel id a (λ c. in_world a (Channel.stop c default_context a.world))

unfoldable pub set_args : ℕ → Option (List Bytes) → Agent → Outcome
set_args id v a = with_channel id a (λ c. in_world a (Channel.set_args c default_context v a.world))

unfoldable pub set_env : ℕ → Option (List Bytes) → Agent → Outcome
set_env id v a = with_channel id a (λ c. in_world a (Channel.set_env c default_context v a.world))

unfoldable pub set_kill_pid : ℕ → Bool → Agent → Outcome
set_kill_pid id v a =
    with_channel id a (λ c. in_world a (Channel.set_kill_pid c default_context v a.world))

unfoldable pub set_pid : ℕ → ℕ → Agent → Outcome
set_pid id v a = with_channel id a (λ c. in_world a (Channel.set_pid c default_context v a.world))

unfoldable pub set_target : ℕ → Option Bytes → Agent → Outcome
set_target id v a =
    with_channel id a (λ c. in_world a (Channel.set_target c default_context v a.world))

unfoldable pub set_working_dir : ℕ → Option Bytes → Agent → Outcome
set_working_dir id v a =
    with_channel id a (λ c. in_world a (Channel.set_working_dir c default_context v a.world))

unfoldable pub get_args : ℕ → Agent → Outcome
get_args id a = with_channel id a (λ c. (a, answer (texts (a.world.channels c).args)))

unfoldable pub get_created_at : ℕ → Agent → Outcome
get_created_at id a = with_channel id a (λ c. (a, answer (number (a.world.channels c).created_at)))

unfoldable pub get_env : ℕ → Agent → Outcome
get_env id a = with_channel id a (λ c. (a, answer (texts (a.world.channels c).env)))

-- The status of a refused call is not handed out.
abbrev pub status_outcome : Agent → Option ℕ → Reply → Outcome
status_outcome a status (rejected e) = (a, refused e)
status_outcome a none accepted = (a, answer (number 0))
status_outcome a (some n) accepted = (a, answer (number n))

unfoldable pub get_exit_status : ℕ → Agent → Outcome
get_exit_status id a =
    with_channel id a (λ c.
      let (status, reply) = Channel.get_exit_status c a.world in status_outcome a status reply)

unfoldable pub get_kill_pid : ℕ → Agent → Outcome
get_kill_pid id a = with_channel id a (λ c. (a, answer (flag (a.world.channels c).kill_pid)))

unfoldable pub get_pid : ℕ → Agent → Outcome
get_pid id a = with_channel id a (λ c. (a, answer (number (a.world.channels c).pid)))

-- The `_async` function does not store the id in the new call, so the lookup is for its initial
-- value, 0.
unfoldable pub get_pid_set : ℕ → Agent → Outcome
get_pid_set id a = with_channel 0 a (λ c. (a, answer (flag (a.world.channels c).pid_set)))

unfoldable pub get_sources : ℕ → Agent → Outcome
get_sources id a =
    with_channel id a (λ c.
      (a, answer (numbers (map (λ s. (a.world.sources s).id) (Channel.get_sources c a.world)))))

unfoldable pub get_state : ℕ → Agent → Outcome
unfolding state_code
get_state id a =
    with_channel id a (λ c. (a, answer (number (state_code (a.world.channels c).state))))

unfoldable pub get_target : ℕ → Agent → Outcome
get_target id a = with_channel id a (λ c. (a, answer (text (a.world.channels c).target)))

unfoldable pub get_working_dir : ℕ → Agent → Outcome
get_working_dir id a = with_channel id a (λ c. (a, answer (text (a.world.channels c).working_dir)))
