-- ===== src/Channel.antt =====
-- perfkit-agent/pka-channel.c: a channel owns sources and the process that they watch, and drives
-- them through its states. An operation takes the pointer of the channel.
pub mod Start
use mathlib.Core.List.{reverse}
use perfkit.Prelude.{
  ℕ, Bool, true, false, not, ◌&&◌, Option, none, some, List, [], ◌∷◌, ◌++◌, ◌==◌, if◌then◌else◌,
}
use perfkit.Context.{
  Context, Reply, accepted, rejected, not_authorized, channel_state, modify_channel, is_authorized,
  default_context,
}
use perfkit.Wire.{Bytes, Buffer, Time}
use perfkit.World.{
  ChannelState, ready, running, muted, stopped, failed, Channel, World, kill, put_channel, call,
  foreach,
}
use perfkit.Source.{set_channel, notify_stopped, notify_muted, notify_unmuted}
use perfkit.Subscription

-- `pka_channel_init`
unfoldable pub new : ℕ → Bytes → ℕ → Channel
new id tmp_dir now = record {
  id = id;
  state = ready;
  sources = [];
  pid = 0;
  pid_set = false;
  working_dir = some tmp_dir;
  target = none;
  env = none;
  args = none;
  kill_pid = true;
  exit_status = 0;
  created_at = now;
  source_added = [];
  source_removed = [];
}

abbrev pub is_ready : ChannelState → Bool
is_ready ready = true
is_ready _ = false

abbrev pub is_stopped : ChannelState → Bool
is_stopped stopped = true
is_stopped _ = false

-- ENSURE_STATE (channel, READY): the change is made only to a channel that is ready.
abbrev pub when_ready : ℕ → Channel → World → World × Reply
when_ready c changed w =
    if is_ready (w.channels c).state
    then (put_channel c changed w, accepted)
    else (w, rejected (some channel_state))

-- AUTHORIZE_IOCTL (context, MODIFY_CHANNEL)
abbrev pub authorized : Context → World → World × Reply → World × Reply
authorized context w outcome =
    if is_authorized context modify_channel then outcome else (w, rejected (some not_authorized))

unfoldable pub set_target : ℕ → Context → Option Bytes → World → World × Reply
unfolding is_authorized
set_target c context target w =
    authorized context w (when_ready c (record (w.channels c) { target = target }) w)

unfoldable pub set_working_dir : ℕ → Context → Option Bytes → World → World × Reply
unfolding is_authorized
set_working_dir c context working_dir w =
    authorized context w (when_ready c (record (w.channels c) { working_dir = working_dir }) w)

unfoldable pub set_args : ℕ → Context → Option (List Bytes) → World → World × Reply
unfolding is_authorized
set_args c context args w =
    authorized context w (when_ready c (record (w.channels c) { args = args }) w)

unfoldable pub set_env : ℕ → Context → Option (List Bytes) → World → World × Reply
unfolding is_authorized
set_env c context env w =
    authorized context w (when_ready c (record (w.channels c) { env = env }) w)

-- A pid that is set replaces the target.
unfoldable pub set_pid : ℕ → Context → ℕ → World → World × Reply
unfolding is_authorized
set_pid c context pid w =
    authorized context w
      (when_ready c (record (w.channels c) { pid = pid; pid_set = true; target = none }) w)

-- In any state.
unfoldable pub set_kill_pid : ℕ → Context → Bool → World → World × Reply
unfolding is_authorized
set_kill_pid c context kill_pid w =
    authorized context w (put_channel c (record (w.channels c) { kill_pid = kill_pid }) w, accepted)

-- The exit status, where there is one.
unfoldable pub get_exit_status : ℕ → World → Option ℕ × Reply
get_exit_status c w =
    if is_stopped ch.state
    then if ch.pid_set
      then (none, rejected (some channel_state))
      else (some ch.exit_status, accepted)
    else (none, rejected (some channel_state))
  where
    ch : Channel
    ch = w.channels c

-- Each source is put in front.
unfoldable pub get_sources : ℕ → World → List ℕ
get_sources c w = reverse (w.channels c).sources

module _ (b : Buffer) (t : Time) where
  unfoldable pub add_source : ℕ → Context → ℕ → World → World × Reply
  unfolding is_authorized set_channel
  add_source c context s w =
      if is_authorized context modify_channel
      then (let (w', attached) = set_channel s c w in
          let ch = w'.channels c in
          if attached
          then (
            foreach (Subscription.channel_source_added b t s) ch.source_added
                (put_channel c (record ch { sources = ch.sources ++ (s ∷ []) }) w'),
            accepted,
          )
          else (w', rejected (some channel_state)))
      else (w, rejected (some not_authorized))

-- The branch of a running or muted channel: the sources are told, and a process that the channel
-- has spawned is killed if it is to be.
unfoldable pub halt : ℕ → World → World × Reply
unfolding notify_stopped
halt c w =
    let ch = w.channels c in
    let w' = foreach notify_stopped ch.sources (put_channel c (record ch { state = stopped }) w) in
    (
      if ch.kill_pid && not ch.pid_set && not (ch.pid == 0) then call (kill ch.pid) w' else w',
      accepted,
    )

-- The `switch` of `pka_channel_stop`.
unfoldable pub stop_in : ChannelState → ℕ → World → World × Reply
unfolding halt
stop_in running c w = halt c w
stop_in muted c w = halt c w
stop_in ready c w = (w, rejected (some channel_state))
stop_in stopped c w = (w, accepted)
stop_in failed c w = (w, accepted)

unfoldable pub stop : ℕ → Context → World → World × Reply
unfolding stop_in
stop c context w = stop_in (w.channels c).state c w

-- The child watch of a spawned process.
unfoldable pub inferior_exited : ℕ → ℕ → World → World
unfolding default_context stop
inferior_exited status c w =
    (stop c default_context (put_channel c (record (w.channels c) { exit_status = status }) w)).0

-- The `switch` of `pka_channel_mute`.
unfoldable pub mute_in : ChannelState → ℕ → World → World × Reply
unfolding notify_muted
mute_in muted c w = (w, accepted)
mute_in running c w =
    let ch = w.channels c in
    (foreach notify_muted ch.sources (put_channel c (record ch { state = muted }) w), accepted)
mute_in ready c w = (w, rejected (some channel_state))
mute_in stopped c w = (w, rejected (some channel_state))
mute_in failed c w = (w, rejected (some channel_state))

unfoldable pub mute : ℕ → Context → World → World × Reply
unfolding mute_in
mute c context w = mute_in (w.channels c).state c w

-- The `switch` of `pka_channel_unmute`.
unfoldable pub unmute_in : ChannelState → ℕ → World → World × Reply
unfolding notify_unmuted
unmute_in muted c w =
    let ch = w.channels c in
    (foreach notify_unmuted ch.sources (put_channel c (record ch { state = running }) w), accepted)
unmute_in ready c w = (w, rejected (some channel_state))
unmute_in running c w = (w, rejected (some channel_state))
unmute_in stopped c w = (w, rejected (some channel_state))
unmute_in failed c w = (w, rejected (some channel_state))

unfoldable pub unmute : ℕ → Context → World → World × Reply
unfolding unmute_in
unmute c context w = unmute_in (w.channels c).state c w
