-- ===== src/System/Stopping.antt =====
-- What a stop does to the process of a channel.
use perfkit.Prelude.{
  ℕ, ◌≡◌, refl, ◌∙◌, Bool, true, not, ◌&&◌, List, [], ◌∷◌, ◌==◌, arith, if◌then◌else◌,
}
use perfkit.Context.{Context, default_context}
use perfkit.World.{
  ChannelState, ready, running, muted, stopped, failed, Channel, World, kill, put_channel, foreach,
}
use perfkit.Source
use perfkit.Channel
use perfkit.System.Invariant.{is_live}

stop_all-calls : (xs : List ℕ) (w : World) → (foreach Source.notify_stopped xs w).calls ≡ w.calls
unfolding Source.notify_stopped
stop_all-calls [] w = refl
stop_all-calls (x ∷ xs) w = stop_all-calls xs (Source.notify_stopped x w) ∙ ground arith

-- A process that the channel has spawned, and may kill.
abbrev pub is_victim : Channel → Bool
is_victim ch = is_live ch.state && (ch.kill_pid && not ch.pid_set && not (ch.pid == 0))

stop_in-calls :
    (st : ChannelState) (c : ℕ) (w : World)
    → (w.channels c).state ≡ st
    → (Channel.stop_in st c w).0.calls
      ≡ (if is_victim (w.channels c) then kill (w.channels c).pid ∷ w.calls else w.calls)
unfolding Channel.stop_in Channel.halt
stop_in-calls running c w e =
    let ch = w.channels c in
    ground (arith, stop_all-calls ch.sources (put_channel c (record ch { state = stopped }) w))
stop_in-calls muted c w e =
    let ch = w.channels c in
    ground (arith, stop_all-calls ch.sources (put_channel c (record ch { state = stopped }) w))
stop_in-calls ready c w e = ground arith
stop_in-calls stopped c w e = ground arith
stop_in-calls failed c w e = ground arith

-- A stop kills the channel's process exactly if the channel is running or muted, has a pid that it
-- was not given by `set_pid`, and may kill it; it makes no other call.
pub stop_kills :
    (c : ℕ) (context : Context) (w : World)
    → (Channel.stop c context w).0.calls
      ≡ (if is_victim (w.channels c) then kill (w.channels c).pid ∷ w.calls else w.calls)
unfolding Channel.stop
stop_kills c context w = stop_in-calls _ c w refl

-- The child watch runs after the process has been reaped; the stop that it makes still sends the
-- signal to its pid, under the same conditions.
pub inferior_exited_kills :
    (status c : ℕ) (w : World)
    → is_victim (w.channels c) ≡ true
    → (Channel.inferior_exited status c w).calls ≡ kill (w.channels c).pid ∷ w.calls
unfolding Channel.inferior_exited
inferior_exited_kills status c w h =
    let x = record (w.channels c) { exit_status = status } in
    ground (arith, stop_kills c default_context (put_channel c x w))
