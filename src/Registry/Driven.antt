-- ===== src/Registry/Driven.antt =====
-- The calls that drive a channel leave alone what Registry/Fixed.antt lists.
use perfkit.Prelude.{ℕ, ◌≡◌, refl, inl, inr, Option, none, some, ◌==◌, Bool-cases}
use perfkit.Context.{Context}
use perfkit.Wire.{Bytes}
use perfkit.World.{
  ChannelState, ready, running, muted, stopped, failed, SpawnInfo, Channel, World, put_channel,
  call, child_watch_add,
}
use perfkit.Channel
use perfkit.Channel.Start
use perfkit.Channel.Start.{Host}
use perfkit.Registry.Fixed.{
  Fixed, Fixed-refl, Fixed-trans, foreach-Fixed, put_channel-Fixed, if-Fixed, same-Fixed,
  notify_stopped-Fixed, notify_started-Fixed, notify_reset-Fixed, notify_muted-Fixed,
  notify_unmuted-Fixed,
}

-- The calls on a channel, but for the one that gives it a source.
pub when_ready-Fixed :
    (c : ℕ) (x : Channel) (w : World)
    → x.id ≡ (w.channels c).id
    → x.sources ≡ (w.channels c).sources
    → Fixed w (Channel.when_ready c x w).0
when_ready-Fixed c x w e f = elim (Bool-cases (Channel.is_ready (w.channels c).state)) [
  | inl p ↦ rw p (put_channel-Fixed c x w e f)
  | inr n ↦ rw n (Fixed-refl w)
]

halt-Fixed : (c : ℕ) (w : World) → Fixed w (Channel.halt c w).0
unfolding Channel.halt
halt-Fixed c w =
    let ch = w.channels c in
    let kept =
      Fixed-trans (put_channel-Fixed c (record ch { state = stopped }) w refl refl)
        (foreach-Fixed _ notify_stopped-Fixed ch.sources _) in
    if-Fixed _ (Fixed-trans kept (same-Fixed refl refl refl)) kept

pub stop_in-Fixed : (st : ChannelState) (c : ℕ) (w : World) → Fixed w (Channel.stop_in st c w).0
unfolding Channel.stop_in
stop_in-Fixed running c w = halt-Fixed c w
stop_in-Fixed muted c w = halt-Fixed c w
stop_in-Fixed ready c w = Fixed-refl w
stop_in-Fixed stopped c w = Fixed-refl w
stop_in-Fixed failed c w = Fixed-refl w

pub mute_in-Fixed : (st : ChannelState) (c : ℕ) (w : World) → Fixed w (Channel.mute_in st c w).0
unfolding Channel.mute_in
mute_in-Fixed running c w =
    Fixed-trans (put_channel-Fixed c (record (w.channels c) { state = muted }) w refl refl)
      (foreach-Fixed _ notify_muted-Fixed (w.channels c).sources _)
mute_in-Fixed muted c w = Fixed-refl w
mute_in-Fixed ready c w = Fixed-refl w
mute_in-Fixed stopped c w = Fixed-refl w
mute_in-Fixed failed c w = Fixed-refl w

pub unmute_in-Fixed : (st : ChannelState) (c : ℕ) (w : World) → Fixed w (Channel.unmute_in st c w).0
unfolding Channel.unmute_in
unmute_in-Fixed muted c w =
    Fixed-trans (put_channel-Fixed c (record (w.channels c) { state = running }) w refl refl)
      (foreach-Fixed _ notify_unmuted-Fixed (w.channels c).sources _)
unmute_in-Fixed running c w = Fixed-refl w
unmute_in-Fixed ready c w = Fixed-refl w
unmute_in-Fixed stopped c w = Fixed-refl w
unmute_in-Fixed failed c w = Fixed-refl w

rewind-Fixed : (c : ℕ) (w : World) → Fixed w (Start.rewind c w)
unfolding Start.rewind
rewind-Fixed c w =
    if-Fixed _
      (Fixed-trans (foreach-Fixed _ notify_reset-Fixed (w.channels c).sources w)
        (put_channel-Fixed c _ _ refl refl))
      (Fixed-refl w)

run-Fixed : (c : ℕ) (info : SpawnInfo) (w : World) → Fixed w (Start.run c info w).0
unfolding Start.run
run-Fixed c info w =
    Fixed-trans (put_channel-Fixed c (record (w.channels c) { state = running }) w refl refl)
      (foreach-Fixed _ (notify_started-Fixed info) (w.channels c).sources _)

spawned-Fixed :
    (answer : Start.Spawned) (dir : Bytes) (c : ℕ) (info : SpawnInfo) (w : World)
    → Fixed w (Start.spawned answer dir c info w).0
unfolding Start.spawned
spawned-Fixed (Start.spawn_error e) dir c info w = put_channel-Fixed c _ w refl refl
spawned-Fixed (Start.child pid) dir c info w =
    let u = put_channel c (record (w.channels c) { pid = pid }) w in
    let watched : Fixed u (call (child_watch_add pid c) u) = same-Fixed refl refl refl in
    Fixed-trans (put_channel-Fixed c _ w refl refl) (Fixed-trans watched (run-Fixed c _ _))

launch-Fixed :
    (target : Option Bytes) (host : Host) (c : ℕ) (info : SpawnInfo) (w : World)
    → Fixed w (Start.launch_target target host c info w).0
unfolding Start.launch_target
launch-Fixed none host c info w = run-Fixed c info w
launch-Fixed (some target) host c info w = elim (Bool-cases (info.pid == 0)) [
  | inl p ↦ rw p (spawned-Fixed _ _ c info w)
  | inr n ↦ rw n (run-Fixed c info w)
]

pub start-Fixed :
    (host : Host) (c : ℕ) (context : Context) (w : World) → Fixed w (Start.start host c context w).0
unfolding Start.start Start.launch
start-Fixed host c context w =
    let w' = Start.rewind c w in
    let kept = rewind-Fixed c w in
    let (accepts, info, e) = Start.init_spawn_info host (w'.channels c) in
    elim (Bool-cases (Channel.is_ready (w'.channels c).state)) [
      | inr n ↦ rw n kept
      | inl p ↦ rw p (elim (Bool-cases accepts) [
        | inl a ↦ rw a (Fixed-trans kept (launch-Fixed info.target host c info w'))
        | inr r ↦ rw r kept
      ])
    ]
