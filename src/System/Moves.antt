-- ===== src/System/Moves.antt =====
-- The states of a channel: the diagram of what one call may do, and the calls that follow an edge.
use mathlib.Core.Path.{subst}
use perfkit.Prelude.{ℕ, ◌≡◌, refl, inl, inr, ◌==◌, arith, Bool-cases, update, update_self, ==_iff}
use perfkit.World.{
  ChannelState, ready, running, muted, stopped, failed, Channel, World, put_channel,
}
use perfkit.Channel
use perfkit.System.Frame.{Keeps, foreach-Keeps}
use perfkit.System.Notify.{notify_muted-Keeps, notify_unmuted-Keeps, stop_all-Switches}

-- What one call may do to the state of a channel.
infix 40 ◌⟶◌
pub data ◌⟶◌ : ChannelState → ChannelState → Type 0 where
  stay : {s : ChannelState} → s ⟶ s
  begin : ready ⟶ running
  fail : ready ⟶ failed
  rewind : stopped ⟶ ready
  restart : stopped ⟶ running
  restart_fail : stopped ⟶ failed
  mutes : running ⟶ muted
  unmutes : muted ⟶ running
  halts : running ⟶ stopped
  halts_muted : muted ⟶ stopped

-- Every channel's state has followed an edge.
pub record Moves (w w' : World) : Type 0 where
  pub along : (d : ℕ) → (w.channels d).state ⟶ (w'.channels d).state

pub Moves-refl : (w : World) → Moves w w
Moves-refl w = record { along = λ d. stay }

pub failed_stays : {s u : ChannelState} → s ⟶ u → s ≡ failed → u ≡ failed
failed_stays stay e = e
failed_stays begin e = cc
failed_stays fail e = refl
failed_stays rewind e = cc
failed_stays restart e = cc
failed_stays restart_fail e = refl
failed_stays mutes e = cc
failed_stays unmutes e = cc
failed_stays halts e = cc
failed_stays halts_muted e = cc

pub stay_of : {s u : ChannelState} → u ≡ s → s ⟶ u
stay_of {s} e = rw e stay

pub Keeps-Moves : {w w' : World} → Keeps w w' → Moves w w'
Keeps-Moves k = record { along = λ d. stay_of (k.state d) }

pub put_channel-Moves :
    (c : ℕ) (x : Channel) (w : World) → (w.channels c).state ⟶ x.state → Moves w (put_channel c x w)
put_channel-Moves c x w h = record {
  along = λ d. elim (Bool-cases (c == d)) [
    | inl e ↦
        subst (λ q. (w.channels q).state ⟶ (update w.channels c x q).state) ((==_iff c d).0 e)
          (rw (update_self w.channels c x) h)
    | inr n ↦ rw n stay
  ];
}

pub Moves-Keeps : {u v w : World} → Moves u v → Keeps v w → Moves u w
Moves-Keeps m k = record { along = λ d. rw (k.state d) (m.along d) }

pub Moves-channels : {u v : World} (w : World) → Moves u v → w.channels ≡ v.channels → Moves u w
Moves-channels w m e = record { along = λ d. rw e (m.along d) }

pub when_ready-Moves :
    (c : ℕ) (x : Channel) (w : World)
    → x.state ≡ (w.channels c).state
    → Moves w (Channel.when_ready c x w).0
when_ready-Moves c x w e = elim (Bool-cases (Channel.is_ready (w.channels c).state)) [
  | inl p ↦ rw p (put_channel-Moves c x w (stay_of e))
  | inr n ↦ rw n (Moves-refl w)
]

halt-Moves : (c : ℕ) (w : World) → (w.channels c).state ⟶ stopped → Moves w (Channel.halt c w).0
unfolding Channel.halt
halt-Moves c w h =
    let ch = w.channels c in
    let x = record ch { state = stopped } in
    let k = stop_all-Switches ch.sources (put_channel c x w) in
    Moves-channels _ (put_channel-Moves c x w h) (ground (arith, k.channels))

pub stop_in-Moves :
    (st : ChannelState) (c : ℕ) (w : World)
    → (w.channels c).state ≡ st
    → Moves w (Channel.stop_in st c w).0
unfolding Channel.stop_in
stop_in-Moves running c w e = halt-Moves c w (rw e halts)
stop_in-Moves muted c w e = halt-Moves c w (rw e halts_muted)
stop_in-Moves ready c w e = Moves-refl w
stop_in-Moves stopped c w e = Moves-refl w
stop_in-Moves failed c w e = Moves-refl w

pub mute_in-Moves :
    (st : ChannelState) (c : ℕ) (w : World)
    → (w.channels c).state ≡ st
    → Moves w (Channel.mute_in st c w).0
unfolding Channel.mute_in
mute_in-Moves running c w e =
    let ch = w.channels c in
    let x = record ch { state = muted } in
    Moves-Keeps (put_channel-Moves c x w (rw e mutes))
      (foreach-Keeps _ notify_muted-Keeps ch.sources _)
mute_in-Moves muted c w e = Moves-refl w
mute_in-Moves ready c w e = Moves-refl w
mute_in-Moves stopped c w e = Moves-refl w
mute_in-Moves failed c w e = Moves-refl w

pub unmute_in-Moves :
    (st : ChannelState) (c : ℕ) (w : World)
    → (w.channels c).state ≡ st
    → Moves w (Channel.unmute_in st c w).0
unfolding Channel.unmute_in
unmute_in-Moves muted c w e =
    let ch = w.channels c in
    let x = record ch { state = running } in
    Moves-Keeps (put_channel-Moves c x w (rw e unmutes))
      (foreach-Keeps _ notify_unmuted-Keeps ch.sources _)
unmute_in-Moves running c w e = Moves-refl w
unmute_in-Moves ready c w e = Moves-refl w
unmute_in-Moves stopped c w e = Moves-refl w
unmute_in-Moves failed c w e = Moves-refl w
