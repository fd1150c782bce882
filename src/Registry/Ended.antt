-- ===== src/Registry/Ended.antt =====
-- The end of the agent: perfkit-agent/pka-manager.c, `pka_manager_shutdown`.
use mathlib.Core.List.{reverse, reverse_aux}
use perfkit.Prelude.{
  ℕ, ◌≡◌, refl, ap, inl, inr, false, ◌||◌, not, ◌&&◌, List, [], ◌∷◌, ◌==◌, arith, contains,
  Bool-cases,
}
use perfkit.Context.{default_context}
use perfkit.World.{ChannelState, ready, running, muted, stopped, failed, World, put_channel}
use perfkit.Agent.{Agent}
use perfkit.Subscription
use perfkit.Channel
use perfkit.Manager
use perfkit.System.Signals.{signals}
use perfkit.System.Frame.{Keeps, Keeps-refl, Keeps-trans}
use perfkit.System.Quiet
use perfkit.System.Notify.{stop_all-Switches}
use perfkit.System.Invariant.{Inv, Keeps-Inv, is_live}
use perfkit.System.Preserved.{stop_in-Inv}
use perfkit.Registry.Driven
use perfkit.Registry.Fixed.{Fixed, Fixed-refl, Fixed-trans}
use perfkit.Registry.Consistent.{IsConsistent}

pub contains-reverse_aux :
    (xs ys : List ℕ) (x : ℕ) → contains (reverse_aux xs ys) x ≡ (contains xs x || contains ys x)
contains-reverse_aux [] ys x = refl
contains-reverse_aux (y ∷ xs) ys x = ground (arith, contains-reverse_aux xs (y ∷ ys) x)

pub contains-reverse : (xs : List ℕ) (x : ℕ) → contains (reverse xs) x ≡ contains xs x
contains-reverse xs x = ground (arith, contains-reverse_aux xs [] x)

mute_all-Keeps : (ps : List ℕ) (w : World) → Keeps w (Manager.mute_all ps w)
unfolding Manager.mute_all Subscription.mute
mute_all-Keeps [] w = Keeps-refl w
mute_all-Keeps (p ∷ ps) w =
    Keeps-trans (Quiet.set_state-Keeps p default_context 1 w) (mute_all-Keeps ps _)

stop_all-Inv : (cs : List ℕ) (w : World) → Inv w → Inv (Manager.stop_all cs w)
unfolding Manager.stop_all Channel.stop
stop_all-Inv [] w v = v
stop_all-Inv (c ∷ cs) w v = stop_all-Inv cs _ (stop_in-Inv (w.channels c).state c w v)

halt_live :
    (c d : ℕ) (w : World)
    → is_live ((Channel.halt c w).0.channels d).state
      ≡ (not (c == d) && is_live (w.channels d).state)
unfolding Channel.halt
halt_live c d w =
    let ch = w.channels c in
    let k = stop_all-Switches ch.sources (put_channel c (record ch { state = stopped }) w) in
    ground (arith, ap (λ f. is_live (f d).state) k.channels)

stop_live :
    (st : ChannelState) (c d : ℕ) (w : World)
    → (w.channels c).state ≡ st
    → is_live ((Channel.stop_in st c w).0.channels d).state
      ≡ (not (c == d) && is_live (w.channels d).state)
unfolding Channel.stop_in
stop_live running c d w e = halt_live c d w
stop_live muted c d w e = halt_live c d w
stop_live ready c d w e = ground arith
stop_live stopped c d w e = ground arith
stop_live failed c d w e = ground arith

stop_all_live :
    (cs : List ℕ) (d : ℕ) (w : World)
    → is_live ((Manager.stop_all cs w).channels d).state
      ≡ (not (contains cs d) && is_live (w.channels d).state)
unfolding Manager.stop_all Channel.stop
stop_all_live [] d w = refl
stop_all_live (c ∷ cs) d w =
    let u = (Channel.stop c default_context w).0 in
    ground (arith, stop_all_live cs d u, stop_live (w.channels c).state c d w refl)

stop_all-Fixed : (cs : List ℕ) (w : World) → Fixed w (Manager.stop_all cs w)
unfolding Manager.stop_all Channel.stop
stop_all-Fixed [] w = Fixed-refl w
stop_all-Fixed (c ∷ cs) w =
    Fixed-trans (Driven.stop_in-Fixed (w.channels c).state c w) (stop_all-Fixed cs _)

-- A consistent agent is shut down. Then no channel and no subscription is registered, no source
-- runs, and the last started or stopped signal of each source, heard or still queued, is not a
-- started.
pub shutdown_silences :
    (a : Agent)
    → IsConsistent a
    → let a' = Manager.shutdown a in
      (a'.channels ≡ [])
      × (a'.subscriptions ≡ [])
      × ((s : ℕ) → ((a'.world.sources s).running ≡ false) × (signals s a'.world ≡ false))
unfolding Manager.shutdown
shutdown_silences a v =
    let muted_w = Manager.mute_all (reverse a.subscriptions) a.world in
    let w = Manager.stop_all (reverse a.channels) muted_w in
    let k = mute_all-Keeps (reverse a.subscriptions) a.world in
    let f = stop_all-Fixed (reverse a.channels) muted_w in
    let i : Inv w = stop_all-Inv (reverse a.channels) muted_w (Keeps-Inv k v.inv) in
    let rests : (s : ℕ) → (w.sources s).running ≡ false = λ s.
      elim (Bool-cases (w.sources s).running) [
        | inr n ↦ n
        | inl r ↦
            let (c, o, m, l) = i.live s r in
            let (below, _) = v.members c s (rw (← k.members c, ← f.members c) m) in
            absurd (
              ground (
                arith,
                l,
                stop_all_live (reverse a.channels) c muted_w,
                contains-reverse a.channels c,
                v.complete c below,
              ))
      ] in
    (refl, refl, λ s. (rests s, ground (arith, i.told s, rests s)))
