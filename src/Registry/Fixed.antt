-- ===== src/Registry/Fixed.antt =====
-- Operations that leave alone the ids of all objects and the arrays of sources of the channels.
use mathlib.Core.List.{reverse}
use perfkit.Prelude.{
  ℕ, ◌≡◌, refl, ◌∙◌, ap, Bool, true, false, Option, none, some, List, [], ◌∷◌, arith, if◌then◌else◌,
}
use perfkit.Context.{Context}
use perfkit.Wire.{Buffer, Time}
use perfkit.World.{
  ChannelState, ready, running, muted, stopped, failed, SpawnInfo, Channel, Source, World, foreach,
  put_channel, put_source, put_subscription, call, child_watch_add,
}
use perfkit.Delivery
use perfkit.Source
use perfkit.Subscription

pub record Fixed (w w' : World) : Type 0 where
  pub channel_id : (c : ℕ) → (w'.channels c).id ≡ (w.channels c).id
  pub members : (c : ℕ) → (w'.channels c).sources ≡ (w.channels c).sources
  pub source_id : (s : ℕ) → (w'.sources s).id ≡ (w.sources s).id
  pub subscription_id : (p : ℕ) → (w'.subscriptions p).id ≡ (w.subscriptions p).id

pub Fixed-refl : (w : World) → Fixed w w
Fixed-refl w = record {
  channel_id = λ c. refl;
  members = λ c. refl;
  source_id = λ s. refl;
  subscription_id = λ p. refl;
}

pub Fixed-trans : {u v w : World} → Fixed u v → Fixed v w → Fixed u w
Fixed-trans h k = record {
  channel_id = λ c. k.channel_id c ∙ h.channel_id c;
  members = λ c. k.members c ∙ h.members c;
  source_id = λ s. k.source_id s ∙ h.source_id s;
  subscription_id = λ p. k.subscription_id p ∙ h.subscription_id p;
}

pub foreach-Fixed :
    (f : ℕ → World → World)
    → ((x : ℕ) (w : World) → Fixed w (f x w))
    → (xs : List ℕ) (w : World) → Fixed w (foreach f xs w)
foreach-Fixed f h [] w = Fixed-refl w
foreach-Fixed f h (x ∷ xs) w = Fixed-trans (h x w) (foreach-Fixed f h xs (f x w))

pub put_channel-Fixed :
    (c : ℕ) (x : Channel) (w : World)
    → x.id ≡ (w.channels c).id
    → x.sources ≡ (w.channels c).sources
    → Fixed w (put_channel c x w)
put_channel-Fixed c x w h k = record {
  channel_id = λ d. ground arith;
  members = λ d. ground arith;
  source_id = λ s. refl;
  subscription_id = λ p. refl;
}

pub put_source-Fixed :
    (s : ℕ) (x : Source) (w : World) → x.id ≡ (w.sources s).id → Fixed w (put_source s x w)
put_source-Fixed s x w h = record {
  channel_id = λ d. refl;
  members = λ d. refl;
  source_id = λ q. ground arith;
  subscription_id = λ p. refl;
}

pub put_subscription-Fixed :
    (p : ℕ) (x : perfkit.World.Subscription) (w : World)
    → x.id ≡ (w.subscriptions p).id
    → Fixed w (put_subscription p x w)
put_subscription-Fixed p x w h = record {
  channel_id = λ d. refl;
  members = λ d. refl;
  source_id = λ q. refl;
  subscription_id = λ q. ground arith;
}

pub if-Fixed :
    (test : Bool) {u v w : World} → Fixed w u → Fixed w v → Fixed w (if test then u else v)
if-Fixed true h k = h
if-Fixed false h k = k

-- The same objects, whatever waits or was sent.
pub same-Fixed :
    {w w' : World}
    → w'.channels ≡ w.channels
    → w'.sources ≡ w.sources
    → w'.subscriptions ≡ w.subscriptions
    → Fixed w w'
same-Fixed h k l = record {
  channel_id = λ c. ap (λ f. (f c).id) h;
  members = λ c. ap (λ f. (f c).sources) h;
  source_id = λ s. ap (λ f. (f s).id) k;
  subscription_id = λ p. ap (λ f. (f p).id) l;
}

dispatch-Fixed : (w : World) → Fixed w (Source.dispatch w)
unfolding Source.dispatch
dispatch-Fixed w = record {
  channel_id = λ d. ground arith;
  members = λ d. ground arith;
  source_id = λ q. ground arith;
  subscription_id = λ q. ground arith;
}

pub notify_stopped-Fixed : (q : ℕ) (w : World) → Fixed w (Source.notify_stopped q w)
unfolding Source.notify_stopped Source.queue_stopped
notify_stopped-Fixed q w =
    if-Fixed _ (Fixed-trans (put_source-Fixed q _ w refl) (same-Fixed refl refl refl))
      (Fixed-refl w)

pub notify_started-Fixed :
    (i : SpawnInfo) (q : ℕ) (w : World) → Fixed w (Source.notify_started i q w)
unfolding Source.notify_started Source.queue_started Source.queue_muted
notify_started-Fixed i q w =
    let kept = put_source-Fixed q (record (w.sources q) { running = true }) w refl in
    if-Fixed _ (Fixed-trans kept (same-Fixed refl refl refl))
      (Fixed-trans kept (same-Fixed refl refl refl))

pub notify_reset-Fixed : (q : ℕ) (w : World) → Fixed w (Source.notify_reset q w)
unfolding Source.notify_reset Source.queue_reset
notify_reset-Fixed q w = same-Fixed refl refl refl

pub notify_muted-Fixed : (q : ℕ) (w : World) → Fixed w (Source.notify_muted q w)
unfolding Source.notify_muted Source.queue_muted
notify_muted-Fixed q w = same-Fixed refl refl refl

pub notify_unmuted-Fixed : (q : ℕ) (w : World) → Fixed w (Source.notify_unmuted q w)
unfolding Source.notify_unmuted Source.queue_unmuted
notify_unmuted-Fixed q w = same-Fixed refl refl refl

pub remove_subscription-Fixed : (s p : ℕ) (w : World) → Fixed w (Source.remove_subscription s p w)
unfolding Source.remove_subscription Source.queue_muted
remove_subscription-Fixed s p w =
    let kept = put_source-Fixed s _ w refl in
    if-Fixed _ (Fixed-trans kept (same-Fixed refl refl refl)) kept

pub add_subscription_locked-Fixed :
    (s p : ℕ) (w : World) → Fixed w (Source.add_subscription_locked s p w).0
unfolding Source.add_subscription_locked Source.queue_unmuted
add_subscription_locked-Fixed s p w =
    let kept = put_source-Fixed s _ w refl in
    if-Fixed _ (Fixed-trans kept (same-Fixed refl refl refl)) kept

pub remove_source-Fixed :
    (p : ℕ) (context : Context) (s : ℕ) (w : World)
    → Fixed w (Subscription.remove_source p context s w).0
unfolding Subscription.remove_source
remove_source-Fixed p context s w =
    Fixed-trans (remove_subscription-Fixed s p w) (put_subscription-Fixed p _ _ refl)

pub remove_channel-Fixed :
    (p : ℕ) (context : Context) (c : ℕ) (w : World)
    → Fixed w (Subscription.remove_channel p context c w).0
unfolding Subscription.remove_channel
remove_channel-Fixed p context c w =
    Fixed-trans (put_channel-Fixed c (Subscription.disconnected p (w.channels c)) w refl refl) (
      Fixed-trans
        (foreach-Fixed _ (λ s x. remove_source-Fixed p context s x) (reverse (w.channels c).sources)
          _)
        (put_subscription-Fixed p _ _ refl))

pub set_state-Fixed :
    (p : ℕ) (context : Context) (code : ℕ) (w : World)
    → Fixed w (Subscription.set_state p context code w).0
unfolding Subscription.set_state
set_state-Fixed p context ℕ.zero w = put_subscription-Fixed p _ w refl
set_state-Fixed p context (ℕ.suc ℕ.zero) w = put_subscription-Fixed p _ w refl
set_state-Fixed p context (ℕ.suc (ℕ.suc n)) w = Fixed-refl w

module _ (b : Buffer) (t : Time) where
  deliver_manifest-Fixed : (m p : ℕ) (w : World) → Fixed w (Delivery.deliver_manifest b t m p w)
  unfolding Delivery.deliver_manifest
  deliver_manifest-Fixed m p w = record {
    channel_id = λ d. ground arith;
    members = λ d. ground arith;
    source_id = λ q. ground arith;
    subscription_id = λ q. ground arith;
  }

  add_subscription_deliver-Fixed :
      (s p : ℕ) (seen : Option ℕ) (w : World)
      → Fixed w (Source.add_subscription_deliver b t s p seen w)
  unfolding Source.add_subscription_deliver
  add_subscription_deliver-Fixed s p none w = Fixed-refl w
  add_subscription_deliver-Fixed s p (some m) w =
      if-Fixed _ (deliver_manifest-Fixed m p w) (Fixed-refl w)

  pub subscribe-Fixed :
      (p : ℕ) (context : Context) (s : ℕ) (w : World)
      → Fixed w (Subscription.add_source b t p context s w).0
  unfolding Subscription.add_source Source.add_subscription
  subscribe-Fixed p context s w =
      Fixed-trans (put_subscription-Fixed p _ w refl)
        (Fixed-trans (add_subscription_locked-Fixed s p _) (add_subscription_deliver-Fixed s p _ _))

  pub add_channel-Fixed :
      (p : ℕ) (context : Context) (c : ℕ) (w : World)
      → Fixed w (Subscription.add_channel b t p context c w).0
  unfolding Subscription.add_channel
  add_channel-Fixed p context c w =
      let sub = w.subscriptions p in
      let ch = w.channels c in
      let x = record sub { channels = Subscription.tree_insert ch.id c sub.channels } in
      Fixed-trans (put_subscription-Fixed p x w refl) (
        Fixed-trans (put_channel-Fixed c (Subscription.connected p ch) _ refl refl)
          (foreach-Fixed _ (λ s u. subscribe-Fixed p context s u) (reverse ch.sources) _))
