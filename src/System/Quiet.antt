-- ===== src/System/Quiet.antt =====
-- The operations of pka-source.c and pka-subscription.c that concern subscriptions, and the main
-- loop, keep what System/Frame.antt lists.
use mathlib.Core.List.{reverse}
use perfkit.Prelude.{ℕ, refl, Option, none, some, arith}
use perfkit.Context.{Context, default_context}
use perfkit.Wire.{Buffer, Time}
use perfkit.Sample.{Sample}
use perfkit.Sample
use perfkit.World.{World}
use perfkit.Source
use perfkit.Subscription
use perfkit.System.Frame.{
  Keeps, Keeps-refl, Keeps-trans, foreach-Keeps, put_subscription-Keeps, put_source-Keeps,
  put_channel-Keeps, queue_muted-Keeps, queue_unmuted-Keeps, if-Keeps, deliver_manifest-Keeps,
  deliver_sample-Keeps,
}

pub dispatch-Keeps : (w : World) → Keeps w (Source.dispatch w)
unfolding Source.dispatch
dispatch-Keeps w = record {
  state = λ c. ground arith;
  members = λ c. ground arith;
  running = λ s. ground arith;
  owner = λ s. ground arith;
  signals = λ s. ground arith;
}

pub remove_subscription-Keeps : (s p : ℕ) (w : World) → Keeps w (Source.remove_subscription s p w)
unfolding Source.remove_subscription
remove_subscription-Keeps s p w =
    let kept = put_source-Keeps s _ w refl refl in
    if-Keeps _ (Keeps-trans kept (queue_muted-Keeps s _)) kept

pub add_subscription_locked-Keeps :
    (s p : ℕ) (w : World) → Keeps w (Source.add_subscription_locked s p w).0
unfolding Source.add_subscription_locked
add_subscription_locked-Keeps s p w =
    let kept = put_source-Keeps s _ w refl refl in
    if-Keeps _ (Keeps-trans kept (queue_unmuted-Keeps s _)) kept

pub deliver_manifest_locked-Keeps :
    (s m : ℕ) (w : World) → Keeps w (Source.deliver_manifest_locked s m w)
unfolding Source.deliver_manifest_locked
deliver_manifest_locked-Keeps s m w = record {
  state = λ c. refl;
  members = λ c. refl;
  running = λ q. ground arith;
  owner = λ q. ground arith;
  signals = λ q. refl;
}

module _ (b : Buffer) (t : Time) where
  pub add_subscription_deliver-Keeps :
      (s p : ℕ) (seen : Option ℕ) (w : World)
      → Keeps w (Source.add_subscription_deliver b t s p seen w)
  unfolding Source.add_subscription_deliver
  add_subscription_deliver-Keeps s p none w = Keeps-refl w
  add_subscription_deliver-Keeps s p (some m) w =
      if-Keeps _ (deliver_manifest-Keeps b t m p w) (Keeps-refl w)

  pub add_subscription-Keeps : (s p : ℕ) (w : World) → Keeps w (Source.add_subscription b t s p w)
  unfolding Source.add_subscription
  add_subscription-Keeps s p w =
      Keeps-trans (add_subscription_locked-Keeps s p w) (add_subscription_deliver-Keeps s p _ _)

  pub deliver_manifest_source-Keeps :
      (s m : ℕ) (w : World) → Keeps w (Source.deliver_manifest b t s m w)
  unfolding Source.deliver_manifest
  deliver_manifest_source-Keeps s m w = Keeps-trans (deliver_manifest_locked-Keeps s m w) (
      foreach-Keeps _ (λ p x. deliver_manifest-Keeps b t m p x)
        ((Source.deliver_manifest_locked s m w).sources s).subscriptions _)

  pub deliver_sample_source-Keeps :
      (s : ℕ) (x : Sample) (w : World) → Keeps w (Source.deliver_sample b t s x w)
  unfolding Source.deliver_sample
  deliver_sample_source-Keeps s x w =
      let src = w.sources s in
      foreach-Keeps _
        (λ p u. deliver_sample-Keeps b t src.manifest (Sample.set_source_id x src.id) p u)
        src.subscriptions w

pub set_encoder-Keeps :
    (p : ℕ) (context : Context) (e : Option ℕ) (w : World)
    → Keeps w (Subscription.set_encoder p context e w).0
unfolding Subscription.set_encoder
set_encoder-Keeps p context e w = put_subscription-Keeps p _ w

pub set_state-Keeps :
    (p : ℕ) (context : Context) (code : ℕ) (w : World)
    → Keeps w (Subscription.set_state p context code w).0
unfolding Subscription.set_state
set_state-Keeps p context ℕ.zero w = put_subscription-Keeps p _ w
set_state-Keeps p context (ℕ.suc ℕ.zero) w = put_subscription-Keeps p _ w
set_state-Keeps p context (ℕ.suc (ℕ.suc n)) w = Keeps-refl w

pub set_handlers-Keeps :
    (p : ℕ) (context : Context) (m s : ℕ) (w : World)
    → Keeps w (Subscription.set_handlers p context m s w)
unfolding Subscription.set_handlers
set_handlers-Keeps p context m s w = put_subscription-Keeps p _ w

pub set_buffer-Keeps :
    (p : ℕ) (context : Context) (m s : ℕ) (w : World)
    → Keeps w (Subscription.set_buffer p context m s w).0
unfolding Subscription.set_buffer
set_buffer-Keeps p context m s w = put_subscription-Keeps p _ w

pub remove_source-Keeps :
    (p : ℕ) (context : Context) (s : ℕ) (w : World)
    → Keeps w (Subscription.remove_source p context s w).0
unfolding Subscription.remove_source
remove_source-Keeps p context s w =
    Keeps-trans (remove_subscription-Keeps s p w) (put_subscription-Keeps p _ _)

pub remove_channel-Keeps :
    (p : ℕ) (context : Context) (c : ℕ) (w : World)
    → Keeps w (Subscription.remove_channel p context c w).0
unfolding Subscription.remove_channel
remove_channel-Keeps p context c w =
    Keeps-trans (put_channel-Keeps c (Subscription.disconnected p (w.channels c)) w refl refl) (
      Keeps-trans
        (foreach-Keeps _ (λ s x. remove_source-Keeps p context s x) (reverse (w.channels c).sources)
          _)
        (put_subscription-Keeps p _ _))

module _ (b : Buffer) (t : Time) where
  pub add_source-Keeps :
      (p : ℕ) (context : Context) (s : ℕ) (w : World)
      → Keeps w (Subscription.add_source b t p context s w).0
  unfolding Subscription.add_source
  add_source-Keeps p context s w =
      Keeps-trans (put_subscription-Keeps p _ w) (add_subscription-Keeps b t s p _)

  pub channel_source_added-Keeps :
      (s p : ℕ) (w : World) → Keeps w (Subscription.channel_source_added b t s p w)
  unfolding Subscription.channel_source_added
  channel_source_added-Keeps s p w = add_source-Keeps p default_context s w

  pub add_channel-Keeps :
      (p : ℕ) (context : Context) (c : ℕ) (w : World)
      → Keeps w (Subscription.add_channel b t p context c w).0
  unfolding Subscription.add_channel
  add_channel-Keeps p context c w =
      let sub = w.subscriptions p in
      let ch = w.channels c in
      let x = record sub { channels = Subscription.tree_insert ch.id c sub.channels } in
      Keeps-trans (put_subscription-Keeps p x w) (
        Keeps-trans (put_channel-Keeps c (Subscription.connected p ch) _ refl refl)
          (foreach-Keeps _ (λ s u. add_source-Keeps p context s u) (reverse ch.sources) _))
