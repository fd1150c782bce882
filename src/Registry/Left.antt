-- ===== src/Registry/Left.antt =====
-- The requests on sources and subscriptions, their removals among them, keep the invariant of the
-- registry.
use perfkit.Prelude.{ℕ, refl, inl, inr, Bool, contains, Bool-cases}
use perfkit.Context.{default_context}
use perfkit.Agent.{Agent, Answer, answer, refused}
use perfkit.Source
use perfkit.Subscription
use perfkit.Manager
use perfkit.Manager.{find_by, remove_first}
use perfkit.Listener.{Value}
use perfkit.Listener.OnManager
use perfkit.Listener.OnSubscriptions
use perfkit.Listener.Serve.{
  SourceCall, source_get_plugin, manager_remove_source, SubscriptionCall, subscription_add_channel,
  subscription_remove_channel, subscription_add_source, subscription_remove_source,
  subscription_get_buffer, subscription_get_created_at, subscription_get_sources, subscription_mute,
  subscription_unmute, subscription_set_buffer, manager_remove_subscription, Outside, serve_source,
  serve_subscription,
}
use perfkit.System.{Command, step}
use perfkit.Registry.Fixed
use perfkit.Registry.Fixed.{
  Fixed, Fixed-refl, put_channel-Fixed, put_subscription-Fixed, foreach-Fixed,
}
use perfkit.Registry.Consistent.{IsConsistent, shrunk-IsArray}
use perfkit.Registry.Kept.{kept_found, acts}

removal_kept :
    (value : Bool → Value) (x : Agent × Answer Bool)
    → IsConsistent x.0
    → IsConsistent (OnManager.removal value x).0
removal_kept value (a, answer r) v = v
removal_kept value (a, refused e) v = v

-- Fields that the invariant does not read.
pub noted-IsConsistent :
    (a : Agent) (n : perfkit.Agent.Notice) → IsConsistent a → IsConsistent (Manager.notify n a)
noted-IsConsistent a n v = record {
  inv = v.inv;
  channels = v.channels;
  sources = v.sources;
  subscriptions = v.subscriptions;
  complete = v.complete;
  members = v.members;
}

retired-IsConsistent :
    (o : Outside) (s : ℕ) (a : Agent)
    → IsConsistent a
    → IsConsistent
        (record a { world = Source.notify_stopped s a.world; sources = remove_first s a.sources })
unfolding step
retired-IsConsistent o s a v =
    let u = acts o (Command.retire_source s) a (Fixed.notify_stopped-Fixed s a.world) v in
    record {
      inv = u.inv;
      channels = u.channels;
      sources = shrunk-IsArray s u.sources;
      subscriptions = u.subscriptions;
      complete = u.complete;
      members = u.members;
    }

remove_source_kept :
    (o : Outside) (s : ℕ) (a : Agent)
    → IsConsistent a
    → IsConsistent (Manager.remove_source default_context s a).0
unfolding Manager.remove_source
remove_source_kept o s a v =
    let u = retired-IsConsistent o s a v in
    elim (Bool-cases (contains a.sources s)) [
      | inl p ↦ rw p (noted-IsConsistent _ _ u)
      | inr n ↦ rw n u
    ]

pub source_kept :
    (o : Outside) (x : SourceCall) (id : ℕ) (a : Agent)
    → IsConsistent a
    → IsConsistent (serve_source o id x a).0
unfolding serve_source OnManager.get_source_plugin OnManager.remove_source
source_kept o source_get_plugin id a v = kept_found a _ _ v (λ s e. v)
source_kept o manager_remove_source id a v =
    kept_found a _ _ v (λ s e. removal_kept _ _ (remove_source_kept o s a v))

left-IsConsistent :
    (p : ℕ) (a : Agent)
    → IsConsistent a
    → IsConsistent (Manager.remove_subscription default_context p a).0
unfolding Manager.remove_subscription
left-IsConsistent p a v = record {
  inv = v.inv;
  channels = v.channels;
  sources = v.sources;
  subscriptions = shrunk-IsArray p v.subscriptions;
  complete = v.complete;
  members = v.members;
}

pub subscription_kept :
    (o : Outside) (x : SubscriptionCall) (id : ℕ) (a : Agent)
    → IsConsistent a
    → IsConsistent (serve_subscription o id x a).0
unfolding step serve_subscription OnSubscriptions.add_channel OnSubscriptions.remove_channel
    OnSubscriptions.add_source OnSubscriptions.remove_source OnSubscriptions.get_buffer
    OnSubscriptions.get_created_at OnSubscriptions.get_sources OnSubscriptions.mute
    OnSubscriptions.unmute OnSubscriptions.set_buffer OnManager.remove_subscription
    Subscription.mute Subscription.unmute Subscription.set_buffer
subscription_kept o (subscription_add_channel x monitor) id a v = kept_found a _ _ v (λ p e.
    kept_found a _ _ v (λ c f.
      acts o (Command.subscribe_channel p c) a
        (Fixed.add_channel-Fixed o.buffer o.time p default_context c a.world) v))
subscription_kept o (subscription_remove_channel x) id a v = kept_found a _ _ v (λ p e.
    kept_found a _ _ v (λ c f.
      acts o (Command.unsubscribe_channel p c) a
        (Fixed.remove_channel-Fixed p default_context c a.world) v))
subscription_kept o (subscription_add_source x) id a v = kept_found a _ _ v (λ p e.
    kept_found a _ _ v (λ s f.
      acts o (Command.subscribe_source p s) a
        (Fixed.subscribe-Fixed o.buffer o.time p default_context s a.world) v))
subscription_kept o (subscription_remove_source x) id a v = kept_found a _ _ v (λ p e.
    kept_found a _ _ v (λ s f.
      acts o (Command.unsubscribe_source p s) a
        (Fixed.remove_source-Fixed p default_context s a.world) v))
subscription_kept o subscription_get_buffer id a v = kept_found a _ _ v (λ p e. v)
subscription_kept o subscription_get_created_at id a v = kept_found a _ _ v (λ p e. v)
subscription_kept o subscription_get_sources id a v = kept_found a _ _ v (λ p e. v)
subscription_kept o (subscription_mute drain) id a v =
    kept_found a _ _ v (λ p e.
      acts o (Command.set_state p 1) a (Fixed.set_state-Fixed p default_context 1 a.world) v)
subscription_kept o subscription_unmute id a v =
    kept_found a _ _ v (λ p e.
      acts o (Command.set_state p 0) a (Fixed.set_state-Fixed p default_context 0 a.world) v)
subscription_kept o (subscription_set_buffer timeout size) id a v = kept_found a _ _ v (λ p e.
    acts o (Command.set_buffer p timeout size) a (put_subscription-Fixed p _ a.world refl) v)
subscription_kept o manager_remove_subscription id a v =
    kept_found a _ _ v (λ p e. removal_kept _ _ (left-IsConsistent p a v))
