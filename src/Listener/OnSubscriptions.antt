-- ===== src/Listener/OnSubscriptions.antt =====
-- perfkit-agent/pka-listener.c, the calls on subscriptions, by the id of the subscription.
use perfkit.Prelude.{ℕ, Bool, map}
use perfkit.Context.{default_context}
use perfkit.Wire.{Buffer, Time}
use perfkit.Agent.{Agent, answer}
use perfkit.Subscription
use perfkit.Listener.{
  Outcome, number, two_numbers, numbers, with_channel, with_source, with_subscription, in_world,
}

module _ (b : Buffer) (t : Time) where
  -- The flag `monitor` is not looked at.
  unfoldable pub add_channel : ℕ → ℕ → Bool → Agent → Outcome
  add_channel id channel monitor a = with_subscription id a (λ p.
      with_channel channel a
        (λ c. in_world a (Subscription.add_channel b t p default_context c a.world)))

  unfoldable pub add_source : ℕ → ℕ → Agent → Outcome
  add_source id source a = with_subscription id a (λ p.
      with_source source a
        (λ s. in_world a (Subscription.add_source b t p default_context s a.world)))

unfoldable pub remove_channel : ℕ → ℕ → Agent → Outcome
remove_channel id channel a = with_subscription id a (λ p.
    with_channel channel a
      (λ c. in_world a (Subscription.remove_channel p default_context c a.world)))

unfoldable pub remove_source : ℕ → ℕ → Agent → Outcome
remove_source id source a = with_subscription id a (λ p.
    with_source source a (λ s. in_world a (Subscription.remove_source p default_context s a.world)))

unfoldable pub get_buffer : ℕ → Agent → Outcome
get_buffer id a = with_subscription id a (λ p.
    let (timeout, size) = Subscription.get_buffer p a.world in
    (a, answer (two_numbers timeout size)))

unfoldable pub get_created_at : ℕ → Agent → Outcome
get_created_at id a =
    with_subscription id a (λ p. (a, answer (number (a.world.subscriptions p).created_at)))

unfoldable pub get_sources : ℕ → Agent → Outcome
get_sources id a = with_subscription id a (λ p.
    (a, answer (numbers (map (λ s. (a.world.sources s).id) (Subscription.get_sources p a.world)))))

unfoldable pub mute : ℕ → Bool → Agent → Outcome
mute id drain a =
    with_subscription id a (λ p. in_world a (Subscription.mute p default_context drain a.world))

unfoldable pub unmute : ℕ → Agent → Outcome
unmute id a =
    with_subscription id a (λ p. in_world a (Subscription.unmute p default_context a.world))

unfoldable pub set_buffer : ℕ → ℕ → ℕ → Agent → Outcome
set_buffer id timeout size a =
    with_subscription id a
      (λ p. in_world a (Subscription.set_buffer p default_context timeout size a.world))
