-- ===== src/Tests/Listening.antt =====
-- The theorems on subscriptions, at concrete objects.
use perfkit.Prelude.{ℕ, ◌≡◌, refl, true, false, some, [], ◌∷◌, ◌++◌, contains}
use perfkit.Context.{accepted}
use perfkit.Sample
use perfkit.Sample.{Sample, no_source}
use perfkit.World.{World, running}
use perfkit.Tests.{words, clock, context, channel_in, source_in, fresh, with_channel}
use perfkit.Source
use perfkit.Subscription
use perfkit.Channel
use perfkit.System.Signals.{signals}
use perfkit.System.Subscribing.{times, subscribe_unsubscribe, subscribe_twice, late_source_waits}
use perfkit.System.Delivering.{sample_calls, sample_bytes, deliver_sample_calls, settings_ignored}

-- The source 5 runs, with a manifest, and the subscription 3 stands in its array twice.
abbrev listened : World
listened = record fresh { sources = λ s. source_in true (some 1) (some 8) (3 ∷ 4 ∷ 3 ∷ []) }

abbrev sample : Sample
sample = record {
  ref_count = 1;
  ts = record { tv_sec = 102; tv_nsec = 0 };
  source_id = no_source;
  buf = 8 ∷ 7 ∷ [];
}

subscribe_unsubscribe_example :
    (((Subscription.remove_source 4 context 5
          (Subscription.add_source words clock 4 context 5 listened).0).0.subscriptions
        4).sources
      ≡ [])
    × ((q : ℕ)
        → times
            ((Subscription.remove_source 4 context 5
                (Subscription.add_source words clock 4 context 5 listened).0).0.sources
              5).subscriptions
            q
          ≡ times (3 ∷ 4 ∷ 3 ∷ []) q)
subscribe_unsubscribe_example = subscribe_unsubscribe words clock 4 5 context listened refl

subscribe_twice_example :
    let add = λ (x : World). (Subscription.add_source words clock 6 context 5 x).0 in
    let w' = (Subscription.remove_source 6 context 5 (add (add listened))).0 in
    ((w'.subscriptions 6).sources ≡ []) × (times (w'.sources 5).subscriptions 6 ≡ 1)
subscribe_twice_example = subscribe_twice words clock 6 5 context listened refl

late_source_waits_example :
    let (w', reply) =
      Channel.add_source words clock 1 context 6 (with_channel (channel_in running 77 [])) in
    (reply ≡ accepted)
    × (contains (w'.channels 1).sources 6 ≡ true)
    × ((w'.channels 1).state ≡ ((with_channel (channel_in running 77 [])).channels 1).state)
    × ((w'.sources 6).running ≡ false)
    × (signals 6 w' ≡ false)
late_source_waits_example =
    late_source_waits words clock 1 6 context (with_channel (channel_in running 77 [])) refl

deliver_sample_calls_example :
    Source.deliver_sample words clock 5 sample listened ≡ record listened {
      calls =
          sample_calls
            (sample_bytes words clock listened.manifests (some 8) (Sample.set_source_id sample 9))
            listened.subscriptions
            (3 ∷ 4 ∷ 3 ∷ [])
          ++ [];
    }
deliver_sample_calls_example = deliver_sample_calls words clock 5 sample listened

settings_ignored_example :
    let calls = λ (x : World). (Source.deliver_sample words clock 5 sample x).calls in
    (calls (Subscription.set_state 3 context 1 listened).0 ≡ calls listened)
    × (calls (Subscription.set_encoder 3 context (some 2) listened).0 ≡ calls listened)
    × (calls (Subscription.set_buffer 3 context 10 20 listened).0 ≡ calls listened)
settings_ignored_example = settings_ignored words clock 5 3 1 10 20 context (some 2) sample listened
