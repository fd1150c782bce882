-- ===== src/System/Frame.antt =====
-- Operations that leave alone which sources a channel has, who owns them, who runs, and what the
-- sources' classes know: all that the subscriptions do.
use perfkit.Prelude.{ℕ, ◌≡◌, refl, ◌∙◌, Bool, Option, List, [], ◌∷◌, arith, if◌then◌else◌}
use perfkit.Wire.{Buffer, Time}
use perfkit.Sample.{Sample}
use perfkit.World.{
  ChannelState, Channel, Source, World, muted_signal, unmuted_signal, foreach, put_channel,
  put_source, put_subscription,
}
use perfkit.Delivery
use perfkit.Source
use perfkit.System.Signals.{signals, hear_all-append}

pub record Keeps (w w' : World) : Type 0 where
  pub state : (c : ℕ) → (w'.channels c).state ≡ (w.channels c).state
  pub members : (c : ℕ) → (w'.channels c).sources ≡ (w.channels c).sources
  pub running : (s : ℕ) → (w'.sources s).running ≡ (w.sources s).running
  pub owner : (s : ℕ) → (w'.sources s).channel ≡ (w.sources s).channel
  pub signals : (s : ℕ) → signals s w' ≡ signals s w

pub Keeps-refl : (w : World) → Keeps w w
Keeps-refl w = record {
  state = λ c. refl;
  members = λ c. refl;
  running = λ s. refl;
  owner = λ s. refl;
  signals = λ s. refl;
}

pub Keeps-trans : {u v w : World} → Keeps u v → Keeps v w → Keeps u w
Keeps-trans h k = record {
  state = λ c. k.state c ∙ h.state c;
  members = λ c. k.members c ∙ h.members c;
  running = λ s. k.running s ∙ h.running s;
  owner = λ s. k.owner s ∙ h.owner s;
  signals = λ s. k.signals s ∙ h.signals s;
}

pub foreach-Keeps :
    (f : ℕ → World → World)
    → ((x : ℕ) (w : World) → Keeps w (f x w))
    → (xs : List ℕ) (w : World) → Keeps w (foreach f xs w)
foreach-Keeps f h [] w = Keeps-refl w
foreach-Keeps f h (x ∷ xs) w = Keeps-trans (h x w) (foreach-Keeps f h xs (f x w))

pub put_subscription-Keeps :
    (p : ℕ) (x : perfkit.World.Subscription) (w : World) → Keeps w (put_subscription p x w)
put_subscription-Keeps p x w = record {
  state = λ c. refl;
  members = λ c. refl;
  running = λ s. refl;
  owner = λ s. refl;
  signals = λ s. refl;
}

-- A write to a source that keeps its flag and its channel.
pub put_source-Keeps :
    (q : ℕ) (x : Source) (w : World)
    → x.running ≡ (w.sources q).running
    → x.channel ≡ (w.sources q).channel
    → Keeps w (put_source q x w)
put_source-Keeps q x w h k = record {
  state = λ c. refl;
  members = λ c. refl;
  running = λ s. ground arith;
  owner = λ s. ground arith;
  signals = λ s. refl;
}

-- A write to a channel that keeps its state and its sources.
pub put_channel-Keeps :
    (q : ℕ) (x : Channel) (w : World)
    → x.state ≡ (w.channels q).state
    → x.sources ≡ (w.channels q).sources
    → Keeps w (put_channel q x w)
put_channel-Keeps q x w h k = record {
  state = λ c. ground arith;
  members = λ c. ground arith;
  running = λ s. refl;
  owner = λ s. refl;
  signals = λ s. refl;
}

pub queue_muted-Keeps : (q : ℕ) (w : World) → Keeps w (Source.queue_muted q w)
unfolding Source.queue_muted
queue_muted-Keeps q w = record {
  state = λ c. refl;
  members = λ c. refl;
  running = λ s. refl;
  owner = λ s. refl;
  signals = λ s. hear_all-append s w.timeouts (muted_signal q) _;
}

pub queue_unmuted-Keeps : (q : ℕ) (w : World) → Keeps w (Source.queue_unmuted q w)
unfolding Source.queue_unmuted
queue_unmuted-Keeps q w = record {
  state = λ c. refl;
  members = λ c. refl;
  running = λ s. refl;
  owner = λ s. refl;
  signals = λ s. hear_all-append s w.timeouts (unmuted_signal q) _;
}

pub if-Keeps :
    (test : Bool) {u v w : World} → Keeps w u → Keeps w v → Keeps w (if test then u else v)
if-Keeps Bool.true h k = h
if-Keeps Bool.false h k = k

module _ (b : Buffer) (t : Time) where
  pub deliver_manifest-Keeps : (m p : ℕ) (w : World) → Keeps w (Delivery.deliver_manifest b t m p w)
  unfolding Delivery.deliver_manifest
  deliver_manifest-Keeps m p w = record {
    state = λ c. ground arith;
    members = λ c. ground arith;
    running = λ s. ground arith;
    owner = λ s. ground arith;
    signals = λ s. ground arith;
  }

  pub deliver_sample-Keeps :
      (m : Option ℕ) (x : Sample) (p : ℕ) (w : World)
      → Keeps w (Delivery.deliver_sample b t m x p w)
  unfolding Delivery.deliver_sample
  deliver_sample-Keeps m x p w = record {
    state = λ c. ground arith;
    members = λ c. ground arith;
    running = λ s. ground arith;
    owner = λ s. ground arith;
    signals = λ s. ground arith;
  }
