-- ===== src/Source/Handover.antt =====
-- Two threads on one source: `pka_source_deliver_manifest` publishes a manifest while
-- `pka_source_add_subscription` adds a subscription. Each takes the lock of the source twice, so
-- their critical sections interleave.
pub mod Order
use perfkit.Prelude.{
  ℕ, ◌≡◌, ◌≢◌, refl, sym, ◌∙◌, ap, ◌⊎◌, inl, inr, Bool, true, false, ◌||◌, Option, none, some, List,
  [], ◌∷◌, ◌++◌, ◌==◌, ==_self, arith, contains, Bool-cases, if◌then◌else◌,
}
use perfkit.Wire.{Bytes, Buffer, Time}
use perfkit.Manifest
use perfkit.Manifest.{Manifest}
use perfkit.Encoder.{encode_manifest, real_encode_manifest}
use perfkit.World.{
  World, Call, manifest_call, sample_call, garbled_sample_call, emit, child_watch_add, kill,
  foreach,
}
use perfkit.Delivery
use perfkit.Source.{
  deliver_manifest_locked, deliver_manifest_all, add_subscription_locked, add_subscription_deliver,
}

-- How far a thread is in its two sections.
pub data Progress : Type 0 where
  before between after : Progress

pub data Thread : Type 0 where
  deliverer subscriber : Thread

pub record Race : Type 0 where
  pub world : World
  pub delivering : Progress
  pub subscribing : Progress
  pub seen : Option ℕ

unfoldable pub begin : World → Race
begin w = record { world = w; delivering = before; subscribing = before; seen = none }

-- What the subscription `p` was last sent.
abbrev pub last_manifest : ℕ → List Call → Option Bytes
last_manifest p [] = none
last_manifest p (manifest_call k q bytes ∷ calls) =
    if q == p then some bytes else last_manifest p calls
last_manifest p (_ ∷ calls) = last_manifest p calls

module _ (b : Buffer) (t : Time) (s : ℕ) where
  unfoldable pub deliver_turn : ℕ → Progress → Race → Race
  unfolding deliver_manifest_locked deliver_manifest_all
  deliver_turn m before r = record r {
    world = deliver_manifest_locked s m r.world;
    delivering = between;
  }
  deliver_turn m between r = record r {
    world = deliver_manifest_all b t s m r.world;
    delivering = after;
  }
  deliver_turn m after r = r

  unfoldable pub subscribe_turn : ℕ → Progress → Race → Race
  unfolding add_subscription_locked add_subscription_deliver
  subscribe_turn p before r =
      let (w, seen) = add_subscription_locked s p r.world in
      record r { world = w; subscribing = between; seen = seen }
  subscribe_turn p between r = record r {
    world = add_subscription_deliver b t s p r.seen r.world;
    subscribing = after;
  }
  subscribe_turn p after r = r

module _ (b : Buffer) (t : Time) (s p m : ℕ) where
  -- One thread runs its next section.
  unfoldable pub turn : Thread → Race → Race
  unfolding deliver_turn subscribe_turn
  turn deliverer r = deliver_turn b t s m r.delivering r
  turn subscriber r = subscribe_turn b t s p r.subscribing r

  unfoldable pub race : List Thread → Race → Race
  unfolding turn
  race [] r = r
  race (x ∷ xs) r = race xs (turn x r)
