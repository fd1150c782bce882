-- ===== src/Delivery.antt =====
-- perfkit-agent/pka-subscription.c, the delivery of manifests and samples to a subscription's
-- closures. The encoder is the built-in one on both paths, as the code passes NULL for it.
use perfkit.Prelude.{ℕ, Option, none, some, [], ◌∷◌}
use perfkit.Wire.{Buffer, Time}
use perfkit.Sample.{Sample}
use perfkit.Encoder.{encode_manifest, encode_samples}
use perfkit.World.{World, manifest_call, sample_call, garbled_sample_call, call}

module _ (b : Buffer) (t : Time) where
  unfoldable pub deliver_manifest : ℕ → ℕ → World → World
  deliver_manifest m p w = elim (w.subscriptions p).manifest_closure [
    | none ↦ w
    | some closure ↦ elim (encode_manifest b t none (w.manifests m)) [
      | none ↦ w
      | some bytes ↦ call (manifest_call closure p bytes) w
    ]
  ]

  -- With no manifest `mts` stays uninitialised, and its content goes into the bytes.
  unfoldable pub deliver_sample : Option ℕ → Sample → ℕ → World → World
  deliver_sample manifest sample p w = elim (w.subscriptions p).sample_closure [
    | none ↦ w
    | some closure ↦ elim manifest [
      | none ↦ call (garbled_sample_call closure p) w
      | some m ↦ elim (encode_samples b t none (w.manifests m) (sample ∷ [])) [
        | none ↦ w
        | some bytes ↦ call (sample_call closure p bytes) w
      ]
    ]
  ]
