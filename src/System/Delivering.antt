-- ===== src/System/Delivering.antt =====
-- What a delivered sample sends to the closures of the subscriptions.
use perfkit.Prelude.{
  ℕ, ◌≡◌, refl, sym, ◌∙◌, ap, Option, none, some, List, [], ◌∷◌, ◌++◌, arith, Store, zero, suc,
}
use perfkit.Context.{Context}
use perfkit.Wire.{Bytes, Buffer, Time}
use perfkit.Manifest.{Manifest}
use perfkit.Sample
use perfkit.Sample.{Sample}
use perfkit.Encoder.{encode_samples, real_encode_samples}
use perfkit.World.{
  World, Call, sample_call, garbled_sample_call, Subscription, put_subscription, foreach,
}
use perfkit.Delivery
use perfkit.Source
use perfkit.Subscription

-- The call to one subscription: none without a closure, and a garbled one without bytes.
abbrev pub sample_call_to : Option Bytes → ℕ → Option ℕ → List Call
sample_call_to bytes p none = []
sample_call_to none p (some closure) = garbled_sample_call closure p ∷ []
sample_call_to (some bytes) p (some closure) = sample_call closure p bytes ∷ []

-- The calls to an array of subscriptions, newest first.
abbrev pub sample_calls : Option Bytes → Store Subscription → List ℕ → List Call
sample_calls bytes subscriptions [] = []
sample_calls bytes subscriptions (p ∷ ps) =
    sample_calls bytes subscriptions ps ++ sample_call_to bytes p (subscriptions p).sample_closure

append_assoc : {A : Type 0} (xs ys zs : List A) → (xs ++ ys) ++ zs ≡ xs ++ (ys ++ zs)
append_assoc [] ys zs = refl
append_assoc (x ∷ xs) ys zs = ap (λ l. x ∷ l) (append_assoc xs ys zs)

module _ (b : Buffer) (t : Time) where
  -- What a sample is on the wire, by the manifest of its source.
  abbrev pub sample_bytes : Store Manifest → Option ℕ → Sample → Option Bytes
  sample_bytes manifests none sample = none
  sample_bytes manifests (some m) sample =
      some (real_encode_samples b t (manifests m) (sample ∷ []))

  deliver_one :
      (manifest : Option ℕ) (sample : Sample) (p : ℕ) (w : World)
      → Delivery.deliver_sample b t manifest sample p w ≡ record w {
        calls =
            sample_call_to
              (sample_bytes w.manifests manifest sample)
              p
              (w.subscriptions p).sample_closure
            ++ w.calls;
      }
  unfolding Delivery.deliver_sample encode_samples
  deliver_one none sample p w = ground arith
  deliver_one (some m) sample p w = ground arith

  deliver_all :
      (manifest : Option ℕ) (sample : Sample) (ps : List ℕ) (w : World)
      → foreach (Delivery.deliver_sample b t manifest sample) ps w ≡ record w {
        calls =
            sample_calls (sample_bytes w.manifests manifest sample) w.subscriptions ps ++ w.calls;
      }
  deliver_all manifest sample [] w = refl
  deliver_all manifest sample (p ∷ ps) w =
      let bytes = sample_bytes w.manifests manifest sample in
      let sent = sample_call_to bytes p (w.subscriptions p).sample_closure in
      ap (foreach (Delivery.deliver_sample b t manifest sample) ps)
        (deliver_one manifest sample p w)
      ∙ deliver_all manifest sample ps (record w { calls = sent ++ w.calls })
      ∙ ap (λ l. record w { calls = l })
          (sym (append_assoc (sample_calls bytes w.subscriptions ps) sent w.calls))

  -- A source delivers a sample. Every subscription in its array that has a sample closure has this
  -- closure invoked, in the order of the array and as often as it stands there, with the sample
  -- under the source's identifier, encoded by the source's manifest; without a manifest the bytes
  -- are garbled. Nothing else changes. The state of the source's channel does not matter: where it
  -- is muted the sample is delivered all the same, against the documentation of the mute.
  pub deliver_sample_calls :
      (s : ℕ) (sample : Sample) (w : World)
      → Source.deliver_sample b t s sample w ≡ record w {
        calls =
            sample_calls
              (sample_bytes w.manifests
                (w.sources s).manifest
                (Sample.set_source_id sample (w.sources s).id))
              w.subscriptions
              (w.sources s).subscriptions
            ++ w.calls;
      }
  unfolding Source.deliver_sample
  deliver_sample_calls s sample w =
      let src = w.sources s in
      deliver_all src.manifest (Sample.set_source_id sample src.id) src.subscriptions w

  sample_calls_same :
      (bytes : Option Bytes) (f g : Store Subscription) (ps : List ℕ)
      → ((q : ℕ) → (f q).sample_closure ≡ (g q).sample_closure)
      → sample_calls bytes f ps ≡ sample_calls bytes g ps
  sample_calls_same bytes f g [] h = refl
  sample_calls_same bytes f g (p ∷ ps) h = rw (h p, sample_calls_same bytes f g ps h) refl

  put_calls :
      (s p : ℕ) (sample : Sample) (x : Subscription) (w : World)
      → x.sample_closure ≡ (w.subscriptions p).sample_closure
      → (Source.deliver_sample b t s sample (put_subscription p x w)).calls
        ≡ (Source.deliver_sample b t s sample w).calls
  put_calls s p sample x w h =
      let u = put_subscription p x w in
      let src = w.sources s in
      let bytes = sample_bytes w.manifests src.manifest (Sample.set_source_id sample src.id) in
      ap (λ y. y.calls) (deliver_sample_calls s sample u)
      ∙ ap (λ l. l ++ w.calls)
          (sample_calls_same bytes u.subscriptions w.subscriptions src.subscriptions
            (λ q. ground arith))
      ∙ sym (ap (λ y. y.calls) (deliver_sample_calls s sample w))

  set_state_calls :
      (s p code : ℕ) (k : Context) (sample : Sample) (w : World)
      → (Source.deliver_sample b t s sample (Subscription.set_state p k code w).0).calls
        ≡ (Source.deliver_sample b t s sample w).calls
  unfolding Subscription.set_state
  set_state_calls s p zero k sample w = put_calls s p sample _ w refl
  set_state_calls s p (suc zero) k sample w = put_calls s p sample _ w refl
  set_state_calls s p (suc (suc n)) k sample w = refl

  -- A sample causes the same calls whatever the state, the encoder and the buffer of a
  -- subscription are set to; in particular a muted subscription still gets it.
  pub settings_ignored :
      (s p code timeout size : ℕ) (k : Context) (e : Option ℕ) (sample : Sample) (w : World)
      → let calls = λ (x : World). (Source.deliver_sample b t s sample x).calls in
        (calls (Subscription.set_state p k code w).0 ≡ calls w)
        × (calls (Subscription.set_encoder p k e w).0 ≡ calls w)
        × (calls (Subscription.set_buffer p k timeout size w).0 ≡ calls w)
  unfolding Subscription.set_encoder Subscription.set_buffer
  settings_ignored s p code timeout size k e sample w = (
    set_state_calls s p code k sample w,
    put_calls s p sample _ w refl,
    put_calls s p sample _ w refl,
  )
