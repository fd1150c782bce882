-- ===== src/Source/Handover/Order.antt =====
-- Every interleaving of `pka_source_deliver_manifest` and `pka_source_add_subscription`.
use perfkit.Prelude.{
  ℕ, ◌≡◌, refl, sym, ◌∙◌, ap, ◌⊎◌, inl, inr, Bool, true, false, Option, none, some, List, [], ◌∷◌,
  ◌++◌, ◌==◌, arith, contains, Bool-cases, if◌then◌else◌, update_self,
}
use perfkit.Wire.{Buffer, Time}
use perfkit.Manifest
use perfkit.Manifest.{Manifest}
use perfkit.Encoder.{encode_manifest, real_encode_manifest}
use perfkit.World.{World, foreach}
use perfkit.Delivery
use perfkit.Source.{
  deliver_manifest_locked, deliver_manifest_all, is_manifest, add_subscription_locked,
  add_subscription_deliver,
}
use perfkit.Source.Handover.{
  Progress, before, between, after, Thread, deliverer, subscriber, Race, last_manifest,
  deliver_turn, subscribe_turn, turn, race, begin,
}

chosen :
    (c : Bool) (P : World → Type 0) {x y : World}
    → ((c ≡ true) → P x)
    → ((c ≡ false) → P y)
    → P (if c then x else y)
chosen true P f g = f refl
chosen false P f g = g refl

-- A delivery changes nothing but the calls, and so does the second section of a subscription.
module _ (b : Buffer) (t : Time) where
  deliver_frame :
      (m q : ℕ) (w : World)
      → let w' = Delivery.deliver_manifest b t m q w in
        (w'.sources ≡ w.sources)
        × (w'.subscriptions ≡ w.subscriptions)
        × (w'.manifests ≡ w.manifests)
  unfolding Delivery.deliver_manifest encode_manifest
  deliver_frame m q w = (ground arith, ground arith, ground arith)

  pub joined_frame :
      (s p : ℕ) (seen : Option ℕ) (w : World)
      → let w' = add_subscription_deliver b t s p seen w in
        (w'.sources ≡ w.sources)
        × (w'.subscriptions ≡ w.subscriptions)
        × (w'.manifests ≡ w.manifests)
  unfolding add_subscription_deliver
  joined_frame s p none w = (refl, refl, refl)
  joined_frame s p (some n) w =
      chosen (is_manifest (w.sources s).manifest n)
        (λ w'.
          (w'.sources ≡ w.sources)
          × (w'.subscriptions ≡ w.subscriptions)
          × (w'.manifests ≡ w.manifests))
        (λ _. deliver_frame n p w) (λ _. (refl, refl, refl))

-- The subscription's last manifest is then that one.
module _ (b : Buffer) (t : Time) (m p k : ℕ) where
  deliver_last :
      (w : World)
      → (w.subscriptions p).manifest_closure ≡ some k
      → last_manifest p (Delivery.deliver_manifest b t m p w).calls
        ≡ some (real_encode_manifest b t (w.manifests m))
  unfolding Delivery.deliver_manifest encode_manifest
  deliver_last w h = ground arith

  deliver_keeps_last :
      (q : ℕ) (w : World)
      → last_manifest p w.calls ≡ some (real_encode_manifest b t (w.manifests m))
      → last_manifest p (Delivery.deliver_manifest b t m q w).calls
        ≡ some (real_encode_manifest b t (w.manifests m))
  unfolding Delivery.deliver_manifest encode_manifest
  deliver_keeps_last q w h = ground arith

contains_add : (l : List ℕ) (p : ℕ) → contains (l ++ (p ∷ [])) p ≡ true
contains_add [] p = ground arith
contains_add (x ∷ l) p = (let rest = contains_add l p in ground arith)

-- What holds at each point of the two threads: `M` is the manifest as it is published, `k` the
-- subscription's closure.
module _ (b : Buffer) (t : Time) (s p m k : ℕ) (M : Manifest) where
  abbrev Sent : World → Type 0
  Sent w = last_manifest p w.calls ≡ some (real_encode_manifest b t M)

  abbrev Published : Progress → World → Type 0
  Published before w = Manifest.set_source_id (w.manifests m) (w.sources s).id ≡ M
  Published _ w = ((w.sources s).manifest ≡ some m) × (w.manifests m ≡ M)

  abbrev Joined : Progress → World → Type 0
  Joined before w = Unit
  Joined _ w = contains (w.sources s).subscriptions p ≡ true

  abbrev Told : Progress → Progress → Option ℕ → World → Type 0
  Told after between seen w = Sent w ⊎ (seen ≡ some m)
  Told after after seen w = Sent w
  Told _ _ seen w = Unit

  record Fine (r : Race) : Type 0 where
    listens : (r.world.subscriptions p).manifest_closure ≡ some k
    published : Published r.delivering r.world
    joined : Joined r.subscribing r.world
    told : Told r.delivering r.subscribing r.seen r.world

  foreach_frame :
      (l : List ℕ) (w : World)
      → let w' = foreach (Delivery.deliver_manifest b t m) l w in
        (w'.sources ≡ w.sources)
        × (w'.subscriptions ≡ w.subscriptions)
        × (w'.manifests ≡ w.manifests)
  foreach_frame [] w = (refl, refl, refl)
  foreach_frame (q ∷ l) w =
      let (a, c, d) = foreach_frame l (Delivery.deliver_manifest b t m q w) in
      let (a', c', d') = deliver_frame b t m q w in (a ∙ a', c ∙ c', d ∙ d')

  deliver_sends :
      (w : World)
      → (w.subscriptions p).manifest_closure ≡ some k
      → w.manifests m ≡ M
      → Sent (Delivery.deliver_manifest b t m p w)
  deliver_sends w h e = deliver_last b t m p k w h ∙ ap (λ x. some (real_encode_manifest b t x)) e

  deliver_keeps :
      (q : ℕ) (w : World) → w.manifests m ≡ M → Sent w → Sent (Delivery.deliver_manifest b t m q w)
  deliver_keeps q w e h =
      let enc = ap (λ x. some (real_encode_manifest b t x)) e in
      deliver_keeps_last b t m p k q w (h ∙ sym enc) ∙ enc

  foreach_keeps :
      (l : List ℕ) (w : World)
      → w.manifests m ≡ M
      → Sent w
      → Sent (foreach (Delivery.deliver_manifest b t m) l w)
  foreach_keeps [] w e h = h
  foreach_keeps (q ∷ l) w e h =
      let w' = Delivery.deliver_manifest b t m q w in
      let (_, _, d) = deliver_frame b t m q w in
      foreach_keeps l w' (ap (λ x. x m) d ∙ e) (deliver_keeps q w e h)

  foreach_sends :
      (l : List ℕ) (w : World)
      → contains l p ≡ true
      → (w.subscriptions p).manifest_closure ≡ some k
      → w.manifests m ≡ M
      → Sent (foreach (Delivery.deliver_manifest b t m) l w)
  foreach_sends [] w i h e = ground arith
  foreach_sends (q ∷ l) w i h e =
      let w' = Delivery.deliver_manifest b t m q w in
      let (_, c, d) = deliver_frame b t m q w in
      let e' = ap (λ x. x m) d ∙ e in
      elim (Bool-cases (q == p)) [
        | inl same ↦
            let eq : q ≡ p = ground arith in
            foreach_keeps l w' e' (
              ap (λ x. last_manifest p (Delivery.deliver_manifest b t m x w).calls) eq
              ∙ deliver_sends w h e)
        | inr differs ↦
            foreach_sends l w' (ground arith) (ap (λ x. (x p).manifest_closure) c ∙ h) e'
      ]

  locked-Published :
      (w : World) → Published before w → Published between (deliver_manifest_locked s m w)
  unfolding deliver_manifest_locked
  locked-Published w e = (
    ap (λ x. x.manifest) (update_self w.sources s (record (w.sources s) { manifest = some m })),
    update_self w.manifests m (Manifest.set_source_id (w.manifests m) (w.sources s).id) ∙ e,
  )

  locked-Joined : (c : Progress) (w : World) → Joined c w → Joined c (deliver_manifest_locked s m w)
  unfolding deliver_manifest_locked
  locked-Joined before w h = tt
  locked-Joined between w h = ground arith
  locked-Joined after w h = ground arith

  all-Joined : (c : Progress) (w : World) → Joined c w → Joined c (deliver_manifest_all b t s m w)
  unfolding deliver_manifest_all
  all-Joined before w h = tt
  all-Joined between w h =
      let (a, _, _) = foreach_frame (w.sources s).subscriptions w in
      ap (λ x. contains (x s).subscriptions p) a ∙ h
  all-Joined after w h =
      let (a, _, _) = foreach_frame (w.sources s).subscriptions w in
      ap (λ x. contains (x s).subscriptions p) a ∙ h

  all-Told :
      (c : Progress) (seen : Option ℕ) (w : World)
      → (w.subscriptions p).manifest_closure ≡ some k
      → w.manifests m ≡ M
      → Joined c w
      → Told after c seen (deliver_manifest_all b t s m w)
  unfolding deliver_manifest_all
  all-Told before seen w h e j = tt
  all-Told between seen w h e j = inl (foreach_sends (w.sources s).subscriptions w j h e)
  all-Told after seen w h e j = foreach_sends (w.sources s).subscriptions w j h e

  between-Told : (c : Progress) (seen : Option ℕ) (w : World) → Told between c seen w
  between-Told before seen w = tt
  between-Told between seen w = tt
  between-Told after seen w = tt

  deliver_turn-Fine :
      (d c : Progress) (w : World) (seen : Option ℕ)
      → let r : Race = record { world = w; delivering = d; subscribing = c; seen = seen } in
        Fine r → Fine (deliver_turn b t s m d r)
  unfolding deliver_turn deliver_manifest_all
  deliver_turn-Fine before c w seen f = record {
    listens = f.listens;
    published = locked-Published w f.published;
    joined = locked-Joined c w f.joined;
    told = between-Told c seen (deliver_manifest_locked s m w);
  }
  deliver_turn-Fine between c w seen f =
      let (a, u, v) = foreach_frame (w.sources s).subscriptions w in
      record {
        listens = ap (λ x. (x p).manifest_closure) u ∙ f.listens;
        published = (ap (λ x. (x s).manifest) a ∙ f.published.0, ap (λ x. x m) v ∙ f.published.1);
        joined = all-Joined c w f.joined;
        told = all-Told c seen w f.listens f.published.1 f.joined;
      }
  deliver_turn-Fine after c w seen f = f

  joining-Joined : (w : World) → Joined between (add_subscription_locked s p w).0
  unfolding add_subscription_locked
  joining-Joined w = let h = contains_add (w.sources s).subscriptions p in ground arith

  joining_frame :
      (w : World)
      → let w' = (add_subscription_locked s p w).0 in
        ((w'.sources s).id ≡ (w.sources s).id)
        × ((w'.sources s).manifest ≡ (w.sources s).manifest)
        × (w'.manifests ≡ w.manifests)
        × (w'.subscriptions ≡ w.subscriptions)
  unfolding add_subscription_locked
  joining_frame w = (ground arith, ground arith, ground arith, ground arith)

  joining-Published :
      (d : Progress) (w : World) → Published d w → Published d (add_subscription_locked s p w).0
  joining-Published before w h =
      let (i, _, v, _) = joining_frame w in
      let same : Manifest.set_source_id ((add_subscription_locked s p w).0.manifests m)
            ((add_subscription_locked s p w).0.sources s).id
          ≡ Manifest.set_source_id (w.manifests m) (w.sources s).id =
        cc in
      same ∙ h
  joining-Published between w h =
      let (_, c, v, _) = joining_frame w in (c ∙ h.0, ap (λ x. x m) v ∙ h.1)
  joining-Published after w h =
      let (_, c, v, _) = joining_frame w in (c ∙ h.0, ap (λ x. x m) v ∙ h.1)

  joining-Told :
      (d : Progress) (w : World)
      → Published d w
      → Told d between (add_subscription_locked s p w).1 (add_subscription_locked s p w).0
  unfolding add_subscription_locked
  joining-Told before w h = tt
  joining-Told between w h = tt
  joining-Told after w h = inr h.0

  -- It leaves the subscription told, once the manifest is published and it was told or saw it.
  joined-Told :
      (seen : Option ℕ) (w : World)
      → (w.subscriptions p).manifest_closure ≡ some k
      → Published after w
      → Told after between seen w
      → Sent (add_subscription_deliver b t s p seen w)
  unfolding add_subscription_deliver
  joined-Told none w h e (inl sent) = sent
  joined-Told none w h e (inr saw) = ground arith
  joined-Told (some n) w h e told =
      chosen (is_manifest (w.sources s).manifest n) Sent
        (λ is.
          let eq : n ≡ m = let e0 = e.0 in ground arith in
          ap (λ x. last_manifest p (Delivery.deliver_manifest b t x p w).calls) eq
          ∙ deliver_sends w h e.1)
        (λ isnt. elim told [ inl sent ↦ sent | inr saw ↦ let e0 = e.0 in ground arith ])

  keeps_Published :
      (d : Progress) (w w' : World)
      → w'.sources ≡ w.sources
      → w'.manifests ≡ w.manifests
      → Published d w
      → Published d w'
  keeps_Published before w w' a v h =
      let same : Manifest.set_source_id (w'.manifests m) (w'.sources s).id
          ≡ Manifest.set_source_id (w.manifests m) (w.sources s).id =
        cc in
      same ∙ h
  keeps_Published between w w' a v h = (ap (λ x. (x s).manifest) a ∙ h.0, ap (λ x. x m) v ∙ h.1)
  keeps_Published after w w' a v h = (ap (λ x. (x s).manifest) a ∙ h.0, ap (λ x. x m) v ∙ h.1)

  joined_tells :
      (d : Progress) (seen : Option ℕ) (w : World)
      → (w.subscriptions p).manifest_closure ≡ some k
      → Published d w
      → Told d between seen w
      → Told d after seen (add_subscription_deliver b t s p seen w)
  joined_tells before seen w h e told = tt
  joined_tells between seen w h e told = tt
  joined_tells after seen w h e told = joined-Told seen w h e told

  subscribe_turn-Fine :
      (c d : Progress) (w : World) (seen : Option ℕ)
      → let r : Race = record { world = w; delivering = d; subscribing = c; seen = seen } in
        Fine r → Fine (subscribe_turn b t s p c r)
  unfolding subscribe_turn
  subscribe_turn-Fine before d w seen f =
      let (_, _, _, u) = joining_frame w in
      record {
        listens = ap (λ x. (x p).manifest_closure) u ∙ f.listens;
        published = joining-Published d w f.published;
        joined = joining-Joined w;
        told = joining-Told d w f.published;
      }
  subscribe_turn-Fine between d w seen f =
      let (a, u, v) = joined_frame b t s p seen w in
      record {
        listens = ap (λ x. (x p).manifest_closure) u ∙ f.listens;
        published = keeps_Published d w (add_subscription_deliver b t s p seen w) a v f.published;
        joined = ap (λ x. contains (x s).subscriptions p) a ∙ f.joined;
        told = joined_tells d seen w f.listens f.published f.told;
      }
  subscribe_turn-Fine after d w seen f = f

  turn-Fine : (x : Thread) (r : Race) → Fine r → Fine (turn b t s p m x r)
  unfolding turn
  turn-Fine deliverer r f = deliver_turn-Fine r.delivering r.subscribing r.world r.seen f
  turn-Fine subscriber r f = subscribe_turn-Fine r.subscribing r.delivering r.world r.seen f

  race-Fine : (xs : List Thread) (r : Race) → Fine r → Fine (race b t s p m xs r)
  unfolding race
  race-Fine [] r f = f
  race-Fine (x ∷ xs) r f = race-Fine xs (turn b t s p m x r) (turn-Fine x r f)

  finished :
      (d c : Progress) (seen : Option ℕ) (w : World)
      → d ≡ after
      → c ≡ after
      → Told d c seen w
      → Sent w
  finished before c seen w h e told = ground arith
  finished between c seen w h e told = ground arith
  finished after before seen w h e told = ground arith
  finished after between seen w h e told = ground arith
  finished after after seen w h e told = told

-- A thread delivers the manifest `m` to the source `s`, another adds the subscription `p`, which has
-- a manifest closure, to it, and their critical sections come in any order `xs`. When both are done,
-- the last manifest that `p` was sent is `m`, encoded with the identifier of the source.
pub race_delivers :
    (b : Buffer) (t : Time) (s p m k : ℕ) (w : World) (xs : List Thread)
    → (w.subscriptions p).manifest_closure ≡ some k
    → (race b t s p m xs (begin w)).delivering ≡ after
    → (race b t s p m xs (begin w)).subscribing ≡ after
    → last_manifest p (race b t s p m xs (begin w)).world.calls
      ≡ some (real_encode_manifest b t (Manifest.set_source_id (w.manifests m) (w.sources s).id))
unfolding begin
race_delivers b t s p m k w xs h d c =
    let r = race b t s p m xs (begin w) in
    let M = Manifest.set_source_id (w.manifests m) (w.sources s).id in
    let start : Fine b t s p m k M (begin w) = record {
      listens = h;
      published = refl;
      joined = tt;
      told = tt;
    } in
    let f = race-Fine b t s p m k M xs (begin w) start in
    finished b t s p m k M r.delivering r.subscribing r.seen r.world d c f.told
