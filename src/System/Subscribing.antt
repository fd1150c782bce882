-- ===== src/System/Subscribing.antt =====
-- What subscribing to a source and unsubscribing from it leave behind, and a source that joins a
-- channel late.
use perfkit.Prelude.{
  ℕ, suc, ◌+◌, ◌≡◌, refl, ◌∙◌, ap, inl, inr, Bool, true, false, ◌||◌, none, some, List, [], ◌∷◌,
  ◌++◌, ◌==◌, arith, contains, Bool-cases, if◌then◌else◌,
}
use perfkit.Context.{Context, accepted}
use perfkit.Wire.{Buffer, Time}
use perfkit.World.{World, put_source, put_channel, put_subscription}
use perfkit.Source
use perfkit.Source.{last_first, remove_fast}
use perfkit.Source.Handover.Order.{joined_frame}
use perfkit.Subscription
use perfkit.Subscription.{tree_insert, tree_remove}
use perfkit.Channel
use perfkit.System.Signals.{signals}
use perfkit.System.Frame.{Keeps, foreach-Keeps}
use perfkit.System.Quiet
use perfkit.System.Invariant.{contains-append_self}
use perfkit.System.Preserved.{set_channel_free}

-- How often a pointer stands in an array.
abbrev pub times : List ℕ → ℕ → ℕ
times [] p = 0
times (x ∷ xs) p = (if x == p then 1 else 0) + times xs p

times-add :
    (xs : List ℕ) (p q : ℕ) → times (xs ++ (p ∷ [])) q ≡ times xs q + (if p == q then 1 else 0)
times-add [] p q = ground arith
times-add (x ∷ xs) p q = ground (arith, times-add xs p q)

times-last_first : (xs : List ℕ) (p : ℕ) → times (last_first xs) p ≡ times xs p
unfolding last_first
times-last_first [] p = refl
times-last_first (x ∷ xs) p = ground (arith, times-last_first xs p)

-- A removal takes one occurrence away, where there is one.
times-remove_fast :
    (xs : List ℕ) (p q : ℕ)
    → contains xs p ≡ true
    → times (remove_fast p xs) q + (if p == q then 1 else 0) ≡ times xs q
unfolding remove_fast
times-remove_fast [] p q h = ground arith
times-remove_fast (x ∷ xs) p q h = elim (Bool-cases (x == p)) [
  | inl same ↦ ground (arith, times-last_first xs q)
  | inr differs ↦ ground (arith, times-remove_fast xs p q (ground arith))
]

abbrev pub has_key : List (ℕ × ℕ) → ℕ → Bool
has_key [] key = false
has_key ((k, x) ∷ tree) key = key == k || has_key tree key

tree_remove-insert :
    (key v : ℕ) (tree : List (ℕ × ℕ))
    → has_key tree key ≡ false
    → tree_remove key (tree_insert key v tree) ≡ tree
unfolding tree_insert tree_remove
tree_remove-insert key v [] h = ground arith
tree_remove-insert key v ((k, x) ∷ tree) h =
    ground (arith, tree_remove-insert key v tree (ground arith))

tree_insert-insert :
    (key v : ℕ) (tree : List (ℕ × ℕ))
    → tree_insert key v (tree_insert key v tree) ≡ tree_insert key v tree
unfolding tree_insert
tree_insert-insert key v [] = ground arith
tree_insert-insert key v ((k, x) ∷ tree) = ground (arith, tree_insert-insert key v tree)

removed :
    (p s : ℕ) (k : Context) (w : World)
    → let w' = (Subscription.remove_source p k s w).0 in
      ((w'.sources s).subscriptions ≡ remove_fast p (w.sources s).subscriptions)
      × ((w'.subscriptions p).sources ≡ tree_remove (w.sources s).id (w.subscriptions p).sources)
unfolding Subscription.remove_source Source.remove_subscription
removed p s k w = (ground arith, ground arith)

module _ (b : Buffer) (t : Time) where
  add_frame :
      (s p : ℕ) (w : World)
      → let w' = Source.add_subscription b t s p w in
        ((w'.sources s).subscriptions ≡ (w.sources s).subscriptions ++ (p ∷ []))
        × ((w'.sources s).id ≡ (w.sources s).id)
        × (w'.subscriptions ≡ w.subscriptions)
  unfolding Source.add_subscription Source.add_subscription_locked
  add_frame s p w =
      let (u, seen) = Source.add_subscription_locked s p w in
      let (a, c, d) = joined_frame b t s p seen u in
      (
        ap (λ x. (x s).subscriptions) a ∙ ground arith,
        ap (λ x. (x s).id) a ∙ ground arith,
        c ∙ ground arith,
      )

  -- What a subscription's call leaves: the array of the source and the tree of the subscription.
  added :
      (p s : ℕ) (k : Context) (w : World)
      → let w' = (Subscription.add_source b t p k s w).0 in
        ((w'.sources s).subscriptions ≡ (w.sources s).subscriptions ++ (p ∷ []))
        × ((w'.sources s).id ≡ (w.sources s).id)
        × ((w'.subscriptions p).sources
            ≡ tree_insert (w.sources s).id s (w.subscriptions p).sources)
  unfolding Subscription.add_source
  added p s k w =
      let sub = w.subscriptions p in
      let u : World =
        put_subscription p (record sub { sources = tree_insert (w.sources s).id s sub.sources })
          w in
      let (a, c, d) = add_frame s p u in (a, c, ap (λ x. (x p).sources) d ∙ ground arith)

  -- A subscription `p` that does not list the source `s` is added to it and removed again. Then it
  -- lists the same sources as before, and every subscription stands in the array of the source as
  -- often as before.
  pub subscribe_unsubscribe :
      (p s : ℕ) (k : Context) (w : World)
      → has_key (w.subscriptions p).sources (w.sources s).id ≡ false
      → let w' = (Subscription.remove_source p k s (Subscription.add_source b t p k s w).0).0 in
        ((w'.subscriptions p).sources ≡ (w.subscriptions p).sources)
        × ((q : ℕ) → times (w'.sources s).subscriptions q ≡ times (w.sources s).subscriptions q)
  subscribe_unsubscribe p s k w h =
      let u = (Subscription.add_source b t p k s w).0 in
      let (a, i, d) = added p s k w in
      let (a', d') = removed p s k u in
      let subs = (w.sources s).subscriptions in
      (
        d'
            ∙ ap (λ x. tree_remove x (u.subscriptions p).sources) i
            ∙ ap (tree_remove (w.sources s).id) d
            ∙ tree_remove-insert (w.sources s).id s (w.subscriptions p).sources h,
        λ q. ground (
          arith,
          a,
          a',
          times-add subs p q,
          times-remove_fast (subs ++ (p ∷ [])) p q (contains-append_self subs p),
        ),
      )

  -- A subscription `p` that does not list the source `s` is added to it twice and removed once.
  -- Then it lists the same sources as before, but stands once more in the array of the source, by
  -- which the source delivers.
  pub subscribe_twice :
      (p s : ℕ) (k : Context) (w : World)
      → has_key (w.subscriptions p).sources (w.sources s).id ≡ false
      → let add = λ (x : World). (Subscription.add_source b t p k s x).0 in
        let w' = (Subscription.remove_source p k s (add (add w))).0 in
        ((w'.subscriptions p).sources ≡ (w.subscriptions p).sources)
        × (times (w'.sources s).subscriptions p ≡ suc (times (w.sources s).subscriptions p))
  subscribe_twice p s k w h =
      let u = (Subscription.add_source b t p k s w).0 in
      let v = (Subscription.add_source b t p k s u).0 in
      let (a, i, d) = added p s k w in
      let (a1, i1, d1) = added p s k u in
      let (a2, d2) = removed p s k v in
      let subs = (w.sources s).subscriptions in
      let tree = (w.subscriptions p).sources in
      let key = (w.sources s).id in
      let same : (v.subscriptions p).sources ≡ tree_insert key s tree =
        rw (d1, i, d, tree_insert-insert key s tree) refl in
      (
        rw (d2, i1, i, same) (tree_remove-insert key s tree h),
        ground (
          arith,
          a,
          a1,
          a2,
          times-add subs p p,
          times-add (subs ++ (p ∷ [])) p p,
          times-remove_fast ((subs ++ (p ∷ [])) ++ (p ∷ [])) p p
              (contains-append_self (subs ++ (p ∷ [])) p),
        ),
      )

  -- A source without a channel is added to one, in whatever state the channel is. Then the call is
  -- accepted and the source is among the channel's own, but it is not started, also where the channel
  -- runs: its flag is as before, and so is whether the last started or stopped signal of its class,
  -- heard or still queued, is a started.
  pub late_source_waits :
      (c s : ℕ) (k : Context) (w : World)
      → (w.sources s).channel ≡ none
      → let (w', reply) = Channel.add_source b t c k s w in
        (reply ≡ accepted)
        × (contains (w'.channels c).sources s ≡ true)
        × ((w'.channels c).state ≡ (w.channels c).state)
        × ((w'.sources s).running ≡ (w.sources s).running)
        × (signals s w' ≡ signals s w)
  unfolding Channel.add_source
  late_source_waits c s k w free =
      let ch = w.channels c in
      let u : World =
        put_channel c (record ch { sources = ch.sources ++ (s ∷ []) })
          (put_source s (record (w.sources s) { channel = some c }) w) in
      let kept : Keeps u _ =
        foreach-Keeps _ (λ p x. Quiet.channel_source_added-Keeps b t s p x) ch.source_added u in
      let joins : contains (u.channels c).sources s ≡ true =
        ground (arith, contains-append_self ch.sources s) in
      rw (set_channel_free s c w free) (
        refl,
        ap (λ x. contains x s) (kept.members c) ∙ joins,
        kept.state c ∙ ground arith,
        kept.running s ∙ ground arith,
        kept.signals s,
      )
