-- ===== src/Subscription.antt =====
-- perfkit-agent/pka-subscription.c: what a client listens to. Delivery stands in Delivery.antt.
use mathlib.Core.List.{reverse}
use perfkit.Prelude.{
  ℕ, zero, suc, Bool, true, Option, none, some, List, [], ◌∷◌, ◌++◌, map, ltb, ◌==◌, if◌then◌else◌,
}
use perfkit.Context.{
  Context, Ioctl, modify_subscription, Reply, accepted, rejected, not_authorized, default_context,
}
use perfkit.Wire.{Buffer, Time}
use perfkit.World.{
  Channel, Subscription, SubscriptionState, sub_unmuted, sub_muted, World, put_channel,
  put_subscription, foreach,
}
use perfkit.Source

-- The macro IS_AUTHORIZED of this file.
unfoldable pub is_authorized : Context → Ioctl → ℕ → Bool
is_authorized context ioctl target = true

-- A GTree in key order: an insertion under a key that is there replaces its value.
unfoldable pub tree_insert : ℕ → ℕ → List (ℕ × ℕ) → List (ℕ × ℕ)
tree_insert key v [] = (key, v) ∷ []
tree_insert key v ((k, x) ∷ tree) =
    if key == k
    then (key, v) ∷ tree
    else if ltb key k
    then (key, v) ∷ (k, x) ∷ tree
    else (k, x) ∷ tree_insert key v tree

unfoldable pub tree_remove : ℕ → List (ℕ × ℕ) → List (ℕ × ℕ)
tree_remove key [] = []
tree_remove key ((k, x) ∷ tree) = if key == k then tree else (k, x) ∷ tree_remove key tree

-- `pka_subscription_new`, with the id that the sequence gave and the time of the call.
unfoldable pub new : ℕ → ℕ → Subscription
new id now = record {
  ref_count = 1;
  id = id;
  state = sub_muted;
  created_at = now;
  buffer_timeout = 0;
  buffer_size = 0;
  channels = [];
  sources = [];
  encoder = none;
  manifest_closure = none;
  sample_closure = none;
}

-- The encoder is stored, and the reply is FALSE with no error.
unfoldable pub set_encoder : ℕ → Context → Option ℕ → World → World × Reply
set_encoder p context encoder w =
    (put_subscription p (record (w.subscriptions p) { encoder = encoder }) w, rejected none)

-- The value of a `PkaSubscriptionState` argument; any other number is invalid.
unfoldable pub state_of : ℕ → Option SubscriptionState
state_of zero = some sub_unmuted
state_of (suc zero) = some sub_muted
state_of (suc (suc n)) = none

unfoldable pub set_state : ℕ → Context → ℕ → World → World × Reply
unfolding is_authorized state_of
set_state p context code w = elim (state_of code) [
  | none ↦ (w, rejected (some not_authorized))
  | some state ↦
      if is_authorized context modify_subscription p
      then (put_subscription p (record (w.subscriptions p) { state = state }) w, accepted)
      else (w, rejected (some not_authorized))
]

unfoldable pub mute : ℕ → Context → Bool → World → World × Reply
unfolding set_state
mute p context drain w = set_state p context 1 w

unfoldable pub unmute : ℕ → Context → World → World × Reply
unfolding set_state
unmute p context w = set_state p context 0 w

unfoldable pub set_handlers : ℕ → Context → ℕ → ℕ → World → World
set_handlers p context manifest sample w =
    put_subscription p
      (record (w.subscriptions p) {
        manifest_closure = some manifest;
        sample_closure = some sample;
      })
      w

unfoldable pub set_buffer : ℕ → Context → ℕ → ℕ → World → World × Reply
unfolding is_authorized
set_buffer p context timeout size w =
    if is_authorized context modify_subscription p
    then (
      put_subscription p
          (record (w.subscriptions p) { buffer_timeout = timeout; buffer_size = size }) w,
      accepted,
    )
    else (w, rejected none)

unfoldable pub get_buffer : ℕ → World → ℕ × ℕ
get_buffer p w = ((w.subscriptions p).buffer_timeout, (w.subscriptions p).buffer_size)

-- The tree is walked in key order, and each source is put in front.
unfoldable pub get_sources : ℕ → World → List ℕ
get_sources p w = reverse (map (λ (e : ℕ × ℕ). e.1) (w.subscriptions p).sources)

-- `g_signal_handlers_disconnect_by_func`: every connection of the subscription goes.
unfoldable pub disconnect : ℕ → List ℕ → List ℕ
disconnect p [] = []
disconnect p (q ∷ handlers) = if p == q then disconnect p handlers else q ∷ disconnect p handlers

-- The two handlers of a channel's signals, connected behind the others, and gone again.
abbrev pub connected : ℕ → Channel → Channel
connected p ch = record ch {
  source_added = ch.source_added ++ (p ∷ []);
  source_removed = ch.source_removed ++ (p ∷ []);
}

abbrev pub disconnected : ℕ → Channel → Channel
disconnected p ch = record ch {
  source_added = disconnect p ch.source_added;
  source_removed = disconnect p ch.source_removed;
}

unfoldable pub remove_source : ℕ → Context → ℕ → World → World × Reply
unfolding is_authorized tree_remove Source.remove_subscription
remove_source p context s w =
    if is_authorized context modify_subscription p
    then (let w' = Source.remove_subscription s p w in
        let sub = w'.subscriptions p in
        (
          put_subscription p (record sub { sources = tree_remove (w.sources s).id sub.sources }) w',
          accepted,
        ))
    else (w, rejected (some not_authorized))

-- The handler of "source-removed".
unfoldable pub channel_source_removed : ℕ → ℕ → World → World
unfolding default_context remove_source
channel_source_removed s p w = (remove_source p default_context s w).0

unfoldable pub remove_channel : ℕ → Context → ℕ → World → World × Reply
unfolding is_authorized disconnect remove_source tree_remove
remove_channel p context c w =
    if is_authorized context modify_subscription p
    then (let ch = w.channels c in
        let w' = put_channel c (disconnected p ch) w in
        let w'' = foreach (λ s x. (remove_source p context s x).0) (reverse ch.sources) w' in
        let sub = w''.subscriptions p in
        (
          put_subscription p (record sub { channels = tree_remove ch.id sub.channels }) w'',
          accepted,
        ))
    else (w, rejected (some not_authorized))

module _ (b : Buffer) (t : Time) where
  unfoldable pub add_source : ℕ → Context → ℕ → World → World × Reply
  unfolding is_authorized tree_insert Source.add_subscription
  add_source p context s w =
      if is_authorized context modify_subscription p
      then (let sub = w.subscriptions p in
          let w' =
            put_subscription p (record sub { sources = tree_insert (w.sources s).id s sub.sources })
              w in
          (Source.add_subscription b t s p w', accepted))
      else (w, rejected (some not_authorized))

  -- The handler of "source-added".
  unfoldable pub channel_source_added : ℕ → ℕ → World → World
  unfolding default_context add_source
  channel_source_added s p w = (add_source p default_context s w).0

  unfoldable pub add_channel : ℕ → Context → ℕ → World → World × Reply
  unfolding is_authorized tree_insert add_source
  add_channel p context c w =
      if is_authorized context modify_subscription p
      then (let ch = w.channels c in
          let sub = w.subscriptions p in
          let w' =
            put_channel c (connected p ch)
              (put_subscription p (record sub { channels = tree_insert ch.id c sub.channels }) w) in
          (foreach (λ s x. (add_source p context s x).0) (reverse ch.sources) w', accepted))
      else (w, rejected (some not_authorized))
