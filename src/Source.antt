-- ===== src/Source.antt =====
-- perfkit-agent/pka-source.c: a source, its subscriptions, and the signals that it queues.
-- An operation takes the pointer of the source. Where one takes its lock twice, each critical
-- section is a function of its own, and the operation is their sequence.
pub mod Handover
use perfkit.Prelude.{
  ℕ, Bool, true, false, ◌&&◌, Option, none, some, List, [], ◌∷◌, ◌++◌, ◌==◌, if◌then◌else◌, length,
  update,
}
use perfkit.Wire.{Buffer, Time}
use perfkit.Manifest
use perfkit.Sample
use perfkit.Sample.{Sample}
use perfkit.World.{
  SpawnInfo, Source, World, started, stopped_signal, muted_signal, unmuted_signal, reset_signal,
  emit, put_source, queue, call, foreach, spawn_info_copy,
}
use perfkit.Delivery

-- `pka_source_init`, with the id that the sequence gave.
unfoldable pub new : ℕ → Source
new id = record {
  id = id;
  running = false;
  plugin = none;
  manifest = none;
  subscriptions = [];
  channel = none;
}

-- `pka_source_emit_*`: the main loop runs the oldest timeout.
unfoldable pub dispatch : World → World
dispatch w = elim w.timeouts [ [] ↦ w | e ∷ rest ↦ call (emit e) (record w { timeouts = rest }) ]

unfoldable pub queue_started : ℕ → SpawnInfo → World → World
unfolding spawn_info_copy
queue_started s info w = queue (started s (spawn_info_copy info)) w

unfoldable pub queue_stopped : ℕ → World → World
queue_stopped s w = queue (stopped_signal s) w

unfoldable pub queue_muted : ℕ → World → World
queue_muted s w = queue (muted_signal s) w

unfoldable pub queue_unmuted : ℕ → World → World
queue_unmuted s w = queue (unmuted_signal s) w

unfoldable pub queue_reset : ℕ → World → World
queue_reset s w = queue (reset_signal s) w

-- A source accepts one channel for its life; FALSE if it has one.
unfoldable pub set_channel : ℕ → ℕ → World → World × Bool
set_channel s c w = elim (w.sources s).channel [
  | some _ ↦ (w, false)
  | none ↦ (put_source s (record (w.sources s) { channel = some c }) w, true)
]

unfoldable pub set_plugin : ℕ → ℕ → World → World
set_plugin s plugin w = elim (w.sources s).plugin [
  | some _ ↦ w
  | none ↦ put_source s (record (w.sources s) { plugin = some plugin }) w
]

unfoldable pub notify_started : SpawnInfo → ℕ → World → World
unfolding queue_started queue_muted
notify_started info s w =
    let src = w.sources s in
    let w' = queue_started s info (put_source s (record src { running = true }) w) in
    if length src.subscriptions == 0 then queue_muted s w' else w'

unfoldable pub notify_stopped : ℕ → World → World
unfolding queue_stopped
notify_stopped s w =
    if (w.sources s).running
    then queue_stopped s (put_source s (record (w.sources s) { running = false }) w)
    else w

unfoldable pub notify_muted : ℕ → World → World
unfolding queue_muted
notify_muted s w = queue_muted s w

unfoldable pub notify_unmuted : ℕ → World → World
unfolding queue_unmuted
notify_unmuted s w = queue_unmuted s w

unfoldable pub notify_reset : ℕ → World → World
unfolding queue_reset
notify_reset s w = queue_reset s w

-- `g_ptr_array_remove_fast`: the last pointer takes the place of the first match.
unfoldable pub last_first : List ℕ → List ℕ
last_first [] = []
last_first (x ∷ xs) = elim (last_first xs) [ [] ↦ x ∷ [] | l ∷ rest ↦ l ∷ x ∷ rest ]

unfoldable pub remove_fast : ℕ → List ℕ → List ℕ
unfolding last_first
remove_fast p [] = []
remove_fast p (x ∷ xs) = if x == p then last_first xs else x ∷ remove_fast p xs

unfoldable pub remove_subscription : ℕ → ℕ → World → World
unfolding remove_fast queue_muted
remove_subscription s p w =
    let src = w.sources s in
    let left = remove_fast p src.subscriptions in
    let w' = put_source s (record src { subscriptions = left }) w in
    if src.running && length left == 0 then queue_muted s w' else w'

-- The first critical section of `pka_source_add_subscription`, with the manifest that it saw.
unfoldable pub add_subscription_locked : ℕ → ℕ → World → World × Option ℕ
unfolding queue_unmuted
add_subscription_locked s p w =
    let src = w.sources s in
    let subscriptions = src.subscriptions ++ (p ∷ []) in
    let w' = put_source s (record src { subscriptions = subscriptions }) w in
    (if src.running && length subscriptions == 1 then queue_unmuted s w' else w', src.manifest)

-- The first critical section of `pka_source_deliver_manifest`, and the write before it.
unfoldable pub deliver_manifest_locked : ℕ → ℕ → World → World
unfolding Manifest.set_source_id
deliver_manifest_locked s m w =
    let src = w.sources s in
    put_source s (record src { manifest = some m })
      (record w {
        manifests = update w.manifests m (Manifest.set_source_id (w.manifests m) src.id);
      })

abbrev pub is_manifest : Option ℕ → ℕ → Bool
is_manifest none m = false
is_manifest (some n) m = n == m

module _ (b : Buffer) (t : Time) where
  -- The second critical section: the manifest goes out if it is still the source's.
  unfoldable pub add_subscription_deliver : ℕ → ℕ → Option ℕ → World → World
  add_subscription_deliver s p none w = w
  add_subscription_deliver s p (some m) w =
      if is_manifest (w.sources s).manifest m then Delivery.deliver_manifest b t m p w else w

  unfoldable pub add_subscription : ℕ → ℕ → World → World
  unfolding add_subscription_locked add_subscription_deliver
  add_subscription s p w =
      let (w', seen) = add_subscription_locked s p w in add_subscription_deliver s p seen w'

  unfoldable pub deliver_manifest_all : ℕ → ℕ → World → World
  deliver_manifest_all s m w =
      foreach (Delivery.deliver_manifest b t m) (w.sources s).subscriptions w

  unfoldable pub deliver_manifest : ℕ → ℕ → World → World
  unfolding deliver_manifest_locked deliver_manifest_all
  deliver_manifest s m w = deliver_manifest_all s m (deliver_manifest_locked s m w)

  unfoldable pub deliver_sample : ℕ → Sample → World → World
  unfolding Sample.set_source_id
  deliver_sample s sample w =
      let src = w.sources s in
      foreach (Delivery.deliver_sample b t src.manifest (Sample.set_source_id sample src.id))
        src.subscriptions w
