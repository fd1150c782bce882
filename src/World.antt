-- ===== src/World.antt =====
-- The objects of the agent behind their pointers, what waits in its main loop, and the calls that
-- leave it: the private structures of perfkit-agent/pka-channel.c, pka-source.c and
-- pka-subscription.c, and perfkit-agent/pka-spawn-info.h.
use perfkit.Prelude.{ℕ, Bool, Option, List, [], ◌∷◌, ◌++◌, Store, update}
use perfkit.Wire.{Bytes}
use perfkit.Manifest.{Manifest}

-- `PkaChannelState`
pub data ChannelState : Type 0 where
  ready running muted stopped failed : ChannelState

-- `PkaSubscriptionState`
pub data SubscriptionState : Type 0 where
  sub_unmuted sub_muted : SubscriptionState

-- `PkaSpawnInfo`; the pid 0 is no process, and `none` a null pointer.
pub record SpawnInfo : Type 0 where
  pub pid : ℕ
  pub target : Option Bytes
  pub args : Option (List Bytes)
  pub env : Option (List Bytes)
  pub working_dir : Option Bytes
  pub standard_input : ℕ
  pub standard_output : ℕ
  pub standard_error : ℕ

-- `struct _PkaChannelPrivate`, with the handlers of its two signals in the order of their
-- connection: each is a subscription.
pub record Channel : Type 0 where
  pub id : ℕ
  pub state : ChannelState
  pub sources : List ℕ
  pub pid : ℕ
  pub pid_set : Bool
  pub working_dir : Option Bytes
  pub target : Option Bytes
  pub env : Option (List Bytes)
  pub args : Option (List Bytes)
  pub kill_pid : Bool
  pub exit_status : ℕ
  pub created_at : ℕ
  pub source_added : List ℕ
  pub source_removed : List ℕ

-- `struct _PkaSourcePrivate`; plugin, manifest, subscriptions and channel are pointers.
pub record Source : Type 0 where
  pub id : ℕ
  pub running : Bool
  pub plugin : Option ℕ
  pub manifest : Option ℕ
  pub subscriptions : List ℕ
  pub channel : Option ℕ

-- `struct _PkaSubscription`; a GTree is the list of its keys and pointers in key order.
pub record Subscription : Type 0 where
  pub ref_count : ℕ
  pub id : ℕ
  pub state : SubscriptionState
  pub created_at : ℕ
  pub buffer_timeout : ℕ
  pub buffer_size : ℕ
  pub channels : List (ℕ × ℕ)
  pub sources : List (ℕ × ℕ)
  pub encoder : Option ℕ
  pub manifest_closure : Option ℕ
  pub sample_closure : Option ℕ

-- A signal of a source, queued by g_timeout_add until the main loop emits it.
pub data Emission : Type 0 where
  started : ℕ → SpawnInfo → Emission
  stopped_signal muted_signal unmuted_signal reset_signal : ℕ → Emission

-- What leaves the agent's objects: a closure of a subscription is invoked (closure, subscription,
-- bytes; a garbled sample is encoded from an uninitialised time), a signal reaches a source's
-- class, a child is watched, or a process is killed.
pub data Call : Type 0 where
  manifest_call sample_call : ℕ → ℕ → Bytes → Call
  garbled_sample_call : ℕ → ℕ → Call
  emit : Emission → Call
  child_watch_add : ℕ → ℕ → Call
  kill : ℕ → Call

-- The timeouts stand oldest first, the calls newest first.
pub record World : Type 0 where
  pub channels : Store Channel
  pub sources : Store Source
  pub subscriptions : Store Subscription
  pub manifests : Store Manifest
  pub timeouts : List Emission
  pub calls : List Call

abbrev pub put_channel : ℕ → Channel → World → World
put_channel c x w = record w { channels = update w.channels c x }

abbrev pub put_source : ℕ → Source → World → World
put_source s x w = record w { sources = update w.sources s x }

abbrev pub put_subscription : ℕ → Subscription → World → World
put_subscription p x w = record w { subscriptions = update w.subscriptions p x }

-- `g_timeout_add (0, …)`
abbrev pub queue : Emission → World → World
queue e w = record w { timeouts = w.timeouts ++ (e ∷ []) }

abbrev pub call : Call → World → World
call c w = record w { calls = c ∷ w.calls }

-- `pka_spawn_info_copy`
unfoldable pub spawn_info_copy : SpawnInfo → SpawnInfo
spawn_info_copy i = record {
  pid = i.pid;
  target = i.target;
  args = i.args;
  env = i.env;
  working_dir = i.working_dir;
  standard_input = i.standard_input;
  standard_output = i.standard_output;
  standard_error = i.standard_error;
}

-- `g_ptr_array_foreach`: the function is called on each pointer in turn.
abbrev pub foreach : (ℕ → World → World) → List ℕ → World → World
foreach f [] w = w
foreach f (x ∷ xs) w = foreach f xs (f x w)
