-- ===== src/Tests.antt =====
-- Concrete buffers, times and agents on which the theorems are tried.
pub mod Laws
pub mod Agent
pub mod Codec
pub mod Rings
pub mod Listening
pub mod Requests
pub mod Messages
pub mod Calls
use perfkit.Prelude.{
  ℕ, zero, suc, ◌+◌, ◌*◌, ◌/◌, ◌%◌, ◌^◌, ◌-◌, Bool, true, false, Option, none, some, List, [], ◌∷◌,
  length, ◌==◌, if◌then◌else◌,
}
use perfkit.Context.{Context, Error}
use perfkit.Wire.{Bytes, Reader, Timespec, Buffer, Time}
use perfkit.Manifest.{Manifest, usec}
use perfkit.World.{
  World, Source, SpawnInfo, Channel, ChannelState, ready, running, Subscription, sub_unmuted,
}
use perfkit.Channel.Start.{Host, Spawned, child}

-- A buffer of words: a number is one word, a string its length and its characters.
abbrev pub word_back : Reader → Option (ℕ × Reader)
word_back r = elim r.rest [
  | [] ↦ none
  | n ∷ rest ↦ some (n, record { pos = r.pos + 1; rest = rest })
]

abbrev pub words_back : ℕ → Bytes → Option (Bytes × Bytes)
words_back zero rest = some ([], rest)
words_back (suc n) [] = none
words_back (suc n) (x ∷ rest) = elim (words_back n rest) [
  | none ↦ none
  | some (s, rest') ↦ some (x ∷ s, rest')
]

abbrev pub string_back : Reader → Option (Bytes × Reader)
string_back r = elim r.rest [
  | [] ↦ none
  | n ∷ rest ↦ elim (words_back n rest) [
    | none ↦ none
    | some (s, rest') ↦ some (s, record { pos = r.pos + (n + 1); rest = rest' })
  ]
]

abbrev pub tag_back : Reader → Option (ℕ × ℕ × Reader)
tag_back r = elim r.rest [
  | [] ↦ none
  | n ∷ rest ↦ some (n / 8, n % 8, record { pos = r.pos + 1; rest = rest })
]

abbrev pub words : Buffer
words = record {
  write_tag = λ field tag. (field * 8 + tag) ∷ [];
  write_uint = λ n. n ∷ [];
  write_uint64 = λ n. n ∷ [];
  write_int = λ n. n ∷ [];
  write_int64 = λ n. n ∷ [];
  write_boolean = λ x. (if x then 1 else 0) ∷ [];
  write_double = λ n. n ∷ [];
  write_float = λ n. n ∷ [];
  write_string = λ s. length s ∷ s;
  write_data = λ s. length s ∷ s;
  read_tag = tag_back;
  read_uint = word_back;
  read_uint64 = word_back;
  read_int = word_back;
  read_int64 = word_back;
  read_double = word_back;
  read_float = word_back;
  read_string = string_back;
}

abbrev pub usecs : Timespec → ℕ
usecs ts = (ts.tv_sec * 1000000 + ts.tv_nsec / 1000) % 2 ^ 64

abbrev pub timespec : ℕ → Timespec
timespec u = record { tv_sec = u / 1000000; tv_nsec = (u % 1000000) * 1000 }

abbrev pub clock : Time
clock = record {
  to_usec = usecs;
  from_usec = timespec;
  subtract = λ x y. timespec (usecs x - usecs y);
  add = λ x y. timespec (usecs x + usecs y);
}

abbrev pub context : Context
context = record { ref_count = 1; id = 0 }

-- A host that spawns the process 77, under sources that let the channel's settings stand.
abbrev pub host : Host
host = record {
  tmp_dir = 47 ∷ [];
  spawn = λ dir arguments env. child 77;
  modify_spawn_info = λ s info. (true, info, none);
}

abbrev pub channel_in : ChannelState → ℕ → List ℕ → Channel
channel_in state pid sources = record {
  id = 1;
  state = state;
  sources = sources;
  pid = pid;
  pid_set = false;
  working_dir = none;
  target = some (108 ∷ 115 ∷ []);
  env = none;
  args = none;
  kill_pid = true;
  exit_status = 0;
  created_at = 0;
  source_added = [];
  source_removed = [];
}

abbrev pub source_in : Bool → Option ℕ → Option ℕ → List ℕ → Source
source_in is_running channel manifest subscriptions = record {
  id = 9;
  running = is_running;
  plugin = none;
  manifest = manifest;
  subscriptions = subscriptions;
  channel = channel;
}

-- A subscription with the closures 30 and 31.
abbrev pub listener : Subscription
listener = record {
  ref_count = 1;
  id = 3;
  state = sub_unmuted;
  created_at = 0;
  buffer_timeout = 0;
  buffer_size = 0;
  channels = [];
  sources = [];
  encoder = none;
  manifest_closure = some 30;
  sample_closure = some 31;
}

abbrev pub manifest : Manifest
manifest = record {
  ref_count = 1;
  rows = record { id = 1; type = 24; name = 99 ∷ 112 ∷ 117 ∷ [] } ∷ [];
  source_id = 0;
  ts = record { tv_sec = 100; tv_nsec = 0 };
  resolution = usec;
}

-- Every pointer is a fresh object.
abbrev pub fresh : World
fresh = record {
  channels = λ c. channel_in ready 0 [];
  sources = λ s. source_in false none none [];
  subscriptions = λ p. listener;
  manifests = λ m. manifest;
  timeouts = [];
  calls = [];
}

-- The source 5 belongs to the channel 1.
abbrev pub with_channel : Channel → World
with_channel ch = record fresh {
  channels = λ c. if c == 1 then ch else channel_in ready 0 [];
  sources = λ s. source_in false (if s == 5 then some 1 else none) none [];
}
