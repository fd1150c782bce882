-- ===== src/Channel/Start.antt =====
-- perfkit-agent/pka-channel.c, the start of a channel: what its sources make of the spawn
-- information, the spawning of the target, and the states that it ends in.
use perfkit.Prelude.{ℕ, Bool, true, false, Option, none, some, List, [], ◌∷◌, ◌==◌, if◌then◌else◌}
use perfkit.Context.{Context, Reply, accepted, rejected, Error, foreign, channel_state}
use perfkit.Wire.{Bytes}
use perfkit.World.{
  ready, running, failed, SpawnInfo, Channel, World, child_watch_add, put_channel, call, foreach,
}
use perfkit.Source.{notify_started, notify_reset}
use perfkit.Channel.{is_ready, is_stopped}

-- What g_spawn_async answers: the pid of the child, or an error.
pub data Spawned : Type 0 where
  child : ℕ → Spawned
  spawn_error : ℕ → Spawned

-- What a start takes from outside the agent: the temporary directory, the spawning of a process by
-- working directory, arguments and environment, and the classes of the sources, which may change
-- the spawn information or refuse.
pub record Host : Type 0 where
  pub tmp_dir : Bytes
  pub spawn : Bytes → List Bytes → Option (List Bytes) → Spawned
  pub modify_spawn_info : ℕ → SpawnInfo → Bool × SpawnInfo × Option Error

-- The loop of `pka_channel_init_spawn_info_locked`: the first source that refuses ends it.
unfoldable pub modify_all : Host → List ℕ → SpawnInfo → Bool × SpawnInfo × Option Error
modify_all host [] info = (true, info, none)
modify_all host (s ∷ sources) info =
    let (accepts, info', e) = host.modify_spawn_info s info in
    elim accepts [ true ↦ modify_all host sources info' | false ↦ (false, info', e) ]

-- What `pka_channel_init_spawn_info_locked` copies from the channel.
abbrev pub spawn_info : Channel → SpawnInfo
spawn_info ch = record {
  pid = ch.pid;
  target = ch.target;
  args = ch.args;
  env = ch.env;
  working_dir = ch.working_dir;
  standard_input = 0;
  standard_output = 0;
  standard_error = 0;
}

unfoldable pub init_spawn_info : Host → Channel → Bool × SpawnInfo × Option Error
unfolding modify_all
init_spawn_info host ch = modify_all host ch.sources (spawn_info ch)

-- The argument vector of the child: the target, then the arguments.
unfoldable pub argv : Bytes → Option (List Bytes) → List Bytes
argv target none = target ∷ []
argv target (some args) = target ∷ args

-- No working directory, or an empty one, is the temporary directory.
unfoldable pub spawn_dir : Host → Option Bytes → Bytes
spawn_dir host none = host.tmp_dir
spawn_dir host (some []) = host.tmp_dir
spawn_dir host (some (x ∷ dir)) = x ∷ dir

-- A channel that has stopped is made ready again, and its sources are told.
unfoldable pub rewind : ℕ → World → World
unfolding notify_reset
rewind c w =
    if is_stopped (w.channels c).state
    then (let w' = foreach notify_reset (w.channels c).sources w in
        put_channel c (record (w'.channels c) { state = ready }) w')
    else w

-- The state becomes running, and the sources are started.
unfoldable pub run : ℕ → SpawnInfo → World → World × Reply
unfolding notify_started
run c info w =
    let ch = w.channels c in
    (
      foreach (notify_started info) ch.sources (put_channel c (record ch { state = running }) w),
      accepted,
    )

-- What `g_spawn_async` has answered for a child in `dir`.
unfoldable pub spawned : Spawned → Bytes → ℕ → SpawnInfo → World → World × Reply
unfolding run
spawned (spawn_error e) dir c info w =
    (put_channel c (record (w.channels c) { state = failed }) w, rejected (some (foreign e)))
spawned (child pid) dir c info w =
    run c (record info { pid = pid; working_dir = some dir })
      (call (child_watch_add pid c) (put_channel c (record (w.channels c) { pid = pid }) w))

-- The target is spawned unless there is a process already.
unfoldable pub launch_target : Option Bytes → Host → ℕ → SpawnInfo → World → World × Reply
unfolding run spawned argv spawn_dir
launch_target none host c info w = run c info w
launch_target (some target) host c info w =
    let dir = spawn_dir host info.working_dir in
    let answer = host.spawn dir (argv target info.args) info.env in
    if info.pid == 0 then spawned answer dir c info w else run c info w

unfoldable pub launch : Host → ℕ → SpawnInfo → World → World × Reply
unfolding launch_target
launch host c info w = launch_target info.target host c info w

unfoldable pub start : Host → ℕ → Context → World → World × Reply
unfolding rewind init_spawn_info launch
start host c context w =
    let w' = rewind c w in
    let (accepts, info, e) = init_spawn_info host (w'.channels c) in
    if is_ready (w'.channels c).state
    then (if accepts then launch host c info w' else (w', rejected e))
    else (w', rejected (some channel_state))
