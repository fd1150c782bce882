-- ===== src/System/Preserved.antt =====
-- The invariant over the calls and the runs of the agent.
use perfkit.Prelude.{
  ℕ, ◌≡◌, refl, inl, inr, Bool, true, false, Option, none, some, List, [], ◌∷◌, ◌++◌, ◌==◌, arith,
  Bool-cases, Option-cases, if◌then◌else◌,
}
use perfkit.Context.{Context}
use perfkit.Wire.{Bytes, Buffer, Time}
use perfkit.World.{
  ChannelState, ready, running, muted, stopped, failed, SpawnInfo, Channel, World, kill,
  child_watch_add, call, put_channel, put_source, foreach,
}
use perfkit.Source
use perfkit.Channel
use perfkit.Channel.Start
use perfkit.Channel.Start.{Host}
use perfkit.System.Frame.{Keeps, Keeps-trans, put_channel-Keeps, foreach-Keeps}
use perfkit.System.Quiet
use perfkit.System.Notify.{
  notify_reset-Keeps, notify_muted-Keeps, notify_unmuted-Keeps, notify_stopped-Switches,
  start_all-Switches, stop_all-Switches,
}
use perfkit.System.Invariant.{
  Inv, Keeps-Inv, put_channel-Inv, stopped-Inv, started-Inv, halted-Inv, attached-Inv,
}
use perfkit.System.{
  Command, set_target, set_working_dir, set_args, set_env, set_pid, set_kill_pid, add_source, start,
  stop, mute, unmute, inferior_exited, subscribe_channel, unsubscribe_channel, subscribe_source,
  unsubscribe_source, set_state, set_encoder, set_handlers, set_buffer, deliver_manifest,
  deliver_sample, retire_source, main_loop, step, run,
}

if-Inv : (test : Bool) {u v : World} → Inv u → Inv v → Inv (if test then u else v)
if-Inv true h k = h
if-Inv false h k = k

kill-Keeps : (pid : ℕ) (w : World) → Keeps w (call (kill pid) w)
kill-Keeps pid w = record {
  state = λ c. refl;
  members = λ c. refl;
  running = λ s. refl;
  owner = λ s. refl;
  signals = λ s. refl;
}

watch-Keeps : (pid c : ℕ) (w : World) → Keeps w (call (child_watch_add pid c) w)
watch-Keeps pid c w = record {
  state = λ d. refl;
  members = λ d. refl;
  running = λ s. refl;
  owner = λ s. refl;
  signals = λ s. refl;
}

-- What the setters share.
setter-Inv :
    (c : ℕ) (x : Channel) (w : World)
    → x.state ≡ (w.channels c).state
    → x.sources ≡ (w.channels c).sources
    → Inv w
    → Inv (Channel.when_ready c x w).0
setter-Inv c x w e f v = elim (Bool-cases (Channel.is_ready (w.channels c).state)) [
  | inl p ↦ rw p (Keeps-Inv (put_channel-Keeps c x w e f) v)
  | inr n ↦ rw n v
]

halt-Inv : (c : ℕ) (w : World) → Inv w → Inv (Channel.halt c w).0
unfolding Channel.halt
halt-Inv c w v =
    let ch = w.channels c in
    let x = record ch { state = stopped } in
    let w' = foreach Source.notify_stopped ch.sources (put_channel c x w) in
    let v' : Inv w' = halted-Inv c x refl (stop_all-Switches ch.sources (put_channel c x w)) v in
    if-Inv _ (Keeps-Inv (kill-Keeps ch.pid w') v') v'

pub stop_in-Inv : (st : ChannelState) (c : ℕ) (w : World) → Inv w → Inv (Channel.stop_in st c w).0
unfolding Channel.stop_in
stop_in-Inv running c w v = halt-Inv c w v
stop_in-Inv muted c w v = halt-Inv c w v
stop_in-Inv ready c w v = v
stop_in-Inv stopped c w v = v
stop_in-Inv failed c w v = v

mute_in-Inv :
    (st : ChannelState) (c : ℕ) (w : World)
    → (w.channels c).state ≡ st
    → Inv w
    → Inv (Channel.mute_in st c w).0
unfolding Channel.mute_in
mute_in-Inv running c w e v =
    let ch = w.channels c in
    Keeps-Inv (foreach-Keeps _ notify_muted-Keeps ch.sources _)
      (put_channel-Inv c (record ch { state = muted }) w refl (λ _. refl) v)
mute_in-Inv muted c w e v = v
mute_in-Inv ready c w e v = v
mute_in-Inv stopped c w e v = v
mute_in-Inv failed c w e v = v

unmute_in-Inv :
    (st : ChannelState) (c : ℕ) (w : World)
    → (w.channels c).state ≡ st
    → Inv w
    → Inv (Channel.unmute_in st c w).0
unfolding Channel.unmute_in
unmute_in-Inv muted c w e v =
    let ch = w.channels c in
    Keeps-Inv (foreach-Keeps _ notify_unmuted-Keeps ch.sources _)
      (put_channel-Inv c (record ch { state = running }) w refl (λ _. refl) v)
unmute_in-Inv running c w e v = v
unmute_in-Inv ready c w e v = v
unmute_in-Inv stopped c w e v = v
unmute_in-Inv failed c w e v = v

rewind-Inv : (c : ℕ) (w : World) → Inv w → Inv (Start.rewind c w)
unfolding Start.rewind
rewind-Inv c w v = elim (Bool-cases (Channel.is_stopped (w.channels c).state)) [
  | inl p ↦
      let xs = (w.channels c).sources in
      let k = foreach-Keeps _ notify_reset-Keeps xs w in
      let w' = foreach Source.notify_reset xs w in
      rw p (
        put_channel-Inv c (record (w'.channels c) { state = ready }) w' refl
          (λ l. ground (arith, k.state c)) (Keeps-Inv k v))
  | inr n ↦ rw n v
]

started_channel-Inv : (c : ℕ) (info : SpawnInfo) (w : World) → Inv w → Inv (Start.run c info w).0
unfolding Start.run
started_channel-Inv c info w v =
    let ch = w.channels c in
    let x = record ch { state = running } in
    let w' = put_channel c x w in
    started-Inv c ch.sources {w = w'} (ground arith) (ground arith)
      (start_all-Switches info ch.sources w') (put_channel-Inv c x w refl (λ _. refl) v)

spawned-Inv :
    (answer : Start.Spawned) (dir : Bytes) (c : ℕ) (info : SpawnInfo) (w : World)
    → Channel.is_ready (w.channels c).state ≡ true
    → Inv w
    → Inv (Start.spawned answer dir c info w).0
unfolding Start.spawned
spawned-Inv (Start.spawn_error e) dir c info w h v =
    put_channel-Inv c (record (w.channels c) { state = failed }) w refl (λ l. ground arith) v
spawned-Inv (Start.child pid) dir c info w h v =
    let x = record (w.channels c) { pid = pid } in
    started_channel-Inv c _ _
      (Keeps-Inv (Keeps-trans (put_channel-Keeps c x w refl refl) (watch-Keeps pid c _)) v)

launch-Inv :
    (target : Option Bytes) (host : Host) (c : ℕ) (info : SpawnInfo) (w : World)
    → Channel.is_ready (w.channels c).state ≡ true
    → Inv w
    → Inv (Start.launch_target target host c info w).0
unfolding Start.launch_target
launch-Inv none host c info w h v = started_channel-Inv c info w v
launch-Inv (some target) host c info w h v = elim (Bool-cases (info.pid == 0)) [
  | inl p ↦ rw p (spawned-Inv _ _ c info w h v)
  | inr n ↦ rw n (started_channel-Inv c info w v)
]

start-Inv :
    (host : Host) (c : ℕ) (context : Context) (w : World)
    → Inv w
    → Inv (Start.start host c context w).0
unfolding Start.start Start.launch
start-Inv host c context w v =
    let w' = Start.rewind c w in
    let v' = rewind-Inv c w v in
    let (accepts, info, e) = Start.init_spawn_info host (w'.channels c) in
    elim (Bool-cases (Channel.is_ready (w'.channels c).state)) [
      | inr n ↦ rw n v'
      | inl p ↦ rw p (elim (Bool-cases accepts) [
        | inl a ↦ rw a (launch-Inv info.target host c info w' p v')
        | inr r ↦ rw r v'
      ])
    ]

inferior_exited-Inv : (status c : ℕ) (w : World) → Inv w → Inv (Channel.inferior_exited status c w)
unfolding Channel.inferior_exited Channel.stop
inferior_exited-Inv status c w v =
    stop_in-Inv _ c _ (
      Keeps-Inv (put_channel-Keeps c (record (w.channels c) { exit_status = status }) w refl refl)
        v)

pub set_channel_free :
    (s c : ℕ) (w : World)
    → (w.sources s).channel ≡ none
    → Source.set_channel s c w ≡ (put_source s (record (w.sources s) { channel = some c }) w, true)
unfolding Source.set_channel
set_channel_free s c w e = ground arith

pub set_channel_taken :
    (s c d : ℕ) (w : World) → (w.sources s).channel ≡ some d → Source.set_channel s c w ≡ (w, false)
unfolding Source.set_channel
set_channel_taken s c d w e = ground arith

module _ (b : Buffer) (t : Time) where
  add_source-Inv :
      (c : ℕ) (context : Context) (s : ℕ) (w : World)
      → Inv w
      → Inv (Channel.add_source b t c context s w).0
  unfolding Channel.add_source
  add_source-Inv c context s w v = elim (Option-cases (w.sources s).channel) [
    | inl free ↦
        let ch = w.channels c in
        let x = record ch { sources = ch.sources ++ (s ∷ []) } in
        rw (set_channel_free s c w free) (
          Keeps-Inv
            (foreach-Keeps _ (λ p u. Quiet.channel_source_added-Keeps b t s p u) ch.source_added _)
            (attached-Inv c s x _ w free refl refl refl refl v))
    | inr (d, taken) ↦ rw (set_channel_taken s c d w taken) v
  ]

  -- Every call keeps the invariant.
  pub step-Inv : (context : Context) (x : Command) {w : World} → Inv w → Inv (step b t context x w)
  unfolding step Channel.set_target Channel.set_working_dir Channel.set_args Channel.set_env
      Channel.set_pid Channel.set_kill_pid Channel.stop Channel.mute Channel.unmute
  step-Inv k (set_target c x) {w} v = setter-Inv c _ w refl refl v
  step-Inv k (set_working_dir c x) {w} v = setter-Inv c _ w refl refl v
  step-Inv k (set_args c x) {w} v = setter-Inv c _ w refl refl v
  step-Inv k (set_env c x) {w} v = setter-Inv c _ w refl refl v
  step-Inv k (set_pid c x) {w} v = setter-Inv c _ w refl refl v
  step-Inv k (set_kill_pid c x) {w} v =
      Keeps-Inv (put_channel-Keeps c (record (w.channels c) { kill_pid = x }) w refl refl) v
  step-Inv k (add_source c s) {w} v = add_source-Inv c k s w v
  step-Inv k (start c host) {w} v = start-Inv host c k w v
  step-Inv k (stop c) {w} v = stop_in-Inv _ c w v
  step-Inv k (mute c) {w} v = mute_in-Inv _ c w refl v
  step-Inv k (unmute c) {w} v = unmute_in-Inv _ c w refl v
  step-Inv k (inferior_exited status c) {w} v = inferior_exited-Inv status c w v
  step-Inv k (subscribe_channel p c) {w} v = Keeps-Inv (Quiet.add_channel-Keeps b t p k c w) v
  step-Inv k (unsubscribe_channel p c) {w} v = Keeps-Inv (Quiet.remove_channel-Keeps p k c w) v
  step-Inv k (subscribe_source p s) {w} v = Keeps-Inv (Quiet.add_source-Keeps b t p k s w) v
  step-Inv k (unsubscribe_source p s) {w} v = Keeps-Inv (Quiet.remove_source-Keeps p k s w) v
  step-Inv k (set_state p code) {w} v = Keeps-Inv (Quiet.set_state-Keeps p k code w) v
  step-Inv k (set_encoder p e) {w} v = Keeps-Inv (Quiet.set_encoder-Keeps p k e w) v
  step-Inv k (set_handlers p m s) {w} v = Keeps-Inv (Quiet.set_handlers-Keeps p k m s w) v
  step-Inv k (set_buffer p x y) {w} v = Keeps-Inv (Quiet.set_buffer-Keeps p k x y w) v
  step-Inv k (deliver_manifest s m) {w} v =
      Keeps-Inv (Quiet.deliver_manifest_source-Keeps b t s m w) v
  step-Inv k (deliver_sample s x) {w} v = Keeps-Inv (Quiet.deliver_sample_source-Keeps b t s x w) v
  step-Inv k (retire_source s) {w} v = stopped-Inv (s ∷ []) (notify_stopped-Switches s w) v
  step-Inv k main_loop {w} v = Keeps-Inv (Quiet.dispatch-Keeps w) v

  -- After any sequence of calls on an agent where they hold, these three hold: each source in a
  -- channel's array belongs to this channel; a source runs only in the array of its channel, and
  -- only while that is running or muted; and the last started or stopped signal of each source, heard
  -- or still queued, is the one that its flag says.
  pub run-Inv :
      (context : Context) (xs : List Command) {w : World} → Inv w → Inv (run b t context xs w)
  unfolding run
  run-Inv k [] v = v
  run-Inv k (x ∷ xs) v = run-Inv k xs (step-Inv k x v)
