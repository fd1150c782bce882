-- ===== src/System/Lifecycle.antt =====
-- The states of a channel under every call: starts, additions of sources, and any sequence of calls.
use perfkit.Prelude.{
  ℕ, ◌≡◌, refl, ◌∙◌, ap, ◌⊎◌, inl, inr, true, Option, none, some, List, [], ◌∷◌, ◌++◌, ◌==◌, arith,
  Bool-cases, Option-cases,
}
use perfkit.Context.{Context}
use perfkit.Wire.{Bytes, Buffer, Time}
use perfkit.World.{
  ChannelState, ready, running, muted, stopped, failed, SpawnInfo, Channel, World, put_channel,
  put_source, call, child_watch_add,
}
use perfkit.Channel
use perfkit.Channel.Start
use perfkit.Channel.Start.{Host}
use perfkit.System.Frame.{put_channel-Keeps, foreach-Keeps}
use perfkit.System.Quiet
use perfkit.System.Notify.{notify_reset-Keeps, notify_stopped-Switches, start_all-Switches}
use perfkit.System.Preserved.{set_channel_free, set_channel_taken}
use perfkit.System.{
  Command, set_target, set_working_dir, set_args, set_env, set_pid, set_kill_pid, add_source, start,
  stop, mute, unmute, inferior_exited, subscribe_channel, unsubscribe_channel, subscribe_source,
  unsubscribe_source, set_state, set_encoder, set_handlers, set_buffer, deliver_manifest,
  deliver_sample, retire_source, main_loop, step, run,
}
use perfkit.System.Moves.{
  ◌⟶◌, stay, begin, fail, rewind, restart, restart_fail, Moves, failed_stays, stay_of,
  put_channel-Moves, when_ready-Moves, Moves-refl, Keeps-Moves, Moves-Keeps, Moves-channels,
  stop_in-Moves, mute_in-Moves, unmute_in-Moves,
}

-- The two halves of a start.
abbrev Rewinds : ChannelState → ChannelState → Type 0
Rewinds s u = (u ≡ s) ⊎ ((s ≡ stopped) × (u ≡ ready))

abbrev Launches : ChannelState → ChannelState → Type 0
Launches s u = (u ≡ s) ⊎ ((s ≡ ready) × ((u ≡ running) ⊎ (u ≡ failed)))

start-⟶ : {s u v : ChannelState} → Rewinds s u → Launches u v → s ⟶ v
start-⟶ (inl e) (inl f) = stay_of (f ∙ e)
start-⟶ (inl e) (inr (r, inl f)) = rw (← e, r, f) begin
start-⟶ (inl e) (inr (r, inr f)) = rw (← e, r, f) fail
start-⟶ (inr (s, e)) (inl f) = rw (s, f, e) rewind
start-⟶ (inr (s, e)) (inr (r, inl f)) = rw (s, f) restart
start-⟶ (inr (s, e)) (inr (r, inr f)) = rw (s, f) restart_fail

rewind-Rewinds :
    (c : ℕ) (w : World) (d : ℕ) → Rewinds (w.channels d).state ((Start.rewind c w).channels d).state
unfolding Start.rewind
rewind-Rewinds c w d =
    let k = foreach-Keeps _ notify_reset-Keeps (w.channels c).sources w in
    ground (arith, k.state d, k.state c)

run-Launches :
    (c : ℕ) (info : SpawnInfo) (w : World) (d : ℕ)
    → (w.channels c).state ≡ ready
    → Launches (w.channels d).state ((Start.run c info w).0.channels d).state
unfolding Start.run
run-Launches c info w d e =
    let ch = w.channels c in
    let k = start_all-Switches info ch.sources (put_channel c (record ch { state = running }) w) in
    ground (arith, k.channels, ap (λ (f : ℕ → Channel). (f d).state) k.channels)

spawned-Launches :
    (answer : Start.Spawned) (dir : Bytes) (c : ℕ) (info : SpawnInfo) (w : World) (d : ℕ)
    → (w.channels c).state ≡ ready
    → Launches (w.channels d).state ((Start.spawned answer dir c info w).0.channels d).state
unfolding Start.spawned
spawned-Launches (Start.spawn_error e) dir c info w d h = ground arith
spawned-Launches (Start.child pid) dir c info w d h =
    let u = call (child_watch_add pid c) (put_channel c (record (w.channels c) { pid = pid }) w) in
    ground
      (arith, run-Launches c (record info { pid = pid; working_dir = some dir }) u d (ground arith))

launch-Launches :
    (target : Option Bytes) (host : Host) (c : ℕ) (info : SpawnInfo) (w : World) (d : ℕ)
    → (w.channels c).state ≡ ready
    → Launches (w.channels d).state ((Start.launch_target target host c info w).0.channels d).state
unfolding Start.launch_target
launch-Launches none host c info w d h = run-Launches c info w d h
launch-Launches (some target) host c info w d h = elim (Bool-cases (info.pid == 0)) [
  | inl p ↦ rw p (spawned-Launches _ _ c info w d h)
  | inr n ↦ rw n (run-Launches c info w d h)
]

ready_of : (s : ChannelState) → Channel.is_ready s ≡ true → s ≡ ready
ready_of ready h = refl
ready_of running h = cc
ready_of muted h = cc
ready_of stopped h = cc
ready_of failed h = cc

start-Moves :
    (host : Host) (c : ℕ) (context : Context) (w : World) → Moves w (Start.start host c context w).0
unfolding Start.start Start.launch
start-Moves host c context w =
    let w' = Start.rewind c w in
    let (accepts, info, e) = Start.init_spawn_info host (w'.channels c) in
    record {
      along = λ d.
          start-⟶ (rewind-Rewinds c w d)
            (elim (Bool-cases (Channel.is_ready (w'.channels c).state)) [
              | inr n ↦ rw n (inl refl)
              | inl p ↦ rw p (elim (Bool-cases accepts) [
                | inl a ↦ rw a (launch-Launches info.target host c info w' d (ready_of _ p))
                | inr r ↦ rw r (inl refl)
              ])
            ]);
    }

module _ (b : Buffer) (t : Time) where
  add_source-Moves :
      (c : ℕ) (context : Context) (s : ℕ) (w : World)
      → Moves w (Channel.add_source b t c context s w).0
  unfolding Channel.add_source
  add_source-Moves c context s w = elim (Option-cases (w.sources s).channel) [
    | inl free ↦
        let ch = w.channels c in
        let u = put_source s (record (w.sources s) { channel = some c }) w in
        let x = record ch { sources = ch.sources ++ (s ∷ []) } in
        let m = put_channel-Moves c x u stay in
        let m' : Moves w (put_channel c x u) = record { along = m.along } in
        rw (set_channel_free s c w free) (
          Moves-Keeps m'
            (foreach-Keeps _ (λ p x. Quiet.channel_source_added-Keeps b t s p x) ch.source_added _))
    | inr (d, taken) ↦ rw (set_channel_taken s c d w taken) (Moves-refl w)
  ]

  -- Every call leaves the state of every channel or moves it along an edge of the diagram: from
  -- ready or stopped to running or failed, from stopped to ready, between running and muted, and
  -- from these two to stopped.
  pub step-Moves : (context : Context) (x : Command) (w : World) → Moves w (step b t context x w)
  unfolding step Channel.set_target Channel.set_working_dir Channel.set_args Channel.set_env
      Channel.set_pid Channel.set_kill_pid Channel.stop Channel.mute Channel.unmute
      Channel.inferior_exited
  step-Moves k (set_target c x) w = when_ready-Moves c _ w refl
  step-Moves k (set_working_dir c x) w = when_ready-Moves c _ w refl
  step-Moves k (set_args c x) w = when_ready-Moves c _ w refl
  step-Moves k (set_env c x) w = when_ready-Moves c _ w refl
  step-Moves k (set_pid c x) w = when_ready-Moves c _ w refl
  step-Moves k (set_kill_pid c x) w = put_channel-Moves c _ w stay
  step-Moves k (add_source c s) w = add_source-Moves c k s w
  step-Moves k (start c host) w = start-Moves host c k w
  step-Moves k (stop c) w = stop_in-Moves _ c w refl
  step-Moves k (mute c) w = mute_in-Moves _ c w refl
  step-Moves k (unmute c) w = unmute_in-Moves _ c w refl
  step-Moves k (inferior_exited status c) w =
      let x = record (w.channels c) { exit_status = status } in
      let same = put_channel-Keeps c x w refl refl in
      let m = stop_in-Moves _ c (put_channel c x w) refl in
      record { along = λ d. rw (← same.state d) (m.along d) }
  step-Moves k (subscribe_channel p c) w = Keeps-Moves (Quiet.add_channel-Keeps b t p k c w)
  step-Moves k (unsubscribe_channel p c) w = Keeps-Moves (Quiet.remove_channel-Keeps p k c w)
  step-Moves k (subscribe_source p s) w = Keeps-Moves (Quiet.add_source-Keeps b t p k s w)
  step-Moves k (unsubscribe_source p s) w = Keeps-Moves (Quiet.remove_source-Keeps p k s w)
  step-Moves k (set_state p code) w = Keeps-Moves (Quiet.set_state-Keeps p k code w)
  step-Moves k (set_encoder p e) w = Keeps-Moves (Quiet.set_encoder-Keeps p k e w)
  step-Moves k (set_handlers p m s) w = Keeps-Moves (Quiet.set_handlers-Keeps p k m s w)
  step-Moves k (set_buffer p x y) w = Keeps-Moves (Quiet.set_buffer-Keeps p k x y w)
  step-Moves k (deliver_manifest s m) w =
      Keeps-Moves (Quiet.deliver_manifest_source-Keeps b t s m w)
  step-Moves k (deliver_sample s x) w = Keeps-Moves (Quiet.deliver_sample_source-Keeps b t s x w)
  step-Moves k (retire_source s) w =
      Moves-channels _ (Moves-refl w) (notify_stopped-Switches s w).channels
  step-Moves k main_loop w = Keeps-Moves (Quiet.dispatch-Keeps w)

  -- A channel that is failed is still failed after any sequence of calls.
  pub failed_forever :
      (context : Context) (xs : List Command) (c : ℕ) (w : World)
      → (w.channels c).state ≡ failed
      → ((run b t context xs w).channels c).state ≡ failed
  unfolding run
  failed_forever k [] c w e = e
  failed_forever k (x ∷ xs) c w e =
      failed_forever k xs c (step b t k x w) (failed_stays ((step-Moves k x w).along c) e)
