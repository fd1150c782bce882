-- ===== src/System/Starting.antt =====
-- How a start ends for the sources of the channel, and what becomes of a channel that is started
-- again.
use perfkit.Prelude.{
  ℕ, ◌≡◌, ◌≢◌, refl, ◌∙◌, ap, ◌⊎◌, inl, inr, true, false, Option, none, some, List, [], ◌∷◌, ◌==◌,
  arith, contains, Bool-cases, if◌then◌else◌,
}
use perfkit.Context.{Context, Error, Reply, accepted, rejected}
use perfkit.Wire.{Bytes}
use perfkit.World.{
  ready, running, failed, SpawnInfo, World, put_channel, call, child_watch_add, foreach,
}
use perfkit.Source
use perfkit.Channel
use perfkit.Channel.Start
use perfkit.Channel.Start.{Host, Spawned, start}
use perfkit.System.Frame.{foreach-Keeps}
use perfkit.System.Notify.{notify_reset-Keeps, start_all-Switches}

-- The flags of the sources of `xs` are up and the others as before, and the channel runs.
pub record Started (c : ℕ) (xs : List ℕ) (w : World) (out : World × Reply) : Type 0 where
  pub reply : out.1 ≡ accepted
  pub state : (out.0.channels c).state ≡ running
  pub flags :
      (s : ℕ) → (out.0.sources s).running ≡ (if contains xs s then true else (w.sources s).running)

-- The call has failed, the channel does not run for it, and no source has been started.
pub record Refused (c : ℕ) (w : World) (out : World × Reply) : Type 0 where
  pub error : Option Error
  pub reply : out.1 ≡ rejected error
  pub state :
      ((out.0.channels c).state ≡ (w.channels c).state)
      ⊎ (((out.0.channels c).state ≡ ready) ⊎ ((out.0.channels c).state ≡ failed))
  pub flags : (s : ℕ) → (out.0.sources s).running ≡ (w.sources s).running

abbrev pub Outcome : ℕ → List ℕ → World → World × Reply → Type 0
Outcome c xs w out = Started c xs w out ⊎ Refused c w out

run-Started :
    (c : ℕ) (info : SpawnInfo) (w : World) → Started c (w.channels c).sources w (Start.run c info w)
unfolding Start.run
run-Started c info w =
    let ch = w.channels c in
    let k = start_all-Switches info ch.sources (put_channel c (record ch { state = running }) w) in
    record { reply = refl; state = rw (k.channels) (ground arith); flags = λ s. k.running s }

spawned-Outcome :
    (answer : Spawned) (dir : Bytes) (c : ℕ) (info : SpawnInfo) (w : World)
    → Outcome c (w.channels c).sources w (Start.spawned answer dir c info w)
unfolding Start.spawned
spawned-Outcome (Start.spawn_error e) dir c info w = inr (record {
  error = some (Error.foreign e);
  reply = refl;
  state = inr (inr (ground arith));
  flags = λ s. refl;
})
spawned-Outcome (Start.child pid) dir c info w =
    let u = call (child_watch_add pid c) (put_channel c (record (w.channels c) { pid = pid }) w) in
    let v = run-Started c (record info { pid = pid; working_dir = some dir }) u in
    inl (record { reply = v.reply; state = v.state; flags = λ s. ground (arith, v.flags s) })

launch-Outcome :
    (target : Option Bytes) (host : Host) (c : ℕ) (info : SpawnInfo) (w : World)
    → Outcome c (w.channels c).sources w (Start.launch_target target host c info w)
unfolding Start.launch_target
launch-Outcome none host c info w = inl (run-Started c info w)
launch-Outcome (some target) host c info w = elim (Bool-cases (info.pid == 0)) [
  | inl p ↦ rw p (spawned-Outcome _ _ c info w)
  | inr n ↦ rw n (inl (run-Started c info w))
]

-- A rewind changes no flag and no list of sources.
rewind-flags :
    (c : ℕ) (w : World) (s : ℕ) → ((Start.rewind c w).sources s).running ≡ (w.sources s).running
unfolding Start.rewind
rewind-flags c w s =
    let k = foreach-Keeps _ notify_reset-Keeps (w.channels c).sources w in
    ground (arith, k.running s)

rewind-members :
    (c : ℕ) (w : World) → ((Start.rewind c w).channels c).sources ≡ (w.channels c).sources
unfolding Start.rewind
rewind-members c w =
    let k = foreach-Keeps _ notify_reset-Keeps (w.channels c).sources w in
    ground (arith, k.members c)

rewind-state :
    (c : ℕ) (w : World)
    → (((Start.rewind c w).channels c).state ≡ (w.channels c).state)
      ⊎ (((Start.rewind c w).channels c).state ≡ ready)
unfolding Start.rewind
rewind-state c w = ground arith

Outcome-rewind :
    (c : ℕ) (w : World) {out : World × Reply}
    → Outcome c ((Start.rewind c w).channels c).sources (Start.rewind c w) out
    → Outcome c (w.channels c).sources w out
Outcome-rewind c w (inl v) = inl (record {
  reply = v.reply;
  state = v.state;
  flags = λ s. ground (arith, v.flags s, rewind-flags c w s, rewind-members c w);
})
Outcome-rewind c w (inr v) = inr (record {
  error = v.error;
  reply = v.reply;
  state = ground (arith, v.state, rewind-state c w);
  flags = λ s. v.flags s ∙ rewind-flags c w s;
})

refused : (c : ℕ) (w : World) (e : Option Error) → Refused c w (w, rejected e)
refused c w e = record { error = e; reply = refl; state = inl refl; flags = λ s. refl }

-- A start is accepted, with the channel running, the flag of each of its sources up and all other
-- flags as they were; or it is rejected, with every flag as it was, and the channel in the state
-- that it had, made ready, or failed.
pub start-Outcome :
    (host : Host) (c : ℕ) (context : Context) (w : World)
    → Outcome c (w.channels c).sources w (start host c context w)
unfolding start Start.launch
start-Outcome host c context w =
    let w' = Start.rewind c w in
    let (accepts, info, e) = Start.init_spawn_info host (w'.channels c) in
    Outcome-rewind c w (elim (Bool-cases (Channel.is_ready (w'.channels c).state)) [
      | inr n ↦ rw n (inr (refused c w' _))
      | inl p ↦ rw p (elim (Bool-cases accepts) [
        | inl a ↦ rw a (launch-Outcome info.target host c info w')
        | inr r ↦ rw r (inr (refused c w' e))
      ])
    ])

-- What the classes of the sources make of the spawn information does not depend on spawning.
modify_all-spawn :
    (host : Host) (f : Bytes → List Bytes → Option (List Bytes) → Spawned) (xs : List ℕ)
    (info : SpawnInfo)
    → Start.modify_all (record host { spawn = f }) xs info ≡ Start.modify_all host xs info
unfolding Start.modify_all
modify_all-spawn host f [] info = refl
modify_all-spawn host f (x ∷ xs) info =
    ground (arith, modify_all-spawn host f xs (host.modify_spawn_info x info).1)

modify_all-pid :
    (host : Host)
    → ((s : ℕ) (info : SpawnInfo) → (host.modify_spawn_info s info).1.pid ≡ info.pid)
    → (xs : List ℕ) (info : SpawnInfo) → (Start.modify_all host xs info).1.pid ≡ info.pid
unfolding Start.modify_all
modify_all-pid host h [] info = refl
modify_all-pid host h (x ∷ xs) info =
    ground (arith, h x info, modify_all-pid host h xs (host.modify_spawn_info x info).1)

launch_attached :
    (target : Option Bytes) (host : Host) (c : ℕ) (info : SpawnInfo) (w : World)
    → info.pid ≢ 0
    → Start.launch_target target host c info w ≡ Start.run c info w
unfolding Start.launch_target
launch_attached none host c info w h = refl
launch_attached (some target) host c info w h =
    let n : (info.pid == 0) ≡ false = ground arith in rw n

reset_all-channels :
    (xs : List ℕ) (w : World) → (foreach Source.notify_reset xs w).channels ≡ w.channels
unfolding Source.notify_reset
reset_all-channels [] w = refl
reset_all-channels (x ∷ xs) w = reset_all-channels xs (Source.notify_reset x w)

rewind-pid : (c : ℕ) (w : World) → ((Start.rewind c w).channels c).pid ≡ (w.channels c).pid
unfolding Start.rewind
rewind-pid c w = ground (arith, ap (λ f. (f c).pid) (reset_all-channels (w.channels c).sources w))

-- Where the classes of the sources leave the pid alone, a channel that has one is never spawned:
-- a start does the same whatever spawning would answer, so also when the pid is the one that an
-- earlier spawn has left behind.
pub start_with_pid :
    (host : Host) (f : Bytes → List Bytes → Option (List Bytes) → Spawned) (c : ℕ)
    (context : Context) (w : World)
    → (w.channels c).pid ≢ 0
    → ((s : ℕ) (info : SpawnInfo) → (host.modify_spawn_info s info).1.pid ≡ info.pid)
    → start (record host { spawn = f }) c context w ≡ start host c context w
unfolding start Start.launch Start.init_spawn_info
start_with_pid host f c context w h k =
    let w' = Start.rewind c w in
    let info = Start.spawn_info (w'.channels c) in
    let xs = (w'.channels c).sources in
    let out = (Start.modify_all host xs info).1 in
    let has : out.pid ≢ 0 = ground (arith, modify_all-pid host k xs info, rewind-pid c w) in
    rw (
      modify_all-spawn host f xs info,
      launch_attached out.target (record host { spawn = f }) c out w' has,
      launch_attached out.target host c out w' has,
    )
