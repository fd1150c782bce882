-- ===== src/Registry/Kept.antt =====
-- The requests on registered objects keep the invariant of the registry.
use perfkit.Prelude.{
  ℕ, ◌≡◌, refl, inl, inr, true, Option, none, some, [], ◌∷◌, ◌++◌, arith, contains, Option-cases,
}
use perfkit.Context.{Reply, accepted, rejected, not_authorized, default_context}
use perfkit.Wire.{Buffer, Time}
use perfkit.World.{put_channel, put_source}
use perfkit.Agent.{Agent, Answer, answer}
use perfkit.Subscription
use perfkit.Channel
use perfkit.Manager
use perfkit.Manager.{find_by, remove_first}
use perfkit.Listener.{Outcome, with_found}
use perfkit.Listener.OnChannels
use perfkit.Listener.OnManager
use perfkit.Listener.Serve.{
  ChannelCall, channel_add_source, channel_set_args, channel_set_env, channel_set_target,
  channel_set_working_dir, channel_set_kill_pid, channel_set_pid, channel_start, channel_stop,
  channel_mute, channel_unmute, channel_get_args, channel_get_created_at, channel_get_env,
  channel_get_exit_status, channel_get_kill_pid, channel_get_pid, channel_get_pid_set,
  channel_get_sources, channel_get_state, channel_get_target, channel_get_working_dir,
  manager_remove_channel, Outside, serve_channel,
}
use perfkit.System.{Command, step}
use perfkit.System.Frame.{foreach-Keeps}
use perfkit.System.Quiet
use perfkit.System.Invariant.{Keeps-Inv, attached-Inv, contains-append}
use perfkit.System.Preserved.{step-Inv, set_channel_free, set_channel_taken}
use perfkit.Registry.Fixed
use perfkit.Registry.Driven
use perfkit.Registry.Fixed.{
  Fixed, Fixed-refl, put_channel-Fixed, put_subscription-Fixed, foreach-Fixed,
}
use perfkit.Registry.Lookup.{find_by-some, found_answer, with_found-cases}
use perfkit.Registry.Consistent.{IsConsistent, Fixed-IsConsistent, same-IsArray}

pub found_channel :
    (id : ℕ) (a : Agent) {c : ℕ}
    → Manager.find_channel default_context id a ≡ answer c
    → (contains a.channels c ≡ true) × ((a.world.channels c).id ≡ id)
unfolding Manager.find_channel
found_channel id a {c} h =
    find_by-some (λ x. (a.world.channels x).id) id a.channels
      (found_answer not_authorized (find_by (λ x. (a.world.channels x).id) id a.channels) h)

pub found_source :
    (id : ℕ) (a : Agent) {s : ℕ}
    → Manager.find_source default_context id a ≡ answer s
    → (contains a.sources s ≡ true) × ((a.world.sources s).id ≡ id)
unfolding Manager.find_source
found_source id a {s} h =
    find_by-some (λ x. (a.world.sources x).id) id a.sources
      (found_answer not_authorized (find_by (λ x. (a.world.sources x).id) id a.sources) h)

pub kept_found :
    (a : Agent) (x : Answer ℕ) (f : ℕ → Outcome)
    → IsConsistent a
    → ((c : ℕ) → x ≡ answer c → IsConsistent (f c).0)
    → IsConsistent (with_found a x f).0
kept_found a x f v h = with_found-cases (λ r. IsConsistent r.0) a x f (λ e. v) h

-- One call on the objects.
pub acts :
    (o : Outside) (x : Command) (a : Agent)
    → Fixed a.world (step o.buffer o.time default_context x a.world)
    → IsConsistent a
    → IsConsistent (record a { world = step o.buffer o.time default_context x a.world })
acts o x a k v =
    Fixed-IsConsistent a _ k (step-Inv o.buffer o.time default_context x {w = a.world} v.inv) v

module _ (b : Buffer) (t : Time) where
  attached-IsConsistent :
      (c s : ℕ) (a : Agent)
      → contains a.channels c ≡ true
      → contains a.sources s ≡ true
      → IsConsistent a
      → IsConsistent (record a { world = (Channel.add_source b t c default_context s a.world).0 })
  unfolding Channel.add_source Subscription.channel_source_added
  attached-IsConsistent c s a mc ms v = elim (Option-cases (a.world.sources s).channel) [
    | inr (d, taken) ↦ rw (set_channel_taken s c d a.world taken) v
    | inl free ↦
        let w = a.world in
        let ch = w.channels c in
        let y = record (w.sources s) { channel = some c } in
        let x = record ch { sources = ch.sources ++ (s ∷ []) } in
        let u = put_channel c x (put_source s y w) in
        let joined : IsConsistent (record a { world = u }) = record {
          inv = attached-Inv c s x y w free refl refl refl refl v.inv;
          channels = same-IsArray (λ d. ground arith) v.channels;
          sources = same-IsArray (λ q. ground arith) v.sources;
          subscriptions = v.subscriptions;
          complete = v.complete;
          members = λ d q m. ground (
            arith,
            contains-append ch.sources s q,
            v.members d q,
            v.channels.below c mc,
            v.sources.below s ms,
          );
        } in
        let kept : Fixed u _ =
          foreach-Fixed _ (λ p z. Fixed.subscribe-Fixed b t p default_context s z) ch.source_added
            u in
        rw (set_channel_free s c w free) (
          Fixed-IsConsistent (record a { world = u }) _ kept
            (Keeps-Inv
              (foreach-Keeps _ (λ p z. Quiet.channel_source_added-Keeps b t s p z) ch.source_added
                u)
              joined.inv)
            joined)
  ]

status_kept :
    (a : Agent) (status : Option ℕ) (r : Reply)
    → IsConsistent a
    → IsConsistent (OnChannels.status_outcome a status r).0
status_kept a status (rejected e) v = v
status_kept a none accepted v = v
status_kept a (some n) accepted v = v

-- Every request on a channel keeps the registry consistent.
pub channel_kept :
    (o : Outside) (x : ChannelCall) (id : ℕ) (a : Agent)
    → IsConsistent a
    → IsConsistent (serve_channel o id x a).0
unfolding step serve_channel OnChannels.add_source OnChannels.set_args OnChannels.set_env
    OnChannels.set_target OnChannels.set_working_dir OnChannels.set_kill_pid OnChannels.set_pid
    OnChannels.start OnChannels.stop OnChannels.mute OnChannels.unmute OnChannels.get_args
    OnChannels.get_created_at OnChannels.get_env OnChannels.get_exit_status OnChannels.get_kill_pid
    OnChannels.get_pid OnChannels.get_pid_set OnChannels.get_sources OnChannels.get_state
    OnChannels.get_target OnChannels.get_working_dir OnManager.remove_channel Manager.remove_channel
    Channel.set_args Channel.set_env Channel.set_target Channel.set_working_dir Channel.set_kill_pid
    Channel.set_pid Channel.stop Channel.mute Channel.unmute
channel_kept o (channel_add_source s) id a v = kept_found a _ _ v (λ c e. kept_found a _ _ v (λ q f.
    attached-IsConsistent o.buffer o.time c q a (found_channel id a e).0 (found_source s a f).0 v))
channel_kept o (channel_set_args x) id a v =
    kept_found a _ _ v
      (λ c e. acts o (Command.set_args c x) a (Driven.when_ready-Fixed c _ a.world refl refl) v)
channel_kept o (channel_set_env x) id a v =
    kept_found a _ _ v
      (λ c e. acts o (Command.set_env c x) a (Driven.when_ready-Fixed c _ a.world refl refl) v)
channel_kept o (channel_set_target x) id a v =
    kept_found a _ _ v
      (λ c e. acts o (Command.set_target c x) a (Driven.when_ready-Fixed c _ a.world refl refl) v)
channel_kept o (channel_set_working_dir x) id a v = kept_found a _ _ v (λ c e.
    acts o (Command.set_working_dir c x) a (Driven.when_ready-Fixed c _ a.world refl refl) v)
channel_kept o (channel_set_kill_pid x) id a v =
    kept_found a _ _ v
      (λ c e. acts o (Command.set_kill_pid c x) a (put_channel-Fixed c _ a.world refl refl) v)
channel_kept o (channel_set_pid x) id a v =
    kept_found a _ _ v
      (λ c e. acts o (Command.set_pid c x) a (Driven.when_ready-Fixed c _ a.world refl refl) v)
channel_kept o channel_start id a v = kept_found a _ _ v (λ c e.
    acts o (Command.start c o.host) a (Driven.start-Fixed o.host c default_context a.world) v)
channel_kept o channel_stop id a v =
    kept_found a _ _ v (λ c e. acts o (Command.stop c) a (Driven.stop_in-Fixed _ c a.world) v)
channel_kept o channel_mute id a v =
    kept_found a _ _ v (λ c e. acts o (Command.mute c) a (Driven.mute_in-Fixed _ c a.world) v)
channel_kept o channel_unmute id a v =
    kept_found a _ _ v (λ c e. acts o (Command.unmute c) a (Driven.unmute_in-Fixed _ c a.world) v)
channel_kept o channel_get_args id a v = kept_found a _ _ v (λ c e. v)
channel_kept o channel_get_created_at id a v = kept_found a _ _ v (λ c e. v)
channel_kept o channel_get_env id a v = kept_found a _ _ v (λ c e. v)
channel_kept o channel_get_exit_status id a v = kept_found a _ _ v (λ c e. status_kept a _ _ v)
channel_kept o channel_get_kill_pid id a v = kept_found a _ _ v (λ c e. v)
channel_kept o channel_get_pid id a v = kept_found a _ _ v (λ c e. v)
channel_kept o channel_get_pid_set id a v = kept_found a _ _ v (λ c e. v)
channel_kept o channel_get_sources id a v = kept_found a _ _ v (λ c e. v)
channel_kept o channel_get_state id a v = kept_found a _ _ v (λ c e. v)
channel_kept o channel_get_target id a v = kept_found a _ _ v (λ c e. v)
channel_kept o channel_get_working_dir id a v = kept_found a _ _ v (λ c e. v)
channel_kept o manager_remove_channel id a v = kept_found a _ _ v (λ c e. v)
