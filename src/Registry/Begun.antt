-- ===== src/Registry/Begun.antt =====
-- The start of the agent (`pka_manager_init`), and its invariant over all requests.
use perfkit.Prelude.{
  ℕ, Bool, true, false, Option, none, List, [], ◌∷◌, ◌++◌, arith, if◌then◌else◌, length,
}
use perfkit.Wire.{Bytes}
use perfkit.World.{World}
use perfkit.Plugin
use perfkit.Plugin.{Plugin, PluginInfo, Made, made, unmade}
use perfkit.Agent.{Agent, Answer, answer, refused}
use perfkit.Manager
use perfkit.Listener.Serve.{Request, Outside, serve_all}
use perfkit.System.Idle.{IsFresh, IsFresh-Inv}
use perfkit.Registry.Consistent.{IsArray, IsConsistent}
use perfkit.Registry.Born.{serve_all_kept}

-- Fields that the invariant does not read.
listed-IsConsistent :
    (a : Agent) (plugins listeners : List ℕ) (plugin_at : ℕ → Plugin)
    (notices : List (ℕ × perfkit.Agent.Notice))
    → IsConsistent a
    → IsConsistent (record a {
      plugins = plugins;
      listeners = listeners;
      plugin_at = plugin_at;
      notices = notices;
    })
listed-IsConsistent a plugins listeners plugin_at notices v = record {
  inv = v.inv;
  channels = v.channels;
  sources = v.sources;
  subscriptions = v.subscriptions;
  complete = v.complete;
  members = v.members;
}

if_kept :
    (test : Bool) (a a' : Agent)
    → IsConsistent a
    → IsConsistent a'
    → IsConsistent (if test then a else a')
if_kept true a a' v v' = v
if_kept false a a' v v' = v'

load_kept :
    (files : List (Bool × Option PluginInfo)) (a : Agent)
    → IsConsistent a
    → IsConsistent (Manager.load_plugins files a)
unfolding Manager.load_plugins
load_kept [] a v = v
load_kept ((false, info) ∷ files) a v = load_kept files a v
load_kept ((true, info) ∷ files) a v =
    let (p, loaded) = Plugin.load_from_file (record { info = none }) info in
    load_kept files _ (if_kept loaded _ a (listed-IsConsistent a _ a.listeners _ a.notices v) v)

made_kept :
    (m : Made) (a a' : Agent)
    → IsConsistent a
    → IsConsistent a'
    → IsConsistent (Manager.when_made m a a')
made_kept made a a' v v' = v
made_kept (unmade e) a a' v v' = v'

empty-IsArray : (id_of : ℕ → ℕ) → IsArray id_of 0 []
empty-IsArray id_of = record {
  named = λ x m. absurd (ground (arith, m));
  below = λ x m. absurd (ground (arith, m));
  once = λ x. ground arith;
}

create_kept :
    (configured : Bytes → Option Bool) (factory : ℕ → Made) (plugins : List ℕ) (a : Agent)
    → IsConsistent a
    → IsConsistent (Manager.create_listeners configured factory plugins a)
unfolding Manager.create_listeners
create_kept configured factory [] a v = v
create_kept configured factory (p ∷ plugins) a v =
    let skipped = create_kept configured factory plugins a v in
    let b = record a { listeners = a.listeners ++ (length a.listeners ∷ []) } in
    let added = create_kept configured factory plugins b (listed-IsConsistent a _ _ _ _ v) in
    if_kept _ _ _ (made_kept (Manager.create factory a p) _ _ added skipped) skipped

announce_kept :
    (l : ℕ) (plugins : List ℕ) (a : Agent)
    → IsConsistent a
    → IsConsistent (Manager.announce l plugins a)
unfolding Manager.announce
announce_kept l [] a v = v
announce_kept l (p ∷ plugins) a v =
    announce_kept l plugins _ (if_kept _ a _ v (listed-IsConsistent a _ _ _ _ v))

start_kept :
    (listens : ℕ → Bool) (listeners : List ℕ) (a : Agent)
    → IsConsistent a
    → IsConsistent (Manager.start_listeners listens listeners a)
unfolding Manager.start_listeners
start_kept listens [] a v = v
start_kept listens (l ∷ listeners) a v =
    start_kept listens listeners _ (if_kept _ _ a (announce_kept l a.plugins a v) v)

pub init_kept :
    (files : List (Bool × Option PluginInfo)) (configured : Bytes → Option Bool)
    (factory : ℕ → Made) (listens : ℕ → Bool) (w : World)
    → IsFresh w
    → IsConsistent (Manager.init files configured factory listens w)
unfolding Manager.init
init_kept files configured factory listens w f =
    let v : IsConsistent (Manager.empty w) = record {
      inv = IsFresh-Inv f;
      channels = empty-IsArray _;
      sources = empty-IsArray _;
      subscriptions = empty-IsArray _;
      complete = λ c h. elim h [ ];
      members = λ c s m. absurd (ground (arith, f.no_members c));
    } in
    let loaded = Manager.load_plugins files (Manager.empty w) in
    let created = Manager.create_listeners configured factory loaded.plugins loaded in
    start_kept listens created.listeners created
      (create_kept configured factory loaded.plugins loaded (load_kept files (Manager.empty w) v))

-- From its start, with whatever plugins, on objects where no channel has sources, no source runs and
-- nothing waits or was sent, the agent answers any sequence of requests, whatever the host answers.
-- Then the objects satisfy the invariant of channels and sources; every channel, source and
-- subscription that is registered is registered once, has its pointer as its id, and was given out;
-- and every source in the array of a channel, and this channel, was given out.
pub requests-IsConsistent :
    (files : List (Bool × Option PluginInfo)) (configured : Bytes → Option Bool)
    (factory : ℕ → Made) (listens : ℕ → Bool) (requests : List (Outside × Request)) (w : World)
    → IsFresh w
    → IsConsistent (serve_all requests (Manager.init files configured factory listens w))
requests-IsConsistent files configured factory listens requests w f =
    serve_all_kept requests _ (init_kept files configured factory listens w f)
