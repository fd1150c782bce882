-- ===== src/Registry/Growth.antt =====
-- How the registry grows: the pointers that the requests give out.
use perfkit.Prelude.{
  ℕ, ◌+◌, ◌≤◌, ◌<◌, ◌≡◌, refl, inl, inr, Bool, true, false, List, [], ◌∷◌, arith, contains,
  Bool-cases, length, map, ltb, ◌&&◌,
}
use perfkit.Context.{default_context}
use perfkit.Wire.{Bytes}
use perfkit.Plugin
use perfkit.Plugin.{PluginInfo, Made, made, unmade}
use perfkit.Agent.{Agent, Answer}
use perfkit.Manager
use perfkit.Listener.{Outcome, with_found}
use perfkit.Listener.OnManager
use perfkit.Listener.Serve.{
  manager_add_source, plugin_get_copyright, plugin_get_description, plugin_get_name,
  plugin_get_plugin_type, plugin_get_version, manager_add_channel, manager_add_subscription,
  manager_get_channels, manager_get_sources, manager_get_subscriptions, manager_get_plugins,
  manager_get_hostname, manager_get_version, manager_ping, Request, on_channel, on_source,
  on_subscription, on_plugin, on_manager, Outside, serve_plugin, serve_manager, serve, serve_all,
}
use perfkit.System.Invariant.{contains-append}
use perfkit.Registry.Lookup.{with_found-cases}
use perfkit.Registry.Commands.{is_addition}
use perfkit.Registry.Refines.{serve-Follows}
use perfkit.Registry.Consistent.{IsArray, IsConsistent}
use perfkit.Registry.Born.{serve_all_kept}

-- The pointers of each kind that the agent has given out.
abbrev pub given : Agent → ℕ
given a = a.next_channel + a.next_source + a.next_subscription

-- Registered channels stay, and at most one pointer is given out.
pub record Grows (a a' : Agent) : Type 0 where
  pub stays : (c : ℕ) → contains a.channels c ≡ true → contains a'.channels c ≡ true
  pub bound : given a' ≤ given a + 1

Grows-refl : (a : Agent) → Grows a a
Grows-refl a = record { stays = λ c h. h; bound = omega arith }

found_Grows :
    (a a' : Agent) (x : Answer ℕ) (f : ℕ → Outcome)
    → Grows a a'
    → ((c : ℕ) → Grows a (f c).0)
    → Grows a (with_found a' x f).0
found_Grows a a' x f v h = with_found-cases (λ r. Grows a r.0) a' x f (λ e. v) (λ c e. h c)

made_Grows : (plugin : ℕ) (m : Made) (a : Agent) → Grows a (Manager.made_source plugin m a).0
unfolding Manager.made_source
made_Grows plugin (unmade e) a = Grows-refl a
made_Grows plugin made a = record { stays = λ c h. h; bound = omega arith }

add_source-Grows :
    (factory : ℕ → Made) (plugin : ℕ) (a : Agent)
    → Grows a (Manager.add_source default_context factory plugin a).0
unfolding Manager.add_source
add_source-Grows factory plugin a =
    elim (Bool-cases (Manager.is_source (Plugin.get_plugin_type (a.plugin_at plugin)))) [
      | inl p ↦ rw p (made_Grows plugin _ a)
      | inr n ↦ rw n (Grows-refl a)
    ]

add_channel-Grows :
    (tmp_dir : Bytes) (now : ℕ) (a : Agent)
    → Grows a (Manager.add_channel default_context tmp_dir now a).0
unfolding Manager.add_channel
add_channel-Grows tmp_dir now a = record {
  stays = λ c h. ground (arith, contains-append a.channels a.next_channel c);
  bound = omega arith;
}

add_subscription-Grows :
    (now : ℕ) (a : Agent) → Grows a (Manager.add_subscription default_context now a).0
unfolding Manager.add_subscription
add_subscription-Grows now a = record { stays = λ c h. h; bound = omega arith }

quiet_Grows :
    (o : Outside) (r : Request) (a : Agent) → is_addition r ≡ false → Grows a (serve o r a).0
quiet_Grows o r a h =
    let f = serve-Follows o r a h in
    record {
      stays = λ c m. rw (f.channels) m;
      bound = omega (arith, f.next_channel, f.next_source, f.next_subscription);
    }

addition_Grows :
    (o : Outside) (r : Request) (a : Agent) → is_addition r ≡ true → Grows a (serve o r a).0
unfolding serve serve_plugin serve_manager OnManager.add_channel OnManager.add_source
    OnManager.add_subscription
addition_Grows o (on_channel id x) a h = cc
addition_Grows o (on_source id x) a h = cc
addition_Grows o (on_subscription id x) a h = cc
addition_Grows o (on_plugin name manager_add_source) a h =
    found_Grows a a _ _ (Grows-refl a)
      (λ p. let g = add_source-Grows o.factory p a in found_Grows a _ _ _ g (λ q. g))
addition_Grows o (on_plugin name plugin_get_copyright) a h = cc
addition_Grows o (on_plugin name plugin_get_description) a h = cc
addition_Grows o (on_plugin name plugin_get_name) a h = cc
addition_Grows o (on_plugin name plugin_get_plugin_type) a h = cc
addition_Grows o (on_plugin name plugin_get_version) a h = cc
addition_Grows o (on_manager manager_add_channel) a h =
    let g = add_channel-Grows o.tmp_dir o.now a in found_Grows a _ _ _ g (λ c. g)
addition_Grows o (on_manager (manager_add_subscription size timeout)) a h =
    let g = add_subscription-Grows o.now a in found_Grows a _ _ _ g (λ p. g)
addition_Grows o (on_manager manager_get_channels) a h = cc
addition_Grows o (on_manager manager_get_sources) a h = cc
addition_Grows o (on_manager manager_get_subscriptions) a h = cc
addition_Grows o (on_manager manager_get_plugins) a h = cc
addition_Grows o (on_manager manager_get_hostname) a h = cc
addition_Grows o (on_manager manager_get_version) a h = cc
addition_Grows o (on_manager manager_ping) a h = cc

pub serve-Grows : (o : Outside) (r : Request) (a : Agent) → Grows a (serve o r a).0
serve-Grows o r a = elim (Bool-cases (is_addition r)) [
  | inl p ↦ addition_Grows o r a p
  | inr n ↦ quiet_Grows o r a n
]

pub stays_registered :
    (requests : List (Outside × Request)) (c : ℕ) (a : Agent)
    → contains a.channels c ≡ true
    → contains (serve_all requests a).channels c ≡ true
unfolding serve_all
stays_registered [] c a h = h
stays_registered ((o, r) ∷ requests) c a h =
    stays_registered requests c _ ((serve-Grows o r a).stays c h)

-- However many requests are served, at most as many pointers have been given out for them.
pub given_bound :
    (requests : List (Outside × Request)) (a : Agent)
    → given (serve_all requests a) ≤ given a + length requests
unfolding serve_all
given_bound [] a = omega arith
given_bound ((o, r) ∷ requests) a =
    let g = serve-Grows o r a in omega (arith, g.bound, given_bound requests (serve o r a).0)

abbrev pub all_below : ℕ → List ℕ → Bool
all_below bound [] = true
all_below bound (x ∷ xs) = ltb x bound && all_below bound xs

array_below :
    (id_of : ℕ → ℕ) (bound : ℕ) (xs : List ℕ)
    → ((x : ℕ) → contains xs x ≡ true → id_of x < bound)
    → all_below bound (map id_of xs) ≡ true
array_below id_of bound [] h = refl
array_below id_of bound (x ∷ xs) h =
    ground (arith, h x (ground arith), array_below id_of bound xs (λ y m. h y (ground arith)))

sound_below :
    (id_of : ℕ → ℕ) (next bound : ℕ) (xs : List ℕ)
    → next ≤ bound
    → IsArray id_of next xs
    → all_below bound (map id_of xs) ≡ true
sound_below id_of next bound xs h v =
    array_below id_of bound xs (λ x m. omega (arith, v.named x m, v.below x m, h))

-- A consistent agent serves any number of requests. Then every registered channel, source and
-- subscription has an id below the number of objects that were given out before, all kinds
-- together, plus the number of the requests.
pub ids_bounded :
    (requests : List (Outside × Request)) (a : Agent)
    → IsConsistent a
    → let a' = serve_all requests a in
      let bound = given a + length requests in
      (all_below bound (map (λ c. (a'.world.channels c).id) a'.channels) ≡ true)
      × (all_below bound (map (λ s. (a'.world.sources s).id) a'.sources) ≡ true)
      × (all_below bound (map (λ p. (a'.world.subscriptions p).id) a'.subscriptions) ≡ true)
ids_bounded requests a v =
    let u = serve_all_kept requests a v in
    let g = given_bound requests a in
    (
      sound_below _ _ _ _ (omega (arith, g)) u.channels,
      sound_below _ _ _ _ (omega (arith, g)) u.sources,
      sound_below _ _ _ _ (omega (arith, g)) u.subscriptions,
    )
