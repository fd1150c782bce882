-- ===== src/Registry/Reach.antt =====
-- What the finders and the listings of the registry answer, over any requests.
use mathlib.Core.List.{reverse, reverse_aux}
use perfkit.Prelude.{
  ℕ, ◌≤◌, ◌≡◌, refl, ◌↔◌, sym, ◌∙◌, ap, true, false, ◌||◌, some, List, [], ◌∷◌, arith, contains,
  map,
}
use perfkit.Context.{Context, not_authorized, default_context}
use perfkit.Sample.{Sample}
use perfkit.Agent.{Agent, answer, refused}
use perfkit.Source
use perfkit.Channel
use perfkit.Manager
use perfkit.Manager.{find_by, found_or, remove_first}
use perfkit.Listener.{with_found, done, number, flag}
use perfkit.Listener.OnManager
use perfkit.Listener.Serve.{
  manager_remove_source, manager_remove_subscription, manager_add_channel, Request, on_source,
  on_subscription, on_manager, Outside, serve_source, serve_subscription, serve_manager,
  serve_channel, on_channel, manager_remove_channel, serve, serve_all,
}
use perfkit.System.Invariant.{contains-append}
use perfkit.System.Subscribing.{times}
use perfkit.Registry.Fixed
use perfkit.Registry.Lookup.{find_by-none, find_by-some, find_by-registered, found_answer}
use perfkit.Registry.Consistent.{
  IsArray, IsConsistent, times-remove_first, contains-times, contains-remove_first,
}
use perfkit.Registry.Kept.{found_source}
use perfkit.Registry.Born.{new_channel_kept, serve_all_kept}
use perfkit.Registry.Growth.{stays_registered}

pub find_registered :
    (c : ℕ) (k : Context) (a : Agent)
    → IsConsistent a
    → contains a.channels c ≡ true
    → Manager.find_channel k c a ≡ answer c
unfolding Manager.find_channel
find_registered c k a v m =
    ap (found_or not_authorized)
      (find_by-registered (λ d. (a.world.channels d).id) a.channels c v.channels.named m)

-- A client of a consistent agent asks for a new channel, and gets an id. After any further requests
-- the agent still finds the channel by this id, also where they were to remove this very channel;
-- and such a request then is answered with TRUE and changes nothing, against the documentation of the
-- removal.
pub new_channel_reached :
    (o : Outside) (requests : List (Outside × Request)) (k : Context) (a : Agent)
    → IsConsistent a
    → let (a', reply) = serve o (on_manager manager_add_channel) a in
      (reply ≡ answer (number a.next_channel))
      × (Manager.find_channel k a.next_channel (serve_all requests a') ≡ answer a.next_channel)
      × ((o' : Outside)
          → serve o' (on_channel a.next_channel manager_remove_channel) (serve_all requests a')
            ≡ (serve_all requests a', answer (flag true)))
unfolding serve serve_manager OnManager.add_channel Manager.add_channel Channel.new with_found
    serve_channel OnManager.remove_channel Manager.remove_channel
new_channel_reached o requests k a v =
    let a' = (Manager.add_channel default_context o.tmp_dir o.now a).0 in
    let c = a.next_channel in
    let found : (q : Context) → Manager.find_channel q c (serve_all requests a') ≡ answer c = λ q.
      find_registered c q (serve_all requests a')
        (serve_all_kept requests a' (new_channel_kept o.tmp_dir o.now a v))
        (stays_registered requests c a' (ground (arith, contains-append a.channels c c))) in
    (ground arith, found k, λ o'. rw (found default_context) refl)

contains-map :
    (f : ℕ → ℕ) (xs ys : List ℕ) (x : ℕ)
    → ((y : ℕ) → contains xs y ≡ true → f y ≡ y)
    → contains (map f (reverse_aux xs ys)) x ≡ (contains xs x || contains (map f ys) x)
contains-map f [] ys x h = refl
contains-map f (y ∷ xs) ys x h =
    ground (arith, contains-map f xs (y ∷ ys) x (λ z m. h z (ground arith)), h y (ground arith))

-- The ids that a listing hands out are those that the finder finds.
listed :
    (id_of : ℕ → ℕ) (next : ℕ) (xs : List ℕ) (id : ℕ)
    → IsArray id_of next xs
    → (contains (map id_of (reverse xs)) id ≡ true)
      ↔ (found_or not_authorized (find_by id_of id xs) ≡ answer id)
listed id_of next xs id v =
    let same = contains-map id_of xs [] id v.named in
    (
      λ m.
          ap (found_or not_authorized)
            (find_by-registered id_of xs id v.named (ground (arith, same))),
      λ f.
          let (m, e) = find_by-some id_of id xs (found_answer not_authorized _ f) in
          ground (arith, same),
    )

-- In a consistent agent a client that lists the channels, the sources or the subscriptions is handed
-- exactly the ids under which the agent finds one.
pub listed_iff_found :
    (id : ℕ) (k : Context) (a : Agent)
    → IsConsistent a
    → ((contains (map (λ c. (a.world.channels c).id) (Manager.get_channels k a)) id ≡ true)
        ↔ (Manager.find_channel k id a ≡ answer id))
      × ((contains (map (λ s. (a.world.sources s).id) (Manager.get_sources k a)) id ≡ true)
          ↔ (Manager.find_source k id a ≡ answer id))
      × ((contains (map (λ p. (a.world.subscriptions p).id) (Manager.get_subscriptions k a)) id
            ≡ true)
          ↔ (Manager.find_subscription k id a ≡ answer id))
unfolding Manager.find_channel Manager.find_source Manager.find_subscription Manager.get_channels
    Manager.get_sources Manager.get_subscriptions
listed_iff_found id k a v = (
  listed _ _ a.channels id v.channels,
  listed _ _ a.sources id v.sources,
  listed _ _ a.subscriptions id v.subscriptions,
)

not_left :
    (xs : List ℕ) (s : ℕ)
    → contains xs s ≡ true
    → times xs s ≤ 1
    → contains (remove_first s xs) s ≡ false
not_left xs s m h =
    contains-times (remove_first s xs) s (ground (arith, times-remove_first xs s s m))

-- A consistent agent that finds a source under an id is asked to remove it, which it does. Then the
-- id is not found any more; but every channel still has the sources in its array that it had before,
-- the removed one among them where it is one of the channel's.
pub removed_source :
    (o : Outside) (id s : ℕ) (k : Context) (a : Agent)
    → IsConsistent a
    → Manager.find_source k id a ≡ answer s
    → let (a', reply) = serve o (on_source id manager_remove_source) a in
      (reply ≡ answer done)
      × (Manager.find_source k id a' ≡ refused (some not_authorized))
      × ((c : ℕ) → (a'.world.channels c).sources ≡ (a.world.channels c).sources)
unfolding serve serve_source OnManager.remove_source Manager.remove_source Manager.find_source
    with_found
removed_source o id s k a v f =
    let (m, e) = found_source id a f in
    let fixed = Fixed.notify_stopped-Fixed s a.world in
    let gone = not_left a.sources s m (v.sources.once s) in
    rw (f, m)
      (
        refl,
        ap (found_or not_authorized) (
            find_by-none _ id (remove_first s a.sources) (λ x n same.
              let old = contains-remove_first a.sources s x n in
              let is_s : x ≡ s =
                sym (v.sources.named x old)
                ∙ sym (fixed.source_id x)
                ∙ same
                ∙ sym e
                ∙ v.sources.named s m in
              ground (arith, is_s, gone, n))),
        fixed.members,
      )

-- A consistent agent that finds a subscription under an id is asked to remove it, which it does. Then
-- the id is not found any more, but no object has changed and no call was made: so each sample that a
-- source delivers next makes the same calls, the ones to the removed subscription's closures among
-- them.
pub removed_subscription :
    (o : Outside) (id p : ℕ) (k : Context) (a : Agent)
    → IsConsistent a
    → Manager.find_subscription k id a ≡ answer p
    → let (a', reply) = serve o (on_subscription id manager_remove_subscription) a in
      (reply ≡ answer (flag true))
      × (Manager.find_subscription k id a' ≡ refused (some not_authorized))
      × (a'.world ≡ a.world)
      × ((s : ℕ) (x : Sample)
          → (Source.deliver_sample o.buffer o.time s x a'.world).calls
            ≡ (Source.deliver_sample o.buffer o.time s x a.world).calls)
unfolding serve serve_subscription OnManager.remove_subscription Manager.remove_subscription
    Manager.find_subscription with_found
removed_subscription o id p k a v f =
    let (m, e) =
      find_by-some (λ q. (a.world.subscriptions q).id) id a.subscriptions
        (found_answer not_authorized _ f) in
    let gone = not_left a.subscriptions p m (v.subscriptions.once p) in
    rw f (
      refl,
      ap (found_or not_authorized) (
          find_by-none _ id (remove_first p a.subscriptions) (λ x n same.
            let old = contains-remove_first a.subscriptions p x n in
            let is_p : x ≡ p =
              sym (v.subscriptions.named x old) ∙ same ∙ sym e ∙ v.subscriptions.named p m in
            ground (arith, is_p, gone, n))),
      refl,
      λ s x. refl,
    )
