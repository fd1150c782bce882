-- ===== src/Registry/Consistent.antt =====
-- The invariant of the registry together with the objects, and the elementary changes that keep it.
use perfkit.Prelude.{
  ℕ, ◌+◌, ◌<◌, ◌≤◌, ◌≡◌, refl, sym, ◌∙◌, ap, inl, inr, true, false, List, [], ◌∷◌, ◌++◌, ◌==◌,
  arith, contains, Bool-cases,
}
use perfkit.World.{World, Channel, Source, put_channel, put_source}
use perfkit.Agent.{Agent}
use perfkit.Manager.{remove_first}
use perfkit.System.Invariant.{Inv, contains-append}
use perfkit.System.Subscribing.{times}
use perfkit.Registry.Fixed.{Fixed}

-- An array of pointers that were given out before `next`, each once, with the pointers as ids.
pub record IsArray (id_of : ℕ → ℕ) (next : ℕ) (xs : List ℕ) : Type 0 where
  pub named : (x : ℕ) → contains xs x ≡ true → id_of x ≡ x
  pub below : (x : ℕ) → contains xs x ≡ true → x < next
  pub once : (x : ℕ) → times xs x ≤ 1

-- The objects keep their invariant; the arrays are sound; and the sources of every channel, like the
-- channel, are objects that exist.
pub record IsConsistent (a : Agent) : Type 0 where
  pub inv : Inv a.world
  pub channels : IsArray (λ c. (a.world.channels c).id) a.next_channel a.channels
  pub sources : IsArray (λ s. (a.world.sources s).id) a.next_source a.sources
  pub subscriptions :
      IsArray (λ p. (a.world.subscriptions p).id) a.next_subscription a.subscriptions
  -- No channel is ever removed.
  pub complete : (c : ℕ) → c < a.next_channel → contains a.channels c ≡ true
  pub members :
      (c s : ℕ)
      → contains (a.world.channels c).sources s ≡ true
      → (c < a.next_channel) × (s < a.next_source)

pub times-contains : (xs : List ℕ) (x : ℕ) → contains xs x ≡ false → times xs x ≡ 0
times-contains [] x h = refl
times-contains (y ∷ xs) x h = ground (arith, times-contains xs x (ground arith))

pub contains-times : (xs : List ℕ) (x : ℕ) → times xs x ≡ 0 → contains xs x ≡ false
contains-times [] x h = refl
contains-times (y ∷ xs) x h = ground (arith, contains-times xs x)

pub times-append :
    (xs : List ℕ) (p q : ℕ) → times (xs ++ (p ∷ [])) q ≡ times xs q + times (p ∷ []) q
times-append [] p q = ground arith
times-append (x ∷ xs) p q = ground (arith, times-append xs p q)

pub times-remove_first :
    (xs : List ℕ) (p q : ℕ)
    → contains xs p ≡ true
    → times (remove_first p xs) q + times (p ∷ []) q ≡ times xs q
times-remove_first [] p q h = ground arith
times-remove_first (x ∷ xs) p q h = elim (Bool-cases (x == p)) [
  | inl same ↦ ground arith
  | inr differs ↦ ground (arith, times-remove_first xs p q (ground arith))
]

pub contains-remove_first :
    (xs : List ℕ) (p q : ℕ) → contains (remove_first p xs) q ≡ true → contains xs q ≡ true
contains-remove_first [] p q h = h
contains-remove_first (x ∷ xs) p q h = elim (Bool-cases (x == p)) [
  | inl same ↦ ground arith
  | inr differs ↦ ground (arith, contains-remove_first xs p q)
]

remove_first-times : (xs : List ℕ) (p q : ℕ) → times (remove_first p xs) q ≤ times xs q
remove_first-times [] p q = omega arith
remove_first-times (x ∷ xs) p q = elim (Bool-cases (x == p)) [
  | inl same ↦ ground arith
  | inr differs ↦ ground (arith, remove_first-times xs p q)
]

-- A pointer that is given out joins the array.
pub grown-IsArray :
    {id_of id_of' : ℕ → ℕ} {next : ℕ} {xs : List ℕ}
    → id_of' next ≡ next
    → ((x : ℕ) → x < next → id_of' x ≡ id_of x)
    → IsArray id_of next xs
    → IsArray id_of' (next + 1) (xs ++ (next ∷ []))
grown-IsArray {id_of} {id_of'} {next} {xs} e h v = record {
  named = λ x m. elim (Bool-cases (contains xs x)) [
    | inl old ↦ h x (v.below x old) ∙ v.named x old
    | inr new ↦
        let same : next ≡ x = ground (arith, contains-append xs next x) in
        ap id_of' (sym same) ∙ e ∙ same
  ];
  below = λ x m. elim (Bool-cases (contains xs x)) [
    | inl old ↦ omega (arith, v.below x old)
    | inr new ↦
        let same : next ≡ x = ground (arith, contains-append xs next x) in omega (arith, same)
  ];
  once = λ x. elim (Bool-cases (contains xs x)) [
    | inl old ↦ ground (arith, times-append xs next x, v.once x, v.below x old)
    | inr new ↦ ground (arith, times-append xs next x, times-contains xs x new)
  ];
}

pub shrunk-IsArray :
    {id_of : ℕ → ℕ} {next : ℕ} {xs : List ℕ} (p : ℕ)
    → IsArray id_of next xs
    → IsArray id_of next (remove_first p xs)
shrunk-IsArray {xs} p v = record {
  named = λ x m. v.named x (contains-remove_first xs p x m);
  below = λ x m. v.below x (contains-remove_first xs p x m);
  once = λ x. omega (arith, v.once x, remove_first-times xs p x);
}

pub same-IsArray :
    {id_of id_of' : ℕ → ℕ} {next : ℕ} {xs : List ℕ}
    → ((x : ℕ) → id_of' x ≡ id_of x)
    → IsArray id_of next xs
    → IsArray id_of' next xs
same-IsArray h v = record { named = λ x m. h x ∙ v.named x m; below = v.below; once = v.once }

-- A call that leaves the names and the channels' sources alone.
pub Fixed-IsConsistent :
    (a : Agent) (w : World)
    → Fixed a.world w
    → Inv w
    → IsConsistent a
    → IsConsistent (record a { world = w })
Fixed-IsConsistent a w k i v = record {
  inv = i;
  channels = same-IsArray k.channel_id v.channels;
  sources = same-IsArray k.source_id v.sources;
  subscriptions = same-IsArray k.subscription_id v.subscriptions;
  complete = v.complete;
  members = λ c s m. v.members c s (rw (← k.members c) m);
}

-- A channel without sources, at a pointer that no source's channel is.
pub new_channel-Inv :
    (c : ℕ) (x : Channel) (w : World)
    → ((s : ℕ) → contains (w.channels c).sources s ≡ false)
    → x.sources ≡ []
    → Inv w
    → Inv (put_channel c x w)
new_channel-Inv c x w h e v = record {
  owned = λ d s m. ground (arith, v.owned d s);
  live = λ s r. let (d, o, m, l) = v.live s r in (d, o, ground (arith, h s), ground (arith, h s));
  told = v.told;
}

-- A source that does not run, at a pointer that no channel has.
pub new_source-Inv :
    (s : ℕ) (x : Source) (w : World)
    → ((c : ℕ) → contains (w.channels c).sources s ≡ false)
    → x.running ≡ false
    → Inv w
    → Inv (put_source s x w)
new_source-Inv s x w h e v = record {
  owned = λ d q m. ground (arith, v.owned d q, h d);
  live = λ q r. let (d, o, m, l) = v.live q (ground (arith, e)) in (d, ground (arith, h d), m, l);
  told = λ q. elim (Bool-cases (s == q)) [
    | inl p ↦ elim (Bool-cases (w.sources q).running) [
      | inl r ↦ let (d, o, m, l) = v.live q r in absurd (ground (arith, h d))
      | inr n ↦ ground (arith, v.told q)
    ]
    | inr n ↦ ground (arith, v.told q)
  ];
}
