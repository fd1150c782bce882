-- ===== src/System/Invariant.antt =====
-- The invariant that ties channels, sources and their signals together, and how the elementary
-- changes keep it.
use perfkit.Prelude.{
  ℕ, ◌≡◌, sym, ◌∙◌, inl, inr, Bool, true, false, ◌||◌, none, some, List, [], ◌∷◌, ◌++◌, arith,
  contains, Bool-cases, ◌==◌, update,
}
use perfkit.World.{ChannelState, running, muted, Channel, Source, World, put_channel, put_source}
use perfkit.System.Signals.{signals}
use perfkit.System.Frame.{Keeps}
use perfkit.System.Notify.{Switches}

abbrev pub is_live : ChannelState → Bool
is_live running = true
is_live muted = true
is_live _ = false

-- A channel's sources are its own; a source runs only under a channel of its own that is running
-- or muted; and its class has been told, or will be, whether it runs.
pub record Inv (w : World) : Type 0 where
  pub owned : (c s : ℕ) → contains (w.channels c).sources s ≡ true → (w.sources s).channel ≡ some c
  pub live :
      (s : ℕ)
      → (w.sources s).running ≡ true
      → (c : ℕ) × ((w.sources s).channel ≡ some c)
        × (contains (w.channels c).sources s ≡ true)
        × (is_live (w.channels c).state ≡ true)
  pub told : (s : ℕ) → signals s w ≡ (w.sources s).running

pub Keeps-Inv : {w w' : World} → Keeps w w' → Inv w → Inv w'
Keeps-Inv k v = record {
  owned = λ c s h. k.owner s ∙ v.owned c s (rw (← k.members c) h);
  live = λ s h.
      let (c, o, m, l) = v.live s (sym (k.running s) ∙ h) in
      (c, k.owner s ∙ o, rw (k.members c) m, rw (k.state c) l);
  told = λ s. k.signals s ∙ v.told s ∙ sym (k.running s);
}

-- A channel may change its state, if a live one stays live.
pub put_channel-Inv :
    (c : ℕ) (x : Channel) (w : World)
    → x.sources ≡ (w.channels c).sources
    → (is_live (w.channels c).state ≡ true → is_live x.state ≡ true)
    → Inv w
    → Inv (put_channel c x w)
put_channel-Inv c x w e k v = record {
  owned = λ d s h. ground (arith, v.owned d s);
  live = λ s h. let (d, o, m, l) = v.live s h in (d, o, ground arith, ground arith);
  told = v.told;
}

-- Sources may be stopped at any time.
pub stopped-Inv : (xs : List ℕ) {w w' : World} → Switches false xs w w' → Inv w → Inv w'
stopped-Inv xs {w} {w'} k v = record {
  owned = λ c s h. k.owner s ∙ v.owned c s (rw (← k.channels) h);
  live = λ s h.
      let (c, o, m, l) = v.live s (ground (arith, k.running s)) in
      (c, k.owner s ∙ o, rw (k.channels) m, rw (k.channels) l);
  told = λ s. k.told s (v.told s);
}

-- The sources of a live channel may be started.
pub started-Inv :
    (c : ℕ) (xs : List ℕ) {w w' : World}
    → is_live (w.channels c).state ≡ true
    → (w.channels c).sources ≡ xs
    → Switches true xs w w'
    → Inv w
    → Inv w'
started-Inv c xs {w} {w'} a e k v = record {
  owned = λ d s h. k.owner s ∙ v.owned d s (rw (← k.channels) h);
  live = λ s h. elim (Bool-cases (contains xs s)) [
    | inl m ↦ (c, k.owner s ∙ v.owned c s (rw e m), rw (k.channels, e) m, rw (k.channels) a)
    | inr n ↦
        let (d, o, m, l) = v.live s (ground (arith, k.running s)) in
        (d, k.owner s ∙ o, rw (k.channels) m, rw (k.channels) l)
  ];
  told = λ s. k.told s (v.told s);
}

update_members :
    (c d : ℕ) (x : Channel) (w w' : World)
    → x.sources ≡ (w.channels c).sources
    → w'.channels ≡ update w.channels c x
    → (w'.channels d).sources ≡ (w.channels d).sources
update_members c d x w w' e p = rw p (ground arith)

-- A channel that is made to stop, with all its sources.
pub halted-Inv :
    (c : ℕ) (x : Channel) {w w' : World}
    → x.sources ≡ (w.channels c).sources
    → Switches false (w.channels c).sources (put_channel c x w) w'
    → Inv w
    → Inv w'
halted-Inv c x {w} {w'} e k v = record {
  owned = λ d s h. k.owner s ∙ v.owned d s (rw (update_members c d x w w' e k.channels) at h);
  live = λ s h.
      let (d, o, m, l) = v.live s (ground (arith, k.running s)) in
      (
        d,
        k.owner s ∙ o,
        rw (update_members c d x w w' e k.channels) m,
        rw (k.channels) (ground (arith, k.running s)),
      );
  told = λ s. k.told s (v.told s);
}

pub contains-append_self : (xs : List ℕ) (s : ℕ) → contains (xs ++ (s ∷ [])) s ≡ true
contains-append_self [] s = ground arith
contains-append_self (x ∷ xs) s = ground (arith, contains-append_self xs s)

pub contains-append :
    (xs : List ℕ) (s q : ℕ) → contains (xs ++ (s ∷ [])) q ≡ (contains xs q || s == q)
contains-append [] s q = ground arith
contains-append (x ∷ xs) s q = ground (arith, contains-append xs s q)

-- A source with no channel joins one.
pub attached-Inv :
    (c s : ℕ) (x : Channel) (y : Source) (w : World)
    → (w.sources s).channel ≡ none
    → x.sources ≡ (w.channels c).sources ++ (s ∷ [])
    → x.state ≡ (w.channels c).state
    → y.channel ≡ some c
    → y.running ≡ (w.sources s).running
    → Inv w
    → Inv (put_channel c x (put_source s y w))
attached-Inv c s x y w free e f g h v = record {
  owned =
      λ d q m. ground (arith, contains-append (w.channels c).sources s q, v.owned d q, v.owned c q);
  live = λ q r.
      let (d, o, m, l) = v.live q (ground arith) in
      (d, ground arith, ground (arith, contains-append (w.channels c).sources s q), ground arith);
  told = λ q. ground (arith, v.told q);
}
