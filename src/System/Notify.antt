-- ===== src/System/Notify.antt =====
-- What the notifications that a channel sends round its sources do: they leave the channels alone,
-- and set or clear the running flag of exactly the sources on the list.
use perfkit.Prelude.{
  ℕ, ◌≡◌, refl, ◌∙◌, Bool, true, false, List, [], ◌∷◌, ◌++◌, arith, contains, if◌then◌else◌,
}
use perfkit.World.{
  SpawnInfo, World, started, stopped_signal, muted_signal, reset_signal, foreach, spawn_info_copy,
}
use perfkit.Source
use perfkit.System.Signals.{signals, heard, hear_all-append}
use perfkit.System.Frame.{Keeps, queue_muted-Keeps, queue_unmuted-Keeps}

pub notify_reset-Keeps : (q : ℕ) (w : World) → Keeps w (Source.notify_reset q w)
unfolding Source.notify_reset
notify_reset-Keeps q w = record {
  state = λ c. refl;
  members = λ c. refl;
  running = λ s. refl;
  owner = λ s. refl;
  signals = λ s. hear_all-append s w.timeouts (reset_signal q) _;
}

pub notify_muted-Keeps : (q : ℕ) (w : World) → Keeps w (Source.notify_muted q w)
unfolding Source.notify_muted
notify_muted-Keeps q w = queue_muted-Keeps q w

pub notify_unmuted-Keeps : (q : ℕ) (w : World) → Keeps w (Source.notify_unmuted q w)
unfolding Source.notify_unmuted
notify_unmuted-Keeps q w = queue_unmuted-Keeps q w

-- From `w` to `w'` the flag of each source on the list has become `r`, and its class has been told
-- so, where it was right about the flag before; nothing else has changed.
pub record Switches (r : Bool) (xs : List ℕ) (w w' : World) : Type 0 where
  pub channels : w'.channels ≡ w.channels
  pub owner : (s : ℕ) → (w'.sources s).channel ≡ (w.sources s).channel
  pub running :
      (s : ℕ) → (w'.sources s).running ≡ (if contains xs s then r else (w.sources s).running)
  pub told : (s : ℕ) → signals s w ≡ (w.sources s).running → signals s w' ≡ (w'.sources s).running

Switches-cons :
    {r : Bool} {x : ℕ} {xs : List ℕ} {u v w : World}
    → Switches r (x ∷ []) u v
    → Switches r xs v w
    → Switches r (x ∷ xs) u w
Switches-cons h k = record {
  channels = k.channels ∙ h.channels;
  owner = λ s. k.owner s ∙ h.owner s;
  running = λ s. ground (arith, h.running s, k.running s);
  told = λ s e. k.told s (h.told s e);
}

foreach-Switches :
    (r : Bool) (f : ℕ → World → World)
    → ((x : ℕ) (w : World) → Switches r (x ∷ []) w (f x w))
    → (xs : List ℕ) (w : World) → Switches r xs w (foreach f xs w)
foreach-Switches r f h [] w = record {
  channels = refl;
  owner = λ s. refl;
  running = λ s. refl;
  told = λ s e. e;
}
foreach-Switches r f h (x ∷ xs) w = Switches-cons (h x w) (foreach-Switches r f h xs (f x w))

notify_started-Switches :
    (info : SpawnInfo) (q : ℕ) (w : World)
    → Switches true (q ∷ []) w (Source.notify_started info q w)
unfolding Source.notify_started
notify_started-Switches info q w = record {
  channels = ground arith;
  owner = λ s. ground arith;
  running = λ s. ground arith;
  told = λ s e. ground (
    arith,
    hear_all-append s w.timeouts (started q (spawn_info_copy info)) (heard s w.calls),
    hear_all-append s (w.timeouts ++ (started q (spawn_info_copy info) ∷ [])) (muted_signal q)
        (heard s w.calls),
  );
}

pub notify_stopped-Switches :
    (q : ℕ) (w : World) → Switches false (q ∷ []) w (Source.notify_stopped q w)
unfolding Source.notify_stopped
notify_stopped-Switches q w = record {
  channels = ground arith;
  owner = λ s. ground arith;
  running = λ s. ground arith;
  told = λ s e. ground (arith, hear_all-append s w.timeouts (stopped_signal q) (heard s w.calls));
}

pub start_all-Switches :
    (info : SpawnInfo) (xs : List ℕ) (w : World)
    → Switches true xs w (foreach (Source.notify_started info) xs w)
start_all-Switches info = foreach-Switches true _ (notify_started-Switches info)

pub stop_all-Switches :
    (xs : List ℕ) (w : World) → Switches false xs w (foreach Source.notify_stopped xs w)
stop_all-Switches = foreach-Switches false _ notify_stopped-Switches
