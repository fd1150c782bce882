-- ===== src/System/Idle.antt =====
-- Channels that are neither running nor muted, and their sources.
use perfkit.Prelude.{ℕ, ◌≡◌, inl, inr, true, false, List, [], arith, contains, Bool-cases}
use perfkit.Context.{Context}
use perfkit.Wire.{Buffer, Time}
use perfkit.World.{World}
use perfkit.System.Signals.{heard}
use perfkit.System.Invariant.{Inv, is_live}
use perfkit.System.Preserved.{run-Inv}
use perfkit.System.{Command, run}

-- The agent before any call: no channel has sources, no source runs, nothing waits or was sent.
pub record IsFresh (w : World) : Type 0 where
  pub no_members : (c : ℕ) → (w.channels c).sources ≡ []
  pub not_running : (s : ℕ) → (w.sources s).running ≡ false
  pub no_timeouts : w.timeouts ≡ []
  pub no_calls : w.calls ≡ []

pub IsFresh-Inv : {w : World} → IsFresh w → Inv w
IsFresh-Inv f = record {
  owned = λ c s h. ground (arith, f.no_members c);
  live = λ s h. absurd (ground (arith, f.not_running s));
  told = λ s. rw (f.no_timeouts, f.no_calls, f.not_running s);
}

idle_flag :
    (c s : ℕ) {w : World}
    → Inv w
    → is_live (w.channels c).state ≡ false
    → contains (w.channels c).sources s ≡ true
    → (w.sources s).running ≡ false
idle_flag c s {w} v i m = elim (Bool-cases (w.sources s).running) [
  | inr n ↦ n
  | inl y ↦ let (d, o, _, l) = v.live s y in let o' = v.owned c s m in ground arith
]

-- After any calls on a fresh agent, a source of a channel that is ready, stopped or failed does not
-- run; and once the main loop has nothing left to emit, the last `started` or `stopped` signal that
-- its class has heard was not a `started`.
pub idle_sources_silent :
    (b : Buffer) (t : Time) (context : Context) (xs : List Command) (c s : ℕ) (w : World)
    → IsFresh w
    → is_live ((run b t context xs w).channels c).state ≡ false
    → contains ((run b t context xs w).channels c).sources s ≡ true
    → (run b t context xs w).timeouts ≡ []
    → (((run b t context xs w).sources s).running ≡ false)
      × (heard s (run b t context xs w).calls ≡ false)
idle_sources_silent b t context xs c s w f i m e =
    let v = run-Inv b t context xs (IsFresh-Inv f) in
    let stopped = idle_flag c s v i m in (stopped, ground (arith, v.told s))
