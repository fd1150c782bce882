-- ===== src/System/Signals.antt =====
-- What a source's class knows: whether the last `started` or `stopped` signal that reached it, or
-- that waits in the main loop for it, is a `started`.
use perfkit.Prelude.{ℕ, ◌≡◌, refl, Bool, true, false, List, [], ◌∷◌, ◌++◌, ◌==◌, if◌then◌else◌}
use perfkit.World.{
  World, Emission, started, stopped_signal, muted_signal, unmuted_signal, reset_signal, Call, emit,
}

-- A signal changes what its own source knows.
abbrev pub hear : ℕ → Emission → Bool → Bool
hear s (started q info) r = if q == s then true else r
hear s (stopped_signal q) r = if q == s then false else r
hear s (muted_signal q) r = r
hear s (unmuted_signal q) r = r
hear s (reset_signal q) r = r

-- The signals that wait, oldest first.
abbrev pub hear_all : ℕ → List Emission → Bool → Bool
hear_all s [] r = r
hear_all s (e ∷ es) r = hear_all s es (hear s e r)

-- The signals that were emitted, newest first.
abbrev pub heard : ℕ → List Call → Bool
heard s [] = false
heard s (emit e ∷ calls) = hear s e (heard s calls)
heard s (_ ∷ calls) = heard s calls

-- What the class of `s` will know when the main loop has emitted all that waits.
abbrev pub signals : ℕ → World → Bool
signals s w = hear_all s w.timeouts (heard s w.calls)

pub hear_all-append :
    (s : ℕ) (es : List Emission) (e : Emission) (r : Bool)
    → hear_all s (es ++ (e ∷ [])) r ≡ hear s e (hear_all s es r)
hear_all-append s [] e r = refl
hear_all-append s (x ∷ es) e r = hear_all-append s es e (hear s x r)
