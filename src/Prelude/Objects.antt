-- ===== src/Prelude/Objects.antt =====
-- Objects behind pointers: a store is a function of the pointer, and a write changes one place.
use Prim.Native.Nat.{ℕ}
use mathlib.Core.Path.{◌≡◌}
use mathlib.Core.Logic.{◌≢◌}
use native.Mathlib.Omega.{arith}
use perfkit.Prelude.Tests.{◌==◌, if◌then◌else◌}

abbrev pub Store {ℓ} : Type ℓ → Type ℓ
Store A = ℕ → A

abbrev pub update {ℓ} : {A : Type ℓ} → Store A → ℕ → A → Store A
update f p v q = if p == q then v else f q

pub update_self {ℓ} : {A : Type ℓ} (f : Store A) (p : ℕ) (v : A) → update f p v p ≡ v
update_self f p v = ground arith

pub update_ne {ℓ} : {A : Type ℓ} (f : Store A) (p q : ℕ) (v : A) → p ≢ q → update f p v q ≡ f q
update_ne f p q v h = ground arith
