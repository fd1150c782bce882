-- ===== src/Registry/Lookup.antt =====
-- The finders of perfkit-agent/pka-manager.c: what they find is registered under the id.
use perfkit.Prelude.{
  ℕ, ◌≡◌, refl, ◌≢◌, inl, inr, true, Option, none, some, List, [], ◌∷◌, ◌==◌, arith, contains,
  Bool-cases, ==_iff,
}
use perfkit.Context.{Error}
use perfkit.Agent.{Agent, Answer, answer, refused}
use perfkit.Manager.{find_by, found_or}
use perfkit.Listener.{Outcome, with_found}

-- An object is found, or none has the id.
pub find_by-none :
    (id_of : ℕ → ℕ) (id : ℕ) (xs : List ℕ)
    → ((x : ℕ) → contains xs x ≡ true → id_of x ≢ id)
    → find_by id_of id xs ≡ none
find_by-none id_of id [] h = refl
find_by-none id_of id (x ∷ xs) h =
    let tail = find_by-none id_of id xs (λ y m. h y (ground arith)) in
    let here = h x (ground arith) in
    elim (Bool-cases (id_of x == id)) [
      | inl e ↦ absurd (here ((==_iff (id_of x) id).0 e))
      | inr n ↦ rw n tail
    ]

pub find_by-some :
    (id_of : ℕ → ℕ) (id : ℕ) (xs : List ℕ) {x : ℕ}
    → find_by id_of id xs ≡ some x
    → (contains xs x ≡ true) × (id_of x ≡ id)
find_by-some id_of id [] h = absurd (ground (arith, h))
find_by-some id_of id (y ∷ xs) {x} h = elim (Bool-cases (id_of y == id)) [
  | inl e ↦ ground (arith, e, h)
  | inr n ↦
      let (m, k) = find_by-some id_of id xs {x = x} (ground (arith, n, h)) in (ground (arith, m), k)
]

-- Where the ids are the pointers themselves, each registered object is found.
pub find_by-registered :
    (id_of : ℕ → ℕ) (xs : List ℕ) (x : ℕ)
    → ((y : ℕ) → contains xs y ≡ true → id_of y ≡ y)
    → contains xs x ≡ true
    → find_by id_of x xs ≡ some x
find_by-registered id_of [] x h m = absurd (ground (arith, m))
find_by-registered id_of (y ∷ xs) x h m =
    let e = h y (ground arith) in
    let tail =
      λ (k : contains xs x ≡ true). find_by-registered id_of xs x (λ z l. h z (ground arith)) k in
    elim (Bool-cases (y == x)) [
      | inl p ↦ ground (arith, e, p)
      | inr n ↦ ground (arith, e, n, tail (ground (arith, n, m)))
    ]

pub found_answer : (e : Error) (o : Option ℕ) {x : ℕ} → found_or e o ≡ answer x → o ≡ some x
found_answer e none h = cc
found_answer e (some y) h = cc

-- A result of a lookup is refused, or goes on.
pub with_found-cases :
    (P : Outcome → Type 0) (a : Agent) (x : Answer ℕ) (f : ℕ → Outcome)
    → ((e : Option Error) → P (a, refused e))
    → ((c : ℕ) → x ≡ answer c → P (f c))
    → P (with_found a x f)
unfolding with_found
with_found-cases P a (refused e) f h k = h e
with_found-cases P a (answer c) f h k = k c refl
