-- ===== src/Ring/Several.antt =====
-- Several values appended by one call.
use perfkit.Prelude.{
  ℕ, zero, suc, ◌+◌, ◌-◌, ◌%◌, ◌<◌, ◌≤◌, ◌≡◌, refl, sym, ◌∙◌, ap, ◌⊎◌, inl, inr, true, ◌&&◌, Option,
  none, some, List, [], ◌∷◌, leb, ltb, if◌then◌else◌, length, set, arith, length-set, Bool-cases,
}
use native.Mathlib.Nat.{mod-eq_of_lt, mod-eq-sub-mod, mod-add-mod}
use perfkit.Ring.{Ring, place, append_round, append_from, append_vals}
use perfkit.Ring.History.{elem_inside}

split_wrap : (n len : ℕ) → (n < len) ⊎ (len ≤ n)
split_wrap n len = elim (Bool-cases (ltb n len)) [
  | inl y ↦ inl (ground arith)
  | inr n ↦ inr (ground arith)
]

-- The `i`-th round steps back by as many places as the rounds before have gone on.
place_same : (len p i : ℕ) → p < len → i < len → place len ((p + i) % len) i ≡ some p
unfolding place
place_same len p i h k = elim (split_wrap (p + i) len) [
  | inl lt ↦ rw (mod-eq_of_lt lt) (ground arith)
  | inr le ↦
      let low : p + i - len < len = omega arith in
      rw (mod-eq-sub-mod le, mod-eq_of_lt low) (ground arith)
]

module _ {A : Type 0} where
  set-set : (l : List A) (i : ℕ) (a c : A) → set (set l i a) i c ≡ set l i c
  set-set [] i a c = refl
  set-set (x ∷ l) zero a c = refl
  set-set (x ∷ l) (suc i) a c = ap (λ t. x ∷ t) (set-set l i a c)

  abbrev pub last_of : A → List A → A
  last_of v [] = v
  last_of v (x ∷ vs) = last_of x vs

  append_round_is :
      (i p : ℕ) (v : A) (r : Ring A)
      → r.pos ≡ (p + i) % r.len
      → p < r.len
      → i < r.len
      → length r.values ≡ r.len
      → (after : Ring A) × ((append_round i v r ≡ some after)
          × ((after.values ≡ set r.values p v)
              × ((after.pos ≡ (p + (i + 1)) % r.len) × (after.len ≡ r.len))))
  unfolding append_round
  append_round_is i p v r e h k size =
      let (old, eo) = elem_inside r.values p (rw size h) in
      let here : place r.len r.pos i ≡ some p = rw e (place_same r.len p i h k) in
      let after : Ring A = record r {
        values = set r.values p v;
        pos = (r.pos + 1) % r.len;
        looped = if leb r.len (r.pos + 1) then true else r.looped;
        destroyed = if r.destroy && r.looped then old ∷ r.destroyed else r.destroyed;
      } in
      (
        after,
        (
          ground arith,
          (
            refl,
            (
              ap (λ n. (n + 1) % r.len) e
                  ∙ mod-add-mod (p + i) r.len 1
                  ∙ ap (λ n. n % r.len) (omega arith),
              refl,
            ),
          ),
        ),
      )

  append_from_next :
      (i : ℕ) (v : A) (vs : List A) (r r' : Ring A)
      → append_round i v r ≡ some r'
      → append_from i (v ∷ vs) r ≡ append_from (i + 1) vs r'
  unfolding append_from
  append_from_next i v vs r r' e =
      ap (λ (o : Option (Ring A)). elim o [ none ↦ none | some x ↦ append_from (i + 1) vs x ]) e

  append_from_one :
      (i p : ℕ) (v : A) (vs : List A) (r : Ring A)
      → r.pos ≡ (p + i) % r.len
      → p < r.len
      → i + length (v ∷ vs) ≤ r.len
      → length r.values ≡ r.len
      → (after : Ring A) × ((append_from i (v ∷ vs) r ≡ some after)
          × ((after.values ≡ set r.values p (last_of v vs))
              × (after.pos ≡ (p + (i + length (v ∷ vs))) % r.len)))
  unfolding append_from
  append_from_one i p v [] r e h k size =
      let (after, (done, (values, (pos, len)))) = append_round_is i p v r e h (omega arith) size in
      (after, (append_from_next i v [] r after done, (values, pos)))
  append_from_one i p v (x ∷ vs) r e h k size =
      let (next, (done, (values, (pos, len)))) = append_round_is i p v r e h (omega arith) size in
      let size' : length next.values ≡ next.len =
        ap length values ∙ length-set r.values p v ∙ size ∙ sym len in
      let (after, (rest, (values', pos'))) =
        append_from_one (i + 1) p x vs next (pos ∙ ap (λ n. (p + (i + 1)) % n) (sym len))
          (omega arith) (omega arith) size' in
      (
        after,
        (
          append_from_next i v (x ∷ vs) r next done ∙ rest,
          (
            values' ∙ ap (λ l. set l p (last_of x vs)) values ∙ set-set r.values p v (last_of x vs),
            pos'
                ∙ ap (λ n. (p + ((i + 1) + length (x ∷ vs))) % n) len
                ∙ ap (λ n. n % r.len) (omega arith),
          ),
        ),
      )

  -- The values `v ∷ vs`, no more than a ring has room for, are appended by one call. This succeeds,
  -- but every one is written to the same place, the ring's position, so that only the last is kept;
  -- the position still goes on by their number.
  pub append_vals_one_place :
      (v : A) (vs : List A) (r : Ring A)
      → length r.values ≡ r.len
      → r.pos < r.len
      → length (v ∷ vs) ≤ r.len
      → (after : Ring A) × ((append_vals (v ∷ vs) r ≡ some after)
          × ((after.values ≡ set r.values r.pos (last_of v vs))
              × (after.pos ≡ (r.pos + length (v ∷ vs)) % r.len)))
  unfolding append_vals
  append_vals_one_place v vs r size h k =
      let start : r.pos ≡ (r.pos + 0) % r.len =
        sym (mod-eq_of_lt h) ∙ ap (λ n. n % r.len) (omega arith) in
      let (after, (done, (values, pos))) =
        append_from_one 0 r.pos v vs r start h (omega arith) size in
      (after, (done, (values, pos ∙ ap (λ n. (r.pos + n) % r.len) (omega arith))))
