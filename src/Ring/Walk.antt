-- ===== src/Ring/Walk.antt =====
-- The walk over a ring.
use perfkit.Prelude.{
  ℕ, zero, suc, ◌+◌, ◌-◌, ◌<◌, ◌≤◌, ◌≡◌, refl, ◌∙◌, ap, inl, inr, Option, some, List, [], ◌∷◌, ◌++◌,
  ltb, length, get_elem?, arith, Bool-cases, length-append, if◌then◌else◌,
}
use perfkit.Ring.{Ring, slot, downward, foreach, get_index}
use perfkit.Ring.History.{Holds}

module _ {A : Type 0} where
  length-downward : (l : List A) (i n : ℕ) → length (downward l i n) ≡ n
  unfolding downward
  length-downward l i zero = refl
  length-downward l i (suc n) = ap suc (length-downward l i n)

  downward_at :
      (l : List A) (i n k : ℕ)
      → k < n
      → get_elem? (downward l i n) k ≡ some (get_elem? l (i + n - 1 - k))
  unfolding downward
  downward_at l i zero k h = absurd (omega arith)
  downward_at l i (suc n) zero h = ap (λ m. some (get_elem? l m)) (omega arith)
  downward_at l i (suc n) (suc k) h =
      downward_at l i n k (omega arith) ∙ ap (λ m. some (get_elem? l m)) (omega arith)

  append_at :
      (xs ys : List (Option A)) (k : ℕ)
      → get_elem? (xs ++ ys) k
        ≡ (if ltb k (length xs) then get_elem? xs k else get_elem? ys (k - length xs))
  append_at [] ys k = ground arith
  append_at (x ∷ xs) ys zero = ground arith
  append_at (x ∷ xs) ys (suc k) = ground (arith, append_at xs ys k)

  found_index :
      (history : List A) (r : Ring A)
      → Holds history r
      → (k : ℕ) → k < r.len
      → k < length history
      → get_elem? r.values (slot r.len r.pos k) ≡ get_elem? history k
  unfolding get_index
  found_index history r h k lt lh = h.found k lt lh

  -- A ring holds a history that fills it, and its position is not 0. Then the walk visits as many
  -- elements as the ring has room for, from the newest of the history to the oldest.
  pub foreach_newest_first :
      (history : List A) (r : Ring A)
      → Holds history r
      → r.len ≤ length history
      → 0 < r.pos
      → (visits : List (Option A)) × ((foreach r ≡ some visits)
          × ((length visits ≡ r.len)
              × ((k : ℕ) → k < r.len → get_elem? visits k ≡ some (get_elem? history k))))
  unfolding foreach
  foreach_newest_first history r h full moved =
      let first = downward r.values 0 r.pos in
      let second = downward r.values r.pos (r.len - r.pos) in
      let inside = h.inside in
      let count = length-downward r.values 0 r.pos in
      let count' = length-downward r.values r.pos (r.len - r.pos) in
      let visits = first ++ second in
      let at_slot : (k : ℕ)
          → k < r.len
          → get_elem? visits k ≡ some (get_elem? r.values (slot r.len r.pos k)) =
        λ k lt. append_at first second k ∙ elim (Bool-cases (ltb k r.pos)) [
          | inl y ↦
              rw (count, y)
                (downward_at r.values 0 r.pos k (ground arith)
                  ∙ ap (λ m. some (get_elem? r.values m)) (ground arith))
          | inr n ↦
              rw (count, n)
                (downward_at r.values r.pos (r.len - r.pos) (k - r.pos) (ground arith)
                  ∙ ap (λ m. some (get_elem? r.values m)) (ground arith))
        ] in
      let found_at : (k : ℕ)
          → k < r.len
          → get_elem? r.values (slot r.len r.pos k) ≡ get_elem? history k =
        λ k lt. found_index history r h k lt (omega arith) in
      (
        visits,
        (
          ground arith,
          (
            ground (arith, length-append first second),
            λ k lt. at_slot k lt ∙ ap some (found_at k lt),
          ),
        ),
      )
