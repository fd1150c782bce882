-- ===== src/Tests/Rings.antt =====
-- The theorems on rings, at concrete rings.
use perfkit.Prelude.{
  Option, zero, suc, List, ℕ, ◌<◌, ◌≡◌, refl, true, false, some, [], ◌∷◌, length, get_elem?, arith,
}
use perfkit.Ring.{foreach, Ring, sized_new, append_vals, get_index}
use perfkit.Ring.Walk.{foreach_newest_first}
use perfkit.Ring.History.{Holds, append_each, newest_first, ring_history}
use perfkit.Ring.Several.{append_vals_one_place}

abbrev four : List ℕ
four = 4 ∷ 5 ∷ 6 ∷ 7 ∷ []

ring_history_example :
    (after : Ring ℕ) × ((append_each four (sized_new 0 3 true) ≡ some after)
      × ((i : ℕ)
          → i < 3
          → i < length (newest_first [] four)
          → get_index after i ≡ get_elem? (7 ∷ 6 ∷ 5 ∷ 4 ∷ []) i))
ring_history_example = ring_history 0 3 true four (ground arith)

abbrev ring : Ring ℕ
ring = record {
  values = 1 ∷ 2 ∷ 3 ∷ [];
  len = 3;
  pos = 2;
  looped = true;
  destroy = false;
  destroyed = [];
}

append_vals_one_place_example :
    (after : Ring ℕ) × ((append_vals (8 ∷ 9 ∷ []) ring ≡ some after)
      × ((after.values ≡ 1 ∷ 2 ∷ 9 ∷ []) × (after.pos ≡ 1)))
append_vals_one_place_example =
    append_vals_one_place 8 (9 ∷ []) ring refl (ground arith) (ground arith)

ring_found : (i : ℕ) → i < 3 → i < 3 → get_index ring i ≡ get_elem? (2 ∷ 1 ∷ 3 ∷ []) i
unfolding get_index
ring_found zero lt lh = refl
ring_found (suc zero) lt lh = refl
ring_found (suc (suc zero)) lt lh = refl
ring_found (suc (suc (suc i))) lt lh = absurd (omega arith)

ring-Holds : Holds (2 ∷ 1 ∷ 3 ∷ []) ring
ring-Holds = record { size = refl; inside = ground arith; found = ring_found }

foreach_newest_first_example :
    (visits : List (Option ℕ)) × ((foreach ring ≡ some visits)
      × ((length visits ≡ 3)
          × ((k : ℕ) → k < 3 → get_elem? visits k ≡ some (get_elem? (2 ∷ 1 ∷ 3 ∷ []) k))))
foreach_newest_first_example =
    foreach_newest_first (2 ∷ 1 ∷ 3 ∷ []) ring ring-Holds (ground arith) (ground arith)
