-- ===== src/Ring.antt =====
-- uber/g-ring.c: the ring buffer under the graphs. An element is one value, and the ring keeps the
-- elements that it has given to the destroy function, newest first. Lengths and positions are below
-- 2 ^ 31, so that the code's signed indexes do not overflow.
pub mod History
pub mod Several
pub mod Walk
use perfkit.Prelude.{
  ℕ, zero, suc, ◌+◌, ◌-◌, ◌%◌, Bool, true, false, ◌&&◌, Option, none, some, List, [], ◌∷◌, ◌++◌,
  ◌==◌, leb, if◌then◌else◌, length, get_elem?, set, replicate,
}

-- `struct _GRealRing`; `destroy` says whether there is a destroy function.
pub record Ring (A : Type 0) : Type 0 where
  pub values : List A
  pub len : ℕ
  pub pos : ℕ
  pub looped : Bool
  pub destroy : Bool
  pub destroyed : List A

-- The place of `pos - i`, counted from the end where it is negative; -1 - n is out of bounds.
unfoldable pub place : ℕ → ℕ → ℕ → Option ℕ
place len pos i =
    if leb i pos then some (pos - i) else if leb i (len + pos) then some (len + pos - i) else none

-- The index that `g_ring_get_index` computes.
abbrev pub slot : ℕ → ℕ → ℕ → ℕ
slot len pos i = if leb (i + 1) pos then pos - 1 - i else len + pos - 1 - i

module _ {A : Type 0} where
  -- `g_ring_sized_new`: the elements are zeroed.
  unfoldable pub sized_new : A → ℕ → Bool → Ring A
  sized_new zeroed size destroy = record {
    values = replicate size zeroed;
    len = size;
    pos = 0;
    looped = false;
    destroy = destroy;
    destroyed = [];
  }

  -- One round of the loop of `g_ring_append_vals`, at the index `i`; `none` writes out of bounds.
  unfoldable pub append_round : ℕ → A → Ring A → Option (Ring A)
  unfolding place
  append_round i v r = elim (place r.len r.pos i) [
    | none ↦ none
    | some x ↦ elim (get_elem? r.values x) [
      | none ↦ none
      | some old ↦ some (record r {
        values = set r.values x v;
        pos = (r.pos + 1) % r.len;
        looped = if leb r.len (r.pos + 1) then true else r.looped;
        destroyed = if r.destroy && r.looped then old ∷ r.destroyed else r.destroyed;
      })
    ]
  ]

  unfoldable pub append_from : ℕ → List A → Ring A → Option (Ring A)
  unfolding append_round
  append_from i [] r = some r
  append_from i (v ∷ vs) r = elim (append_round i v r) [
    | none ↦ none
    | some r' ↦ append_from (i + 1) vs r'
  ]

  unfoldable pub append_vals : List A → Ring A → Option (Ring A)
  unfolding append_from
  append_vals vs r = append_from 0 vs r

  -- `g_ring_append_val`
  unfoldable pub append_val : A → Ring A → Option (Ring A)
  unfolding append_vals
  append_val v r = append_vals (v ∷ []) r

  -- `g_ring_get_index`
  unfoldable pub get_index : Ring A → ℕ → Option A
  get_index r i = get_elem? r.values (slot r.len r.pos i)

  -- `n` elements, from the index `i + n - 1` down to `i`.
  unfoldable pub downward : List A → ℕ → ℕ → List (Option A)
  downward l i zero = []
  downward l i (suc n) = get_elem? l (i + n) ∷ downward l i n

  -- The elements that `g_ring_foreach` visits. At the position 0 the second loop compares with an
  -- unsigned 0 and leaves the array: `none`.
  unfoldable pub foreach : Ring A → Option (List (Option A))
  unfolding downward
  foreach r =
      if r.pos == 0
      then none
      else some (downward r.values 0 r.pos ++ downward r.values r.pos (r.len - r.pos))
