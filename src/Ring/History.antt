-- ===== src/Ring/History.antt =====
-- A ring to which single values are appended, and the history that they make.
use perfkit.Prelude.{
  ℕ, zero, suc, ◌+◌, ◌%◌, ◌<◌, ◌≡◌, ◌≢◌, refl, ◌∙◌, ap, ◌⊎◌, inl, inr, Bool, true, ◌&&◌, Option,
  none, some, List, [], ◌∷◌, leb, if◌then◌else◌, length, get_elem?, set, replicate, arith,
  length-set, get_elem?-set_self, get_elem?-set_ne, Bool-cases, ltb,
}
use native.Mathlib.Nat.{mod-eq_of_lt, mod_self, mod-lt}
use perfkit.Ring.{
  Ring, slot, sized_new, place, append_round, append_from, append_vals, append_val, get_index,
}

split_next : (p len : ℕ) → p < len → (p + 1 < len) ⊎ (p + 1 ≡ len)
split_next p len h = elim (Bool-cases (ltb (p + 1) len)) [
  | inl y ↦ inl (ground arith)
  | inr n ↦ inr (ground arith)
]

-- The position after `p` is the next one, or the start behind the last one.
pub next_pos :
    (p len : ℕ)
    → p < len
    → (((p + 1) % len ≡ p + 1) × (p + 1 < len)) ⊎ (((p + 1) % len ≡ 0) × (p + 1 ≡ len))
next_pos p len h = elim (split_next p len h) [
  | inl lt ↦ inl (mod-eq_of_lt lt, lt)
  | inr e ↦ inr (rw e (mod_self len), e)
]

-- The index 0 is the place that was written last; the others are the places before, one further.
slot_first : (len pos : ℕ) → pos < len → slot len ((pos + 1) % len) 0 ≡ pos
slot_first len pos h = elim (next_pos pos len h) [
  | inl (e, f) ↦ rw e (ground arith)
  | inr (e, f) ↦ rw e (ground arith)
]

slot_later :
    (len pos j : ℕ)
    → pos < len
    → suc j < len
    → (slot len ((pos + 1) % len) (suc j) ≡ slot len pos j) × (pos ≢ slot len pos j)
slot_later len pos j h lt = elim (next_pos pos len h) [
  | inl (e, f) ↦ (rw e (ground arith), λ same. ground arith)
  | inr (e, f) ↦ (rw e (ground arith), λ same. ground arith)
]

module _ {A : Type 0} where
  -- The last values of a history, newest first, are found by their indexes, as far as they fit.
  pub record Holds (history : List A) (r : Ring A) : Type 0 where
    pub size : length r.values ≡ r.len
    pub inside : r.pos < r.len
    pub found : (i : ℕ) → i < r.len → i < length history → get_index r i ≡ get_elem? history i

  pub record Kept (history : List A) (v : A) (r : Ring A) : Type 0 where
    pub after : Ring A
    pub appended : append_val v r ≡ some after
    pub holds : Holds (v ∷ history) after
    pub same_len : after.len ≡ r.len

  pub elem_inside : (l : List A) (i : ℕ) → i < length l → (a : A) × (get_elem? l i ≡ some a)
  elem_inside [] i h = absurd (omega arith)
  elem_inside (x ∷ l) zero h = (x, refl)
  elem_inside (x ∷ l) (suc i) h = elem_inside l i (omega arith)

  -- The state after one value, where the place that is written had `old`.
  abbrev written : A → A → Ring A → Ring A
  written v old r = record r {
    values = set r.values r.pos v;
    pos = (r.pos + 1) % r.len;
    looped = if leb r.len (r.pos + 1) then true else r.looped;
    destroyed = if r.destroy && r.looped then old ∷ r.destroyed else r.destroyed;
  }

  append_val_is :
      (v old : A) (r : Ring A)
      → get_elem? r.values r.pos ≡ some old
      → append_val v r ≡ some (written v old r)
  unfolding append_val append_vals append_from append_round place
  append_val_is v old r e = ground arith

  written_found :
      (history : List A) (v old : A) (r : Ring A)
      → Holds history r
      → (i : ℕ) → i < r.len
      → i < suc (length history)
      → get_index (written v old r) i ≡ get_elem? (v ∷ history) i
  unfolding get_index
  written_found history v old r h zero lt lh =
      let first = slot_first r.len r.pos h.inside in
      ap (get_elem? (set r.values r.pos v)) first
      ∙ get_elem?-set_self r.values r.pos v (rw (h.size) (h.inside))
  written_found history v old r h (suc j) lt lh =
      let (later, apart) = slot_later r.len r.pos j h.inside lt in
      ap (get_elem? (set r.values r.pos v)) later
      ∙ get_elem?-set_ne r.values v apart
      ∙ h.found j (omega arith) (omega arith)

  -- A value is appended to a ring that holds a history. This succeeds, and the ring holds the
  -- history with the value in front: as many of the last values as the ring has room for are found
  -- by `g_ring_get_index`, the newest under 0.
  pub append_val-Kept : (history : List A) (v : A) (r : Ring A) → Holds history r → Kept history v r
  append_val-Kept history v r h =
      let (old, e) = elem_inside r.values r.pos (rw (h.size) (h.inside)) in
      record {
        after = written v old r;
        appended = append_val_is v old r e;
        holds = record {
          size = length-set r.values r.pos v ∙ h.size;
          inside = mod-lt (r.pos + 1) (omega arith);
          found = written_found history v old r h;
        };
        same_len = refl;
      }

  get_elem?-past : (l : List A) (i : ℕ) → length l ≡ 0 → get_elem? l i ≡ none
  get_elem?-past [] i h = refl
  get_elem?-past (x ∷ l) i h = absurd (omega arith)

  length-replicate : (n : ℕ) (a : A) → length (replicate n a) ≡ n
  length-replicate zero a = refl
  length-replicate (suc n) a = ap suc (length-replicate n a)

  sized_new-Holds :
      (zeroed : A) (size : ℕ) (destroy : Bool) → 0 < size → Holds [] (sized_new zeroed size destroy)
  unfolding sized_new
  sized_new-Holds zeroed size destroy h = record {
    size = length-replicate size zeroed;
    inside = h;
    found = λ i lt lh. absurd (omega arith);
  }

  -- Values appended one after the other, and the history that they make.
  abbrev pub append_each : List A → Ring A → Option (Ring A)
  append_each [] r = some r
  append_each (v ∷ vs) r = elim (append_val v r) [ none ↦ none | some r' ↦ append_each vs r' ]

  append_each_next :
      (v : A) (vs : List A) (r r' : Ring A)
      → append_val v r ≡ some r'
      → append_each (v ∷ vs) r ≡ append_each vs r'
  append_each_next v vs r r' e =
      ap (λ (o : Option (Ring A)). elim o [ none ↦ none | some x ↦ append_each vs x ]) e

  abbrev pub newest_first : List A → List A → List A
  newest_first history [] = history
  newest_first history (v ∷ vs) = newest_first (v ∷ history) vs

  append_each-Holds :
      (history vs : List A) (r : Ring A)
      → Holds history r
      → (after : Ring A) × ((append_each vs r ≡ some after)
          × (Holds (newest_first history vs) after × (after.len ≡ r.len)))
  append_each-Holds history [] r h = (r, (refl, (h, refl)))
  append_each-Holds history (v ∷ vs) r h =
      let kept = append_val-Kept history v r h in
      let (after, (e, (holds, same))) = append_each-Holds (v ∷ history) vs kept.after kept.holds in
      (after, (append_each_next v vs r kept.after kept.appended ∙ e, (holds, same ∙ kept.same_len)))

  -- The values `vs` are appended one after the other to a new ring with room for `size` values,
  -- which is not 0. This succeeds, and then the index `i` below `size` finds the `i`-th newest
  -- value, if there is one.
  pub ring_history :
      (zeroed : A) (size : ℕ) (destroy : Bool) (vs : List A)
      → 0 < size
      → (after : Ring A) × ((append_each vs (sized_new zeroed size destroy) ≡ some after)
          × ((i : ℕ)
              → i < size
              → i < length (newest_first [] vs)
              → get_index after i ≡ get_elem? (newest_first [] vs) i))
  unfolding sized_new
  ring_history zeroed size destroy vs h =
      let (after, (e, (holds, same))) =
        append_each-Holds [] vs (sized_new zeroed size destroy)
          (sized_new-Holds zeroed size destroy h) in
      (after, (e, λ i lt lh. holds.found i (rw same lt) lh))
