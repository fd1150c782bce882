-- ===== src/Bus/Decimal.antt =====
-- A printed number is scanned back.
use perfkit.Prelude.{
  ℕ, zero, suc, ◌+◌, ◌-◌, ◌*◌, ◌/◌, ◌%◌, ◌<◌, ◌≡◌, refl, ◌∙◌, ap, inl, inr, Bool, true, ◌&&◌, some,
  [], ◌∷◌, ◌++◌, ltb, arith, Bool-cases, not,
}
use perfkit.Wire.{Bytes}
use perfkit.Bus.{digits, print_int, is_digit, scan_digits, scan_int, scan_word, scan_run, is_space}

-- One digit behind digits.
abbrev all_digits : Bytes → Bool
all_digits [] = true
all_digits (c ∷ s) = is_digit c && all_digits s

scan_digits-append :
    (acc d : ℕ) (s : Bytes)
    → all_digits s ≡ true
    → d < 10
    → scan_digits acc (s ++ ((48 + d) ∷ [])) ≡ scan_digits acc s * 10 + d
scan_digits-append acc d [] h l = ground arith
scan_digits-append acc d (c ∷ s) h l =
    ground (arith, scan_digits-append (acc * 10 + (c - 48)) d s (ground arith) l)

all_digits-append :
    (d : ℕ) (s : Bytes) → all_digits s ≡ true → d < 10 → all_digits (s ++ ((48 + d) ∷ [])) ≡ true
all_digits-append d [] h l = ground arith
all_digits-append d (c ∷ s) h l = ground (arith, all_digits-append d s (ground arith) l)

digits_are : (fuel n : ℕ) → all_digits (digits fuel n) ≡ true
digits_are zero n = refl
digits_are (suc fuel) n = elim (Bool-cases (ltb n 10)) [
  | inl small ↦ ground (arith, small)
  | inr large ↦
      rw large
        (all_digits-append (n % 10) (digits fuel (n / 10)) (digits_are fuel (n / 10)) (omega arith))
]

-- Enough fuel prints all of the number.
scan_digits-digits : (fuel n : ℕ) → n < fuel → scan_digits 0 (digits fuel n) ≡ n
scan_digits-digits zero n h = elim h [ ]
scan_digits-digits (suc fuel) n h = elim (Bool-cases (ltb n 10)) [
  | inl small ↦ ground (arith, small)
  | inr large ↦
      let big : 9 < n = ground (arith, large) in
      let less : n / 10 < fuel = omega (arith, big) in
      rw large (
        scan_digits-append 0 (n % 10) (digits fuel (n / 10)) (digits_are fuel (n / 10))
          (omega arith)
        ∙ omega (arith, scan_digits-digits fuel (n / 10) less))
]

scan_int_digits :
    (s : Bytes) (n : ℕ) → all_digits s ≡ true → (s ≡ [] → ⊥) → scan_int s ≡ some (scan_digits 0 s)
scan_int_digits [] n h k = absurd (k refl)
scan_int_digits (c ∷ s) n h k = ground arith

digits_not_empty : (fuel n : ℕ) → digits (suc fuel) n ≡ [] → ⊥
digits_not_empty fuel n e = elim (Bool-cases (ltb n 10)) [
  | inl small ↦ ground (arith, small, e)
  | inr large ↦ not_empty (digits fuel (n / 10)) (48 + n % 10) (rw large at e)
]
  where
    not_empty : (s : Bytes) (c : ℕ) → s ++ (c ∷ []) ≡ [] → ⊥
    not_empty [] c h = cc
    not_empty (x ∷ s) c h = cc

pub scan_int-print_int : (n : ℕ) → scan_int (print_int n) ≡ some n
scan_int-print_int n =
    scan_int_digits (print_int n) n (digits_are (suc n) n) (digits_not_empty n n)
    ∙ ap some (scan_digits-digits (suc n) n (omega arith))

-- A word without spaces is scanned back whole.
abbrev pub is_word : Bytes → Bool
is_word [] = true
is_word (c ∷ s) = not (is_space c) && is_word s

scan_run_word : (s : Bytes) → is_word s ≡ true → scan_run s ≡ s
scan_run_word [] h = refl
scan_run_word (c ∷ s) h = ground (arith, scan_run_word s (ground arith))

pub scan_word_word : (c : ℕ) (s : Bytes) → is_word (c ∷ s) ≡ true → scan_word (c ∷ s) ≡ some (c ∷ s)
scan_word_word c s h = ground (arith, scan_run_word s (ground arith))
