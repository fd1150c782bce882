-- ===== src/Tests/Laws.antt =====
-- The concrete buffer, time and sort have the laws that the theorems ask for.
use perfkit.Prelude.{
  ℕ, zero, suc, ◌+◌, ◌*◌, ◌/◌, ◌%◌, ◌<◌, ◌≡◌, refl, true, some, List, [], ◌∷◌, ◌++◌, length, leb,
  arith, Option-cases, inl, inr, if◌then◌else◌,
}
use perfkit.Wire.{Bytes, Reader, BufferLaws, TimeLaws, is_tag, Advances}
use perfkit.Tests.{words, clock, words_back, string_back, tag_back, word_back}
use perfkit.Client.Manifest.{Row}
use perfkit.Client.Manifest.Rows.{ascending, SortLaws}

words_back_all : (s rest : Bytes) → words_back (length s) (s ++ rest) ≡ some (s, rest)
words_back_all [] rest = refl
words_back_all (x ∷ s) rest = rw (words_back_all s rest) refl

words_back-length :
    (n : ℕ) (l s rest : Bytes) → words_back n l ≡ some (s, rest) → length rest + n ≡ length l
words_back-length zero l s rest h = ground arith
words_back-length (suc n) [] s rest h = ground arith
words_back-length (suc n) (x ∷ l) s rest h = elim (Option-cases (words_back n l)) [
  | inl e ↦ absurd (ground arith)
  | inr ((s', rest'), e) ↦ let ih = words_back-length n l s' rest' e in ground arith
]

word-Advances :
    (pos : ℕ) (l : Bytes) (s : Reader) (n : ℕ)
    → word_back (record { pos = pos; rest = l }) ≡ some (n, s)
    → Advances (record { pos = pos; rest = l }) s
word-Advances pos [] s n h = ground arith
word-Advances pos (x ∷ rest) s n h = ground arith

tag-Advances :
    (pos : ℕ) (l : Bytes) (s : Reader) (field tag : ℕ)
    → tag_back (record { pos = pos; rest = l }) ≡ some (field, tag, s)
    → Advances (record { pos = pos; rest = l }) s
tag-Advances pos [] s field tag h = ground arith
tag-Advances pos (x ∷ rest) s field tag h = ground arith

string-Advances :
    (pos : ℕ) (l : Bytes) (s : Reader) (t : Bytes)
    → string_back (record { pos = pos; rest = l }) ≡ some (t, s)
    → Advances (record { pos = pos; rest = l }) s
string-Advances pos [] s t h = ground arith
string-Advances pos (x ∷ rest) s t h = elim (Option-cases (words_back x rest)) [
  | inl e ↦ absurd (ground arith)
  | inr ((t', rest'), e) ↦ let ih = words_back-length x rest t' rest' e in ground arith
]

string_back_written :
    (s : Bytes) (pos : ℕ) (rest : Bytes)
    → string_back (record { pos = pos; rest = length s ∷ (s ++ rest) })
      ≡ some (s, record { pos = pos + suc (length s); rest = rest })
string_back_written s pos rest = let all = words_back_all s rest in ground arith

tag_back_written :
    (field tag pos : ℕ) (rest : Bytes)
    → is_tag tag ≡ true
    → tag_back (record { pos = pos; rest = (field * 8 + tag) ∷ rest })
      ≡ some (field, tag, record { pos = pos + 1; rest = rest })
tag_back_written field tag pos rest h =
    let small : tag < 8 = ground arith in
    let a : (field * 8 + tag) / 8 ≡ field = omega arith in
    let c : (field * 8 + tag) % 8 ≡ tag = omega arith in rw (a, c) refl

pub words-BufferLaws : BufferLaws words
words-BufferLaws = record {
  tag_back = λ field tag pos rest h k. tag_back_written field tag pos rest k;
  uint_back = λ n pos rest h. refl;
  uint64_back = λ n pos rest h. refl;
  int_back = λ n pos rest h. refl;
  int64_back = λ n pos rest h. refl;
  double_back = λ n pos rest h. refl;
  float_back = λ n pos rest h. refl;
  string_back = λ s pos rest h k. string_back_written s pos rest;
  data_layout = λ d h. refl;
  uint_advances = λ r s n h. word-Advances r.pos r.rest s n h;
  tag_advances = λ r s f t h. tag-Advances r.pos r.rest s f t h;
  string_advances = λ r s t h. string-Advances r.pos r.rest s t h;
}

pub clock-TimeLaws : TimeLaws clock
clock-TimeLaws = record {
  to_usec-from_usec = λ u h. omega arith;
  to_usec_bound = λ ts. omega arith;
  to_usec-add = λ u v h. omega arith;
  to_usec-subtract = λ u v h k. omega arith;
}

-- Insertion by the id.
abbrev insert_row : Row → List Row → List Row
insert_row x [] = x ∷ []
insert_row x (y ∷ rows) = if leb x.id y.id then x ∷ y ∷ rows else y ∷ insert_row x rows

abbrev pub sort_rows : List Row → List Row
sort_rows [] = []
sort_rows (x ∷ rows) = insert_row x (sort_rows rows)

sorted_rows : (rows : List Row) → ascending rows ≡ true → sort_rows rows ≡ rows
sorted_rows [] h = refl
sorted_rows (x ∷ []) h = refl
sorted_rows (x ∷ y ∷ rows) h = rw (sorted_rows (y ∷ rows) (ground arith)) (ground arith)

pub sort_rows-SortLaws : SortLaws sort_rows
sort_rows-SortLaws = record { sorted = sorted_rows }
