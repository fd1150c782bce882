-- ===== src/Client/Reading.antt =====
-- Reading from a buffer in steps, the first of which that fails ends the rest; and what a reader
-- finds where the agent has written.
use perfkit.Prelude.{
  ◌>>=◌, ℕ, ◌+◌, ◌^◌, ◌<◌, ◌≡◌, refl, true, ◌&&◌, Option, none, some, ◌++◌, ◌==◌, if◌then◌else◌,
  length, arith,
}
use mathlib.Core.List.{append_assoc}
use perfkit.Wire.{Bytes, Reader, Buffer, BufferLaws, is_tag, Advances}

-- The reader at a position, in front of some bytes.
abbrev pub reader : ℕ → Bytes → Reader
reader pos rest = record { pos = pos; rest = rest }

abbrev expected : ℕ → ℕ → ℕ × ℕ × Reader → Option Reader
expected field tag (f, t, r) = if f == field && t == tag then some r else none

-- The next tag must be this one.
unfoldable pub expect : Buffer → ℕ → ℕ → Reader → Option Reader
expect b field tag r = b.read_tag r >>= expected field tag

module _ (b : Buffer) (laws : BufferLaws b) where
  pub expect_back :
      (field tag pos : ℕ) (rest : Bytes)
      → field < 2 ^ 29
      → is_tag tag ≡ true
      → expect b field tag (reader pos (b.write_tag field tag ++ rest))
        ≡ some (reader (pos + length (b.write_tag field tag)) rest)
  unfolding expect
  expect_back field tag pos rest h k = rw (laws.tag_back field tag pos rest h k) (ground arith)

  -- The same inside a longer piece.
  pub expect_in :
      (field tag pos : ℕ) (piece rest : Bytes)
      → field < 2 ^ 29
      → is_tag tag ≡ true
      → expect b field tag (reader pos ((b.write_tag field tag ++ piece) ++ rest))
        ≡ some (reader (pos + length (b.write_tag field tag)) (piece ++ rest))
  expect_in field tag pos piece rest h k =
      rw (append_assoc (b.write_tag field tag) piece rest)
        (expect_back field tag pos (piece ++ rest) h k)

  pub uint_in :
      (n pos : ℕ) (piece rest : Bytes)
      → n < 2 ^ 32
      → b.read_uint (reader pos ((b.write_uint n ++ piece) ++ rest))
        ≡ some (n, reader (pos + length (b.write_uint n)) (piece ++ rest))
  uint_in n pos piece rest h =
      rw (append_assoc (b.write_uint n) piece rest) (laws.uint_back n pos (piece ++ rest) h)

  pub uint64_in :
      (n pos : ℕ) (piece rest : Bytes)
      → n < 2 ^ 64
      → b.read_uint64 (reader pos ((b.write_uint64 n ++ piece) ++ rest))
        ≡ some (n, reader (pos + length (b.write_uint64 n)) (piece ++ rest))
  uint64_in n pos piece rest h =
      rw (append_assoc (b.write_uint64 n) piece rest) (laws.uint64_back n pos (piece ++ rest) h)

-- A step that succeeds before a rest that succeeds.
pub >>=-eq-some {ℓ κ} :
    {A : Type ℓ} {B : Type κ} (m : Option A) (f : A → Option B) {v : B}
    → (m >>= f) ≡ some v
    → (a : A) × (m ≡ some a) × (f a ≡ some v)
>>=-eq-some none f h = cc
>>=-eq-some (some a) f h = (a, refl, h)

expected_reader :
    (field tag : ℕ) (x : ℕ × ℕ × Reader) (s : Reader) → expected field tag x ≡ some s → x.2 ≡ s
expected_reader field tag (f, t, r) s h = ground arith

pub expect-Advances :
    (b : Buffer)
    → BufferLaws b
    → (field tag : ℕ) (r s : Reader) → expect b field tag r ≡ some s
    → Advances r s
unfolding expect
expect-Advances b laws field tag r s h =
    let ((f, t, u), e, k) = >>=-eq-some (b.read_tag r) (expected field tag) h in
    let same : u ≡ s = expected_reader field tag (f, t, u) s k in
    let moved : Advances r u = laws.tag_advances r u f t e in rw (← same) moved
