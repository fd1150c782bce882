-- ===== src/Client/Sample/Fields.antt =====
-- The fields that the agent appends to a sample, as the client reads them.
use perfkit.Prelude.{
  ℕ, zero, suc, ◌+◌, ◌^◌, ◌<◌, ◌≤◌, ◌≡◌, refl, sym, ◌∙◌, ap, true, false, some, List, [], ◌∷◌, ◌++◌,
  length, length-append, ltb, arith, ◌==◌,
}
use mathlib.Core.List.{append_assoc, append-nil}
use perfkit.Wire.{
  Bytes, Reader, Buffer, BufferLaws, tag_varint, tag_double, tag_bytes, tag_float, has_nul, is_tag,
  at, past,
}
use perfkit.Manifest.{
  g_type_int, g_type_uint, g_type_int64, g_type_uint64, g_type_double, g_type_float, g_type_string,
  g_type_invalid,
}
use perfkit.Sample
use perfkit.Client.Reading.{reader}
use perfkit.Client.Manifest.{Manifest, get_row_type}
use perfkit.Client.Sample.{
  Value, int_value, uint_value, int64_value, uint64_value, double_value, float_value, string_value,
  decode_value, decode_field, decode_fields,
}

abbrev pub value_type : Value → ℕ
value_type (int_value n) = g_type_int
value_type (uint_value n) = g_type_uint
value_type (int64_value n) = g_type_int64
value_type (uint64_value n) = g_type_uint64
value_type (double_value n) = g_type_double
value_type (float_value n) = g_type_float
value_type (string_value s) = g_type_string

abbrev value_tag : Value → ℕ
value_tag (int_value n) = tag_varint
value_tag (uint_value n) = tag_varint
value_tag (int64_value n) = tag_varint
value_tag (uint64_value n) = tag_varint
value_tag (double_value n) = tag_double
value_tag (float_value n) = tag_float
value_tag (string_value s) = tag_bytes

-- A number fits its width, and a string is a C string.
abbrev pub Fits : Value → Type 0
Fits (int_value n) = n < 2 ^ 32
Fits (uint_value n) = n < 2 ^ 32
Fits (int64_value n) = n < 2 ^ 64
Fits (uint64_value n) = n < 2 ^ 64
Fits (double_value n) = n < 2 ^ 64
Fits (float_value n) = n < 2 ^ 32
Fits (string_value s) = (length s < 2 ^ 32) × (has_nul s ≡ false)

-- A field that the manifest describes: the type of its row is that of the value.
pub record IsDescribed (m : Manifest) (field : ℕ) (v : Value) : Type 0 where
  pub field_fits : field < 2 ^ 29
  pub type_same : get_row_type m field ≡ value_type v
  pub value_fits : Fits v

abbrev pub AllDescribed : Manifest → List (ℕ × Value) → Type 0
AllDescribed m [] = Unit
AllDescribed m ((field, v) ∷ fields) = IsDescribed m field v × AllDescribed m fields

module _ (b : Buffer) where
  abbrev value_bytes : Value → Bytes
  value_bytes (int_value n) = b.write_int n
  value_bytes (uint_value n) = b.write_uint n
  value_bytes (int64_value n) = b.write_int64 n
  value_bytes (uint64_value n) = b.write_uint64 n
  value_bytes (double_value n) = b.write_double n
  value_bytes (float_value n) = b.write_float n
  value_bytes (string_value s) = b.write_string s

  -- The agent's function for a value.
  abbrev append_value : Sample.Sample → ℕ → Value → Sample.Sample
  append_value s field (int_value n) = Sample.append_int b s field n
  append_value s field (uint_value n) = Sample.append_uint b s field n
  append_value s field (int64_value n) = Sample.append_int64 b s field n
  append_value s field (uint64_value n) = Sample.append_uint64 b s field n
  append_value s field (double_value n) = Sample.append_double b s field n
  append_value s field (float_value n) = Sample.append_float b s field n
  append_value s field (string_value t) = Sample.append_string b s field t

  abbrev pub append_all : Sample.Sample → List (ℕ × Value) → Sample.Sample
  append_all s [] = s
  append_all s ((field, v) ∷ fields) = append_all (append_value s field v) fields

  abbrev field_bytes : ℕ → Value → Bytes
  field_bytes field v = b.write_tag field (value_tag v) ++ value_bytes v

  abbrev pub fields_bytes : List (ℕ × Value) → Bytes
  fields_bytes [] = []
  fields_bytes ((field, v) ∷ fields) = field_bytes field v ++ fields_bytes fields

  append_value_is :
      (s : Sample.Sample) (field : ℕ) (v : Value)
      → append_value s field v ≡ record s { buf = s.buf ++ field_bytes field v }
  unfolding Sample.append_int Sample.append_uint Sample.append_int64 Sample.append_uint64
      Sample.append_double Sample.append_float Sample.append_string
  append_value_is s field (int_value n) = refl
  append_value_is s field (uint_value n) = refl
  append_value_is s field (int64_value n) = refl
  append_value_is s field (uint64_value n) = refl
  append_value_is s field (double_value n) = refl
  append_value_is s field (float_value n) = refl
  append_value_is s field (string_value t) = refl

  pub append_all_is :
      (s : Sample.Sample) (fields : List (ℕ × Value))
      → append_all s fields ≡ record s { buf = s.buf ++ fields_bytes fields }
  append_all_is s [] = ap (λ l. record s { buf = l }) (sym (append-nil s.buf))
  append_all_is s ((field, v) ∷ fields) =
      ap (λ x. append_all x fields) (append_value_is s field v)
      ∙ append_all_is (record s { buf = s.buf ++ field_bytes field v }) fields
      ∙ ap (λ l. record s { buf = l })
          (append_assoc s.buf (field_bytes field v) (fields_bytes fields))

  value_back :
      BufferLaws b
      → (v : Value) (pos : ℕ) (rest : Bytes) → Fits v
      → decode_value b (value_tag v) (value_type v) (reader pos (value_bytes v ++ rest))
        ≡ some (v, reader (pos + length (value_bytes v)) rest)
  unfolding decode_value
  value_back laws (int_value n) pos rest h = rw (laws.int_back n pos rest h) refl
  value_back laws (uint_value n) pos rest h = rw (laws.uint_back n pos rest h) refl
  value_back laws (int64_value n) pos rest h = rw (laws.int64_back n pos rest h) refl
  value_back laws (uint64_value n) pos rest h = rw (laws.uint64_back n pos rest h) refl
  value_back laws (double_value n) pos rest h = rw (laws.double_back n pos rest h) refl
  value_back laws (float_value n) pos rest h = rw (laws.float_back n pos rest h) refl
  value_back laws (string_value s) pos rest (h, k) = rw (laws.string_back s pos rest h k) refl

  type_valid : (v : Value) → (value_type v == g_type_invalid) ≡ false
  type_valid (int_value n) = refl
  type_valid (uint_value n) = refl
  type_valid (int64_value n) = refl
  type_valid (uint64_value n) = refl
  type_valid (double_value n) = refl
  type_valid (float_value n) = refl
  type_valid (string_value s) = refl

  tag_valid : (v : Value) → is_tag (value_tag v) ≡ true
  tag_valid (int_value n) = refl
  tag_valid (uint_value n) = refl
  tag_valid (int64_value n) = refl
  tag_valid (uint64_value n) = refl
  tag_valid (double_value n) = refl
  tag_valid (float_value n) = refl
  tag_valid (string_value s) = refl

  field_back :
      BufferLaws b
      → (m : Manifest) (field : ℕ) (v : Value) (pos : ℕ) (rest : Bytes) → IsDescribed m field v
      → decode_field b m (reader pos (field_bytes field v ++ rest))
        ≡ some ((field, v), reader (pos + length (field_bytes field v)) rest)
  unfolding decode_field
  field_back laws m field v pos rest h =
      let tag = b.write_tag field (value_tag v) in
      rw
        (
          append_assoc tag (value_bytes v) rest,
          laws.tag_back field (value_tag v) pos (value_bytes v ++ rest) h.field_fits (tag_valid v),
          h.type_same,
          type_valid v,
          value_back laws v (pos + length tag) rest h.value_fits,
        )
        (ap (λ p. some ((field, v), reader p rest))
          (rw (length-append tag (value_bytes v)) (omega arith)))

  field_length :
      BufferLaws b
      → (m : Manifest) (field : ℕ) (v : Value) → IsDescribed m field v
      → 0 < length (field_bytes field v)
  field_length laws m field v h =
      let tag = b.write_tag field (value_tag v) in
      let (_, moved) =
        laws.tag_advances (at 0 tag []) (past 0 tag []) field (value_tag v)
          (laws.tag_back field (value_tag v) 0 [] h.field_fits (tag_valid v)) in
      rw (length-append tag (value_bytes v)) (omega arith)

  pub length-fields_bytes :
      BufferLaws b
      → (m : Manifest) (fields : List (ℕ × Value)) → AllDescribed m fields
      → length fields ≤ length (fields_bytes fields)
  length-fields_bytes laws m [] h = omega arith
  length-fields_bytes laws m ((field, v) ∷ fields) (h, hs) =
      let one = field_length laws m field v h in
      let more = length-fields_bytes laws m fields hs in
      rw (length-append (field_bytes field v) (fields_bytes fields)) (omega arith)

  decode_fields_step :
      (fuel total : ℕ) (m : Manifest) (r r' : Reader) (item : ℕ × Value) (items : List (ℕ × Value))
      → ltb r.pos total ≡ true
      → decode_field b m r ≡ some (item, r')
      → decode_fields b fuel total m r' ≡ some items
      → decode_fields b (suc fuel) total m r ≡ some (item ∷ items)
  unfolding decode_fields
  decode_fields_step fuel total m r r' item items h e k = ground arith

  pub decode_fields_back :
      BufferLaws b
      → (m : Manifest) (fuel total pos : ℕ) (fields : List (ℕ × Value)) → length fields ≤ fuel
      → total ≡ pos + length (fields_bytes fields)
      → AllDescribed m fields
      → decode_fields b fuel total m (reader pos (fields_bytes fields)) ≡ some fields
  unfolding decode_fields
  decode_fields_back laws m zero total pos [] f e h = ground arith
  decode_fields_back laws m (suc fuel) total pos [] f e h = ground arith
  decode_fields_back laws m zero total pos (x ∷ fields) f e h = absurd (omega arith)
  decode_fields_back laws m (suc fuel) total pos ((field, v) ∷ fields) f e (h, hs) =
      let here = field_bytes field v in
      let one = field_length laws m field v h in
      let split = length-append here (fields_bytes fields) in
      let rest =
        decode_fields_back laws m fuel total (pos + length here) fields (omega arith) (omega arith)
          hs in
      decode_fields_step fuel total m _ _ (field, v) fields (ground arith)
        (field_back laws m field v pos (fields_bytes fields) h) rest
