-- ===== src/Client/Manifest/Fuel.antt =====
-- The fuel of the row loop, on any bytes.
use perfkit.Prelude.{
  ℕ, zero, suc, ◌<◌, ◌≤◌, ◌≡◌, sym, ◌∙◌, ap, ◌⊎◌, inl, inr, true, false, none, some, List, [], ◌∷◌,
  ◌++◌, length, ltb, arith, Bool-cases, Option-cases,
}
use perfkit.Wire.{Reader, Buffer, BufferLaws}
use perfkit.Client.Reading.{>>=-eq-some, expect-Advances}
use perfkit.Client.Manifest.{Row, decode_row, decode_rows}
use perfkit.Client.Manifest.Loop.{decode_rows_end, decode_rows_step}

module _ (b : Buffer) (laws : BufferLaws b) (sort : List Row → List Row) where
  decode_row-shorter :
      (r s : Reader) (row : Row)
      → decode_row b sort r ≡ some (row, s)
      → length s.rest < length r.rest
  unfolding decode_row
  decode_row-shorter r s row h =
      let ((len, r1), e1, h1) = >>=-eq-some (b.read_uint r) _ h in
      let (r2, e2, h2) = >>=-eq-some _ _ h1 in
      let ((id, r3), e3, h3) = >>=-eq-some _ _ h2 in
      let (r4, e4, h4) = >>=-eq-some _ _ h3 in
      let ((type, r5), e5, h5) = >>=-eq-some _ _ h4 in
      let (r6, e6, h6) = >>=-eq-some _ _ h5 in
      let ((name, r7), e7, h7) = >>=-eq-some _ _ h6 in
      let (a1, m1) = laws.uint_advances r r1 len e1 in
      let (a2, m2) = expect-Advances b laws 1 0 r1 r2 e2 in
      let (a3, m3) = laws.uint_advances r2 r3 id e3 in
      let (a4, m4) = expect-Advances b laws 2 0 r3 r4 e4 in
      let (a5, m5) = laws.uint_advances r4 r5 type e5 in
      let (a6, m6) = expect-Advances b laws 3 2 r5 r6 e6 in
      let (a7, m7) = laws.string_advances r6 r7 name e7 in
      let same : r7 ≡ s = ap (λ o. elim o [ none ↦ r7 | some x ↦ x.1 ]) h7 in
      let shorter : length r7.rest < length r.rest = omega arith in rw (← same) shorter

  decode_rows_fail :
      (fuel end : ℕ) (rows : List Row) (r : Reader)
      → ltb r.pos end ≡ true
      → decode_row b sort r ≡ none
      → decode_rows b sort fuel end rows r ≡ none
  unfolding decode_rows
  decode_rows_fail zero end rows r h e = ground arith
  decode_rows_fail (suc fuel) end rows r h e = ground arith

  -- At a read that ends the loop, the fuel does not matter.
  decode_rows_stop :
      (fuel fuel' end : ℕ) (rows : List Row) (r : Reader)
      → (ltb r.pos end ≡ false) ⊎ ((ltb r.pos end ≡ true) × (decode_row b sort r ≡ none))
      → decode_rows b sort fuel end rows r ≡ decode_rows b sort fuel' end rows r
  decode_rows_stop fuel fuel' end rows r (inl done) =
      decode_rows_end b sort fuel end rows r done
      ∙ sym (decode_rows_end b sort fuel' end rows r done)
  decode_rows_stop fuel fuel' end rows r (inr (more, fails)) =
      decode_rows_fail fuel end rows r more fails
      ∙ sym (decode_rows_fail fuel' end rows r more fails)

  -- Either the loop ends here, or a row is read and fewer bytes are left.
  round :
      (end : ℕ) (r : Reader)
      → ((ltb r.pos end ≡ false) ⊎ ((ltb r.pos end ≡ true) × (decode_row b sort r ≡ none)))
        ⊎ ((ltb r.pos end ≡ true)
            × ((x : Row × Reader) × ((decode_row b sort r ≡ some x)
                  × (length x.1.rest < length r.rest))))
  round end r = elim (Bool-cases (ltb r.pos end)) [
    | inr done ↦ inl (inl done)
    | inl more ↦ elim (Option-cases (decode_row b sort r)) [
      | inl fails ↦ inl (inr (more, fails))
      | inr (x, e) ↦ inr (more, (x, (e, decode_row-shorter r x.1 x.0 e)))
    ]
  ]

  -- With a buffer that has its laws, two amounts of fuel, each at least the number of bytes that are
  -- left, give the same result of the row loop on any bytes.
  pub decode_rows_enough :
      (fuel fuel' end : ℕ) (rows : List Row) (r : Reader)
      → length r.rest ≤ fuel
      → length r.rest ≤ fuel'
      → decode_rows b sort fuel end rows r ≡ decode_rows b sort fuel' end rows r
  decode_rows_enough zero fuel' end rows r f f' = elim (round end r) [
    | inl stops ↦ decode_rows_stop zero fuel' end rows r stops
    | inr (more, (x, (e, shorter))) ↦ absurd (omega arith)
  ]
  decode_rows_enough (suc fuel) zero end rows r f f' = elim (round end r) [
    | inl stops ↦ decode_rows_stop (suc fuel) zero end rows r stops
    | inr (more, (x, (e, shorter))) ↦ absurd (omega arith)
  ]
  decode_rows_enough (suc fuel) (suc fuel') end rows r f f' = elim (round end r) [
    | inl stops ↦ decode_rows_stop (suc fuel) (suc fuel') end rows r stops
    | inr (more, ((row, s), (e, shorter))) ↦
        decode_rows_step b sort fuel end rows r s row more e
        ∙ decode_rows_enough fuel fuel' end (sort (rows ++ (row ∷ []))) s (omega arith)
            (omega arith)
        ∙ sym (decode_rows_step b sort fuel' end rows r s row more e)
  ]
