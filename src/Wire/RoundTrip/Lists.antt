-- ===== src/Wire/RoundTrip/Lists.antt =====
-- When `write_list` copies a list, and when it panics.
use native.Mathlib.Decide.{dec_lt}
use aptp.Prelude.{
  ℕ, zero, suc, ◌+◌, ◌%◌, ◌≤◌, ◌<◌, ◌≡◌, refl, ap, List, [], ◌∷◌, ◌++◌, arith, length, replicate,
  ltb, true, length-append, length-replicate, append_assoc_cons,
}
use aptp.Error.{ok, panic}
use aptp.Primitives.{word32}
use aptp.Wire.Build.{write_data, max_elements, set_at, fill_from, write_list}

module _ {ℓ} {A : Type ℓ} {E : Type 0} where
  set_at-append :
      (done : List A) (old : A) (rest : List A) (v : A)
      → set_at {E = E} (done ++ old ∷ rest) (length done) v ≡ ok (done ++ v ∷ rest)
  unfolding set_at
  set_at-append [] old rest v = refl
  set_at-append (x ∷ done) old rest v = rw (set_at-append done old rest v)

  set_at_out : (list : List A) (i : ℕ) (v : A) → length list ≤ i → set_at {E = E} list i v ≡ panic
  unfolding set_at
  set_at_out [] i v h = refl
  set_at_out (x ∷ list) zero v h = absurd (omega arith)
  set_at_out (x ∷ list) (suc i) v h = rw (set_at_out list i v (omega arith))

  set_at_in :
      (list : List A) (i : ℕ) (v : A)
      → i < length list
      → (next : List A) × (set_at {E = E} list i v ≡ ok next) × (length next ≡ length list)
  unfolding set_at
  set_at_in [] i v h = absurd (omega arith)
  set_at_in (x ∷ list) zero v h = (v ∷ list, refl, refl)
  set_at_in (x ∷ list) (suc i) v h =
      let (next, e, n) = set_at_in list i v (omega arith) in (x ∷ next, rw e, ap suc n)

  fill_from-append :
      (blank : A) (done values : List A)
      → length done + length values ≤ word32
      → fill_from {E = E} (length done) values (done ++ replicate (length values) blank)
        ≡ ok (done ++ values)
  unfolding fill_from
  fill_from-append blank done [] h = refl
  fill_from-append blank done (v ∷ values) h =
      let small : length done % word32 ≡ length done = omega arith in
      let grown : length (done ++ v ∷ []) ≡ length done + 1 =
        omega (arith, length-append done (v ∷ [])) in
      let rest = fill_from-append blank (done ++ v ∷ []) values (omega arith) in
      let rest = rw grown at rest in
      let rest = rw (append_assoc_cons done v (replicate (length values) blank)) at rest in
      let rest = rw (append_assoc_cons done v values) at rest in
      rw (small, set_at-append done blank (replicate (length values) blank) v) rest

  fill_from_out :
      (i : ℕ) (values list : List A)
      → i ≤ length list
      → length list < word32
      → length list < i + length values
      → fill_from {E = E} i values list ≡ panic
  unfolding fill_from
  fill_from_out i [] list le lt over = absurd (omega arith)
  fill_from_out i (v ∷ values) list le lt over = elim (dec_lt i (length list)) [
    | yes p ↦
        let small : i % word32 ≡ i = omega arith in
        let (next, e, n) = set_at_in list i v p in
        rw (small, e) (fill_from_out (i + 1) values next (omega arith) (omega arith) (omega arith))
    | no p ↦
        let small : i % word32 ≡ i = omega arith in rw (small, set_at_out list i v (omega arith))
  ]

  pub write_list-eq-ok :
      (blank : A) (values : List A)
      → length values < max_elements
      → write_list {E = E} blank values ≡ ok values
  unfolding write_list
  write_list-eq-ok blank values h =
      let small : length values % word32 ≡ length values = omega arith in
      let few : ltb (length values) max_elements ≡ true = ground arith in
      rw (small, few) (fill_from-append blank [] values (omega arith))

  pub write_list-eq-panic :
      (blank : A) (values : List A)
      → max_elements ≤ length values
      → write_list {E = E} blank values ≡ panic
  unfolding write_list
  write_list-eq-panic blank values h =
      let n = length values % word32 in
      let count : length (replicate n blank) ≡ n = length-replicate n blank in
      elim (dec_lt n max_elements) [
        | no many ↦ ground arith
        | yes few ↦
            let wrapped =
              fill_from_out 0 values (replicate n blank) (omega arith) (omega arith)
                (omega arith) in
            ground arith
      ]

pub write_data-eq-ok :
    {E : Type 0} (bytes : List ℕ)
    → length bytes < max_elements
    → write_data {E = E} bytes ≡ ok bytes
unfolding write_data
write_data-eq-ok bytes h = ground (arith, h)

pub write_data-eq-panic :
    {E : Type 0} (bytes : List ℕ) → max_elements ≤ length bytes → write_data {E = E} bytes ≡ panic
unfolding write_data
write_data-eq-panic bytes h = ground (arith, h)
