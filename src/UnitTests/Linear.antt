-- ===== src/UnitTests/Linear.antt =====
-- The tests of src/adapter/linear.rs.
use aptp.Prelude.{
  ℕ, zero, suc, ◌+◌, ◌*◌, ◌<◌, ◌≤◌, ltb, false, ◌≡◌, refl, Bool, List, [], ◌∷◌, ◌∙◌, length, map,
  length-map, ◌==◌, ==_iff, arith,
}
use aptp.Float.{Float, sum, dot}
use aptp.Error.{Result, ok, AptpError, ◌>>=◌}
use aptp.Primitives.{word, max_floats}
use aptp.Adapter.Linear.{new, adapt}
use aptp.Adapter.Linear.Product.{new-full, adapt-eq-product}
use aptp.UnitTests.{assert, unwrap, vec_eq, num, IsExact}

-- `start..start + count`
abbrev range : (start count : ℕ) → List ℕ
range start zero = []
range start (suc count) = start ∷ range (start + 1) count

length-range : (start count : ℕ) → length (range start count) ≡ count
length-range start zero = refl
length-range start (suc count) = omega (arith, length-range (start + 1) count)

module _ {F : Type 0} ⦃f : Float F⦄ where
  module _ (eq : F → F → Bool) where
    test_linear_projection_identity_2d : Result (AptpError F) (Unit {0})
    unfolding new adapt
    test_linear_projection_identity_2d = do
      let weights = num 1 ∷ num 0 ∷ num 0 ∷ num 1 ∷ []
      adapter ← unwrap (new 2 2 weights)
      let input = num 1 ∷ num 2 ∷ []
      output ← unwrap (adapt adapter input)
      assert (vec_eq eq output (num 1 ∷ num 2 ∷ []))

    test_linear_projection_upscale : Result (AptpError F) (Unit {0})
    unfolding new adapt
    test_linear_projection_upscale = do
      let weights = num 1 ∷ num 0 ∷ num 0 ∷ num 1 ∷ num 1 ∷ num 1 ∷ num 0 ∷ num 0 ∷ []
      adapter ← unwrap (new 2 4 weights)
      let input = num 3 ∷ num 5 ∷ []
      output ← unwrap (adapt adapter input)
      assert (vec_eq eq output (num 3 ∷ num 5 ∷ num 8 ∷ num 0 ∷ []))

  -- The property test, for one choice of the dimensions.
  linear_adapter_output_length : (dim_src dim_dst : ℕ) → Result (AptpError F) (Unit {0})
  linear_adapter_output_length dim_src dim_dst = do
    let n = dim_src * dim_dst
    let weights = map (λ i. f.mul (f.of_nat i) (f.literal 1 100)) (range 0 n)
    adapter ← unwrap (new dim_src dim_dst weights)
    let input = map (λ i. f.mul (f.of_nat i) (f.literal 1 10)) (range 0 dim_src)
    output ← unwrap (adapt adapter input)
    assert (length output == dim_dst)

  module _ (eq : F → F → Bool) (exact : IsExact eq) where
    -- A row of two small weights.
    row_exact :
        (a b x y : ℕ)
        → a * x + b * y < 100
        → sum {F = F} (dot (num a ∷ num b ∷ []) (num x ∷ num y ∷ [])) ≡ num (a * x + b * y)
    unfolding dot
    row_exact a b x y h =
        rw
          (
            exact.mul_exact a x (omega arith),
            exact.mul_exact b y (omega arith),
            exact.start_exact (a * x) (omega arith),
          )
          (exact.add_exact (a * x) (b * y) (omega arith))

    identity_2d_passes : test_linear_projection_identity_2d eq ≡ ok tt
    unfolding test_linear_projection_identity_2d
    identity_2d_passes =
        rw (row_exact 1 0 1 2 (omega arith), row_exact 0 1 1 2 (omega arith))
          (rw (exact.eq_exact 1 (omega arith), exact.eq_exact 2 (omega arith)))

    upscale_passes : test_linear_projection_upscale eq ≡ ok tt
    unfolding test_linear_projection_upscale
    upscale_passes =
        rw
          (
            row_exact 1 0 3 5 (omega arith),
            row_exact 0 1 3 5 (omega arith),
            row_exact 1 1 3 5 (omega arith),
            row_exact 0 0 3 5 (omega arith),
          )
          (rw (
            exact.eq_exact 3 (omega arith),
            exact.eq_exact 5 (omega arith),
            exact.eq_exact 8 (omega arith),
            exact.eq_exact 0 (omega arith),
          ))

  -- The property test passes for all dimensions, whatever the arithmetic of the floats, as long as the
  -- number of weights is a `usize`.
  linear_adapter_output_length_passes :
      (dim_src dim_dst : ℕ)
      → dim_src * dim_dst < word
      → dim_dst ≤ max_floats
      → linear_adapter_output_length dim_src dim_dst ≡ ok tt
  unfolding linear_adapter_output_length
  linear_adapter_output_length_passes dim_src dim_dst small few =
      let n = dim_src * dim_dst in
      let weights = map (λ i. f.mul (f.of_nat i) (f.literal 1 100)) (range 0 n) in
      let input = map (λ i. f.mul (f.of_nat i) (f.literal 1 10)) (range 0 dim_src) in
      let full : length weights ≡ n =
        length-map (λ i. f.mul (f.of_nat i) (f.literal 1 100)) (range 0 n) ∙ length-range 0 n in
      let fits : length input ≡ dim_src =
        length-map (λ i. f.mul (f.of_nat i) (f.literal 1 10)) (range 0 dim_src)
        ∙ length-range 0 dim_src in
      let made = new-full dim_src dim_dst weights full small in
      let (adapted, long) = adapt-eq-product dim_src dim_dst weights made small input in
      let held : ltb max_floats dim_dst ≡ false = ground (arith, few) in
      rw (made, adapted, (==_iff (length input) dim_src).1 fits, held)
        (rw ((==_iff _ dim_dst).1 long))
