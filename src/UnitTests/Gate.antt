-- ===== src/UnitTests/Gate.antt =====
-- The tests of src/validation/gate.rs.
use aptp.Prelude.{
  ℕ, zero, suc, ◌+◌, ◌*◌, ◌^◌, ◌≤◌, ◌≡◌, refl, ap, sym, ◌∙◌, String, Bool, none, List, ◌∷◌, map,
  replicate, foldl, arith,
}
use aptp.Float.{Float, Double, Fixed, fixed_float, fixed_double, l2_norm, sum, zero_f32}
use aptp.Error.{Result, ok, panic, AptpError, off_manifold, ◌>>=◌}
use aptp.Config.{ValidationConfig}
use aptp.Validation.Gate.{new, check_vector}
use aptp.Samples.{no_file, no_json}
use aptp.UnitTests.{assert, unwrap, unwrap_err, num, IsExact}

map-replicate :
    {A B : Type 0} (g : A → B) (k : ℕ) (x : A) → map g (replicate k x) ≡ replicate k (g x)
map-replicate g zero x = refl
map-replicate g (suc k) x = ap (λ v. g x ∷ v) (map-replicate g k x)

module _ {F : Type 0} (D : Type 0) ⦃f : Float F⦄ ⦃d : Double F D⦄
    (read_to_string : String → Result String String)
    (from_str : String → Result String (List F)) where
  abbrev config : ℕ → ValidationConfig F
  config l2_norm_max = record {
    l2_norm_max = num l2_norm_max;
    cosine_sim_min = f.sub zero_f32 (f.literal 95 100);
    fairness_threshold = f.literal 1 10;
    probe_vectors_path = none;
  }

  -- The `match` of the test.
  expect_off_manifold : AptpError F → Result (AptpError F) (Unit {0})
  expect_off_manifold (off_manifold l2 cosine) = assert (f.gt l2 (num 10))
  expect_off_manifold e = panic

  test_firewall_rejects_high_norm : Result (AptpError F) (Unit {0})
  unfolding expect_off_manifold
  test_firewall_rejects_high_norm = do
    fw ← unwrap (new D read_to_string from_str (config 10))
    let v = replicate 16 (num 50)
    e ← unwrap_err (check_vector fw v)
    expect_off_manifold e

  test_firewall_accepts_normal_vector : Result (AptpError F) (Unit {0})
  test_firewall_accepts_normal_vector = do
    fw ← unwrap (new D read_to_string from_str (config 1000))
    let v = replicate 16 (f.literal 1 10)
    unwrap (check_vector fw v)

  module _ (eq : F → F → Bool) (exact : IsExact eq) where
    sum_exact :
        (k a b : ℕ)
        → b + k * a ≤ 2 ^ 24
        → foldl f.add (num b) (replicate k (num a)) ≡ num (b + k * a)
    sum_exact zero a b h = ap num (omega arith)
    sum_exact (suc k) a b h =
        let more : b + suc k * a ≡ b + a + k * a = omega arith in
        ap (λ x. foldl f.add x (replicate k (num a))) (exact.add_exact b a (omega arith))
        ∙ sum_exact k a (b + a) (omega arith)
        ∙ ap num (sym more)

    -- The norm of sixteen 50s.
    norm_exact : l2_norm {F = F} (replicate 16 (num 50)) ≡ num 200
    unfolding l2_norm
    norm_exact =
        ap (λ v. f.sqrt (sum v)) (map-replicate (λ x. f.mul x x) 16 (num 50))
        ∙ ap (λ x. f.sqrt (sum (replicate 16 x))) (exact.mul_exact 50 50 (omega arith))
        ∙ ap (λ x. f.sqrt (foldl f.add x (replicate 15 (num 2500))))
            (exact.start_exact 2500 (omega arith))
        ∙ ap f.sqrt (sum_exact 15 2500 2500 (omega arith))
        ∙ exact.sqrt_exact 200 (omega arith)

    rejects_high_norm_passes : test_firewall_rejects_high_norm ≡ ok tt
    unfolding test_firewall_rejects_high_norm new check_vector
    rejects_high_norm_passes =
        let high = exact.gt_exact 200 10 (omega arith) (omega arith) in
        rw (norm_exact, high) (rw high)

accepts_normal_vector_passes :
    test_firewall_accepts_normal_vector {F = Fixed} Fixed no_file no_json ≡ ok tt
unfolding test_firewall_accepts_normal_vector new check_vector l2_norm
accepts_normal_vector_passes = refl
