-- ===== src/UnitTests.antt =====
-- The unit tests beside the code: src/adapter/linear.rs, src/validation/gate.rs, src/primitives.rs and
-- src/backend/llama.rs, from their `mod tests` on; and tests/integration_handshake.rs. A test
-- passes if it returns, and fails if it panics.
pub mod Linear
pub mod Gate
pub mod Tagged
pub mod Fingerprint
pub mod Integration
mod Runs
use aptp.Prelude.{ℕ, ◌*◌, ◌+◌, ◌^◌, ◌≤◌, ◌≡◌, Bool, true, false, List, [], ◌∷◌, ltb, ◌&&◌}
use aptp.Float.{Float}
use aptp.Error.{Result, ok, err, panic}

-- `assert!`
abbrev pub assert : {E : Type 0} → Bool → Result E (Unit {0})
assert true = ok tt
assert false = panic

abbrev pub unwrap : {E A : Type 0} → Result E A → Result E A
unwrap (ok a) = ok a
unwrap (err e) = panic
unwrap panic = panic

abbrev pub unwrap_err : {E A : Type 0} → Result E A → Result E E
unwrap_err (err e) = ok e
unwrap_err (ok a) = panic
unwrap_err panic = panic

module _ {F : Type 0} (eq : F → F → Bool) where
  -- `==` on vectors of floats.
  abbrev pub vec_eq : List F → List F → Bool
  vec_eq [] [] = true
  vec_eq (x ∷ xs) (y ∷ ys) = eq x y && vec_eq xs ys
  vec_eq _ _ = false

module _ {F : Type 0} ⦃f : Float F⦄ where
  abbrev pub num : ℕ → F
  num n = f.literal n 1

  -- What IEEE 754 says of integers up to 2^24 in an `f32`: the operations on them are exact, and so
  -- are the comparisons.
  pub record IsExact (eq : F → F → Bool) : Type 0 where
    pub mul_exact : (a b : ℕ) → a * b ≤ 2 ^ 24 → f.mul (num a) (num b) ≡ num (a * b)
    pub add_exact : (a b : ℕ) → a + b ≤ 2 ^ 24 → f.add (num a) (num b) ≡ num (a + b)
    pub start_exact : (a : ℕ) → a ≤ 2 ^ 24 → f.add f.sum_start (num a) ≡ num a
    pub sqrt_exact : (a : ℕ) → a * a ≤ 2 ^ 24 → f.sqrt (num (a * a)) ≡ num a
    pub gt_exact : (a b : ℕ) → a ≤ 2 ^ 24 → b ≤ 2 ^ 24 → f.gt (num a) (num b) ≡ ltb b a
    pub eq_exact : (a : ℕ) → a ≤ 2 ^ 24 → eq (num a) (num a) ≡ true
