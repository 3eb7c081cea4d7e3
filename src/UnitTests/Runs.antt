-- ===== src/UnitTests/Runs.antt =====
-- The natural numbers with a NaN compute small integers exactly.
use aptp.Prelude.{
  ℕ, zero, suc, ◌*◌, ◌/◌, ◌≤◌, ◌≡◌, sym, ap, some, false, leb, ◌==◌, arith, Bool-cases, inl, inr,
}
use aptp.Float.{fixed_float, root, test}
use aptp.UnitTests.{IsExact}

eq_of_square : (a b : ℕ) → a ≤ b → b * b ≤ a * a → a ≡ b
eq_of_square a b h k = grind arith

ne_of_square : (a b : ℕ) → a ≤ suc b → leb (suc b * suc b) (a * a) ≡ false → a ≤ b
ne_of_square a b h k = grind arith

le-square : (a : ℕ) → a ≤ a * a
le-square a = grind arith

root-square : (k a : ℕ) → a ≤ k → root k (a * a) ≡ a
root-square zero a h = ground arith
root-square (suc k) a h = elim (Bool-cases (leb (suc k * suc k) (a * a))) [
  | inl large ↦ rw (large, root) (sym (eq_of_square a (suc k) h (ground arith)))
  | inr small ↦ rw (small, root) (root-square k a (ne_of_square a k h small))
]

Fixed-IsExact : IsExact (test ◌==◌)
Fixed-IsExact = record {
  mul_exact = λ a b h. ground arith;
  add_exact = λ a b h. ground arith;
  start_exact = λ a h. ground arith;
  sqrt_exact = λ a h.
      let whole : a * a / 1 ≡ a * a = omega arith in
      let one : a / 1 ≡ a = omega arith in
      rw (whole, one) (ap some (root-square (a * a) a (le-square a)));
  gt_exact = λ a b h k. ground arith;
  eq_exact = λ a h. ground arith;
}
