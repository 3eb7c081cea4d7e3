-- ===== src/Float.antt =====
-- IEEE numbers as the code uses them. Rust's `f32` and `f64` are taken as types with operations;
-- a NaN is a value on which `gt` and `lt` are both false. `Fixed` is a small instance to run.
use aptp.Prelude.{
  ℕ, zero, suc, ◌+◌, ◌-◌, ◌*◌, ◌/◌, ◌≡◌, String, Bool, true, false, Option, none, some, List, [],
  ◌∷◌, arith, ltb, leb, length, show_nat, foldl, map,
}

pub record Float (F : Type 0) : Type 0 where
  -- the literal whose value is the fraction of the two numbers, such as 1e-9
  pub literal : ℕ → ℕ → F
  -- an unsigned integer `as f32`
  pub of_nat : ℕ → F
  pub add : F → F → F
  pub sub : F → F → F
  pub mul : F → F → F
  pub div : F → F → F
  pub sqrt : F → F
  pub gt : F → F → Bool
  pub lt : F → F → Bool
  -- what `Iterator::sum` starts from
  pub sum_start : F
  -- the four bytes in memory
  pub to_bytes : F → List ℕ
  -- `{:.p}`
  pub show : ℕ → F → String

-- The `f64` that the safety probe sums in.
pub record Double (F D : Type 0) : Type 0 where
  pub widen : F → D
  pub narrow : D → F
  pub zero_f64 : D
  pub add_f64 : D → D → D
  pub div_f64 : D → D → D
  pub of_nat_f64 : ℕ → D

module _ {F : Type 0} ⦃f : Float F⦄ where
  abbrev pub zero_f32 : F
  zero_f32 = f.literal 0 1

  abbrev pub one_f32 : F
  one_f32 = f.literal 1 1

  -- `.sum::<f32>()`
  abbrev pub sum : List F → F
  sum = foldl f.add f.sum_start

  -- `v.iter().map(|x| x * x).sum::<f32>().sqrt()`
  unfoldable pub l2_norm : List F → F
  l2_norm v = f.sqrt (sum (map (λ x. f.mul x x) v))

  -- `a.iter().zip(b.iter()).map(|(x, y)| x * y)`, which ends with the shorter vector.
  unfoldable pub dot : List F → List F → List F
  dot [] ys = []
  dot (x ∷ xs) [] = []
  dot (x ∷ xs) (y ∷ ys) = f.mul x y ∷ dot xs ys

-- What IEEE 754 says of a NaN: operations on it give a NaN, and comparisons with it are false.
-- `IsNan` is the test that the laws are about.
pub record NanLaws (F : Type 0) ⦃f : Float F⦄ (IsNan : F → Type 0) : Type 0 where
  pub add_left : (x y : F) → IsNan x → IsNan (f.add x y)
  pub add_right : (x y : F) → IsNan y → IsNan (f.add x y)
  pub mul_left : (x y : F) → IsNan x → IsNan (f.mul x y)
  pub div_left : (x y : F) → IsNan x → IsNan (f.div x y)
  pub sqrt_nan : (x : F) → IsNan x → IsNan (f.sqrt x)
  pub gt_nan : (x y : F) → IsNan x → f.gt x y ≡ false
  pub lt_nan : (x y : F) → IsNan x → f.lt x y ≡ false

-- Every float is four bytes wide.
pub record IsFourBytes (F : Type 0) ⦃f : Float F⦄ : Type 0 where
  pub length-to_bytes : (x : F) → length (f.to_bytes x) ≡ 4

-- Natural numbers with a NaN: enough to run every definition.
abbrev pub Fixed : Type 0
Fixed = Option ℕ

abbrev lift : (ℕ → ℕ → ℕ) → Fixed → Fixed → Fixed
lift op (some a) (some b) = some (op a b)
lift op _ _ = none

abbrev pub test : (ℕ → ℕ → Bool) → Fixed → Fixed → Bool
test op (some a) (some b) = op a b
test op _ _ = false

abbrev divide : Fixed → Fixed → Fixed
divide (some a) (some zero) = none
divide (some a) (some (suc b)) = some (a / suc b)
divide _ _ = none

-- The largest number up to `k` whose square is at most `n`.
abbrev pub root : ℕ → ℕ → ℕ
root zero n = 0
root (suc k) n = elim (leb (suc k * suc k) n) [ true ↦ suc k | false ↦ root k n ]

abbrev root_fixed : Fixed → Fixed
root_fixed (some n) = some (root n n)
root_fixed none = none

-- One number for the four bytes, so that the values are told apart.
abbrev bytes_fixed : Fixed → List ℕ
bytes_fixed (some n) = n ∷ 0 ∷ 0 ∷ 0 ∷ []
bytes_fixed none = 0 ∷ 0 ∷ 192 ∷ 127 ∷ []

abbrev show_fixed : ℕ → Fixed → String
show_fixed p (some n) = show_nat n
show_fixed p none = "NaN"

instance abbrev pub fixed_float : Float Fixed
fixed_float = record {
  literal = λ n d. divide (some n) (some d);
  of_nat = some;
  add = lift ◌+◌;
  sub = lift ◌-◌;
  mul = lift ◌*◌;
  div = divide;
  sqrt = root_fixed;
  gt = test λ a b. ltb b a;
  lt = test ltb;
  sum_start = some 0;
  to_bytes = bytes_fixed;
  show = show_fixed;
}

instance abbrev pub fixed_double : Double Fixed Fixed
fixed_double = record {
  widen = λ x. x;
  narrow = λ x. x;
  zero_f64 = some 0;
  add_f64 = lift ◌+◌;
  div_f64 = divide;
  of_nat_f64 = some;
}

pub Fixed-IsFourBytes : IsFourBytes Fixed
Fixed-IsFourBytes = ground arith

pub Fixed-bytes-injective : (x y : Fixed) → bytes_fixed x ≡ bytes_fixed y → x ≡ y
Fixed-bytes-injective x y e = ground arith

pub Fixed-NanLaws : NanLaws Fixed (λ x. x ≡ none)
Fixed-NanLaws = record {
  add_left = λ x y h. ground arith;
  add_right = λ x y h. ground arith;
  mul_left = λ x y h. ground arith;
  div_left = λ x y h. ground arith;
  sqrt_nan = λ x h. ground arith;
  gt_nan = λ x y h. ground arith;
  lt_nan = λ x y h. ground arith;
}
