-- ===== src/Rpc/Negotiate/Xor.antt =====
-- Laws of the exclusive or of native numbers, for the generator of src/rpc/negotiate.rs.
use Prim.Native.Nat.{bit_xor, bit_xor-bitwise, digits, differ}
use mathlib.Core.Path.{ap₂}
use aptp.Prelude.{ℕ, zero, suc, ◌+◌, ◌*◌, ◌/◌, ◌%◌, ◌≤◌, ◌<◌, ◌≡◌, ◌↔◌, refl, ap, ◌∙◌, arith}

abbrev xor_steps : ℕ → ℕ → ℕ → ℕ
xor_steps = digits (λ d. d) differ

differ_bits : (x y : ℕ) → x < 2 → y < 2 → differ x y ≡ (x + y) % 2
differ_bits zero y hx hy = omega arith
differ_bits (suc x) zero hx hy = omega arith
differ_bits (suc zero) (suc zero) hx hy = refl
differ_bits (suc (suc x)) (suc y) hx hy = absurd (omega arith)
differ_bits (suc zero) (suc (suc y)) hx hy = absurd (omega arith)

-- Steps beyond the first number's digits change nothing.
spare_steps : (j k a b : ℕ) → a ≤ j → a ≤ k → xor_steps j a b ≡ xor_steps k a b
spare_steps zero zero a b hj hk = refl
spare_steps (suc j) zero zero b hj hk = refl
spare_steps (suc j) zero (suc a) b hj hk = absurd (omega arith)
spare_steps zero (suc k) zero b hj hk = refl
spare_steps zero (suc k) (suc a) b hj hk = absurd (omega arith)
spare_steps (suc j) (suc k) zero b hj hk = refl
spare_steps (suc j) (suc k) (suc a) b hj hk =
    ap (λ n. n * 2 + differ (suc a % 2) (b % 2))
      (spare_steps j k (suc a / 2) (b / 2) (omega arith) (omega arith))

zero-bit_xor : (b : ℕ) → bit_xor 0 b ≡ b
zero-bit_xor b = bit_xor-bitwise 0 b

-- The lowest digit, and the others.
bit_xor-step : (a b : ℕ) → bit_xor a b ≡ bit_xor (a / 2) (b / 2) * 2 + (a % 2 + b % 2) % 2
bit_xor-step zero b = omega (arith, zero-bit_xor b, zero-bit_xor (b / 2))
bit_xor-step (suc a) b = omega (
  arith,
  bit_xor-bitwise (suc a) b,
  bit_xor-bitwise (suc a / 2) (b / 2),
  spare_steps a (suc a / 2) (suc a / 2) (b / 2) (omega arith) (omega arith),
  differ_bits (suc a % 2) (b % 2) (omega arith) (omega arith),
)

bit_xor-half : (a b : ℕ) → bit_xor a b / 2 ≡ bit_xor (a / 2) (b / 2)
bit_xor-half a b = omega (arith, bit_xor-step a b)

bit_xor-parity : (a b : ℕ) → bit_xor a b % 2 ≡ (a + b) % 2
bit_xor-parity a b = omega (arith, bit_xor-step a b)

nested-step :
    (a b c d : ℕ)
    → bit_xor (bit_xor a b) (bit_xor c d)
      ≡ bit_xor (bit_xor (a / 2) (b / 2)) (bit_xor (c / 2) (d / 2)) * 2
        + ((a + b) % 2 + (c + d) % 2) % 2
nested-step a b c d =
    bit_xor-step (bit_xor a b) (bit_xor c d)
    ∙ ap₂ (λ (high low : ℕ). high * 2 + low) (ap₂ bit_xor (bit_xor-half a b) (bit_xor-half c d))
        (ap₂ (λ (x y : ℕ). (x + y) % 2) (bit_xor-parity a b) (bit_xor-parity c d))

-- Induction on a bound `n` of all numbers in play.
exchange_below :
    (n a b c d : ℕ)
    → a ≤ n
    → b ≤ n
    → c ≤ n
    → d ≤ n
    → bit_xor (bit_xor a b) (bit_xor c d) ≡ bit_xor (bit_xor a c) (bit_xor b d)
exchange_below zero zero zero zero zero ha hb hc hd = refl
exchange_below zero (suc a) b c d ha hb hc hd = absurd (omega arith)
exchange_below zero zero (suc b) c d ha hb hc hd = absurd (omega arith)
exchange_below zero zero zero (suc c) d ha hb hc hd = absurd (omega arith)
exchange_below zero zero zero zero (suc d) ha hb hc hd = absurd (omega arith)
exchange_below (suc n) a b c d ha hb hc hd =
    let high =
      exchange_below n (a / 2) (b / 2) (c / 2) (d / 2) (omega arith) (omega arith) (omega arith)
        (omega arith) in
    omega (arith, nested-step a b c d, nested-step a c b d, high)

pub bit_xor-exchange :
    (a b c d : ℕ) → bit_xor (bit_xor a b) (bit_xor c d) ≡ bit_xor (bit_xor a c) (bit_xor b d)
bit_xor-exchange a b c d =
    exchange_below (a + b + c + d) a b c d (omega arith) (omega arith) (omega arith) (omega arith)

zero_below : (n a b : ℕ) → a ≤ n → b ≤ n → (bit_xor a b ≡ 0) ↔ (a ≡ b)
zero_below zero zero zero ha hb = (λ e. refl, λ e. refl)
zero_below zero (suc a) b ha hb = absurd (omega arith)
zero_below zero zero (suc b) ha hb = absurd (omega arith)
zero_below (suc n) a b ha hb =
    let (apart, same) = zero_below n (a / 2) (b / 2) (omega arith) (omega arith) in
    let step = bit_xor-step a b in
    (
      λ e. let high : a / 2 ≡ b / 2 = apart (omega arith) in omega arith,
      λ e. let high = same (ap (λ k. k / 2) e) in omega arith,
    )

-- It is 0 on a number and itself, and nowhere else.
pub bit_xor-zero : (a b : ℕ) → (bit_xor a b ≡ 0) ↔ (a ≡ b)
bit_xor-zero a b = zero_below (a + b) a b (omega arith) (omega arith)

-- Two parts of a number, above and below `size`, are taken apart.
pub record Splits (size : ℕ) : Type 0 where
  pub parts :
      (q r q' r' : ℕ)
      → r < size
      → r' < size
      → bit_xor (q * size + r) (q' * size + r') ≡ bit_xor q q' * size + bit_xor r r'
  pub below : (r r' : ℕ) → r < size → r' < size → bit_xor r r' < size

one-Splits : Splits 1
one-Splits = record {
  parts = λ q r q' r' h h'.
      let none_below : bit_xor r r' ≡ 0 = (bit_xor-zero r r').1 (omega arith) in
      let first : q * 1 + r ≡ q = omega arith in
      let second : q' * 1 + r' ≡ q' = omega arith in
      omega (arith, ap₂ bit_xor first second, none_below);
  below = λ r r' h h'.
      let none_below : bit_xor r r' ≡ 0 = (bit_xor-zero r r').1 (omega arith) in
      omega (arith, none_below);
}

double-Splits : (size : ℕ) → Splits size → Splits (2 * size)
double-Splits size split = record {
  parts = λ q r q' r' h h'.
      let high : (q * (2 * size) + r) / 2 ≡ q * size + r / 2 = omega arith in
      let high' : (q' * (2 * size) + r') / 2 ≡ q' * size + r' / 2 = omega arith in
      let low : (q * (2 * size) + r) % 2 ≡ r % 2 = omega arith in
      let low' : (q' * (2 * size) + r') % 2 ≡ r' % 2 = omega arith in
      let halves = split.parts q (r / 2) q' (r' / 2) (omega arith) (omega arith) in
      omega (
        arith,
        bit_xor-step (q * (2 * size) + r) (q' * (2 * size) + r'),
        ap₂ bit_xor high high',
        halves,
        bit_xor-step r r',
        low,
        low',
      );
  below = λ r r' h h'.
      let half = split.below (r / 2) (r' / 2) (omega arith) (omega arith) in
      omega (arith, half, bit_xor-step r r');
}

abbrev pub size : ℕ → ℕ
size zero = 1
size (suc n) = 2 * size n

pub size-Splits : (n : ℕ) → Splits (size n)
size-Splits zero = one-Splits
size-Splits (suc n) = double-Splits (size n) (size-Splits n)
