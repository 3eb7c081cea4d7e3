-- ===== src/Rpc/Negotiate/Generator.antt =====
-- The generator of src/rpc/negotiate.rs on 64-bit states.
use Prim.Native.Nat.{bit_xor}
use mathlib.Core.Path.{ap₂}
use aptp.Prelude.{ℕ, ◌+◌, ◌*◌, ◌/◌, ◌%◌, ◌^◌, ◌<◌, ◌≡◌, ◌↔◌, refl, sym, ap, ◌∙◌, arith}
use aptp.Primitives.{word}
use aptp.Rpc.Negotiate.{xorshift}
use aptp.Rpc.Negotiate.Xor.{bit_xor-exchange, bit_xor-zero, Splits, size-Splits}

word-Splits : Splits word
word-Splits = size-Splits 64

word_lem : (a b : ℕ) → bit_xor (a % word) (b % word) ≡ bit_xor a b % word
word_lem a b =
    let a-eq : a / word * word + a % word ≡ a = omega arith in
    let b-eq : b / word * word + b % word ≡ b = omega arith in
    omega (
      arith,
      ap₂ bit_xor a-eq b-eq,
      word-Splits.parts (a / word) (a % word) (b / word) (b % word) (omega arith) (omega arith),
      word-Splits.below (a % word) (b % word) (omega arith) (omega arith),
    )

module _ (c : ℕ) (split : Splits c) (some_bits : 0 < c) where
  bit_xor-left : (x y : ℕ) → bit_xor (x * c % word) (y * c % word) ≡ bit_xor x y * c % word
  bit_xor-left x y =
      let first : x * c + 0 ≡ x * c = omega arith in
      let second : y * c + 0 ≡ y * c = omega arith in
      let nothing : bit_xor 0 0 ≡ 0 = refl in
      let whole : bit_xor (x * c) (y * c) ≡ bit_xor x y * c =
        sym (ap₂ bit_xor first second)
        ∙ split.parts x 0 y 0 some_bits some_bits
        ∙ omega (arith, nothing) in
      word_lem (x * c) (y * c) ∙ ap (λ n. n % word) whole

right-Splits : Splits 128
right-Splits = size-Splits 7

bit_xor-right : (a b : ℕ) → bit_xor (a / 2 ^ 7) (b / 2 ^ 7) ≡ bit_xor a b / 2 ^ 7
bit_xor-right a b =
    let a-eq : a / 128 * 128 + a % 128 ≡ a = omega arith in
    let b-eq : b / 128 * 128 + b % 128 ≡ b = omega arith in
    omega (
      arith,
      ap₂ bit_xor a-eq b-eq,
      right-Splits.parts (a / 128) (a % 128) (b / 128) (b % 128) (omega arith) (omega arith),
      right-Splits.below (a % 128) (b % 128) (omega arith) (omega arith),
    )

-- The three rounds.
abbrev mix13 : ℕ → ℕ
mix13 x = bit_xor x (x * 2 ^ 13 % word)

abbrev mix7 : ℕ → ℕ
mix7 x = bit_xor x (x / 2 ^ 7)

abbrev mix17 : ℕ → ℕ
mix17 x = bit_xor x (x * 2 ^ 17 % word)

mix-bit_xor :
    (T : ℕ → ℕ)
    → ((x y : ℕ) → bit_xor (T x) (T y) ≡ T (bit_xor x y))
    → (x y : ℕ)
    → bit_xor (bit_xor x (T x)) (bit_xor y (T y)) ≡ bit_xor (bit_xor x y) (T (bit_xor x y))
mix-bit_xor T linear x y =
    bit_xor-exchange x (T x) y (T y) ∙ ap (bit_xor (bit_xor x y)) (linear x y)

mix13-bit_xor : (x y : ℕ) → bit_xor (mix13 x) (mix13 y) ≡ mix13 (bit_xor x y)
mix13-bit_xor =
    mix-bit_xor (λ x. x * 2 ^ 13 % word) (bit_xor-left (2 ^ 13) (size-Splits 13) (omega arith))

mix7-bit_xor : (x y : ℕ) → bit_xor (mix7 x) (mix7 y) ≡ mix7 (bit_xor x y)
mix7-bit_xor = mix-bit_xor (λ x. x / 2 ^ 7) bit_xor-right

mix17-bit_xor : (x y : ℕ) → bit_xor (mix17 x) (mix17 y) ≡ mix17 (bit_xor x y)
mix17-bit_xor =
    mix-bit_xor (λ x. x * 2 ^ 17 % word) (bit_xor-left (2 ^ 17) (size-Splits 17) (omega arith))

xorshift-bit_xor : (x y : ℕ) → bit_xor (xorshift x) (xorshift y) ≡ xorshift (bit_xor x y)
unfolding xorshift
xorshift-bit_xor x y =
    mix17-bit_xor (mix7 (mix13 x)) (mix7 (mix13 y))
    ∙ ap mix17 (mix7-bit_xor (mix13 x) (mix13 y) ∙ ap mix7 (mix13-bit_xor x y))

mix13-zero : (x : ℕ) → x < word → mix13 x ≡ 0 → x ≡ 0
mix13-zero x h e = omega (arith, (bit_xor-zero x (x * 2 ^ 13 % word)).0 e)

mix7-zero : (x : ℕ) → mix7 x ≡ 0 → x ≡ 0
mix7-zero x e = omega (arith, (bit_xor-zero x (x / 2 ^ 7)).0 e)

mix17-zero : (x : ℕ) → x < word → mix17 x ≡ 0 → x ≡ 0
mix17-zero x h e = omega (arith, (bit_xor-zero x (x * 2 ^ 17 % word)).0 e)

mix13_bound : (x : ℕ) → x < word → mix13 x < word
mix13_bound x h = word-Splits.below x (x * 2 ^ 13 % word) h (omega arith)

mix7_bound : (x : ℕ) → x < word → mix7 x < word
mix7_bound x h = word-Splits.below x (x / 2 ^ 7) h (omega arith)

xorshift-zero : (x : ℕ) → x < word → xorshift x ≡ 0 → x ≡ 0
unfolding xorshift
xorshift-zero x h e =
    let h13 = mix13_bound x h in
    let h7 = mix7_bound (mix13 x) h13 in
    mix13-zero x h (mix7-zero (mix13 x) (mix17-zero (mix7 (mix13 x)) h7 e))

xorshift_bound : (x : ℕ) → x < word → xorshift x < word
unfolding xorshift
xorshift_bound x h =
    let h7 = mix7_bound (mix13 x) (mix13_bound x h) in
    word-Splits.below (mix7 (mix13 x)) (mix7 (mix13 x) * 2 ^ 17 % word) h7 (omega arith)

xorshift-0 : xorshift 0 ≡ 0
unfolding xorshift
xorshift-0 = refl

-- On the states of 64 bits, a round of the generator gives a state of 64 bits, 0 from 0 only, and no
-- state from two states.
pub xorshift_states :
    (x y : ℕ)
    → x < word
    → y < word
    → (xorshift x < word) × ((xorshift x ≡ 0) ↔ (x ≡ 0)) × ((xorshift x ≡ xorshift y) ↔ (x ≡ y))
xorshift_states x y hx hy =
    let nothing : xorshift 0 ≡ 0 = xorshift-0 in
    (
      xorshift_bound x hx,
      (xorshift-zero x hx, λ e. ap xorshift e ∙ nothing),
      (
        λ e.
            let same = (bit_xor-zero (xorshift x) (xorshift y)).1 e in
            let gone = sym (xorshift-bit_xor x y) ∙ same in
            (bit_xor-zero x y).0 (xorshift-zero (bit_xor x y) (word-Splits.below x y hx hy) gone),
        ap xorshift,
      ),
    )
