-- ===== src/Rpc/Negotiate.antt =====
-- src/rpc/negotiate.rs
pub mod Weights
pub mod Xor
pub mod Generator
use Prim.Native.Nat.{bit_xor}
use aptp.Prelude.{
  ℕ, zero, suc, ◌+◌, ◌-◌, ◌*◌, ◌/◌, ◌%◌, ◌^◌, String, Option, List, [], ◌∷◌, ◌||◌, ltb, ◌==◌,
  if◌then◌else◌,
}
use aptp.Float.{Float, one_f32}
use aptp.Error.{Result, ok, err, panic, AptpError, incompatible_dimensions, ◌>>=◌}
use aptp.Primitives.{max_floats, word, unix_nanos}
use aptp.Adapter.Spec.{AdapterVariant, linear_projection, norm_match}

-- One round of the generator on a `u64`.
unfoldable pub xorshift : ℕ → ℕ
xorshift state =
    let a = bit_xor state (state * 2 ^ 13 % word) in
    let b = bit_xor a (a / 2 ^ 7) in bit_xor b (b * 2 ^ 17 % word)

-- `seed ^ 0xdeadbeef_cafebabe`, where the seed is the time and the counter.
unfoldable pub first_state : (clock : Option ℕ) (counter : ℕ) → ℕ
first_state clock counter = bit_xor (bit_xor (unix_nanos clock) counter) 0xdead_beef_cafe_babe

module _ {F : Type 0} ⦃f : Float F⦄ where
  unfoldable pub draw : F → ℕ → F
  draw bound state =
      let t = f.sub (f.mul (f.div (f.of_nat state) (f.of_nat (2 ^ 64 - 1))) (f.of_nat 2)) one_f32 in
      f.mul t bound

  -- The loop, with `left` weights to go.
  unfoldable pub draws : (bound : F) (left state : ℕ) → List F
  unfolding draw
  draws bound zero state = []
  draws bound (suc left) state =
      let next = xorshift state in draw bound next ∷ draws bound left next

  -- Beside the result, the counter after `fetch_add`, which wraps. So does the product of two
  -- `usize`.
  unfoldable pub kaiming_uniform_weights :
      (clock : Option ℕ) (counter in_dim out_dim : ℕ) → Result (AptpError F) (List F) × ℕ
  unfolding draws first_state
  kaiming_uniform_weights clock counter in_dim out_dim =
      let bound = f.sqrt (f.div (f.of_nat 3) (f.of_nat in_dim)) in
      let n = in_dim * out_dim % word in
      (
        if ltb max_floats n then panic else ok (draws bound n (first_state clock counter)),
        (counter + 1) % word,
      )

  -- The counter comes back beside the answer.
  unfoldable pub handle :
      (clock : Option ℕ) (counter source_dim target_dim : ℕ) (source_family target_family : String)
      → Result (AptpError F) (AdapterVariant × List F) × ℕ
  handle clock counter source_dim target_dim source_family target_family =
      if (source_dim == 0) || (target_dim == 0)
      then (err (incompatible_dimensions source_dim target_dim), counter)
      else if source_dim == target_dim
      then (ok (norm_match, one_f32 ∷ []), counter)
      else (let (drawn, counter') = kaiming_uniform_weights clock counter source_dim target_dim in
          (drawn >>= λ weights. ok (linear_projection, weights), counter'))
