-- ===== src/Adapter/Linear/Product.antt =====
-- The index arithmetic of `adapt` against the product of a matrix, cut into rows, and a vector.
use mathlib.Core.Path.{subst}
use aptp.Prelude.{
  ℕ, zero, suc, ◌+◌, ◌-◌, ◌*◌, ◌%◌, ◌≤◌, ◌<◌, ◌≡◌, refl, ap, sym, ◌∙◌, List, [], ◌∷◌, length, take,
  drop, map, length-map, ltb, ◌==◌, ==_iff, if◌then◌else◌, arith,
}
use aptp.Float.{Float, sum, dot}
use aptp.Error.{ok, err, panic, incompatible_dimensions}
use aptp.Primitives.{word, word32, max_floats}
use aptp.Adapter.Linear.{LinearProjectionAdapter, new, slice, rows, output, adapt}

module _ {ℓ} {A : Type ℓ} where
  -- `count` pieces of `size` elements each, from the front.
  abbrev pub chunks : (count size : ℕ) → List A → List (List A)
  chunks zero size w = []
  chunks (suc count) size w = take size w ∷ chunks count size (drop size w)

  drop-nil : (n : ℕ) → drop {A = A} n [] ≡ []
  drop-nil zero = refl
  drop-nil (suc n) = refl

  drop-drop : (s k : ℕ) (w : List A) → drop s (drop k w) ≡ drop (k + s) w
  drop-drop s zero w = ap (λ (n : ℕ). drop n w) (omega arith)
  drop-drop s (suc k) [] = drop-nil s ∙ sym (drop-nil (suc k + s))
  drop-drop s (suc k) (x ∷ w) =
      let more : suc k + s ≡ suc (k + s) = omega arith in rw more (drop-drop s k w)

  length-chunks : (count size : ℕ) (w : List A) → length (chunks count size w) ≡ count
  length-chunks zero size w = refl
  length-chunks (suc count) size w = ap suc (length-chunks count size (drop size w))

module _ {F : Type 0} ⦃f : Float F⦄ where
  -- The rows' products with the input.
  abbrev pub product : (target source : ℕ) (weights input : List F) → List F
  product target source weights input =
      map (λ row. sum (dot row input)) (chunks target source weights)

  slice-eq-take :
      (v : List F) (from to : ℕ)
      → from ≤ to
      → to ≤ length v
      → slice v from to ≡ ok (take (to - from) (drop from v))
  unfolding slice
  slice-eq-take v from to h k = ground arith

  rows-eq-product :
      (a : LinearProjectionAdapter F) (input : List F) (left i : ℕ)
      → (i + left) * a.source_dim ≤ length a.weights
      → length a.weights < word
      → rows a input left i
        ≡ ok (product left a.source_dim (drop (i * a.source_dim) a.weights) input)
  unfolding rows
  rows-eq-product a input zero i fits small = refl
  rows-eq-product a input (suc left) i fits small =
      let w = a.weights in
      let n = a.source_dim in
      let start : i * n % word ≡ i * n = omega arith in
      let stop : (i * n + n) % word ≡ i * n + n = omega arith in
      let width : i * n + n - i * n ≡ n = omega arith in
      let next : (i + 1) * n ≡ i * n + n = omega arith in
      let cut = slice-eq-take w (i * n) (i * n + n) (omega arith) (omega arith) in
      let below : drop ((i + 1) * n) w ≡ drop n (drop (i * n) w) =
        ap (λ (k : ℕ). drop k w) next ∙ sym (drop-drop n (i * n) w) in
      let rest = rows-eq-product a input left (i + 1) (omega arith) small in
      rw (start, stop, cut, width) (rw (rest, below))

  new-eq-ok :
      (source target : ℕ) (weights : List F) {a : LinearProjectionAdapter F}
      → new source target weights ≡ ok a
      → (length weights ≡ source * target % word)
        × (a ≡ record { source_dim = source; target_dim = target; weights = weights })
  unfolding new
  new-eq-ok source target weights made = (ground arith, ground arith)

  pub new-full :
      (source target : ℕ) (weights : List F)
      → length weights ≡ source * target
      → source * target < word
      → new source target weights
        ≡ ok (record { source_dim = source; target_dim = target; weights = weights })
  unfolding new
  new-full source target weights full small =
      let same : length weights ≡ source * target % word = omega arith in
      rw ((==_iff (length weights) (source * target % word)).1 same)

  adapt_cases :
      (a : LinearProjectionAdapter F) (input : List F)
      → length a.weights ≡ a.source_dim * a.target_dim
      → length a.weights < word
      → adapt a input ≡ (
          if length input == a.source_dim
          then (if ltb max_floats a.target_dim
              then panic
              else ok (product a.target_dim a.source_dim a.weights input))
          else err (incompatible_dimensions (length input % word32) (a.source_dim % word32)))
  unfolding adapt output
  adapt_cases a input full small =
      let none_dropped : 0 * a.source_dim ≡ 0 = omega arith in
      rw (rows-eq-product a input a.target_dim 0 (omega arith) small, none_dropped)

  -- If a projection is made from `target` rows of `source` weights, and their number is a `usize`,
  -- then on an input of the source dimension `adapt` panics if there are more rows than a vector can
  -- hold floats, and is the product of the matrix and the vector if not, with one output for each row;
  -- on any other input it reports the two dimensions.
  pub adapt-eq-product :
      (source target : ℕ) (weights : List F) {a : LinearProjectionAdapter F}
      → new source target weights ≡ ok a
      → source * target < word
      → (input : List F)
      → (adapt a input ≡ (
          if length input == source
          then (if ltb max_floats target then panic else ok (product target source weights input))
          else err (incompatible_dimensions (length input % word32) (source % word32))))
        × (length (product target source weights input) ≡ target)
  adapt-eq-product source target weights {a} made small input =
      let (full, same) = new-eq-ok source target weights made in
      let full : length weights ≡ source * target = omega arith in
      (
        subst
            (λ b. adapt b input ≡ (
              if length input == source
              then (if ltb max_floats target
                  then panic
                  else ok (product target source weights input))
              else err (incompatible_dimensions (length input % word32) (source % word32))))
            (sym same)
            (adapt_cases (record { source_dim = source; target_dim = target; weights = weights })
              input full (omega arith)),
        length-map (λ row. sum (dot row input)) (chunks target source weights)
            ∙ length-chunks target source weights,
      )
