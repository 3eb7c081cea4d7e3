-- ===== src/Rpc/Negotiate/Weights.antt =====
-- The weights that a negotiation hands out, and the adapter that they are for.
mod Tests
use aptp.Prelude.{
  ℕ, zero, suc, ◌*◌, ◌%◌, ◌≤◌, ◌<◌, ◌≡◌, refl, ◌≢◌, ap, ◌∙◌, String, Option, List, [], ◌∷◌, length,
  length-map, map, ◌||◌, ◌⊎◌, ◌==◌, ==_iff, ltb, Bool-cases, false, inl, inr, arith,
}
use aptp.Float.{Float, one_f32}
use aptp.Error.{Result, ok, AptpError}
use aptp.Primitives.{word, max_floats}
use aptp.Adapter.Linear
use aptp.Adapter.Linear.Product.{product, new-full, adapt-eq-product}
use aptp.Adapter.NormMatch.{NormMatchAdapter, scale_for}
use aptp.Adapter.NormMatch
use aptp.Adapter.Spec.{
  AdapterVariant, linear_projection, norm_match, ManifoldAdapter, linear, norm, source_dim,
  target_dim, adapt, from_spec,
}
use aptp.Rpc.Negotiate.{first_state, draws, kaiming_uniform_weights, handle}

module _ {F : Type 0} ⦃f : Float F⦄ where
  pub length-draws : (bound : F) (left state : ℕ) → length (draws bound left state) ≡ left
  unfolding draws
  length-draws bound zero state = refl
  length-draws bound (suc left) state = ap suc (length-draws bound left _)

  -- An adapter for these dimensions, that takes every vector of the one to a vector of the other.
  pub record Adapts (source target : ℕ) (a : ManifoldAdapter F) : Type 0 where
    pub takes : source_dim a ≡ source
    pub gives : target_dim a ≡ target
    pub runs :
        (input : List F)
        → length input ≡ source
        → (out : List F) × (adapt a input ≡ ok out) × (length out ≡ target)

  pub projection-Adapts :
      (source target : ℕ) (weights : List F)
      → length weights ≡ source * target
      → source * target < word
      → target ≤ max_floats
      → (a : ManifoldAdapter F) × (from_spec linear_projection source target weights ≡ ok a)
        × Adapts source target a
  unfolding source_dim target_dim from_spec adapt
  projection-Adapts source target weights full small few =
      let made = new-full source target weights full small in
      (
        linear (record { source_dim = source; target_dim = target; weights = weights }),
        rw made,
        record {
          takes = refl;
          gives = refl;
          runs = λ input e.
              let (result, many) = adapt-eq-product source target weights made small input in
              let held : ltb max_floats target ≡ false = ground (arith, few) in
              (
                product target source weights input,
                rw (result, (==_iff (length input) source).1 e, held),
                many,
              );
        },
      )

  pub norm-Adapts :
      (source target : ℕ)
      → source ≡ target
      → (a : ManifoldAdapter F) × (from_spec norm_match source target (one_f32 ∷ []) ≡ ok a)
        × Adapts source target a
  unfolding source_dim target_dim from_spec adapt NormMatch.adapt
  norm-Adapts source target same =
      let a : NormMatchAdapter F = record { dim = source; target_norm = one_f32 } in
      (
        norm a,
        refl,
        record {
          takes = refl;
          gives = same;
          runs = λ input e. (
            map (λ x. f.mul x (scale_for a input)) input,
            refl,
            length-map (λ (x : F). f.mul x (scale_for a input)) input ∙ e ∙ same,
          );
        },
      )

pub target-bound :
    (source target : ℕ) → source ≢ 0 → source * target ≤ max_floats → target ≤ max_floats
target-bound source target hs fits = grind arith

abbrev pub IsZero : (source target : ℕ) → Type 0
IsZero source target = (source ≡ 0) ⊎ (target ≡ 0)

abbrev pub TooLarge : (source target : ℕ) → Type 0
TooLarge source target =
    (source ≢ 0) × (target ≢ 0) × (source ≢ target) × (max_floats < source * target)

module _ {F : Type 0} ⦃f : Float F⦄ (clock : Option ℕ) (counter source target : ℕ)
    (source_family target_family : String) where
  abbrev negotiated : Result (AptpError F) (AdapterVariant × List F)
  negotiated = (handle clock counter source target source_family target_family).0

  -- For dimensions that are not 0, and whose product is no more floats than a vector can hold, the
  -- negotiation succeeds, `from_spec` accepts its variant and weights, and the adapter takes every
  -- vector of the source dimension to one of the target dimension.
  pub negotiate-Adapts :
      source ≢ 0
      → target ≢ 0
      → source * target ≤ max_floats
      → (variant : AdapterVariant) × (weights : List F) × (a : ManifoldAdapter F) × (negotiated
          ≡ ok (variant, weights))
        × (from_spec variant source target weights ≡ ok a)
        × Adapts source target a
  unfolding handle kaiming_uniform_weights
  negotiate-Adapts hs ht fits =
      let nonzero : ((source == 0) || (target == 0)) ≡ false = ground arith in
      elim (Bool-cases (source == target)) [
        | inl same ↦
            let e : source ≡ target = (==_iff source target).0 same in
            let (a, made, adapts) = norm-Adapts source target e in
            (norm_match, one_f32 ∷ [], a, ground arith, made, adapts)
        | inr differ ↦
            let few : ltb max_floats (source * target % word) ≡ false = ground arith in
            let whole : source * target % word ≡ source * target = omega arith in
            let weights =
              draws (f.sqrt (f.div (f.of_nat 3) (f.of_nat source))) (source * target % word)
                (first_state clock counter) in
            let (a, made, adapts) =
              projection-Adapts source target weights (length-draws _ _ _ ∙ whole) (omega arith)
                (target-bound source target hs fits) in
            (linear_projection, weights, a, ground arith, made, adapts)
      ]
