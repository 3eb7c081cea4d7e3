-- ===== src/Rpc/Server/Negotiates.antt =====
-- What a peer gets from `negotiate_alignment` of src/rpc/mod.rs, the message with the weights included.
mod Tests
use aptp.Prelude.{
  ℕ, ◌*◌, ◌%◌, ◌≤◌, ◌<◌, ◌≡◌, refl, ◌≢◌, ◌∙◌, String, List, [], ◌∷◌, length, ◌⊎◌, inl, inr, ◌==◌,
  ==_iff, ◌||◌, ltb, Bool-cases, arith,
}
use native.Mathlib.Decide.{dec_lt}
use aptp.Float.{Float, one_f32, zero_f32}
use aptp.Error.{CapnpError, ok, err, panic, incompatible_dimensions, to_string, ◌>>=◌}
use aptp.Primitives.{TaggedPrimitive, word, word32, max_floats}
use aptp.Primitives.Provenance.{Sha256}
use aptp.Wire.{Capnp, Getter}
use aptp.Wire.Build.{max_elements, write_list}
use aptp.Wire.RoundTrip.Lists.{write_list-eq-ok, write_list-eq-panic}
use aptp.Adapter.Spec.{AdapterVariant, linear_projection, norm_match, ManifoldAdapter, from_spec}
use aptp.Rpc.Messages.{adapter_type, AlignmentSpecMessage}
use aptp.Rpc.Params.{fail, write_spec}
use aptp.Rpc.Negotiate.{draws, kaiming_uniform_weights}
use aptp.Rpc.Negotiate
use aptp.Rpc.Negotiate.Weights.{
  length-draws, Adapts, projection-Adapts, norm-Adapts, target-bound, IsZero,
}
use aptp.Rpc.Sink.{Mpsc}
use aptp.Rpc.Server.{AptpRpcServer, Ambient, after_negotiation}

-- A specification that a peer can use: its variant and weights make an adapter for the dimensions.
pub record IsUsable {F : Type 0} ⦃f : Float F⦄ (source target : ℕ) (spec : AlignmentSpecMessage F)
    : Type 0 where
  pub variant : AdapterVariant
  pub adapter : ManifoldAdapter F
  pub typed : spec.adapter_type ≡ adapter_type variant
  pub from_source : spec.source_dim ≡ source
  pub to_target : spec.target_dim ≡ target
  pub made : from_spec variant source target spec.weights ≡ ok adapter
  pub adapts : Adapts source target adapter

-- The reply to a negotiation, by its dimensions.
pub data Answers {F : Type 0} ⦃f : Float F⦄ (c : Capnp F) (source target : ℕ)
    : Getter (AlignmentSpecMessage F) → Type 0 where
  refused :
      IsZero source target
      → Answers c source target
          (err (c.failed (to_string {F = F} (incompatible_dimensions source target))))
  oversized :
      source ≢ 0
      → target ≢ 0
      → source ≢ target
      → max_elements ≤ source * target
      → Answers c source target panic
  specified :
      {spec : AlignmentSpecMessage F}
      → source ≢ 0
      → target ≢ 0
      → (source ≡ target) ⊎ (source * target < max_elements)
      → IsUsable source target spec
      → Answers c source target (ok spec)

module _ {F : Type 0} ⦃f : Float F⦄ (c : Capnp F) (source target : ℕ) where
  written-Answers :
      (variant : AdapterVariant) (weights : List F) (a : ManifoldAdapter F)
      → source ≢ 0
      → target ≢ 0
      → (source ≡ target) ⊎ (source * target < max_elements)
      → length weights < max_elements
      → from_spec variant source target weights ≡ ok a
      → Adapts source target a
      → Answers c source target (write_spec c source target (variant, weights))
  unfolding write_spec
  written-Answers variant weights a hs ht sized few made adapts =
      rw (write_list-eq-ok {E = CapnpError} zero_f32 weights few) (
        specified hs ht sized (record {
          variant = variant;
          adapter = a;
          typed = refl;
          from_source = refl;
          to_target = refl;
          made = made;
          adapts = adapts;
        }))

  -- A projection, whose weights are as many as the product.
  projection-Answers :
      (weights : List F)
      → source ≢ 0
      → target ≢ 0
      → source ≢ target
      → source * target < word
      → length weights ≡ source * target
      → Answers c source target (write_spec c source target (linear_projection, weights))
  unfolding write_spec
  projection-Answers weights hs ht differ small full =
      elim (dec_lt (source * target) max_elements) [
        | yes few ↦
            let (a, made, adapts) =
              projection-Adapts source target weights full small
                (target-bound source target hs (omega (arith, few))) in
            written-Answers linear_projection weights a hs ht (inr few) (omega arith) made adapts
        | no many ↦
            let long : max_elements ≤ length weights = omega arith in
            rw (write_list-eq-panic {E = CapnpError} zero_f32 weights long)
              (oversized hs ht differ (omega arith))
      ]

module _ {F H Chan : Type 0} ⦃f : Float F⦄ (c : Capnp F) (s : Sha256 H)
    (m : Mpsc (TaggedPrimitive F) Chan) where
  -- For dimensions in the range of `u32`, a negotiation whose parameters are read is answered so: with
  -- the error if a dimension is 0; with a panic of the server if the dimensions differ, none is 0, and
  -- the product is 2^29 or more; and else with a specification that a peer can use.
  pub after_negotiation-Answers :
      (source target : ℕ) (source_family target_family : String) (ambient : Ambient)
      (srv : AptpRpcServer F Chan)
      → source < word32
      → target < word32
      → Answers c source target
          (after_negotiation c s m
            (ok (source, target, source_family, target_family))
            ambient
            srv).0
  unfolding after_negotiation fail Negotiate.handle kaiming_uniform_weights write_spec
  after_negotiation-Answers source target source_family target_family ambient srv hs ht =
      elim (Bool-cases ((source == 0) || (target == 0))) [
        | inl zero ↦ rw (zero, Negotiate.handle) (refused (ground arith))
        | inr nonzero ↦
            let hs0 : source ≢ 0 = ground arith in
            let ht0 : target ≢ 0 = ground arith in
            elim (Bool-cases (source == target)) [
              | inl same ↦
                  let e : source ≡ target = (==_iff source target).0 same in
                  let (a, made, adapts) = norm-Adapts {F = F} source target e in
                  rw (nonzero, same)
                    (written-Answers c source target norm_match (one_f32 ∷ []) a hs0 ht0 (inl e)
                      (omega arith) made adapts)
              | inr differ ↦
                  let apart : source ≢ target = ground arith in
                  let small : source * target < word = grind arith in
                  let whole : source * target % word ≡ source * target = omega arith in
                  elim (Bool-cases (ltb max_floats (source * target % word))) [
                    | inl large ↦
                        let many : max_elements ≤ source * target = ground arith in
                        rw (nonzero, differ, large) (oversized hs0 ht0 apart many)
                    | inr fits ↦
                        rw (nonzero, differ, fits)
                          (projection-Answers c source target _ hs0 ht0 apart small
                            (length-draws _ _ _ ∙ whole))
                  ]
            ]
      ]
