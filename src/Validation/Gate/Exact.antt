-- ===== src/Validation/Gate/Exact.antt =====
-- The firewall of src/validation/gate.rs, vector by vector.
use aptp.Prelude.{
  ◌≡◌, refl, ◌↔◌, ◌⊎◌, inl, inr, Bool-cases, true, false, Option, none, some, List, [], ◌∷◌, All,
}
use aptp.Float.{Float, zero_f32, l2_norm}
use aptp.Error.{Result, ok, err, AptpError, off_manifold}
use aptp.Primitives.{PrimitivePayload, hidden_state, kv_cache, latent_thought}
use aptp.Validation.Probe.{SafetyProbe, cosine_similarity}
use aptp.Validation.Gate.{NeuralFirewall, check_probe, check_vector, validate}

-- The vectors that are checked.
abbrev pub vectors : {F : Type 0} → PrimitivePayload F → List (List F)
vectors (hidden_state v) = v ∷ []
vectors (latent_thought v) = v ∷ []
vectors (kv_cache kv) = kv.keys ∷ kv.values ∷ []

module _ {F : Type 0} ⦃f : Float F⦄ (fw : NeuralFirewall F) where
  -- The norm is not above its limit, and the similarity to the probe, if there is one, is not below
  -- its own.
  pub record Passes (v : List F) : Type 0 where
    pub norm : f.gt (l2_norm v) fw.cfg.l2_norm_max ≡ false
    pub similar :
        (probe : SafetyProbe F)
        → fw.probe ≡ some probe
        → f.lt (cosine_similarity probe v) fw.cfg.cosine_sim_min ≡ false

  -- Why a vector is refused.
  pub data Refused (v : List F) : AptpError F → Type 0 where
    too_long :
        f.gt (l2_norm v) fw.cfg.l2_norm_max ≡ true → Refused v (off_manifold (l2_norm v) zero_f32)
    too_far :
        f.gt (l2_norm v) fw.cfg.l2_norm_max ≡ false
        → (probe : SafetyProbe F) → fw.probe ≡ some probe
        → f.lt (cosine_similarity probe v) fw.cfg.cosine_sim_min ≡ true
        → Refused v (off_manifold (l2_norm v) (cosine_similarity probe v))

  -- The first vector that is refused, after some that pass.
  pub data FirstRefused : List (List F) → AptpError F → Type 0 where
    here :
        {v : List F} {vs : List (List F)} {e : AptpError F} → Refused v e → FirstRefused (v ∷ vs) e
    next :
        {v : List F} {vs : List (List F)} {e : AptpError F}
        → Passes v
        → FirstRefused vs e
        → FirstRefused (v ∷ vs) e

  abbrev Verdict : List F → Result (AptpError F) (Unit {0}) → Type 0
  Verdict v r = ((r ≡ ok tt) × Passes v) ⊎ ((e : AptpError F) × (r ≡ err e) × Refused v e)

  check_probe-Verdict :
      (v : List F) (o : Option (SafetyProbe F))
      → fw.probe ≡ o
      → f.gt (l2_norm v) fw.cfg.l2_norm_max ≡ false
      → Verdict v (check_probe o fw.cfg (l2_norm v) v)
  unfolding check_probe
  check_probe-Verdict v none e short =
      inl (refl, record { norm = short; similar = λ probe same. cc })
  check_probe-Verdict v (some probe) e short =
      elim (Bool-cases (f.lt (cosine_similarity probe v) fw.cfg.cosine_sim_min)) [
        | inl far ↦ inr (
          off_manifold (l2_norm v) (cosine_similarity probe v),
          rw far,
          too_far short probe e far,
        )
        | inr near ↦ inl (rw near, record { norm = short; similar = λ other same. cc })
      ]

  check_vector-Verdict : (v : List F) → Verdict v (check_vector fw v)
  unfolding check_vector
  check_vector-Verdict v = elim (Bool-cases (f.gt (l2_norm v) fw.cfg.l2_norm_max)) [
    | inl long ↦ inr (off_manifold (l2_norm v) zero_f32, rw long, too_long long)
    | inr short ↦ rw short (check_probe-Verdict v fw.probe refl short)
  ]

  abbrev Outcome : List (List F) → Result (AptpError F) (Unit {0}) → Type 0
  Outcome vs r =
      ((r ≡ ok tt) × All Passes vs) ⊎ ((e : AptpError F) × (r ≡ err e) × FirstRefused vs e)

  check_one : (v : List F) → Outcome (v ∷ []) (check_vector fw v)
  check_one v = elim (check_vector-Verdict v) [
    | inl (e, passes) ↦ inl (e, (passes, tt))
    | inr (e, refused, why) ↦ inr (e, refused, here why)
  ]

  -- The firewall answers every payload, with `ok` if all its vectors are within the limits, and
  -- else with the error of the first vector that is not: its norm, and 0 or its similarity.
  pub validate-Outcome : (p : PrimitivePayload F) → Outcome (vectors p) (validate fw p)
  unfolding validate
  validate-Outcome (hidden_state v) = check_one v
  validate-Outcome (latent_thought v) = check_one v
  validate-Outcome (kv_cache kv) = elim (check_vector-Verdict kv.keys) [
    | inr (e, refused, why) ↦ inr (e, rw refused, here why)
    | inl (e, passes) ↦ elim (check_vector-Verdict kv.values) [
      | inl (e', passes') ↦ inl (rw (e, e'), (passes, (passes', tt)))
      | inr (e', refused, why) ↦ inr (e', rw (e, refused), next passes (here why))
    ]
  ]

  Refused-Passes : (v : List F) (e : AptpError F) → Refused v e → ¬ Passes v
  Refused-Passes v e (too_long long) p = cc (long, p.norm)
  Refused-Passes v e (too_far short probe same far) p = cc (far, p.similar probe same)

  FirstRefused-All : {vs : List (List F)} {e : AptpError F} → FirstRefused vs e → ¬ All Passes vs
  FirstRefused-All (here why) h = Refused-Passes _ _ why h.0
  FirstRefused-All (next passes rest) h = FirstRefused-All rest h.1

  -- A payload passes exactly when every vector that it holds is within both limits: its norm is not
  -- above `l2_norm_max` and, if a probe is loaded, its similarity is not below `cosine_sim_min`.
  pub validate_exact : (p : PrimitivePayload F) → (validate fw p ≡ ok tt) ↔ All Passes (vectors p)
  validate_exact p = elim (validate-Outcome p) [
    | inl (e, passes) ↦ (λ _. passes, λ _. e)
    | inr (e, refused, why) ↦ (λ h. cc, λ h. absurd (FirstRefused-All why h))
  ]
