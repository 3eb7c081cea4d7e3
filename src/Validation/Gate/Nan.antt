-- ===== src/Validation/Gate/Nan.antt =====
-- What the firewall does with a vector that holds a NaN.
use aptp.Prelude.{◌≡◌, ◌⊎◌, inl, inr, some, List, [], ◌∷◌, All, map, foldl, length, ==_iff, arith}
use aptp.Float.{Float, NanLaws, dot, l2_norm}
use aptp.Error.{ok}
use aptp.Primitives.{PrimitivePayload}
use aptp.Validation.Probe.{SafetyProbe, cosine_similarity}
use aptp.Validation.Gate.{NeuralFirewall, validate}
use aptp.Validation.Gate.Exact.{vectors, Passes, validate_exact}

module _ {F : Type 0} ⦃f : Float F⦄ {IsNan : F → Type 0} (laws : NanLaws F IsNan) where
  abbrev pub HasNan : List F → Type 0
  HasNan [] = ⊥
  HasNan (x ∷ v) = IsNan x ⊎ HasNan v

  nan_stays : (v : List F) (acc : F) → IsNan acc → IsNan (foldl f.add acc v)
  nan_stays [] acc h = h
  nan_stays (x ∷ v) acc h = nan_stays v (f.add acc x) (laws.add_left acc x h)

  nan_of_sum : (v : List F) (acc : F) → HasNan v → IsNan (foldl f.add acc v)
  nan_of_sum [] acc h = absurd h
  nan_of_sum (x ∷ v) acc (inl h) = nan_stays v (f.add acc x) (laws.add_right acc x h)
  nan_of_sum (x ∷ v) acc (inr h) = nan_of_sum v (f.add acc x) h

  HasNan-squares : (v : List F) → HasNan v → HasNan (map (λ x. f.mul x x) v)
  HasNan-squares [] h = h
  HasNan-squares (x ∷ v) (inl h) = inl (laws.mul_left x x h)
  HasNan-squares (x ∷ v) (inr h) = inr (HasNan-squares v h)

  l2_norm-nan : (v : List F) → HasNan v → IsNan (l2_norm v)
  unfolding l2_norm
  l2_norm-nan v h = laws.sqrt_nan _ (nan_of_sum _ f.sum_start (HasNan-squares v h))

  HasNan-dot : (v w : List F) → length v ≡ length w → HasNan v → HasNan (dot v w)
  unfolding dot
  HasNan-dot [] w e h = absurd h
  HasNan-dot (x ∷ v) [] e h = absurd (omega arith)
  HasNan-dot (x ∷ v) (y ∷ w) e (inl h) = inl (laws.mul_left x y h)
  HasNan-dot (x ∷ v) (y ∷ w) e (inr h) = inr (HasNan-dot v w (omega arith) h)

  -- The vector has the dimension of a probe that is as long as it says.
  abbrev pub Measured : SafetyProbe F → List F → Type 0
  Measured probe v = (length v ≡ probe.dim) × (length v ≡ length probe.centroid)

  cosine_similarity-nan :
      (probe : SafetyProbe F) (v : List F)
      → Measured probe v
      → HasNan v
      → IsNan (cosine_similarity probe v)
  unfolding cosine_similarity
  cosine_similarity-nan probe v (same, full) h =
      rw
        (
          (==_iff (length v) probe.dim).1 same,
          laws.lt_nan (l2_norm v) (f.literal 1 1_000_000_000) (l2_norm-nan v h),
        )
        (laws.div_left _ (l2_norm v)
          (nan_of_sum _ f.sum_start (HasNan-dot v probe.centroid full h)))

  module _ (fw : NeuralFirewall F) where
    nan-Passes :
        (v : List F)
        → HasNan v
        → ((probe : SafetyProbe F) → fw.probe ≡ some probe → Measured probe v)
        → Passes fw v
    nan-Passes v h fits = record {
      norm = laws.gt_nan (l2_norm v) fw.cfg.l2_norm_max (l2_norm-nan v h);
      similar = λ probe e.
          laws.lt_nan _ fw.cfg.cosine_sim_min (cosine_similarity-nan probe v (fits probe e) h);
    }

    -- A NaN opens the firewall, whatever its limits: a payload passes if each of its vectors holds a
    -- NaN and, where a probe is loaded, has the probe's dimension.
    pub validate_nan :
        (p : PrimitivePayload F)
        → All HasNan (vectors p)
        → ((probe : SafetyProbe F) → fw.probe ≡ some probe → All (Measured probe) (vectors p))
        → validate fw p ≡ ok tt
    validate_nan p h fits = (validate_exact fw p).1 (each (vectors p) h fits)
      where
        each :
            (vs : List (List F))
            → All HasNan vs
            → ((probe : SafetyProbe F) → fw.probe ≡ some probe → All (Measured probe) vs)
            → All (Passes fw) vs
        each [] h fits = tt
        each (v ∷ vs) h fits = (
          nan-Passes v h.0 (λ probe e. (fits probe e).0),
          each vs h.1 (λ probe e. (fits probe e).1),
        )
