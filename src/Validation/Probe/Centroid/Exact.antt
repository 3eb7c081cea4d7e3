-- ===== src/Validation/Probe/Centroid/Exact.antt =====
-- When a probe loads, of src/validation/probe.rs, and as what.
use mathlib.Core.Path.{ap₂}
use aptp.Prelude.{
  ℕ, suc, ◌≡◌, ◌↔◌, refl, sym, ap, ◌∙◌, String, List, [], ◌∷◌, length, get_elem?, ◌==◌, false,
  arith,
}
use aptp.Float.{Float, Double}
use aptp.Error.{Result, ok, AptpError}
use aptp.Validation.Probe.{SafetyProbe, Tally, not_blank, normalise, finish, load}
use aptp.Validation.Probe.Lines.{lines}
use aptp.Validation.Probe.Centroid.{mean, IsMeanOf, load-IsMeanOf}
use aptp.Validation.Probe.Centroid.Sums.{
  zero_tally, parse_all, tally, tally_sum, tally_sum_lem, count-tally, sum-tally,
  tally_lines-eq-tally,
}

-- Lists with the same entries are the same.
get_elem?-ext {ℓ} :
    {A : Type ℓ} (xs ys : List A) → ((i : ℕ) → get_elem? xs i ≡ get_elem? ys i) → xs ≡ ys
get_elem?-ext [] [] same = refl
get_elem?-ext [] (y ∷ ys) same = cc (same 0)
get_elem?-ext (x ∷ xs) [] same = cc (same 0)
get_elem?-ext {A} (x ∷ xs) (y ∷ ys) same =
    let head : x ≡ y = cc (same 0) in
    ap₂ (λ (h : A) (t : List A). h ∷ t) head (get_elem?-ext xs ys (λ i. same (suc i)))

module _ {F : Type 0} (D : Type 0) ⦃f : Float F⦄ ⦃d : Double F D⦄ where
  finish-tally :
      (vecs : List (List F)) (probe : SafetyProbe F)
      → IsMeanOf D vecs probe
      → finish {D = D} (tally zero_tally vecs) ≡ ok probe
  unfolding finish
  finish-tally vecs probe is_mean =
      let t : Tally D = tally zero_tally vecs in
      let (long, at) = tally_sum_lem {D = D} vecs in
      let counted : t.count ≡ length vecs = omega (arith, count-tally {D = D} zero_tally vecs) in
      let summed : t.sum ≡ tally_sum [] vecs = sum-tally zero_tally vecs in
      let same : is_mean.sums ≡ t.sum =
        get_elem?-ext is_mean.sums (tally_sum [] vecs) (λ i. is_mean.columns i ∙ sym (at i))
        ∙ sym summed in
      let some_line : (t.count == 0) ≡ false = ground (arith, is_mean.some_line, counted) in
      let direction : normalise (mean D t.sum t.count) ≡ probe.centroid =
        ap₂ (λ (ss : List D) (n : ℕ). normalise (mean D ss n)) (sym same) counted
        ∙ sym is_mean.direction in
      let dim : length t.sum ≡ probe.dim = ap length summed ∙ long ∙ sym is_mean.same_dim in
      rw (some_line, finish)
        (ap₂
          (λ (v : List F) (n : ℕ).
            let p : SafetyProbe F = record { centroid = v; dim = n } in
            let r : Result (AptpError F) (SafetyProbe F) = ok p in r)
          direction dim)

  -- The probe loads exactly when the file can be read, every line of it that is not blank parses to a
  -- vector, and there is such a line; and it is the normalised mean of the vectors, as long as the first
  -- one that is not empty.
  pub load_exact :
      (read_to_string : String → Result String String) (from_str : String → Result String (List F))
      (path : String) (probe : SafetyProbe F)
      → (load D read_to_string from_str path ≡ ok probe) ↔ (
          (raw : String) × (vecs : List (List F)) × (read_to_string path ≡ ok raw)
          × (parse_all {F = F} from_str (not_blank (lines raw)) ≡ ok vecs)
          × IsMeanOf D vecs probe)
  unfolding load
  load_exact read_to_string from_str path probe = (
    load-IsMeanOf D read_to_string from_str path,
    λ h.
        let (raw, vecs, read, parsed, is_mean) = h in
        let tallied = tally_lines-eq-tally {D = D} from_str (not_blank (lines raw)) zero_tally in
        rw (read, tallied, parsed) (finish-tally vecs probe is_mean),
  )
