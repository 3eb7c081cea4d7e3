-- ===== src/Validation/Probe/Centroid.antt =====
-- What a loaded probe is.
pub mod Sums
pub mod Exact
mod Tests
use aptp.Prelude.{
  ℕ, ◌<◌, ◌≡◌, ◌≢◌, ap, ◌∙◌, sym, String, ◌<>◌, List, [], length, length-map, replicate, get_elem?,
  arith, map,
}
use aptp.Float.{Float, Double, l2_norm}
use aptp.Error.{Result, ok, config, map_err, >>=-eq-ok, map_err-eq-ok}
use aptp.Validation.Probe.{SafetyProbe, Tally, not_blank, tally_lines, normalise, finish, load}
use aptp.Validation.Probe.Lines.{lines}
use aptp.Validation.Probe.Centroid.Sums.{
  zero_tally, parse_all, first_dim, column, tally, tally_sum, tally_sum_lem, count-tally, sum-tally,
  tally_lines-eq-tally,
}

module _ {F : Type 0} (D : Type 0) ⦃f : Float F⦄ ⦃d : Double F D⦄ where
  abbrev pub mean : List D → ℕ → List F
  mean sums count = map (λ s. d.narrow (d.div_f64 s (d.of_nat_f64 count))) sums

  -- What a loaded probe is: the direction of the mean of the file's vectors, taken column by column
  -- over the length of the first vector that is not empty.
  pub record IsMeanOf (vecs : List (List F)) (probe : SafetyProbe F) : Type 0 where
    pub sums : List D
    pub some_line : 0 < length vecs
    pub columns :
        (i : ℕ)
        → get_elem? sums i ≡ column i (get_elem? (replicate (first_dim vecs) d.zero_f64) i) vecs
    pub direction : probe.centroid ≡ normalise (mean sums (length vecs))
    pub same_dim : probe.dim ≡ first_dim vecs
    pub full : length probe.centroid ≡ probe.dim

  length-normalise : (v : List F) → length (normalise v) ≡ length v
  unfolding normalise
  length-normalise v = ground (arith, length-map (λ x. f.div x (l2_norm v)) v)

  finish-eq-ok :
      (t : Tally D) {probe : SafetyProbe F}
      → finish t ≡ ok probe
      → (t.count ≢ 0)
        × (probe.centroid ≡ normalise (mean t.sum t.count))
        × (probe.dim ≡ length t.sum)
  unfolding finish
  finish-eq-ok t e = (ground arith, ground arith, ground arith)

  finish-IsMeanOf :
      (vecs : List (List F)) {probe : SafetyProbe F}
      → finish {D = D} (tally zero_tally vecs) ≡ ok probe
      → IsMeanOf vecs probe
  finish-IsMeanOf vecs {probe} e =
      let t : Tally D = tally zero_tally vecs in
      let (n, at) = tally_sum_lem {D = D} vecs in
      let (some_line, direction, dim) = finish-eq-ok t e in
      let counted : t.count ≡ length vecs = omega (arith, count-tally {D = D} zero_tally vecs) in
      let summed : t.sum ≡ tally_sum [] vecs = sum-tally zero_tally vecs in
      let long : length t.sum ≡ first_dim vecs = ap length summed ∙ n in
      record {
        sums = t.sum;
        some_line = omega arith;
        columns = λ i. ap (λ (ss : List D). get_elem? ss i) summed ∙ at i;
        direction = direction ∙ ap (λ (k : ℕ). normalise (mean t.sum k)) counted;
        same_dim = dim ∙ long;
        full =
            ap length direction
            ∙ length-normalise (mean t.sum t.count)
            ∙ length-map (λ (s : D). d.narrow (d.div_f64 s (d.of_nat_f64 t.count))) t.sum
            ∙ sym dim;
      }

  -- If the probe loads, every line of the file that is not blank parses to a vector, there is such a
  -- line, and the probe is the normalised mean of the vectors, as long as the first one that is not
  -- empty.
  pub load-IsMeanOf :
      (read_to_string : String → Result String String) (from_str : String → Result String (List F))
      (path : String) {probe : SafetyProbe F}
      → load D read_to_string from_str path ≡ ok probe
      → (raw : String) × (vecs : List (List F)) × (read_to_string path ≡ ok raw)
        × (parse_all {F = F} from_str (not_blank (lines raw)) ≡ ok vecs)
        × IsMeanOf vecs probe
  unfolding load
  load-IsMeanOf read_to_string from_str path {probe} e =
      let (raw, read, rest) =
        >>=-eq-ok (map_err (λ m. config ("probe load: " <> m)) (read_to_string path)) _ e in
      let ls = not_blank (lines raw) in
      let (t, tallied, finished) =
        >>=-eq-ok (tally_lines {D = D} from_str ls zero_tally) finish rest in
      let (vecs, parsed, same) =
        >>=-eq-ok (parse_all {F = F} from_str ls) _
          (sym (tally_lines-eq-tally from_str ls zero_tally) ∙ tallied) in
      let same : tally zero_tally vecs ≡ t = cc in
      (
        raw,
        vecs,
        map_err-eq-ok _ (read_to_string path) read,
        parsed,
        finish-IsMeanOf vecs (ap finish same ∙ finished),
      )
