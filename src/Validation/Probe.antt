-- ===== src/Validation/Probe.antt =====
-- src/validation/probe.rs: the safety probe, a unit vector that is the mean of the vectors in a
-- file of JSON lines. The file system and serde_json are arguments.
mod Lines
pub mod Centroid
use Lines.{lines, is_blank}
use aptp.Prelude.{ℕ, ◌+◌, String, ◌<>◌, List, [], ◌∷◌, map, length, replicate, ◌==◌, if◌then◌else◌}
use aptp.Float.{Float, Double, zero_f32, sum, dot, l2_norm}
use aptp.Error.{Result, ok, err, AptpError, config, map_err, ◌>>=◌}

pub record SafetyProbe (F : Type 0) : Type 0 where
  pub centroid : List F
  pub dim : ℕ

-- `.filter(|l| !l.trim().is_empty())`
unfoldable pub not_blank : List String → List String
not_blank [] = []
not_blank (l ∷ ls) = let rest = not_blank ls in if is_blank l then rest else l ∷ rest

-- The variables of the loop.
pub record Tally (D : Type 0) : Type 0 where
  pub sum : List D
  pub count : ℕ

module _ {F D : Type 0} ⦃d : Double F D⦄ where
  -- `for (s, &v) in sum.iter_mut().zip(vec.iter()) { *s += v as f64; }`
  unfoldable pub add_zip : List D → List F → List D
  add_zip [] vec = []
  add_zip (s ∷ ss) [] = s ∷ ss
  add_zip (s ∷ ss) (v ∷ vs) = d.add_f64 s (d.widen v) ∷ add_zip ss vs

  -- `if sum.is_empty() { sum = vec![0.0f64; vec.len()]; }`
  unfoldable pub start_sum : List D → List F → List D
  start_sum [] vec = replicate (length vec) d.zero_f64
  start_sum (s ∷ ss) vec = s ∷ ss

  unfoldable pub tally_line : Tally D → List F → Tally D
  unfolding add_zip start_sum
  tally_line t vec = record { sum = add_zip (start_sum t.sum vec) vec; count = t.count + 1 }

  -- `from_str` is `serde_json::from_str`, with its error as a text.
  unfoldable pub tally_lines :
      (from_str : String → Result String (List F))
      → List String
      → Tally D
      → Result (AptpError F) (Tally D)
  tally_lines from_str [] t = ok t
  tally_lines from_str (line ∷ rest) t = do
    vec ← map_err (λ e. config ("probe parse: " <> e)) (from_str line)
    tally_lines from_str rest (tally_line t vec)

module _ {F : Type 0} ⦃f : Float F⦄ where
  -- `if norm > 0.0 { centroid.iter_mut().for_each(|x| *x /= norm); }`
  unfoldable pub normalise : List F → List F
  normalise centroid =
      let norm = l2_norm centroid in
      if f.gt norm zero_f32 then map (λ x. f.div x norm) centroid else centroid

  unfoldable pub cosine_similarity : SafetyProbe F → List F → F
  cosine_similarity probe v =
      if length v == probe.dim
      then (let norm_v = l2_norm v in
          if f.lt norm_v (f.literal 1 1_000_000_000)
          then zero_f32
          else f.div (sum (dot v probe.centroid)) norm_v)
      else zero_f32

module _ {F D : Type 0} ⦃f : Float F⦄ ⦃d : Double F D⦄ where
  unfoldable pub finish : Tally D → Result (AptpError F) (SafetyProbe F)
  finish t =
      if t.count == 0
      then err (config "probe file is empty")
      else (let mean = map (λ s. d.narrow (d.div_f64 s (d.of_nat_f64 t.count))) t.sum in
          ok (record { centroid = normalise mean; dim = length t.sum }))

module _ {F : Type 0} (D : Type 0) ⦃f : Float F⦄ ⦃d : Double F D⦄ where
  unfoldable pub load :
      (read_to_string : String → Result String String) (from_str : String → Result String (List F))
      (path : String)
      → Result (AptpError F) (SafetyProbe F)
  load read_to_string from_str path = do
    raw ← map_err (λ e. config ("probe load: " <> e)) (read_to_string path)
    t ← tally_lines {D = D} from_str (not_blank (lines raw)) (record { sum = []; count = 0 })
    finish t
