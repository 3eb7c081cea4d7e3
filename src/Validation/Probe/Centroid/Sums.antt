-- ===== src/Validation/Probe/Centroid/Sums.antt =====
-- The loop of `SafetyProbe::load` against column sums.
use aptp.Prelude.{
  ℕ, zero, suc, ◌+◌, ◌≡◌, refl, ap, ◌∙◌, sym, String, ◌<>◌, Option, none, some, List, [], ◌∷◌,
  length, replicate, length-replicate, get_elem?, arith,
}
use aptp.Float.{Double}
use aptp.Error.{Result, ok, err, panic, AptpError, config, map_err, ◌>>=◌}
use aptp.Validation.Probe.{Tally, add_zip, start_sum, tally_line, tally_lines}

abbrev pub zero_tally : {D : Type 0} → Tally D
zero_tally = record { sum = []; count = 0 }

-- Every line parsed, or the first error.
abbrev pub parse_all :
    {F : Type 0}
    → (String → Result String (List F))
    → List String
    → Result (AptpError F) (List (List F))
parse_all from_str [] = ok []
parse_all from_str (line ∷ rest) = do
  vec ← map_err (λ e. config ("probe parse: " <> e)) (from_str line)
  vecs ← parse_all from_str rest
  ok (vec ∷ vecs)

-- The length of the first vector that is not empty.
abbrev pub first_dim : {F : Type 0} → List (List F) → ℕ
first_dim [] = 0
first_dim ([] ∷ vecs) = first_dim vecs
first_dim ((x ∷ v) ∷ vecs) = length (x ∷ v)

module _ {F D : Type 0} ⦃d : Double F D⦄ where
  abbrev pub add_at : Option D → Option F → Option D
  add_at none x = none
  add_at (some s) none = some s
  add_at (some s) (some x) = some (d.add_f64 s (d.widen x))

  -- The sum of the entries at one index, of the vectors that reach so far.
  abbrev pub column : ℕ → Option D → List (List F) → Option D
  column i acc [] = acc
  column i acc (v ∷ vecs) = column i (add_at acc (get_elem? v i)) vecs

  -- The loop without its parser.
  abbrev pub tally : Tally D → List (List F) → Tally D
  tally t [] = t
  tally t (v ∷ vecs) = tally (tally_line t v) vecs

  bind_cons :
      {E : Type 0} (r : Result E (List F)) (q : Result E (List (List F)))
      (g : List F → Result E (Tally D)) (t : Tally D)
      → ((vec : List F) → g vec ≡ (q >>= λ vecs. ok (tally (tally_line t vec) vecs)))
      → (r >>= g) ≡ ((r >>= λ vec. q >>= λ vecs. ok (vec ∷ vecs)) >>= λ vecs. ok (tally t vecs))
  bind_cons (ok vec) (ok vecs) g t h = h vec
  bind_cons (ok vec) (err e) g t h = h vec
  bind_cons (ok vec) panic g t h = h vec
  bind_cons (err e) q g t h = refl
  bind_cons panic q g t h = refl

  pub tally_lines-eq-tally :
      (from_str : String → Result String (List F)) (ls : List String) (t : Tally D)
      → tally_lines from_str ls t ≡ (do vecs ← parse_all from_str ls; ok (tally t vecs))
  unfolding tally_lines
  tally_lines-eq-tally from_str [] t = refl
  tally_lines-eq-tally from_str (line ∷ rest) t =
      bind_cons _ _ _ t (λ vec. tally_lines-eq-tally from_str rest (tally_line t vec))

  length-add_zip : (ss : List D) (v : List F) → length (add_zip ss v) ≡ length ss
  unfolding add_zip
  length-add_zip [] v = refl
  length-add_zip (s ∷ ss) [] = refl
  length-add_zip (s ∷ ss) (x ∷ v) = ap suc (length-add_zip ss v)

  add_at-none : (o : Option D) (x : Option F) → x ≡ none → add_at o x ≡ o
  add_at-none none x e = refl
  add_at-none (some s) none e = refl
  add_at-none (some s) (some y) e = cc

  get_elem?-add_zip :
      (ss : List D) (v : List F) (i : ℕ)
      → get_elem? (add_zip ss v) i ≡ add_at (get_elem? ss i) (get_elem? v i)
  unfolding add_zip
  get_elem?-add_zip [] v i = refl
  get_elem?-add_zip (s ∷ ss) [] i = sym (add_at-none (get_elem? (s ∷ ss) i) none refl)
  get_elem?-add_zip (s ∷ ss) (x ∷ v) zero = refl
  get_elem?-add_zip (s ∷ ss) (x ∷ v) (suc i) = get_elem?-add_zip ss v i

  pub count-tally :
      (t : Tally D) (vecs : List (List F)) → (tally t vecs).count ≡ t.count + length vecs
  unfolding tally_line
  count-tally t [] = omega arith
  count-tally t (v ∷ vecs) = omega (arith, count-tally (tally_line t v) vecs)

  -- The sums alone.
  abbrev pub tally_sum : List D → List (List F) → List D
  tally_sum ss [] = ss
  tally_sum ss (v ∷ vecs) = tally_sum (add_zip (start_sum ss v) v) vecs

  pub sum-tally : (t : Tally D) (vecs : List (List F)) → (tally t vecs).sum ≡ tally_sum t.sum vecs
  unfolding tally_line
  sum-tally t [] = refl
  sum-tally t (v ∷ vecs) = sum-tally (tally_line t v) vecs

  abbrev pub Sums : List D → List (List F) → List D → Type 0
  Sums start vecs ss =
      (length ss ≡ length start) × ((i : ℕ) → get_elem? ss i ≡ column i (get_elem? start i) vecs)

  -- Once the sum is not empty, it keeps its length and adds column by column.
  tally_sum_started :
      (s : D) (ss : List D) (vecs : List (List F)) → Sums (s ∷ ss) vecs (tally_sum (s ∷ ss) vecs)
  unfolding start_sum add_zip
  tally_sum_started s ss [] = (refl, λ i. refl)
  tally_sum_started s ss ([] ∷ vecs) =
      let (n, at) = tally_sum_started s ss vecs in
      (
        n,
        λ i.
            at i
            ∙ ap (λ (o : Option D). column i o vecs)
                (sym (add_at-none (get_elem? (s ∷ ss) i) none refl)),
      )
  tally_sum_started s ss ((x ∷ v) ∷ vecs) =
      let (n, at) = tally_sum_started (d.add_f64 s (d.widen x)) (add_zip ss v) vecs in
      (
        omega (arith, n, length-add_zip ss v),
        λ i. at i ∙ ap (λ (o : Option D). column i o vecs) (get_elem?-add_zip (s ∷ ss) (x ∷ v) i),
      )

  column-nil :
      (i dim : ℕ) (vecs : List (List F))
      → dim ≡ first_dim ([] ∷ vecs)
      → column i (get_elem? (replicate dim d.zero_f64) i) ([] ∷ vecs)
        ≡ column i (get_elem? (replicate dim d.zero_f64) i) vecs
  column-nil i dim vecs e =
      ap (λ (o : Option D). column i o vecs)
        (add_at-none (get_elem? (replicate dim d.zero_f64) i) none refl)

  pub tally_sum_lem :
      (vecs : List (List F))
      → (length (tally_sum [] vecs) ≡ first_dim vecs)
        × ((i : ℕ)
            → get_elem? (tally_sum [] vecs) i
              ≡ column i (get_elem? (replicate (first_dim vecs) d.zero_f64) i) vecs)
  unfolding start_sum add_zip
  tally_sum_lem [] = (refl, λ i. refl)
  tally_sum_lem ([] ∷ vecs) =
      let (n, at) = tally_sum_lem vecs in
      (n, λ i. at i ∙ sym (column-nil i (first_dim vecs) vecs refl))
  tally_sum_lem ((x ∷ v) ∷ vecs) =
      let zeros = replicate (length v) d.zero_f64 in
      let (n, at) = tally_sum_started (d.add_f64 d.zero_f64 (d.widen x)) (add_zip zeros v) vecs in
      (
        omega (arith, n, length-add_zip zeros v, length-replicate (length v) d.zero_f64),
        λ i.
            at i
            ∙ ap (λ (o : Option D). column i o vecs)
                (get_elem?-add_zip (d.zero_f64 ∷ zeros) (x ∷ v) i),
      )
