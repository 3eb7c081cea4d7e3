-- ===== src/Primitives/Provenance/Coverage/Bytes.antt =====
-- The memory of a vector of floats determines the vector.
use native.Mathlib.Decide.{dec_le}
use aptp.Prelude.{
  ℕ, zero, suc, ◌+◌, ◌*◌, ◌≤◌, ◌≡◌, refl, ◌↔◌, ap, ◌∙◌, true, List, [], ◌∷◌, ◌++◌, min, length,
  length-append, take, take-length, arith,
}
use aptp.Float.{Float, IsFourBytes}
use aptp.Primitives.Provenance.{bytes_eq, memory, raw_parts}

pub bytes_eq_iff : (a b : List ℕ) → (bytes_eq a b ≡ true) ↔ (a ≡ b)
unfolding bytes_eq
bytes_eq_iff [] [] = (λ h. refl, λ h. refl)
bytes_eq_iff [] (y ∷ ys) = (λ h. cc, λ h. cc)
bytes_eq_iff (x ∷ xs) [] = (λ h. cc, λ h. cc)
bytes_eq_iff (x ∷ xs) (y ∷ ys) =
    (λ h. ground (arith, (bytes_eq_iff xs ys).0), λ h. ground (arith, (bytes_eq_iff xs ys).1))

module _ {ℓ} {A : Type ℓ} where
  -- Lists with equal fronts of one length have equal parts.
  append_split : (a b x y : List A) → length a ≡ length b → a ++ x ≡ b ++ y → (a ≡ b) × (x ≡ y)
  append_split [] [] x y n e = (refl, e)
  append_split [] (b ∷ bs) x y n e = absurd (omega arith)
  append_split (a ∷ rest) [] x y n e = absurd (omega arith)
  append_split (a ∷ rest) (b ∷ bs) x y n e =
      let (front, back) = append_split rest bs x y (omega arith) (ground arith) in
      (ground arith, back)

  take-append : (m n : ℕ) (a x : List A) → m ≡ length a + n → take m (a ++ x) ≡ a ++ take n x
  take-append m n [] x e = ap (λ (k : ℕ). take k x) (omega arith)
  take-append zero n (a ∷ rest) x e = absurd (omega arith)
  take-append (suc m) n (a ∷ rest) x e =
      ap (λ (t : List A). a ∷ t) (take-append m n rest x (omega arith))

  take-nil : (n : ℕ) → take {A = A} n [] ≡ []
  take-nil zero = refl
  take-nil (suc n) = refl

  take_all : (n : ℕ) (xs : List A) → length xs ≤ n → take n xs ≡ xs
  take_all zero [] h = refl
  take_all zero (x ∷ xs) h = absurd (omega arith)
  take_all (suc n) [] h = refl
  take_all (suc n) (x ∷ xs) h = ap (λ (t : List A). x ∷ t) (take_all n xs (omega arith))

module _ {F : Type 0} ⦃f : Float F⦄ (wide : IsFourBytes F) where
  take-memory : (n : ℕ) (v : List F) → take (n * 4) (memory v) ≡ memory (take n v)
  take-memory zero v = refl
  take-memory (suc n) [] = take-nil (suc n * 4)
  take-memory (suc n) (x ∷ v) =
      take-append (suc n * 4) (n * 4) (f.to_bytes x) (memory v)
        (omega (arith, wide.length-to_bytes x))
      ∙ ap (λ (t : List ℕ). f.to_bytes x ++ t) (take-memory n v)

  -- The slice that the code reads never leaves the vector's memory, and is that of its first floats.
  pub raw_parts-eq-memory : (limit : ℕ) (v : List F) → raw_parts limit v ≡ memory (take limit v)
  raw_parts-eq-memory limit v = elim (dec_le (length v) limit) [
    | yes h ↦
        let short : min (length v) limit ≡ length v = omega arith in
        rw (short, take-memory (length v) v, take-length v, take_all limit v h)
    | no h ↦ let long : min (length v) limit ≡ limit = omega arith in rw (long, take-memory limit v)
  ]

  pub memory-injective :
      ((x y : F) → f.to_bytes x ≡ f.to_bytes y → x ≡ y)
      → (v w : List F) → memory v ≡ memory w
      → v ≡ w
  memory-injective inj [] [] e = refl
  memory-injective inj [] (y ∷ w) e =
      absurd (
        omega (arith, ap length e, length-append (f.to_bytes y) (memory w), wide.length-to_bytes y))
  memory-injective inj (x ∷ v) [] e =
      absurd (
        omega (arith, ap length e, length-append (f.to_bytes x) (memory v), wide.length-to_bytes x))
  memory-injective inj (x ∷ v) (y ∷ w) e =
      let (front, back) =
        append_split (f.to_bytes x) (f.to_bytes y) (memory v) (memory w)
          (omega (arith, wide.length-to_bytes x, wide.length-to_bytes y)) e in
      cc (inj x y front, memory-injective inj v w back)
