-- ===== src/Backend/Llama/Fingerprint.antt =====
-- What tells two model fingerprints apart.
use aptp.Prelude.{
  ℕ, ◌<◌, ◌≡◌, refl, ap, sym, ◌∙◌, ◌↔◌, String, List, [], ◌∷◌, ◌++◌, length, length-append,
  as_bytes, arith,
}
use aptp.Primitives.{word32}
use aptp.Primitives.Provenance.{Sha256, IsStreaming}
use aptp.Primitives.Provenance.Coverage.{digest}
use aptp.Backend.Llama.{to_le_bytes, compute_model_fingerprint}

to_le_bytes-injective : (a b : ℕ) → a < word32 → b < word32 → to_le_bytes a ≡ to_le_bytes b → a ≡ b
unfolding to_le_bytes
to_le_bytes-injective a b ha hb e = ground arith

length-to_le_bytes : (a : ℕ) → length (to_le_bytes a) ≡ 4
unfolding to_le_bytes
length-to_le_bytes a = omega arith

-- Two texts that end with pieces of the same length.
append-split : (a b s t : List ℕ) → length s ≡ length t → a ++ s ≡ b ++ t → (a ≡ b) × (s ≡ t)
append-split [] [] s t n e = (refl, e)
append-split [] (y ∷ b) s t n e =
    absurd (omega (arith, ap (λ (l : List ℕ). length l) e, length-append (y ∷ b) t))
append-split (x ∷ a) [] s t n e =
    absurd (omega (arith, ap (λ (l : List ℕ). length l) e, length-append (x ∷ a) s))
append-split (x ∷ a) (y ∷ b) s t n e =
    let tails : a ++ s ≡ b ++ t = cc in
    let (front, back) = append-split a b s t n tails in (cc, back)

-- The bytes that are hashed.
abbrev pub described : (path : String) (n_vocab n_embd n_layer n_head : ℕ) → List ℕ
described path n_vocab n_embd n_layer n_head =
    (((as_bytes path ++ to_le_bytes n_vocab) ++ to_le_bytes n_embd) ++ to_le_bytes n_layer)
    ++ to_le_bytes n_head

module _ {H : Type 0} (s : Sha256 H) (streaming : IsStreaming s) where
  fingerprint-eq-digest :
      (path : String) (n_vocab n_embd n_layer n_head : ℕ)
      → compute_model_fingerprint s path n_vocab n_embd n_layer n_head
        ≡ digest s (described path n_vocab n_embd n_layer n_head)
  unfolding compute_model_fingerprint
  fingerprint-eq-digest path n_vocab n_embd n_layer n_head =
      let text = as_bytes path in
      let v = to_le_bytes n_vocab in
      let e = to_le_bytes n_embd in
      let l = to_le_bytes n_layer in
      let h = to_le_bytes n_head in
      let first = streaming.update-append s.new text v in
      let second =
        ap (λ (t : H). s.update t e) first ∙ streaming.update-append s.new (text ++ v) e in
      let third =
        ap (λ (t : H). s.update t l) second ∙ streaming.update-append s.new ((text ++ v) ++ e) l in
      ap s.finalize (
        ap (λ (t : H). s.update t h) third
        ∙ streaming.update-append s.new (((text ++ v) ++ e) ++ l) h)

  module _ (path path' : String)
      (n_vocab n_vocab' n_embd n_embd' n_layer n_layer' n_head n_head' : ℕ) where
    -- If the hash does not collide on the two descriptions, two models whose numbers are `u32` have
    -- the same fingerprint exactly when their files have the same path and all four numbers agree.
    pub fingerprint_exact :
        (digest s (described path n_vocab n_embd n_layer n_head)
            ≡ digest s (described path' n_vocab' n_embd' n_layer' n_head')
          → described path n_vocab n_embd n_layer n_head
            ≡ described path' n_vocab' n_embd' n_layer' n_head')
        → (n_vocab < word32) × (n_vocab' < word32)
        → (n_embd < word32) × (n_embd' < word32)
        → (n_layer < word32) × (n_layer' < word32)
        → (n_head < word32) × (n_head' < word32)
        → (compute_model_fingerprint s path n_vocab n_embd n_layer n_head
            ≡ compute_model_fingerprint s path' n_vocab' n_embd' n_layer' n_head')
          ↔ ((as_bytes path ≡ as_bytes path')
              × (n_vocab ≡ n_vocab')
              × (n_embd ≡ n_embd')
              × (n_layer ≡ n_layer')
              × (n_head ≡ n_head'))
    fingerprint_exact no_collision hv he hl hh =
        rw
          (
            fingerprint-eq-digest path n_vocab n_embd n_layer n_head,
            fingerprint-eq-digest path' n_vocab' n_embd' n_layer' n_head',
          )
          (
            λ e.
                let four = λ (a b : ℕ). length-to_le_bytes a ∙ sym (length-to_le_bytes b) in
                let (front, head) = append-split _ _ _ _ (four n_head n_head') (no_collision e) in
                let (front, layer) = append-split _ _ _ _ (four n_layer n_layer') front in
                let (front, embd) = append-split _ _ _ _ (four n_embd n_embd') front in
                let (front, vocab) = append-split _ _ _ _ (four n_vocab n_vocab') front in
                (
                  front,
                  to_le_bytes-injective n_vocab n_vocab' hv.0 hv.1 vocab,
                  to_le_bytes-injective n_embd n_embd' he.0 he.1 embd,
                  to_le_bytes-injective n_layer n_layer' hl.0 hl.1 layer,
                  to_le_bytes-injective n_head n_head' hh.0 hh.1 head,
                ),
            λ h. rw (h.0, h.1, h.2, h.3, h.4) refl,
          )
