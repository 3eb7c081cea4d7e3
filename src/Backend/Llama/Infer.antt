-- ===== src/Backend/Llama/Infer.antt =====
-- How an inference ends, and what it leaves.
use aptp.Prelude.{
  ℕ, zero, suc, ◌+◌, ◌-◌, ◌%◌, ◌≡◌, refl, ◌≢◌, ◌↔◌, ap, Option, none, some, List, length, ◌==◌,
  ==_iff, arith, Bool-cases, inl, inr, if◌then◌else◌,
}
use aptp.Error.{Result, ok, err, panic, ◌>>=◌}
use aptp.Primitives.{word32}
use aptp.Backend.Llama.{
  Shim, Pointer, LlamaCppBackend, from_raw_parts, read_out, kv_of, capture_kv_cache, snapshot_of,
  infer,
}

pub length-from_raw_parts :
    {F : Type 0} (ptr : ℕ → F) (n i : ℕ) → length (from_raw_parts ptr n i) ≡ n
unfolding from_raw_parts
length-from_raw_parts ptr zero i = refl
length-from_raw_parts ptr (suc n) i = ap suc (length-from_raw_parts ptr n (i + 1))

bind_ok-panic :
    {E A B : Type 0} (r : Result E A) (g : A → B) → ((r >>= λ x. ok (g x)) ≡ panic) ↔ (r ≡ panic)
bind_ok-panic (ok x) g = (λ h. cc, λ h. cc)
bind_ok-panic (err e) g = (λ h. cc, λ h. cc)
bind_ok-panic panic g = (λ h. refl, λ h. refl)

module _ {F Ctx : Type 0} (shim : Shim F Ctx) where
  -- What the shim gives for the last layer of a context.
  abbrev pub HasCache : Ctx → (n_layer : ℕ) → Type 0
  HasCache ctx n_layer =
      (read_out shim (shim.get_kv_cache_keys ctx (n_layer - 1)) ≢ none)
      × (read_out shim (shim.get_kv_cache_values ctx (n_layer - 1)) ≢ none)

  kv_of-panic :
      (keys values : Option (List F)) (b : LlamaCppBackend Ctx)
      → (kv_of shim keys values b ≡ panic) ↔ ((keys ≢ none) × (values ≢ none) × (b.n_head ≡ 0))
  unfolding kv_of
  kv_of-panic none values b = (λ h. cc, λ h. absurd (h.0 refl))
  kv_of-panic (some keys) none b = (λ h. cc, λ h. absurd (h.1 refl))
  kv_of-panic (some keys) (some values) b =
      (λ h. ((λ e. cc), (λ e. cc), ground arith), λ h. ground (arith, h.2))

  snapshot_of-panic :
      (ptr : Pointer F) (n_toks : ℕ) (b : LlamaCppBackend Ctx)
      → (snapshot_of shim ptr n_toks b ≡ panic)
        ↔ ((ptr ≢ none) × HasCache b.handle b.n_layer × (b.n_head ≡ 0))
  unfolding snapshot_of capture_kv_cache
  snapshot_of-panic none n_toks b = (λ h. cc, λ h. absurd (h.0 refl))
  snapshot_of-panic (some ptr) n_toks b =
      let last_layer = b.n_layer - 1 in
      let cache =
        kv_of-panic (read_out shim (shim.get_kv_cache_keys b.handle last_layer))
          (read_out shim (shim.get_kv_cache_values b.handle last_layer)) b in
      let bound = bind_ok-panic (capture_kv_cache shim b) _ in
      (
        λ h.
            let (keys, values, no_heads) = cache.0 (bound.0 h) in
            ((λ e. cc), (keys, values), no_heads),
        λ h. bound.1 (cache.1 (h.1.0, h.1.1, h.2)),
      )

  module _ (tokens : List ℕ) (b : LlamaCppBackend Ctx) where
    -- What the shim's decoding returns, and the context after it.
    abbrev pub code : ℕ
    code = (shim.decode b.handle tokens (length tokens % word32) b.n_past).0

    abbrev pub context : Ctx
    context = (shim.decode b.handle tokens (length tokens % word32) b.n_past).1

    -- An inference panics exactly when the decoding succeeds, there are logits and a cache for the
    -- last layer, and the model has no heads. The position advances by the number of tokens, modulo
    -- 2^32, exactly when the decoding returns 0, also where the inference then fails.
    pub infer_exact :
        (((infer shim tokens b).0 ≡ panic) ↔ (
          (code ≡ 0)
          × (shim.get_logits context ≢ none)
          × HasCache context b.n_layer
          × (b.n_head ≡ 0)))
        × ((infer shim tokens b).1.n_past
            ≡ (if code == 0 then (b.n_past + length tokens % word32) % word32 else b.n_past))
    unfolding infer
    infer_exact = elim (Bool-cases (code == 0)) [
      | inl zero_code ↦
          let same : code ≡ 0 = (==_iff code 0).0 zero_code in
          let panics = snapshot_of-panic (shim.get_logits context) (length tokens) (record b {
            handle = context;
            n_past = (b.n_past + length tokens % word32) % word32;
          }) in
          rw (zero_code) (
            (
              λ h. let (l, cache, heads) = panics.0 h in (same, l, cache, heads),
              λ h. panics.1 (h.1, h.2, h.3),
            ),
            refl,
          )
      | inr failed ↦
          let differ : code ≢ 0 = λ e. cc ((==_iff code 0).1 e, failed) in
          rw failed ((λ h. cc, λ h. absurd (differ h.0)), refl)
    ]
