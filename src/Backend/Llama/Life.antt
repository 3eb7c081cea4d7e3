-- ===== src/Backend/Llama/Life.antt =====
-- src/backend/llama.rs: a backend from `LlamaCppBackend::new` on, over any sequence of inferences,
-- beside the position that the context behind the shim keeps.
use aptp.Prelude.{
  ℕ, ◌+◌, ◌-◌, ◌%◌, ◌≡◌, refl, ◌≢◌, ◌⊎◌, ap, sym, ◌∙◌, Option, some, none, List, length, ◌<>◌, ◌==◌,
  ==_iff, String, Bool, Bool-cases, Option-cases, inl, inr, as_bytes,
}
use aptp.Error.{Result, ok, ok_unique, err, panic, AptpError, internal}
use aptp.Config.{BackendConfig}
use aptp.Primitives.{KvCache, word32}
use aptp.Primitives.Provenance.{Sha256}
use aptp.Backend.{InferenceSnapshot}
use aptp.Backend.Llama.{
  Shim, Pointer, LlamaCppBackend, nul_position, show_int, read_out, kv_of, capture_kv_cache,
  snapshot_of, new, infer, extractor,
}
use aptp.Backend.Llama.Infer.{HasCache, code, length-from_raw_parts}

module _ {F Ctx : Type 0} (shim : Shim F Ctx) where
  -- What llama.cpp says of a context: it starts empty, a decoding that returns 0 puts the tokens of
  -- the batch at the positions from `n_past` on, and any other leaves the context as it was.
  pub record IsPlacing (position : Ctx → ℕ) : Type 0 where
    pub loaded :
        {path : String} {layers n_ctx : ℕ} {embeddings : Bool} {c : Ctx}
        → shim.load_model path layers n_ctx embeddings ≡ some c
        → position c ≡ 0
    pub placed :
        (c : Ctx) (tokens : List ℕ) (n n_past : ℕ)
        → (shim.decode c tokens n n_past).0 ≡ 0
        → position (shim.decode c tokens n n_past).1 ≡ (n_past + n) % word32
    pub kept :
        (c : Ctx) (tokens : List ℕ) (n n_past : ℕ)
        → (shim.decode c tokens n n_past).0 ≢ 0
        → position (shim.decode c tokens n n_past).1 ≡ position c

  -- Any number of inferences, whatever each returns.
  pub data Infers (b : LlamaCppBackend Ctx) : LlamaCppBackend Ctx → Type 0 where
    start : Infers b b
    next :
        {b' : LlamaCppBackend Ctx} (tokens : List ℕ)
        → Infers b b'
        → Infers b (infer shim tokens b').1

  -- How an inference ends whose decoding returned `returned`, and that leaves the backend `b`.
  pub data Ending (returned : ℕ) (b : LlamaCppBackend Ctx)
      : Result (AptpError F) (InferenceSnapshot F) → Type 0 where
    captured :
        {snapshot : InferenceSnapshot F}
        → returned ≡ 0
        → snapshot.n_past ≡ b.n_past
        → length snapshot.logits ≡ b.n_vocab
        → Ending returned b (ok snapshot)
    no_logits :
        returned ≡ 0
        → shim.get_logits b.handle ≡ none
        → Ending returned b (err (internal "aptp_get_logits returned NULL"))
    refused :
        returned ≢ 0
        → Ending returned b (err (internal ("llama_decode returned " <> show_int returned)))
    divided :
        returned ≡ 0 → HasCache shim b.handle b.n_layer → b.n_head ≡ 0 → Ending returned b panic

  kv_of-cases :
      (keys values : Option (List F)) (b : LlamaCppBackend Ctx)
      → ((kv_of shim keys values b ≡ panic) × (keys ≢ none) × (values ≢ none) × (b.n_head ≡ 0))
        ⊎ ((kv : Option (KvCache F)) × (kv_of shim keys values b ≡ ok kv))
  unfolding kv_of
  kv_of-cases none values b = inr (none, refl)
  kv_of-cases (some keys) none b = inr (none, refl)
  kv_of-cases (some keys) (some values) b = elim (Bool-cases (b.n_head == 0)) [
    | inl zero_heads ↦
        rw zero_heads (inl (refl, (λ e. cc), (λ e. cc), (==_iff b.n_head 0).0 zero_heads))
    | inr heads ↦ rw heads (inr (_, refl))
  ]

  snapshot_of-Ending :
      (ptr : Pointer F) (n_toks : ℕ) (b : LlamaCppBackend Ctx)
      → shim.get_logits b.handle ≡ ptr
      → (returned : ℕ) → returned ≡ 0
      → Ending returned b (snapshot_of shim ptr n_toks b)
  unfolding snapshot_of capture_kv_cache
  snapshot_of-Ending none n_toks b same returned done = no_logits done same
  snapshot_of-Ending (some ptr) n_toks b same returned done =
      elim (kv_of-cases (read_out shim (shim.get_kv_cache_keys b.handle (b.n_layer - 1)))
        (read_out shim (shim.get_kv_cache_values b.handle (b.n_layer - 1))) b) [
          | inl (panics, keys, values, no_heads) ↦ rw panics (divided done (keys, values) no_heads)
          | inr (kv, made) ↦ rw made (captured done refl (length-from_raw_parts ptr b.n_vocab 0))
        ]

  infer-Ending :
      (tokens : List ℕ) (b : LlamaCppBackend Ctx)
      → Ending (code shim tokens b) (infer shim tokens b).1 (infer shim tokens b).0
  unfolding infer
  infer-Ending tokens b = elim (Bool-cases (code shim tokens b == 0)) [
    | inl zero_code ↦ rw zero_code (
        snapshot_of-Ending _ (length tokens) _ refl (code shim tokens b)
          ((==_iff (code shim tokens b) 0).0 zero_code))
    | inr failed ↦ rw failed (refused (λ e. cc ((==_iff (code shim tokens b) 0).1 e, failed)))
  ]

  infer-extractor :
      (tokens : List ℕ) (b : LlamaCppBackend Ctx) → extractor (infer shim tokens b).1 ≡ extractor b
  unfolding infer extractor
  infer-extractor tokens b = elim (Bool-cases (code shim tokens b == 0)) [
    | inl zero_code ↦ rw zero_code refl
    | inr failed ↦ rw failed refl
  ]

  module _ {H : Type 0} (s : Sha256 H) (position : Ctx → ℕ) (places : IsPlacing position) where
    infer-position :
        (tokens : List ℕ) (b : LlamaCppBackend Ctx)
        → b.n_past ≡ position b.handle
        → (infer shim tokens b).1.n_past ≡ position (infer shim tokens b).1.handle
    unfolding infer
    infer-position tokens b same =
        let n = length tokens % word32 in
        elim (Bool-cases (code shim tokens b == 0)) [
          | inl zero_code ↦ rw zero_code (
              sym (
                places.placed b.handle tokens n b.n_past
                  ((==_iff (code shim tokens b) 0).0 zero_code)))
          | inr failed ↦ rw failed (
              same
              ∙ sym (
                  places.kept b.handle tokens n b.n_past
                    (λ e. cc ((==_iff (code shim tokens b) 0).1 e, failed))))
        ]

    new-position :
        (cfg : BackendConfig) {b : LlamaCppBackend Ctx}
        → new shim s cfg ≡ ok b
        → b.n_past ≡ position b.handle
    unfolding new
    new-position cfg {b} e = elim (Option-cases (nul_position (as_bytes cfg.model_path) 0)) [
      | inr (i, nul) ↦ cc (rw (new, nul) at e)
      | inl no_nul ↦
          let load =
            shim.load_model cfg.model_path cfg.n_gpu_layers cfg.n_ctx cfg.enable_embeddings in
          elim (Option-cases load) [
            | inl failed ↦ cc (rw (new, no_nul, failed) at e)
            | inr (handle, loaded) ↦
                let same = ok_unique refl (rw (new, no_nul, loaded) at e) in
                ap (λ (t : LlamaCppBackend Ctx). t.n_past) (sym same)
                ∙ sym (places.loaded loaded)
                ∙ ap (λ (t : LlamaCppBackend Ctx). position t.handle) same
          ]
    ]

    -- A backend that `new` returned, after any number of inferences, whatever each returned, has the
    -- position of its context as `n_past`, if llama.cpp places the tokens of a batch that it decodes
    -- from `n_past` on, and leaves the context as it was where it does not. The numbers of the model,
    -- its family and its fingerprint are still those of the backend that `new` returned. A further
    -- inference ends in one of four ways. If its decoding returns 0: a snapshot with the position after
    -- it and one logit for each word of the vocabulary, an error where there are no logits, or a panic,
    -- which needs a cache and a model without heads. If not: an error that names what it returned.
    pub life_invariant :
        (cfg : BackendConfig) {b b' : LlamaCppBackend Ctx}
        → new shim s cfg ≡ ok b
        → Infers b b'
        → (tokens : List ℕ)
        → (b'.n_past ≡ position b'.handle)
          × (extractor b' ≡ extractor b)
          × Ending (code shim tokens b') (infer shim tokens b').1 (infer shim tokens b').0
    life_invariant cfg made start tokens = (new-position cfg made, refl, infer-Ending tokens _)
    life_invariant cfg made (next {b'} before steps) tokens =
        let (position, same, ending) = life_invariant cfg made steps tokens in
        (
          infer-position before b' position,
          infer-extractor before b' ∙ same,
          infer-Ending tokens (infer shim before b').1,
        )
