-- ===== src/Backend/Llama.antt =====
-- src/backend/llama.rs: the backend over llama.cpp. The C shim is a parameter, with the state `Ctx`
-- behind its handle. A `c_int` is a word below 2^32, negative from 2^31 on, so that `as u32` keeps
-- it. A pointer to floats is the memory from it on, or null.
pub mod Infer
pub mod Life
pub mod Fingerprint
pub mod Packet
mod Tests
use aptp.Prelude.{
  ℕ, zero, suc, ◌+◌, ◌-◌, ◌/◌, ◌%◌, ◌^◌, String, ◌<>◌, show_nat, as_bytes, Bool, true, false,
  Option, none, some, List, [], ◌∷◌, ◌==◌, ◌||◌, leb, length, if◌then◌else◌,
}
use aptp.Error.{Result, ok, err, panic, AptpError, config, internal, ◌>>=◌}
use aptp.Config.{BackendConfig}
use aptp.Primitives.{KvCache, word32}
use aptp.Primitives.Provenance.{Sha256}
use aptp.Backend.{InferenceSnapshot, PrimitiveExtractor}

abbrev pub Pointer : Type 0 → Type 0
Pointer F = Option (ℕ → F)

pub record Shim (F Ctx : Type 0) : Type 0 where
  pub load_model : (path : String) (n_gpu_layers n_ctx : ℕ) (enable_embeddings : Bool) → Option Ctx
  pub free_model : Ctx → Ctx
  pub n_vocab : Ctx → ℕ
  pub n_embd : Ctx → ℕ
  pub n_layer : Ctx → ℕ
  pub n_head : Ctx → ℕ
  pub n_ctx : Ctx → ℕ
  -- null, or the text, which may not be UTF-8
  pub model_family : Ctx → Option (Result String String)
  pub decode : Ctx → (tokens : List ℕ) (n_tokens n_past : ℕ) → ℕ × Ctx
  pub get_logits : Ctx → Pointer F
  pub get_embedding : Ctx → (pos : ℕ) → Pointer F
  -- with `out_n`
  pub get_hidden_state : Ctx → (layer_id pos : ℕ) → Pointer F × ℕ
  pub get_kv_cache_keys : Ctx → (layer_id : ℕ) → Pointer F × ℕ
  pub get_kv_cache_values : Ctx → (layer_id : ℕ) → Pointer F × ℕ

pub record LlamaCppBackend (Ctx : Type 0) : Type 0 where
  pub handle : Ctx
  pub n_vocab : ℕ
  pub n_embd : ℕ
  pub n_layer : ℕ
  pub n_head : ℕ
  pub n_ctx : ℕ
  pub family : String
  pub fingerprint : List ℕ
  pub n_past : ℕ
  pub embeddings_on : Bool

-- A `c_int` below zero.
unfoldable pub negative : ℕ → Bool
negative n = leb (2 ^ 31) n

unfoldable pub show_int : ℕ → String
unfolding negative
show_int n = if negative n then "-" <> show_nat (2 ^ 32 - n) else show_nat n

-- `std::slice::from_raw_parts(ptr, n).to_vec()`, from index `i` on
unfoldable pub from_raw_parts : {F : Type 0} → (ℕ → F) → (n i : ℕ) → List F
from_raw_parts ptr zero i = []
from_raw_parts ptr (suc n) i = ptr i ∷ from_raw_parts ptr n (i + 1)

-- `to_le_bytes` of a `u32`
unfoldable pub to_le_bytes : ℕ → List ℕ
to_le_bytes n = n % 256 ∷ n / 256 % 256 ∷ n / 65_536 % 256 ∷ n / 16_777_216 % 256 ∷ []

unfoldable pub compute_model_fingerprint :
    {H : Type 0} → Sha256 H → (path : String) (n_vocab n_embd n_layer n_head : ℕ) → List ℕ
compute_model_fingerprint s path n_vocab n_embd n_layer n_head =
    let h = s.update s.new (as_bytes path) in
    let h = s.update h (to_le_bytes n_vocab) in
    let h = s.update h (to_le_bytes n_embd) in
    let h = s.update h (to_le_bytes n_layer) in
    let h = s.update h (to_le_bytes n_head) in s.finalize h

-- The first zero byte, which `CString::new` refuses.
unfoldable pub nul_position : List ℕ → ℕ → Option ℕ
nul_position [] i = none
nul_position (b ∷ bytes) i =
    let rest = nul_position bytes (i + 1) in if b == 0 then some i else rest

unfoldable pub family_text : Option (Result String String) → String
family_text (some (ok t)) = t
family_text _ = "unknown"

module _ {F Ctx H : Type 0} (shim : Shim F Ctx) (s : Sha256 H) where
  unfoldable pub new : BackendConfig → Result (AptpError F) (LlamaCppBackend Ctx)
  unfolding family_text
  new cfg = elim (nul_position (as_bytes cfg.model_path) 0) [
    | some i ↦ err (
        config (
          "model path contains null byte: nul byte found in provided data at position: "
          <> show_nat i))
    | none ↦
        elim (shim.load_model cfg.model_path cfg.n_gpu_layers cfg.n_ctx cfg.enable_embeddings) [
          | none ↦ err (config ("failed to load model from '" <> cfg.model_path <> "'"))
          | some handle ↦ ok (record {
            handle = handle;
            n_vocab = shim.n_vocab handle;
            n_embd = shim.n_embd handle;
            n_layer = shim.n_layer handle;
            n_head = shim.n_head handle;
            n_ctx = shim.n_ctx handle;
            family = family_text (shim.model_family handle);
            fingerprint =
                compute_model_fingerprint s cfg.model_path (shim.n_vocab handle)
                  (shim.n_embd handle) (shim.n_layer handle) (shim.n_head handle);
            n_past = 0;
            embeddings_on = cfg.enable_embeddings;
          })
        ]
  ]

module _ {F Ctx : Type 0} (shim : Shim F Ctx) where
  -- `Drop`: the state behind the handle, which `new` never leaves null, is released.
  unfoldable pub drop : LlamaCppBackend Ctx → Ctx
  drop b = shim.free_model b.handle

  -- The floats behind a pointer and its `out_n`, unless it is null or `out_n <= 0`.
  unfoldable pub read_out : Pointer F × ℕ → Option (List F)
  unfolding negative from_raw_parts
  read_out (none, n) = none
  read_out (some ptr, n) = if (n == 0) || negative n then none else some (from_raw_parts ptr n 0)

  unfoldable pub push_state : Option (List F) → List (List F) → List (List F)
  push_state none rest = rest
  push_state (some state) rest = state ∷ rest

  -- The loop over the layers, with `left` to go.
  unfoldable pub layer_states : LlamaCppBackend Ctx → (token_pos left layer : ℕ) → List (List F)
  unfolding read_out push_state
  layer_states b token_pos zero layer = []
  layer_states b token_pos (suc left) layer =
      push_state (read_out (shim.get_hidden_state b.handle layer token_pos))
        (layer_states b token_pos left (layer + 1))

  unfoldable pub embedding : Bool → LlamaCppBackend Ctx → ℕ → Pointer F
  embedding false b token_pos = none
  embedding true b token_pos = shim.get_embedding b.handle token_pos

  unfoldable pub capture_hidden_states : LlamaCppBackend Ctx → ℕ → List (List F)
  unfolding layer_states embedding
  capture_hidden_states b token_pos = elim (embedding b.embeddings_on b token_pos) [
    | some ptr ↦ from_raw_parts ptr b.n_embd 0 ∷ []
    | none ↦ layer_states b token_pos (if negative b.n_layer then 0 else b.n_layer) 0
  ]

  unfoldable pub kv_of :
      Option (List F)
      → Option (List F)
      → LlamaCppBackend Ctx
      → Result (AptpError F) (Option (KvCache F))
  kv_of (some keys) (some values) b =
      if b.n_head == 0
      then panic
      else ok (
          some (record {
            layer_idx = (b.n_layer - 1) % 2 ^ 16;
            keys = keys;
            values = values;
            shape = record { dims = 1 ∷ b.n_head ∷ b.n_past ∷ b.n_embd / b.n_head ∷ [] };
          }))
  kv_of _ _ b = ok none

  -- The division by the number of heads panics on 0.
  unfoldable pub capture_kv_cache : LlamaCppBackend Ctx → Result (AptpError F) (Option (KvCache F))
  unfolding kv_of
  capture_kv_cache b =
      let last_layer = b.n_layer - 1 in
      kv_of (read_out (shim.get_kv_cache_keys b.handle last_layer))
        (read_out (shim.get_kv_cache_values b.handle last_layer)) b

  -- After a decoding that returned 0, with `n_past` advanced.
  unfoldable pub snapshot_of :
      Pointer F → (n_toks : ℕ) → LlamaCppBackend Ctx → Result (AptpError F) (InferenceSnapshot F)
  unfolding capture_hidden_states capture_kv_cache
  snapshot_of none n_toks b = err (internal "aptp_get_logits returned NULL")
  snapshot_of (some ptr) n_toks b = do
    let last_pos = (n_toks - 1) % word32
    kv ← capture_kv_cache b
    ok (record {
      n_past = b.n_past;
      logits = from_raw_parts ptr b.n_vocab 0;
      hidden_states = capture_hidden_states b last_pos;
      kv_cache_layer = kv;
    })

  unfoldable pub infer :
      List ℕ
      → LlamaCppBackend Ctx
      → Result (AptpError F) (InferenceSnapshot F) × LlamaCppBackend Ctx
  unfolding snapshot_of
  infer tokens b =
      let n_toks = length tokens in
      let (ret, ctx) = shim.decode b.handle tokens (n_toks % word32) b.n_past in
      let decoded = record b { handle = ctx } in
      let advanced = record decoded { n_past = (b.n_past + n_toks % word32) % word32 } in
      if ret == 0
      then (snapshot_of (shim.get_logits ctx) n_toks advanced, advanced)
      else (err (internal ("llama_decode returned " <> show_int ret)), decoded)

-- The getters of the trait.
unfoldable pub extractor : {Ctx : Type 0} → LlamaCppBackend Ctx → PrimitiveExtractor
extractor b = record {
  hidden_size = b.n_embd;
  num_layers = b.n_layer;
  num_heads = b.n_head;
  vocab_size = b.n_vocab;
  model_family = b.family;
  model_fingerprint = b.fingerprint;
}
