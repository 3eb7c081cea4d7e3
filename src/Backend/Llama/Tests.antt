-- ===== src/Backend/Llama/Tests.antt =====
-- A shim with a cache, over a context that counts its decodings.
use aptp.Prelude.{
  ℕ, ◌≡◌, ◌≢◌, refl, ◌↔◌, ◌+◌, ◌%◌, true, none, some, List, [], ◌∷◌, ◌==◌, as_bytes, length,
  if◌then◌else◌, arith,
}
use mathlib.Core.List.{append_assoc}
use aptp.Float.{Fixed}
use aptp.Error.{ok, panic}
use aptp.Primitives.{PrimitivePacket, latent_thought, element_count, word32}
use aptp.Primitives.Provenance.{IsStreaming}
use aptp.Samples.{transcript}
use aptp.Backend.{InferenceSnapshot, new_no_hidden}
use aptp.Config.{BackendConfig}
use aptp.Backend.Llama.{
  Shim, LlamaCppBackend, compute_model_fingerprint, new, drop, infer, extractor,
}
use aptp.Backend.Llama.Infer.{code, HasCache, code, context, infer_exact}
use aptp.Backend.Llama.Life.{IsPlacing, start, next, Ending, life_invariant}
use aptp.Backend.Llama.Fingerprint.{fingerprint_exact}
use aptp.Backend.Llama.Packet.{snapshot_to_packet}
use aptp.Backend.Llama.Packet.Chosen.{Chosen, snapshot_to_packet-Chosen, latent_shape}

abbrev patched : Shim Fixed ℕ
patched = record {
  load_model = λ path layers n_ctx embeddings. some 0;
  free_model = λ c. 0;
  n_vocab = λ c. 2;
  n_embd = λ c. 4;
  n_layer = λ c. 2;
  n_head = λ c. 0;
  n_ctx = λ c. 64;
  model_family = λ c. none;
  decode = λ c tokens n past. (0, c + 1);
  get_logits = λ c. some some;
  get_embedding = λ c pos. none;
  get_hidden_state = λ c layer pos. (some some, 3);
  get_kv_cache_keys = λ c layer. (some some, 2);
  get_kv_cache_values = λ c layer. (some some, 2);
}

abbrev backend_with : ℕ → LlamaCppBackend ℕ
backend_with heads = record {
  handle = 0;
  n_vocab = 2;
  n_embd = 4;
  n_layer = 2;
  n_head = heads;
  n_ctx = 64;
  family = "llama";
  fingerprint = [];
  n_past = 5;
  embeddings_on = true;
}

abbrev tokens : List ℕ
tokens = 7 ∷ 8 ∷ 9 ∷ []

abbrev no_heads : ℕ
no_heads = 0

infer_exact_example :
    (((infer patched tokens (backend_with no_heads)).0 ≡ panic) ↔ (
      (code patched tokens (backend_with no_heads) ≡ 0)
      × (patched.get_logits (context patched tokens (backend_with no_heads)) ≢ none)
      × HasCache patched (context patched tokens (backend_with no_heads)) 2
      × (no_heads ≡ 0)))
    × ((infer patched tokens (backend_with no_heads)).1.n_past ≡ (
        if code patched tokens (backend_with no_heads) == 0
        then (5 + length tokens % word32) % word32
        else 5))
infer_exact_example = infer_exact patched tokens (backend_with no_heads)

abbrev snapshot : InferenceSnapshot Fixed
snapshot = record {
  n_past = 8;
  logits = some 0 ∷ some 1 ∷ [];
  hidden_states = (some 0 ∷ some 1 ∷ some 2 ∷ []) ∷ (some 0 ∷ some 1 ∷ some 2 ∷ []) ∷ [];
  kv_cache_layer = some (record {
    layer_idx = 1;
    keys = some 0 ∷ some 1 ∷ [];
    values = some 0 ∷ some 1 ∷ [];
    shape = record { dims = 1 ∷ 2 ∷ 8 ∷ 2 ∷ [] };
  });
}

inferred : (infer patched tokens (backend_with 2)).0 ≡ ok snapshot
unfolding infer
inferred = refl

-- A context that is its position: it refuses an empty batch, and has no cache.
abbrev placing : Shim Fixed ℕ
placing = record patched {
  n_head = λ c. 2;
  decode = λ c tokens n n_past. if n == 0 then (1, c) else (0, (n_past + n) % word32);
  get_kv_cache_keys = λ c layer. (none, 0);
}

placing-IsPlacing : IsPlacing placing (λ c. c)
placing-IsPlacing = record {
  loaded = λ e. cc;
  placed = λ c tokens n n_past. ground arith;
  kept = λ c tokens n n_past. ground arith;
}

abbrev backend_config : BackendConfig
backend_config = record {
  model_path = "a.gguf";
  n_gpu_layers = 0;
  n_ctx = 64;
  enable_embeddings = true;
}

abbrev loaded : LlamaCppBackend ℕ
loaded = record (backend_with 2) {
  family = "unknown";
  fingerprint = compute_model_fingerprint transcript "a.gguf" 2 4 2 2;
  n_past = 0;
}

new_loaded : new placing transcript backend_config ≡ ok loaded
unfolding new aptp.Backend.Llama.nul_position as_bytes
new_loaded = refl

-- Three tokens, and none, which is refused.
abbrev after : LlamaCppBackend ℕ
after = (infer placing [] (infer placing tokens loaded).1).1

life_invariant_example :
    (after.n_past ≡ after.handle)
    × (extractor after ≡ extractor loaded)
    × Ending placing
        (code placing tokens after)
        (infer placing tokens after).1
        (infer placing tokens after).0
life_invariant_example =
    life_invariant placing transcript (λ c. c) placing-IsPlacing backend_config new_loaded
      (next [] (next tokens start)) tokens

released : drop placing after ≡ 0
unfolding drop
released = refl

abbrev layers : InferenceSnapshot Fixed
layers = record snapshot { kv_cache_layer = none }

snapshot_to_packet-Chosen_example :
    (p : PrimitivePacket Fixed) × (snapshot_to_packet none layers
        (extractor (backend_with 2))
        "agent"
        "s-1"
        0
        16
      ≡ ok p)
    × Chosen layers 16 p.payload
    × (p.metadata.session_id ≡ "s-1")
unfolding extractor
snapshot_to_packet-Chosen_example =
    snapshot_to_packet-Chosen none layers (extractor (backend_with 2)) "agent" "s-1" 0 16

transcript-IsStreaming : IsStreaming transcript
transcript-IsStreaming = record { update-append = append_assoc }

abbrev words : ℕ
words = 32_000

abbrev width : ℕ
width = 4096

abbrev many : ℕ
many = 32

fingerprint_exact_example :
    (compute_model_fingerprint transcript "a.gguf" words width many many
      ≡ compute_model_fingerprint transcript "b.gguf" words width many many)
    ↔ ((as_bytes "a.gguf" ≡ as_bytes "b.gguf")
        × (words ≡ words)
        × (width ≡ width)
        × (many ≡ many)
        × (many ≡ many))
fingerprint_exact_example =
    fingerprint_exact transcript transcript-IsStreaming "a.gguf" "b.gguf" words words width width
      many many many many (λ e. e) (omega arith, omega arith) (omega arith, omega arith)
      (omega arith, omega arith) (omega arith, omega arith)

abbrev only_logits : InferenceSnapshot Fixed
only_logits = new_no_hidden 8 (some 0 ∷ some 1 ∷ [])

abbrev latent_packet : PrimitivePacket Fixed
latent_packet = record {
  version = 1;
  sender_id = "agent";
  model_fingerprint = [];
  layer_index = 16;
  payload = latent_thought (some 0 ∷ some 1 ∷ []);
  shape = record { dims = 1 ∷ 4 ∷ [] };
  metadata = record {
    timestamp_ns = 0;
    sequence_id = 0;
    session_id = "s-1";
    compression_alg = "none";
  };
}

latent_made :
    snapshot_to_packet none only_logits (extractor (backend_with 2)) "agent" "s-1" 0 16
    ≡ ok latent_packet
unfolding snapshot_to_packet aptp.Primitives.new_now aptp.Primitives.unix_nanos extractor
    new_no_hidden
latent_made = refl

latent_shape_example :
    (latent_packet.payload ≡ latent_thought only_logits.logits)
    × ((element_count latent_packet.shape ≡ length only_logits.logits)
        ↔ ((extractor (backend_with 2)).hidden_size ≡ length only_logits.logits))
unfolding extractor new_no_hidden
latent_shape_example =
    latent_shape none only_logits (extractor (backend_with 2)) "agent" "s-1" 0 16 refl refl
      (omega arith) latent_made
