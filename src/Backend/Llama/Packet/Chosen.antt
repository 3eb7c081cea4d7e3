-- ===== src/Backend/Llama/Packet/Chosen.antt =====
-- What a packet made from a snapshot carries.
use aptp.Prelude.{
  ℕ, zero, suc, ◌+◌, ◌-◌, ◌≤◌, ◌<◌, ◌≡◌, refl, ap, sym, ◌∙◌, ◌⊎◌, ◌↔◌, String, Option, none, some,
  List, [], ◌∷◌, length, get_elem?, min, arith,
}
use aptp.Error.{ok}
use aptp.Primitives.{
  KvCache, PrimitivePacket, PrimitivePayload, hidden_state, kv_cache, latent_thought,
  version_number, new_now, element_count, word32,
}
use aptp.Backend.{InferenceSnapshot, PrimitiveExtractor}
use aptp.Backend.Llama.Packet.{index, choose_payload, dims_of, snapshot_to_packet}

-- The cache, if there is one; else the state of the layer asked for, or of the last one that there is;
-- else the logits.
pub data Chosen {F : Type 0} (snapshot : InferenceSnapshot F) (layer_index : ℕ)
    : PrimitivePayload F → Type 0 where
  cache :
      (kv : KvCache F)
      → snapshot.kv_cache_layer ≡ some kv
      → Chosen snapshot layer_index (kv_cache kv)
  layer :
      snapshot.kv_cache_layer ≡ none
      → (i : ℕ) (state : List F) → get_elem? snapshot.hidden_states i ≡ some state
      → (i ≡ layer_index) ⊎ ((i ≤ layer_index) × (i + 1 ≡ length snapshot.hidden_states))
      → Chosen snapshot layer_index (hidden_state state)
  logits :
      snapshot.kv_cache_layer ≡ none
      → snapshot.hidden_states ≡ []
      → Chosen snapshot layer_index (latent_thought snapshot.logits)

get_elem-in : {A : Type 0} (v : List A) (i : ℕ) → i < length v → (x : A) × (get_elem? v i ≡ some x)
get_elem-in [] i h = absurd (omega arith)
get_elem-in (x ∷ v) zero h = (x, refl)
get_elem-in (x ∷ v) (suc i) h = get_elem-in v i (omega arith)

module _ {F : Type 0} where
  pub choose_payload-Chosen :
      (snapshot : InferenceSnapshot F) (o : Option (KvCache F)) (states : List (List F))
      (layer_index : ℕ)
      → snapshot.kv_cache_layer ≡ o
      → snapshot.hidden_states ≡ states
      → (payload : PrimitivePayload F) × (choose_payload o states snapshot.logits layer_index
          ≡ ok payload)
        × Chosen snapshot layer_index payload
  unfolding choose_payload index
  choose_payload-Chosen snapshot (some kv) states layer_index eo es =
      (kv_cache kv, refl, cache kv eo)
  choose_payload-Chosen snapshot none [] layer_index eo es =
      (latent_thought snapshot.logits, refl, logits eo es)
  choose_payload-Chosen snapshot none (s ∷ states) layer_index eo es =
      let all = s ∷ states in
      let i = min layer_index (length all - 1) in
      let (state, found) = get_elem-in all i (omega arith) in
      let edge : (i ≡ layer_index) ⊎ ((i ≤ layer_index) × (i + 1 ≡ length all)) = omega arith in
      (hidden_state state, rw (found, index) refl, layer eo i state (rw es found) (rw es edge))

  -- Every snapshot makes a packet for the session given, without a panic, for every layer index:
  -- with the cache if there is one, else with the state of that layer or of the last one, and else
  -- with the logits.
  pub snapshot_to_packet-Chosen :
      (clock : Option ℕ) (snapshot : InferenceSnapshot F) (backend : PrimitiveExtractor)
      (sender_id session_id : String) (sequence_id layer_index : ℕ)
      → (p : PrimitivePacket F) × (snapshot_to_packet clock snapshot backend sender_id session_id
            sequence_id layer_index
          ≡ ok p)
        × Chosen snapshot layer_index p.payload
        × (p.metadata.session_id ≡ session_id)
  unfolding snapshot_to_packet aptp.Primitives.new_now
  snapshot_to_packet-Chosen clock snapshot backend sender_id session_id sequence_id layer_index =
      let (payload, chosen, why) =
        choose_payload-Chosen snapshot snapshot.kv_cache_layer snapshot.hidden_states layer_index
          refl refl in
      (
        record {
          version = version_number;
          sender_id = sender_id;
          model_fingerprint = backend.model_fingerprint;
          layer_index = layer_index;
          payload = payload;
          shape = record { dims = dims_of backend.hidden_size payload };
          metadata = new_now clock session_id sequence_id;
        },
        rw chosen refl,
        why,
        refl,
      )

  -- A packet that is made from a snapshot without a cache and hidden states carries the logits, and
  -- its shape has as many elements exactly when the hidden size, which is a `u32`, is their number.
  pub latent_shape :
      (clock : Option ℕ) (snapshot : InferenceSnapshot F) (backend : PrimitiveExtractor)
      (sender_id session_id : String) (sequence_id layer_index : ℕ) {p : PrimitivePacket F}
      → snapshot.kv_cache_layer ≡ none
      → snapshot.hidden_states ≡ []
      → backend.hidden_size < word32
      → snapshot_to_packet clock snapshot backend sender_id session_id sequence_id layer_index
        ≡ ok p
      → (p.payload ≡ latent_thought snapshot.logits)
        × ((element_count p.shape ≡ length snapshot.logits)
            ↔ (backend.hidden_size ≡ length snapshot.logits))
  unfolding snapshot_to_packet choose_payload element_count
  latent_shape clock snapshot backend sender_id session_id sequence_id layer_index {p} no_cache
        no_states small e =
      let made : PrimitivePacket F = record {
        version = version_number;
        sender_id = sender_id;
        model_fingerprint = backend.model_fingerprint;
        layer_index = layer_index;
        payload = latent_thought snapshot.logits;
        shape = record { dims = 1 ∷ backend.hidden_size ∷ [] };
        metadata = new_now clock session_id sequence_id;
      } in
      let chosen : choose_payload snapshot.kv_cache_layer snapshot.hidden_states snapshot.logits
            layer_index
          ≡ ok (latent_thought snapshot.logits) =
        rw (no_cache, no_states) refl in
      let same : made ≡ p = cc (rw chosen at e) in
      let count : element_count made.shape ≡ backend.hidden_size = omega arith in
      let count : element_count p.shape ≡ backend.hidden_size =
        ap (λ (q : PrimitivePacket F). element_count q.shape) (sym same) ∙ count in
      (ap (λ (q : PrimitivePacket F). q.payload) (sym same), (λ h. sym count ∙ h, λ h. count ∙ h))
