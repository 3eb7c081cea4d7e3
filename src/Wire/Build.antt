-- ===== src/Wire/Build.antt =====
-- Writing a packet into a message: `packet_to_bytes` of src/primitives.rs.
use aptp.Prelude.{ℕ, zero, suc, ◌+◌, ◌%◌, ◌^◌, List, [], ◌∷◌, length, replicate, ltb, if◌then◌else◌}
use aptp.Float.{Float, zero_f32}
use aptp.Error.{CapnpError, Result, ok, panic, AptpError, rpc, map_err, ◌>>=◌}
use aptp.Primitives.{
  PrimitivePacket, PrimitivePayload, hidden_state, kv_cache, latent_thought, word32,
}
use aptp.Wire.{PrimitiveMessage, PacketMessage}

-- One more than the largest number of elements of a Cap'n Proto list.
abbrev pub max_elements : ℕ
max_elements = 2 ^ 29

module _ {ℓ} {A : Type ℓ} {E : Type 0} where
  -- `list.set(i, v)`, which asserts that the index is in range.
  unfoldable pub set_at : List A → ℕ → A → Result E (List A)
  set_at [] i v = panic
  set_at (x ∷ xs) zero v = ok (v ∷ xs)
  set_at (x ∷ xs) (suc i) v = do rest ← set_at xs i v; ok (x ∷ rest)

  -- `for (i, &v) in values.iter().enumerate() { list.set(i as u32, v); }`, from index `i` on
  unfoldable pub fill_from : ℕ → List A → List A → Result E (List A)
  fill_from i [] list = ok list
  fill_from i (v ∷ vs) list = do next ← set_at list (i % word32) v; fill_from (i + 1) vs next

  -- `init_…(values.len() as u32)`, whose elements are `blank`, and then the loop. Cap'n Proto counts a
  -- list's elements in 29 bits, and its builder asserts that they suffice.
  unfoldable pub write_list : A → List A → Result E (List A)
  write_list blank values =
      let size = length values % word32 in
      if ltb size max_elements then fill_from 0 values (replicate size blank) else panic

-- `set_…(&bytes)`, which asserts the length of the bytes as that of a list.
unfoldable pub write_data : {E : Type 0} → List ℕ → Result E (List ℕ)
write_data bytes = if ltb (length bytes) max_elements then ok bytes else panic

module _ {F : Type 0} ⦃f : Float F⦄ where
  unfoldable pub write_payload : PrimitivePayload F → Result (AptpError F) (PrimitiveMessage F)
  write_payload (hidden_state v) = do
    list ← write_list zero_f32 v
    ok (PrimitiveMessage.hidden_state list)
  write_payload (latent_thought v) = do
    list ← write_list zero_f32 v
    ok (PrimitiveMessage.latent_thought list)
  write_payload (kv_cache kv) = do
    keys ← write_list zero_f32 kv.keys
    vals ← write_list zero_f32 kv.values
    dims ← write_list 0 kv.shape.dims
    ok (
        PrimitiveMessage.kv_cache
          (record { layer_idx = kv.layer_idx; keys = keys; values = vals; dims = dims }))

  -- The message that `packet_to_bytes` builds.
  unfoldable pub write_packet : PrimitivePacket F → Result (AptpError F) (PacketMessage F)
  write_packet packet = do
    fingerprint ← write_data packet.model_fingerprint
    primitive ← write_payload packet.payload
    dims ← write_list 0 packet.shape.dims
    ok (record {
      version = packet.version;
      sender_id = packet.sender_id;
      model_fingerprint = fingerprint;
      layer_index = packet.layer_index;
      primitive = primitive;
      dims = dims;
      metadata = record {
        timestamp_ns = packet.metadata.timestamp_ns;
        sequence_id = packet.metadata.sequence_id;
        session_id = packet.metadata.session_id;
        compression_alg = packet.metadata.compression_alg;
      };
    })

  -- `write_message` is `serialize_packed::write_message` into an empty buffer.
  unfoldable pub packet_to_bytes :
      (write_message : PacketMessage F → Result CapnpError (List ℕ))
      → PrimitivePacket F
      → Result (AptpError F) (List ℕ)
  packet_to_bytes write_message packet = do
    message ← write_packet packet
    map_err rpc (write_message message)
