-- ===== src/Primitives/Provenance.antt =====
-- `provenance_hash` and `TaggedPrimitive` of src/primitives.rs. SHA-256 is the sha2 crate's: a
-- parameter, with its streaming law.
pub mod Coverage
use aptp.Prelude.{
  ℕ, ◌*◌, ◌≡◌, Bool, true, false, List, [], ◌∷◌, ◌++◌, min, length, take, as_bytes, ◌==◌, ◌&&◌,
}
use aptp.Float.{Float}
use aptp.Primitives.{
  PrimitivePacket, PrimitivePayload, hidden_state, kv_cache, latent_thought, TaggedPrimitive,
}

-- `Sha256::new`, `update` and `finalize`, over the hasher's state.
pub record Sha256 (H : Type 0) : Type 0 where
  pub new : H
  pub update : H → List ℕ → H
  pub finalize : H → List ℕ

-- Feeding a message in pieces is feeding it whole.
pub record IsStreaming {H : Type 0} (s : Sha256 H) : Type 0 where
  pub update-append : (h : H) (a b : List ℕ) → s.update (s.update h a) b ≡ s.update h (a ++ b)

-- Equality of byte vectors.
unfoldable pub bytes_eq : List ℕ → List ℕ → Bool
bytes_eq [] [] = true
bytes_eq [] (y ∷ ys) = false
bytes_eq (x ∷ xs) [] = false
bytes_eq (x ∷ xs) (y ∷ ys) = (x == y) && bytes_eq xs ys

module _ {F : Type 0} ⦃f : Float F⦄ where
  -- The memory of a vector of floats.
  abbrev pub memory : List F → List ℕ
  memory [] = []
  memory (x ∷ v) = f.to_bytes x ++ memory v

  -- `from_raw_parts(v.as_ptr() as *const u8, v.len().min(limit) * 4)`
  abbrev pub raw_parts : ℕ → List F → List ℕ
  raw_parts limit v = take (min (length v) limit * 4) (memory v)

  unfoldable pub payload_bytes : PrimitivePayload F → List ℕ
  payload_bytes (hidden_state v) = raw_parts 256 v
  payload_bytes (latent_thought v) = raw_parts 256 v
  payload_bytes (kv_cache kv) = raw_parts 64 kv.keys

module _ {F H : Type 0} ⦃f : Float F⦄ (s : Sha256 H) where
  unfoldable pub provenance_hash : PrimitivePacket F → List ℕ
  provenance_hash packet =
      let h = s.update s.new (as_bytes packet.sender_id) in
      let h = s.update h packet.model_fingerprint in
      let h = s.update h (payload_bytes packet.payload) in s.finalize h

  unfoldable pub new : PrimitivePacket F → F → TaggedPrimitive F
  new packet fairness_score = record {
    provenance_hash = provenance_hash packet;
    fairness_score = fairness_score;
    payload = packet;
  }

  unfoldable pub verify_provenance : TaggedPrimitive F → Bool
  unfolding bytes_eq
  verify_provenance tagged =
      let expected = provenance_hash tagged.payload in bytes_eq expected tagged.provenance_hash
