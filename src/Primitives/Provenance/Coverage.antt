-- ===== src/Primitives/Provenance/Coverage.antt =====
-- What the provenance hash covers: the sender and the fingerprint, run together, and the first 256
-- floats of a vector or the first 64 keys of a cache.
pub mod Bytes
mod Tests
use mathlib.Core.List.{append_cancel_left}
use Bytes.{bytes_eq_iff, raw_parts-eq-memory, memory-injective}
use aptp.Prelude.{ℕ, ◌≡◌, ap, ◌∙◌, sym, refl, ◌↔◌, true, List, ◌++◌, take, as_bytes}
use aptp.Float.{Float, IsFourBytes}
use aptp.Primitives.{
  PrimitivePacket, PrimitivePayload, hidden_state, kv_cache, latent_thought, TaggedPrimitive,
}
use aptp.Primitives.Provenance.{
  Sha256, IsStreaming, memory, payload_bytes, provenance_hash, new, verify_provenance,
}

-- The floats whose bytes are hashed.
abbrev pub covered : {F : Type 0} → PrimitivePayload F → List F
covered (hidden_state v) = take 256 v
covered (latent_thought v) = take 256 v
covered (kv_cache kv) = take 64 kv.keys

-- All the bytes that are hashed.
abbrev pub hashed : {F : Type 0} ⦃f : Float F⦄ → PrimitivePacket F → List ℕ
hashed p = (as_bytes p.sender_id ++ p.model_fingerprint) ++ payload_bytes p.payload

-- The packet in a tag, replaced.
abbrev pub forge : {F : Type 0} → TaggedPrimitive F → PrimitivePacket F → TaggedPrimitive F
forge tagged q = record tagged { payload = q }

payload_bytes-eq-memory :
    {F : Type 0} ⦃f : Float F⦄
    → IsFourBytes F
    → (p : PrimitivePayload F) → payload_bytes p ≡ memory (covered p)
unfolding payload_bytes
payload_bytes-eq-memory wide (hidden_state v) = raw_parts-eq-memory wide 256 v
payload_bytes-eq-memory wide (latent_thought v) = raw_parts-eq-memory wide 256 v
payload_bytes-eq-memory wide (kv_cache kv) = raw_parts-eq-memory wide 64 kv.keys

abbrev pub digest : {H : Type 0} → Sha256 H → List ℕ → List ℕ
digest s bytes = s.finalize (s.update s.new bytes)

module _ {F H : Type 0} ⦃f : Float F⦄ (s : Sha256 H) where
  provenance_hash-eq-digest :
      IsStreaming s → (p : PrimitivePacket F) → provenance_hash s p ≡ digest s (hashed p)
  unfolding provenance_hash
  provenance_hash-eq-digest streaming p =
      let sender = as_bytes p.sender_id in
      let front = streaming.update-append s.new sender p.model_fingerprint in
      let whole =
        streaming.update-append s.new (sender ++ p.model_fingerprint) (payload_bytes p.payload) in
      ap s.finalize (ap (λ (h : H). s.update h (payload_bytes p.payload)) front ∙ whole)

  -- A tag that `new` makes always verifies, whatever the packet, the score and the hash function.
  pub verify_provenance-new :
      (p : PrimitivePacket F) (score : F) → verify_provenance s (new s p score) ≡ true
  unfolding verify_provenance new
  verify_provenance-new p score = (bytes_eq_iff (provenance_hash s p) _).1 refl

  module _ (streaming : IsStreaming s) (p q : PrimitivePacket F) (score : F) where
    -- With the packet replaced, the tag verifies exactly when the two hashes agree.
    verify_provenance-forge :
        (verify_provenance s (forge (new s p score) q) ≡ true)
        ↔ (digest s (hashed q) ≡ digest s (hashed p))
    unfolding verify_provenance new
    verify_provenance-forge =
        rw (← provenance_hash-eq-digest streaming p, ← provenance_hash-eq-digest streaming q)
          (bytes_eq_iff _ _)

    module _ (wide : IsFourBytes F)
        (to_bytes-injective : (x y : F) → f.to_bytes x ≡ f.to_bytes y → x ≡ y)
        (no_collision : digest s (hashed q) ≡ digest s (hashed p) → hashed q ≡ hashed p) where
      -- Take a tag made for `p` and put `q`, of the same sender and fingerprint, in its place. If
      -- the hash does not collide on the two, the tag verifies exactly when the covered floats
      -- agree: the first 256 of a vector, or the first 64 keys of a cache.
      pub verify_provenance_exact :
          q.sender_id ≡ p.sender_id
          → q.model_fingerprint ≡ p.model_fingerprint
          → (verify_provenance s (forge (new s p score) q) ≡ true)
            ↔ (covered q.payload ≡ covered p.payload)
      verify_provenance_exact sender fingerprint = (
        λ h.
            let same = no_collision (verify_provenance-forge.0 h) in
            let same = rw (sender, fingerprint) at same in
            let same = append_cancel_left _ _ _ same in
            memory-injective wide to_bytes-injective _ _ (
              sym (payload_bytes-eq-memory wide q.payload)
              ∙ same
              ∙ payload_bytes-eq-memory wide p.payload),
        λ h. verify_provenance-forge.1 (
            rw (
              sender,
              fingerprint,
              payload_bytes-eq-memory wide q.payload,
              payload_bytes-eq-memory wide p.payload,
              h,
            )),
      )
