-- ===== src/UnitTests/Tagged.antt =====
-- The test of src/primitives.rs.
use aptp.Prelude.{
  ℕ, ◌≡◌, refl, ap, ◌≢◌, not, Option, List, [], ◌∷◌, replicate, Bool-cases, inl, inr,
}
use aptp.Float.{Float, IsFourBytes, zero_f32}
use aptp.Error.{Result, ok, panic, AptpError, ◌>>=◌, ◌>>◌}
use aptp.Primitives.{PrimitivePacket, PrimitivePayload, hidden_state, version_number, new_now}
use aptp.Primitives.Provenance.{Sha256, IsStreaming, new, verify_provenance}
use aptp.Primitives.Provenance.Coverage.{
  hashed, digest, forge, verify_provenance-new, verify_provenance_exact,
}
use aptp.UnitTests.{assert}

module _ {F : Type 0} where
  first_or : F → List F → F
  first_or x [] = x
  first_or x (y ∷ v) = y

  -- `v[0] = x`, which panics on an empty vector.
  set_first : F → List F → Result (AptpError F) (List F)
  set_first x [] = panic
  set_first x (y ∷ v) = ok (x ∷ v)

  set_hidden : F → PrimitivePayload F → Result (AptpError F) (PrimitivePayload F)
  unfolding set_first
  set_hidden x (hidden_state v) = do v' ← set_first x v; ok (hidden_state v')
  set_hidden x payload = panic

module _ {F H : Type 0} ⦃f : Float F⦄ (s : Sha256 H) (clock : Option ℕ) where
  abbrev packet_of_halves : PrimitivePacket F
  packet_of_halves = record {
    version = version_number;
    sender_id = "test-agent";
    model_fingerprint = replicate 32 171;
    layer_index = 8;
    payload = hidden_state (replicate 128 (f.literal 1 2));
    shape = record { dims = 1 ∷ 1 ∷ 128 ∷ [] };
    metadata = new_now clock "test-session" 0;
  }

  test_tagged_primitive_provenance_roundtrip : Result (AptpError F) (Unit {0})
  unfolding set_hidden
  test_tagged_primitive_provenance_roundtrip = do
    let packet = packet_of_halves
    let tagged = new s packet (f.literal 9 10)
    assert (verify_provenance s tagged)
    payload ← set_hidden (f.sub zero_f32 (f.literal 99 1)) packet.payload
    let forged_tagged = forge tagged (record packet { payload = payload })
    assert (not (verify_provenance s forged_tagged))

  module _ (streaming : IsStreaming s) (wide : IsFourBytes F)
      (to_bytes-injective : (x y : F) → f.to_bytes x ≡ f.to_bytes y → x ≡ y) where
    abbrev changed : F
    changed = f.sub zero_f32 (f.literal 99 1)

    abbrev forged : PrimitivePacket F
    forged = record packet_of_halves {
      payload = hidden_state (changed ∷ replicate 127 (f.literal 1 2));
    }

    -- The test passes, if 0.5 and -99.0 are not the same and the hash does not collide on the two packets.
    provenance_roundtrip_passes :
        changed ≢ f.literal 1 2
        → (digest s (hashed forged) ≡ digest s (hashed packet_of_halves)
            → hashed forged ≡ hashed packet_of_halves)
        → test_tagged_primitive_provenance_roundtrip ≡ ok tt
    unfolding test_tagged_primitive_provenance_roundtrip first_or
    provenance_roundtrip_passes differ no_collision =
        let tag = new s packet_of_halves (f.literal 9 10) in
        elim (Bool-cases (verify_provenance s (forge tag forged))) [
          | inr refused ↦
              rw (verify_provenance-new s packet_of_halves (f.literal 9 10), refused) refl
          | inl verified ↦
              let same =
                (verify_provenance_exact s streaming packet_of_halves forged (f.literal 9 10) wide
                    to_bytes-injective no_collision refl refl).0
                  verified in
              absurd (differ (ap (first_or changed) same))
        ]
