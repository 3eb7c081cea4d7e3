-- ===== src/Transport/Client/Request/Same.antt =====
-- The two places that build a packet's message.
use aptp.Prelude.{◌≡◌, refl}
use aptp.Float.{Float}
use aptp.Primitives.{PrimitivePacket, PrimitivePayload, hidden_state, kv_cache, latent_thought}
use aptp.Wire.Build.{write_payload, write_packet}
use aptp.Transport.Client.Request.{request_payload, request_packet}

module _ {F : Type 0} ⦃f : Float F⦄ where
  request_payload-eq-write_payload : (p : PrimitivePayload F) → request_payload p ≡ write_payload p
  unfolding request_payload write_payload
  request_payload-eq-write_payload (hidden_state v) = refl
  request_payload-eq-write_payload (latent_thought v) = refl
  request_payload-eq-write_payload (kv_cache kv) = refl

  -- The client's request carries the same message as `packet_to_bytes` writes, and panics on the
  -- same packets.
  pub request_packet-eq-write_packet : (p : PrimitivePacket F) → request_packet p ≡ write_packet p
  request_packet-eq-write_packet p =
      unfold request_packet write_packet in rw (request_payload-eq-write_payload p.payload)
