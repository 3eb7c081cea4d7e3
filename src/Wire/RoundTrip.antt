-- ===== src/Wire/RoundTrip.antt =====
-- Writing a list and a packet, and reading them back.
pub mod Lists
mod Tests
use Lists.{write_list-eq-ok, write_list-eq-panic, write_data-eq-ok, write_data-eq-panic}
use native.Mathlib.Decide.{dec_lt}
use aptp.Prelude.{ℕ, ◌≤◌, ◌<◌, ◌≡◌, refl, ◌⊎◌, inl, inr, arith, length}
use aptp.Float.{Float, zero_f32}
use aptp.Error.{ok, panic, ◌>>=◌, >>=-eq-ok}
use aptp.Primitives.{PrimitivePacket, PrimitivePayload, hidden_state, kv_cache, latent_thought}
use aptp.Wire.{PacketMessage, Capnp, IsFaithful, which_of, PrimitiveMessage}
use aptp.Wire.Build.{max_elements, write_payload, write_packet}
use aptp.Wire.Decode.{payload_from_capnp, packet_from_capnp}

-- The lengths that a list of Cap'n Proto can have.
abbrev pub PayloadFits : {F : Type 0} → PrimitivePayload F → Type 0
PayloadFits (hidden_state v) = length v < max_elements
PayloadFits (latent_thought v) = length v < max_elements
PayloadFits (kv_cache kv) =
    (length kv.keys < max_elements)
    × (length kv.values < max_elements)
    × (length kv.shape.dims < max_elements)

abbrev pub Fits : {F : Type 0} → PrimitivePacket F → Type 0
Fits p =
    PayloadFits p.payload
    × (length p.shape.dims < max_elements)
    × (length p.model_fingerprint < max_elements)

not_lt_le : (a b : ℕ) → ¬ (a < b) → b ≤ a
not_lt_le a b h = omega arith

lt-cases : (a b : ℕ) → (a < b) ⊎ (¬ (a < b))
lt-cases a b = elim (dec_lt a b) [ yes h ↦ inl h | no h ↦ inr h ]

module _ {F : Type 0} ⦃f : Float F⦄ where
  payload_round_trip :
      (p : PrimitivePayload F)
      → PayloadFits p
      → (m : PrimitiveMessage F) × (write_payload p ≡ ok m)
        × (payload_from_capnp (which_of m) ≡ ok p)
  unfolding write_payload payload_from_capnp
  payload_round_trip (hidden_state v) h =
      (PrimitiveMessage.hidden_state v, rw (write_list-eq-ok zero_f32 v h), refl)
  payload_round_trip (latent_thought v) h =
      (PrimitiveMessage.latent_thought v, rw (write_list-eq-ok zero_f32 v h), refl)
  payload_round_trip (kv_cache kv) (hk, hv, hd) = (
    PrimitiveMessage.kv_cache (record {
      layer_idx = kv.layer_idx;
      keys = kv.keys;
      values = kv.values;
      dims = kv.shape.dims;
    }),
    rw (
      write_list-eq-ok zero_f32 kv.keys hk,
      write_list-eq-ok zero_f32 kv.values hv,
      write_list-eq-ok 0 kv.shape.dims hd,
    ),
    refl,
  )

  -- A packet whose lists have fewer than 2^29 elements arrives as it was sent, over any faithful
  -- Cap'n Proto: writing it succeeds, and decoding what the receiver reads gives the packet back.
  pub packet_round_trip :
      (c : Capnp F)
      → IsFaithful c
      → (p : PrimitivePacket F) → Fits p
      → (do m ← write_packet p; packet_from_capnp (c.read_packet m)) ≡ ok p
  unfolding write_packet packet_from_capnp
  packet_round_trip c faithful p (hp, hd, hf) =
      let (m, written, read) = payload_round_trip p.payload hp in
      rw
        (
          write_data-eq-ok p.model_fingerprint hf,
          written,
          write_list-eq-ok 0 p.shape.dims hd,
          faithful.read_packet_lem _,
        )
        (rw read)

  -- A packet that fits can be written.
  pub write_packet-eq-ok :
      (p : PrimitivePacket F) → Fits p → (m : PacketMessage F) × (write_packet p ≡ ok m)
  unfolding write_packet
  write_packet-eq-ok p (hp, hd, hf) =
      let (primitive, written, read) = payload_round_trip p.payload hp in
      let succeeds : (write_packet p >>= λ m. ok (tt {0})) ≡ ok tt =
        rw (write_data-eq-ok p.model_fingerprint hf, written, write_list-eq-ok 0 p.shape.dims hd)
          refl in
      let (m, made, rest) = >>=-eq-ok (write_packet p) _ succeeds in (m, made)

  payload_too_long : (p : PrimitivePayload F) → ¬ PayloadFits p → write_payload p ≡ panic
  unfolding write_payload
  payload_too_long (hidden_state v) h = rw (write_list-eq-panic zero_f32 v (omega arith))
  payload_too_long (latent_thought v) h = rw (write_list-eq-panic zero_f32 v (omega arith))
  payload_too_long (kv_cache kv) h = elim (dec_lt (length kv.keys) max_elements) [
    | no long ↦ rw (write_list-eq-panic zero_f32 kv.keys (omega arith))
    | yes hk ↦ elim (dec_lt (length kv.values) max_elements) [
      | no long ↦ rw (
        write_list-eq-ok zero_f32 kv.keys hk,
        write_list-eq-panic zero_f32 kv.values (omega arith),
      )
      | yes hv ↦
          let long : max_elements ≤ length kv.shape.dims = not_lt_le _ _ (λ hd. h (hk, hv, hd)) in
          rw (
            write_list-eq-ok zero_f32 kv.keys hk,
            write_list-eq-ok zero_f32 kv.values hv,
            write_list-eq-panic 0 kv.shape.dims long,
          )
    ]
  ]

  PayloadFits-cases : (p : PrimitivePayload F) → PayloadFits p ⊎ (¬ PayloadFits p)
  PayloadFits-cases (hidden_state v) = lt-cases (length v) max_elements
  PayloadFits-cases (latent_thought v) = lt-cases (length v) max_elements
  PayloadFits-cases (kv_cache kv) = elim (lt-cases (length kv.keys) max_elements) [
    | inr long ↦ inr (λ h. long h.0)
    | inl hk ↦ elim (lt-cases (length kv.values) max_elements) [
      | inr long ↦ inr (λ h. long h.1)
      | inl hv ↦ elim (lt-cases (length kv.shape.dims) max_elements) [
        | inr long ↦ inr (λ h. long h.2)
        | inl hd ↦ inl (hk, hv, hd)
      ]
    ]
  ]

  -- A packet whose fingerprint, shape, or payload has a list of 2^29 elements or more is never sent:
  -- writing it panics.
  pub write_packet_too_long : (p : PrimitivePacket F) → ¬ Fits p → write_packet p ≡ panic
  unfolding write_packet
  write_packet_too_long p h = elim (lt-cases (length p.model_fingerprint) max_elements) [
    | inr long ↦ rw (write_data-eq-panic p.model_fingerprint (not_lt_le _ _ long))
    | inl hf ↦ elim (PayloadFits-cases p.payload) [
      | inr long ↦ rw (write_data-eq-ok p.model_fingerprint hf, payload_too_long p.payload long)
      | inl hp ↦
          let (m, written, read) = payload_round_trip p.payload hp in
          let long : max_elements ≤ length p.shape.dims = not_lt_le _ _ (λ hd. h (hp, hd, hf)) in
          rw (
            write_data-eq-ok p.model_fingerprint hf,
            written,
            write_list-eq-panic 0 p.shape.dims long,
          )
    ]
  ]
