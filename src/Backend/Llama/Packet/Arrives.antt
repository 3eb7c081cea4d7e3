-- ===== src/Backend/Llama/Packet/Arrives.antt =====
-- From a snapshot of the backend to the sink of the peer's server: `snapshot_to_packet`, the client's
-- request, and the server's handler.
use mathlib.Core.Path.{subst}
use mathlib.Core.Option.{some_inj}
use aptp.Prelude.{
  ℕ, zero, suc, ◌<◌, All, [], ◌∷◌, ◌≡◌, refl, String, Option, some, List, length, get_elem?, true,
  str_eq, if◌then◌else◌, ◌∙◌, arith,
}
use aptp.Float.{Float, one_f32}
use aptp.Error.{ok, ok_unique, >>=-eq-ok}
use aptp.Primitives.{
  KvCache, PrimitivePacket, PrimitivePayload, TaggedPrimitive, kv_cache, hidden_state,
  version_number, new_now,
}
use aptp.Primitives.Provenance.{Sha256}
use aptp.Primitives.Provenance
use aptp.Wire.{Capnp, IsFaithful, PacketMessage}
use aptp.Wire.Build.{max_elements, write_packet}
use aptp.Wire.RoundTrip.{PayloadFits, Fits, packet_round_trip}
use aptp.Validation.Gate.{validate}
use aptp.Rpc.Registry.Counts.{count_of, bump}
use aptp.Rpc.Sink.{Mpsc, sent}
use aptp.Rpc.Stream.{Shared}
use aptp.Rpc.Server.{AptpRpcServer, after_packet}
use aptp.Rpc.Server.Accepts.{IsRead, after_packet-accepts}
use aptp.Transport.Client.Request.{request_packet}
use aptp.Transport.Client.Request.Same.{request_packet-eq-write_packet}
use aptp.Backend.{InferenceSnapshot, PrimitiveExtractor}
use aptp.Backend.Llama.Packet.{dims_of, snapshot_to_packet}
use aptp.Backend.Llama.Packet.Chosen.{Chosen, cache, layer, logits, choose_payload-Chosen}

-- Each list of the snapshot can be a list of Cap'n Proto.
pub record SnapshotFits {F : Type 0} (snapshot : InferenceSnapshot F) : Type 0 where
  pub logits_fit : length snapshot.logits < max_elements
  pub states_fit : All (λ state. length state < max_elements) snapshot.hidden_states
  pub cache_fits : {kv : KvCache F} → snapshot.kv_cache_layer ≡ some kv → PayloadFits (kv_cache kv)

All-get_elem :
    {A : Type 0} (P : A → Type 0) (v : List A) (i : ℕ) {x : A}
    → All P v
    → get_elem? v i ≡ some x
    → P x
All-get_elem P [] i all found = cc
All-get_elem P (x ∷ v) zero all found = subst P (some_inj.0 found) all.0
All-get_elem P (x ∷ v) (suc i) all found = All-get_elem P v i all.1 found

module _ {F : Type 0} where
  Chosen-fits :
      (snapshot : InferenceSnapshot F) (layer_index hidden_dim : ℕ) (payload : PrimitivePayload F)
      → SnapshotFits snapshot
      → Chosen snapshot layer_index payload
      → PayloadFits payload × (length (dims_of hidden_dim payload) < max_elements)
  unfolding dims_of
  Chosen-fits snapshot layer_index hidden_dim payload fits (cache kv held) =
      let all = fits.cache_fits held in (all, all.2)
  Chosen-fits snapshot layer_index hidden_dim payload fits (layer no_cache i state found which) =
      (All-get_elem _ snapshot.hidden_states i fits.states_fit found, omega arith)
  Chosen-fits snapshot layer_index hidden_dim payload fits (logits no_cache no_states) =
      (fits.logits_fit, omega arith)

  -- The packet of a snapshot can be written.
  snapshot_to_packet-Fits :
      (clock : Option ℕ) (snapshot : InferenceSnapshot F) (backend : PrimitiveExtractor)
      (sender_id session_id : String) (sequence_id layer_index : ℕ) {p : PrimitivePacket F}
      → SnapshotFits snapshot
      → length backend.model_fingerprint < max_elements
      → snapshot_to_packet clock snapshot backend sender_id session_id sequence_id layer_index
        ≡ ok p
      → Fits p × Chosen snapshot layer_index p.payload × (p.metadata.session_id ≡ session_id)
  unfolding snapshot_to_packet aptp.Primitives.new_now
  snapshot_to_packet-Fits clock snapshot backend sender_id session_id sequence_id layer_index {p}
        fits short e =
      let (payload, chosen, why) =
        choose_payload-Chosen snapshot snapshot.kv_cache_layer snapshot.hidden_states layer_index
          refl refl in
      let (payload_fits, dims_fit) =
        Chosen-fits snapshot layer_index backend.hidden_size payload fits why in
      let made : PrimitivePacket F = record {
        version = version_number;
        sender_id = sender_id;
        model_fingerprint = backend.model_fingerprint;
        layer_index = layer_index;
        payload = payload;
        shape = record { dims = dims_of backend.hidden_size payload };
        metadata = new_now clock session_id sequence_id;
      } in
      let same : made ≡ p = ok_unique refl (rw chosen at e) in
      subst
        (λ (q : PrimitivePacket F).
          Fits q × Chosen snapshot layer_index q.payload × (q.metadata.session_id ≡ session_id))
        same ((payload_fits, dims_fit, short), why, refl)

module _ {F H Chan : Type 0} ⦃f : Float F⦄ (c : Capnp F) (faithful : IsFaithful c) (s : Sha256 H)
    (m : Mpsc (TaggedPrimitive F) Chan) (read : IsRead m) where
  -- A snapshot whose lists have fewer than 2^29 elements, of a backend whose fingerprint has too, goes
  -- from the backend to the peer's sink: the packet made from it for an open session carries its cache,
  -- or the state of the layer, or its logits; the client's request can be written; over a faithful Cap'n Proto and a sink that is read,
  -- the server acknowledges it if its firewall passes the payload, puts the same packet in the sink,
  -- tagged, and counts one more packet for that session and no other.
  pub snapshot_arrives :
      (clock : Option ℕ) (snapshot : InferenceSnapshot F) (backend : PrimitiveExtractor)
      (sender_id session_id : String) (sequence_id layer_index : ℕ) {p : PrimitivePacket F}
      (srv : AptpRpcServer F Chan) (n : ℕ)
      → SnapshotFits snapshot
      → length backend.model_fingerprint < max_elements
      → snapshot_to_packet clock snapshot backend sender_id session_id sequence_id layer_index
        ≡ ok p
      → validate srv.firewall p.payload ≡ ok tt
      → count_of srv.shared.sessions session_id ≡ some n
      → Chosen snapshot layer_index p.payload
        × (message : PacketMessage F) × (request_packet p ≡ ok message)
        × (shared : Shared Chan) × (after_packet c s m (ok (c.read_packet message)) srv
            ≡ (ok true, record srv { shared = shared }))
        × (m.send srv.shared.sink (Provenance.new s p one_f32) ≡ sent shared.sink)
        × ((k : String)
            → count_of shared.sessions k ≡ (
                if str_eq session_id k
                then bump (count_of srv.shared.sessions k)
                else count_of srv.shared.sessions k))
  snapshot_arrives clock snapshot backend sender_id session_id sequence_id layer_index {p} srv n
        fits short made valid open_count =
      let (writable, chosen, named) =
        snapshot_to_packet-Fits clock snapshot backend sender_id session_id sequence_id layer_index
          fits short made in
      let (message, written, decoded) =
        >>=-eq-ok (write_packet p) _ (packet_round_trip c faithful p writable) in
      let (shared, acked, counts, taken) =
        after_packet-accepts c s m read (c.read_packet message) p srv n decoded valid
          (rw (← named) at open_count) in
      (
        chosen,
        message,
        request_packet-eq-write_packet p ∙ written,
        shared,
        acked,
        taken,
        rw named at counts,
      )
