-- ===== src/Rpc/Server/Entries.antt =====
-- What one call of src/rpc/mod.rs and its reply tell of a session's count.
use aptp.Prelude.{
  ℕ, ◌≡◌, refl, String, Bool, true, false, Option, none, some, List, [], ◌∷◌, str_eq, if◌then◌else◌,
}
use aptp.Float.{Float}
use aptp.Error.{Result, ok, err, panic, AptpError}
use aptp.Primitives.{TaggedPrimitive, PrimitivePacket}
use aptp.Primitives.Provenance.{Sha256}
use aptp.Wire.{Capnp, Getter, PacketReader}
use aptp.Wire.Decode.{packet_from_capnp}
use aptp.Rpc.Params.{fail, read_packet, read_session}
use aptp.Rpc.Registry.Counts.{bump}
use aptp.Rpc.Sink.{Mpsc}
use aptp.Rpc.Handshake.Branches.{opened}
use aptp.Rpc.Server.{AptpRpcServer}
use aptp.Rpc.Server.Calls.{
  Call, Reply, handshakes, streams, finalizes, handshaken, streamed, finalized, step,
}

-- One more for session `k`, if that is the session and the packet was acknowledged.
abbrev pub counted : Option String → (k : String) → Bool → Option ℕ → Option ℕ
counted (some id) k true old = if str_eq id k then bump old else old
counted _ k _ old = old

module _ {F : Type 0} where
  -- The session that a packet names, if the packet can be read.
  abbrev pub named : Result (AptpError F) (PrimitivePacket F) → Option String
  named (ok p) = some p.metadata.session_id
  named _ = none

  abbrev pub named_in : Getter (PacketReader F) → Option String
  named_in (ok reader) = named (packet_from_capnp reader)
  named_in _ = none

abbrev pub ended : Getter String → (k : String) → Option ℕ → Option ℕ
ended (ok id) k old = if str_eq id k then none else old
ended _ k old = old

abbrev pub acked {ℓ} : {E : Type ℓ} → Result E Bool → Bool
acked (ok ack) = ack
acked _ = false

-- What the reply to a finalisation tells.
abbrev pub closes : Getter String → Getter ℕ → Option ℕ → (k : String) → Option ℕ
closes r (ok n) old k = ended r k old
closes r _ old k = old

module _ {F H Chan : Type 0} ⦃f : Float F⦄ (c : Capnp F) (s : Sha256 H)
    (m : Mpsc (TaggedPrimitive F) Chan) where
  -- How one call and its reply change what a peer knows of the count of session `k`: an accepted
  -- handshake opens it at 0, an acknowledged packet adds one, a successful finalisation closes it.
  abbrev pub enter : (k : String) → Option ℕ → Call F × Reply F → Option ℕ
  enter k old (handshakes ambient params, handshaken (ok r)) =
      opened r.status r.assigned_session k old
  enter k old (streams params, streamed r) =
      counted (named_in (read_packet c params)) k (acked r) old
  enter k old (finalizes params, finalized r) = closes (read_session c params) r old k
  enter k old _ = old

  -- What a connection's calls and replies tell, from the first on.
  abbrev pub ledger : (k : String) → Option ℕ → List (Call F × Reply F) → Option ℕ
  ledger k old [] = old
  ledger k old (e ∷ history) = ledger k (enter k old e) history

  -- The state after some calls.
  abbrev pub after : AptpRpcServer F Chan → List (Call F) → AptpRpcServer F Chan
  after srv [] = srv
  after srv (call ∷ calls) = after (step c s m srv call).1 calls

  pub fail-acked : (r : Result (AptpError F) Bool) → acked (fail c r) ≡ acked r
  unfolding fail
  fail-acked (ok b) = refl
  fail-acked (err e) = refl
  fail-acked panic = refl
