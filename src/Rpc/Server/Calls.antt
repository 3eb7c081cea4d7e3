-- ===== src/Rpc/Server/Calls.antt =====
-- A connection: the calls of one peer, served one after the other.
use aptp.Prelude.{ℕ, Bool, List, [], ◌∷◌}
use aptp.Float.{Float}
use aptp.Primitives.{TaggedPrimitive}
use aptp.Primitives.Provenance.{Sha256}
use aptp.Wire.{Capnp, Getter}
use aptp.Rpc.Messages.{
  HandshakeResultMessage, AlignmentSpecMessage, HandshakeParams, StreamPrimitiveParams,
  NegotiateAlignmentParams, FinalizeParams,
}
use aptp.Rpc.Sink.{Mpsc}
use aptp.Rpc.Server.{
  AptpRpcServer, Ambient, handshake, stream_primitive, negotiate_alignment, finalize,
}

pub data Call (F : Type 0) : Type 0 where
  handshakes : Ambient → Getter HandshakeParams → Call F
  streams : Getter (StreamPrimitiveParams F) → Call F
  negotiates : Ambient → Getter NegotiateAlignmentParams → Call F
  finalizes : Getter FinalizeParams → Call F

pub data Reply (F : Type 0) : Type 0 where
  handshaken : Getter HandshakeResultMessage → Reply F
  streamed : Getter Bool → Reply F
  negotiated : Getter (AlignmentSpecMessage F) → Reply F
  finalized : Getter ℕ → Reply F

module _ {F H Chan : Type 0} ⦃f : Float F⦄ (c : Capnp F) (s : Sha256 H)
    (m : Mpsc (TaggedPrimitive F) Chan) where
  unfoldable pub step : AptpRpcServer F Chan → Call F → Reply F × AptpRpcServer F Chan
  step srv (handshakes ambient params) =
      let (r, srv') = handshake c s m ambient params srv in (handshaken r, srv')
  step srv (streams params) =
      let (r, srv') = stream_primitive c s m params srv in (streamed r, srv')
  step srv (negotiates ambient params) =
      let (r, srv') = negotiate_alignment c s m ambient params srv in (negotiated r, srv')
  step srv (finalizes params) = let (r, srv') = finalize c s m params srv in (finalized r, srv')

  -- The calls with their replies, in order, and the server after them.
  unfoldable pub run : AptpRpcServer F Chan → List (Call F) → List (Call F × Reply F)
  unfolding step
  run srv [] = []
  run srv (call ∷ calls) = let (reply, srv') = step srv call in (call, reply) ∷ run srv' calls
