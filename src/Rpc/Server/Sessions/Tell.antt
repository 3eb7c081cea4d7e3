-- ===== src/Rpc/Server/Sessions/Tell.antt =====
-- What one call of src/rpc/mod.rs and its reply tell of a session: whether it is open, its peer, its
-- adapter, its time and its count.
use aptp.Prelude.{
  ℕ, String, Bool, true, Option, none, some, List, [], ◌∷◌, ◌++◌, ◌≡◌, refl, str_eq, if◌then◌else◌,
}
use aptp.Float.{Float}
use aptp.Error.{ok}
use aptp.Primitives.{AgentCard}
use aptp.Wire.{Capnp, Getter}
use aptp.Adapter.Spec.{AdapterVariant}
use aptp.Rpc.Messages.{
  HandshakeStatus, accepted, rejected, needs_adapter, AdapterType, HandshakeResultMessage,
}
use aptp.Rpc.Params.{read_card, read_packet, read_session}
use aptp.Rpc.Registry.{SessionState, find}
use aptp.Rpc.Registry.Store.{opening, one_more}
use aptp.Rpc.Server.{AptpRpcServer}
use aptp.Rpc.Server.Calls.{
  Call, Reply, handshakes, streams, finalizes, handshaken, streamed, finalized,
}
use aptp.Rpc.Server.Entries.{named_in, acked}

-- The adapter that a reply names.
abbrev pub variant_of : AdapterType → AdapterVariant
variant_of AdapterType.identity = AdapterVariant.identity
variant_of AdapterType.linear_projection = AdapterVariant.linear_projection
variant_of AdapterType.norm_match = AdapterVariant.norm_match

-- The entry of session `k`, which was `old`, after a handshake was answered with a session.
abbrev pub assigned :
    (id peer : String)
    → AdapterType
    → (clock : Option ℕ) (k : String) → Option SessionState
    → Option SessionState
assigned id peer required clock k old =
    if str_eq id k then some (opening id peer (some (variant_of required)) clock) else old

abbrev pub opened_as :
    HandshakeStatus
    → (id peer : String) → AdapterType
    → (clock : Option ℕ) (k : String) → Option SessionState
    → Option SessionState
opened_as rejected id peer required clock k old = old
opened_as accepted id peer required clock k old = assigned id peer required clock k old
opened_as needs_adapter id peer required clock k old = assigned id peer required clock k old

abbrev pub greeted :
    Getter AgentCard
    → Getter HandshakeResultMessage
    → (clock : Option ℕ) (k : String) → Option SessionState
    → Option SessionState
greeted (ok card) (ok r) clock k old =
    opened_as r.status r.assigned_session card.agent_id r.adapter_required clock k old
greeted _ _ clock k old = old

abbrev pub grown : Option SessionState → Option SessionState
grown none = none
grown (some s) = some (one_more s)

abbrev pub received :
    Option String → (k : String) → Bool → Option SessionState → Option SessionState
received (some id) k true old = if str_eq id k then grown old else old
received _ k _ old = old

abbrev pub closed_by :
    Getter String → Getter ℕ → (k : String) → Option SessionState → Option SessionState
closed_by (ok id) (ok n) k old = if str_eq id k then none else old
closed_by _ _ k old = old

abbrev pub entry : {F Chan : Type 0} → String → AptpRpcServer F Chan → Option SessionState
entry k srv = find k srv.shared.sessions.sessions

module _ {F : Type 0} ⦃f : Float F⦄ (c : Capnp F) (k : String) where
  -- How one call and its reply change what can be told of session `k`: a handshake that assigns it opens
  -- it, with the peer of the card, the adapter of the reply and the time; an acknowledged packet that
  -- names it is counted; a successful finalisation closes it.
  abbrev pub tell : Option SessionState → Call F × Reply F → Option SessionState
  tell old (handshakes ambient params, handshaken r) =
      greeted (read_card c params) r ambient.clock k old
  tell old (streams params, streamed r) = received (named_in (read_packet c params)) k (acked r) old
  tell old (finalizes params, finalized r) = closed_by (read_session c params) r k old
  tell old _ = old

  abbrev pub tell_all : Option SessionState → List (Call F × Reply F) → Option SessionState
  tell_all old [] = old
  tell_all old (e ∷ history) = tell_all (tell old e) history

  pub tell_all-snoc :
      (old : Option SessionState) (history : List (Call F × Reply F)) (e : Call F × Reply F)
      → tell_all old (history ++ e ∷ []) ≡ tell (tell_all old history) e
  tell_all-snoc old [] e = refl
  tell_all-snoc old (first ∷ history) e = tell_all-snoc (tell old first) history e
