-- ===== src/Transport/Client/Request/Card.antt =====
-- The card that a client sends, as the server's `agent_card_from_capnp` reads it.
use aptp.Prelude.{◌≡◌, refl, ◌<◌, String, List, [], ◌∷◌, length, map}
use aptp.Error.{ok, ◌>>=◌}
use aptp.Primitives.{AgentCard}
use aptp.Wire.{Capnp, IsFaithful, text, card_of, AgentCardMessage}
use aptp.Wire.Build.{max_elements}
use aptp.Wire.Decode.{owned_text, owned_texts, agent_card_from_capnp}
use aptp.Wire.RoundTrip.Lists.{write_list-eq-ok}
use aptp.Transport.Client.Request.{write_card}

-- The message that a card is written to.
abbrev pub message_of : AgentCard → AgentCardMessage
message_of card = record {
  agent_id = card.agent_id;
  aptp_version = card.aptp_version;
  public_key = [];
  invariants = record {
    hidden_size = card.hidden_size;
    num_layers = card.num_layers;
    num_heads = card.num_heads;
    vocab_size = card.vocab_size;
    model_family = card.model_family;
  };
  capabilities = card.capabilities;
}

module _ {F : Type 0} where
  owned_texts-map : (texts : List String) → owned_texts {F = F} (map text texts) ≡ ok texts
  unfolding owned_texts owned_text
  owned_texts-map [] = refl
  owned_texts-map (t ∷ texts) = rw (owned_texts-map texts) refl

  pub write_card-eq-ok :
      (card : AgentCard)
      → length card.capabilities < max_elements
      → write_card {F = F} card ≡ ok (message_of card)
  unfolding write_card
  write_card-eq-ok card few = rw (write_list-eq-ok "" card.capabilities few) refl

  pub card_of-message_of :
      (card : AgentCard) → agent_card_from_capnp {F = F} (card_of (message_of card)) ≡ ok card
  unfolding agent_card_from_capnp owned_text
  card_of-message_of card = rw (owned_texts-map card.capabilities) refl

-- A card with fewer than 2^29 capabilities, written by the client and read by the server over a
-- faithful Cap'n Proto, is the card.
pub card_round_trip :
    {F : Type 0} (c : Capnp F)
    → IsFaithful c
    → (card : AgentCard) → length card.capabilities < max_elements
    → (do m ← write_card {F = F} card; agent_card_from_capnp {F = F} (c.read_card m)) ≡ ok card
card_round_trip {F} c faithful card few =
    rw (write_card-eq-ok {F = F} card few, faithful.read_card_lem (message_of card))
      (card_of-message_of card)
