-- ===== src/Transport/Client/Tests.antt =====
-- A handshake with a peer that gives a fixed answer.
use aptp.Prelude.{ℕ, ◌≡◌, refl, ◌==◌, if◌then◌else◌, [], ◌∷◌, false, arith}
use aptp.Float.{Fixed, fixed_float}
use aptp.Error.{ok, err, ◌>>=◌}
use aptp.Samples.{direct, direct-IsFaithful, sample_card, server_config}
use aptp.Wire.{text}
use aptp.Wire.Decode.{agent_card_from_capnp}
use aptp.Rpc.Messages.{rejected}
use aptp.Transport.Client.{Remote, connected, handshake}
use aptp.Transport.Client.Connect.{Dial, connect_to}
use aptp.Transport.Client.Phases.{Greeted, handshake-Greeted}
use aptp.Transport.Client.Request.{write_card}
use aptp.Transport.Client.Request.Card.{card_round_trip}

abbrev refuser : Remote Fixed ℕ
refuser = record {
  handshake_request = λ card n. (
    ok (
        ok (record {
          get_status = ok rejected;
          get_assigned_session = text "";
          get_rejection_reason = text "no";
        })),
    n,
  );
  stream_primitive_request = λ packet n. (ok (ok false), n);
  finalize_request = λ id n. (ok (ok n), n);
}

handshake-Greeted_example :
    let (r, client, peer) = handshake refuser sample_card (connected server_config) 0 in
    Greeted (connected server_config) r client
handshake-Greeted_example = handshake-Greeted refuser sample_card (connected server_config) 0

card_round_trip_example :
    (do
      m ← write_card {F = Fixed} sample_card
      agent_card_from_capnp {F = Fixed} (direct.read_card m))
    ≡ ok sample_card
card_round_trip_example = card_round_trip direct direct-IsFaithful sample_card (omega arith)

-- An address that resolves to two sockets, of which the first takes the connection.
abbrev dial : Dial ℕ ℕ
dial = record {
  to_socket_addrs = λ addr. ok (1 ∷ 2 ∷ []);
  connect = λ addr. if addr == 1 then ok 5 else err "connection refused";
  set_nodelay = λ stream. ok tt;
}

localhost_reached : connect_to dial server_config "localhost:7878" ≡ ok (connected server_config)
unfolding connect_to
localhost_reached = refl
