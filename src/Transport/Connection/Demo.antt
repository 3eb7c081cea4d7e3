-- ===== src/Transport/Connection/Demo.antt =====
-- src/bin/aptp-client.rs: the program's use of a client that is connected.
pub mod Fate
pub mod Completes
mod Tests
use aptp.Prelude.{
  ℕ, zero, suc, ◌+◌, ◌%◌, String, Bool, true, false, Option, List, [], ◌∷◌, replicate,
}
use aptp.Float.{Float}
use aptp.Error.{Result, ok, err, panic, AptpError}
use aptp.Config.{AptpConfig, from_toml_file}
use aptp.Primitives.{PrimitivePacket, hidden_state, version_number, new_now, word32}
use aptp.Primitives.Card.{new_from_config}
use aptp.Transport.Args.{config_path}
use aptp.Transport.Client.Connect.{Dial, connect}
use aptp.Transport.Client.{AptpClient, Remote, handshake, send_primitive, finalize}

module _ {F : Type 0} ⦃f : Float F⦄ where
  -- `(0..hidden_dim).map(|j| (j as f32 * 0.001) + (i as f32 * 0.0001))`, from `j` on
  unfoldable pub demo_vector : (left j i : ℕ) → List F
  demo_vector zero j i = []
  demo_vector (suc left) j i =
      f.add (f.mul (f.of_nat j) (f.literal 1 1000)) (f.mul (f.of_nat i) (f.literal 1 10_000))
      ∷ demo_vector left (j + 1) i

  unfoldable pub demo_packet :
      (clock : Option ℕ) → AptpConfig F → (session_id : String) (i : ℕ) → PrimitivePacket F
  unfolding demo_vector
  demo_packet clock cfg session_id i = record {
    version = version_number;
    sender_id = cfg.agent.agent_id;
    model_fingerprint = replicate 32 0;
    layer_index = 16;
    payload = hidden_state (demo_vector cfg.agent.hidden_size 0 i);
    shape = record { dims = 1 ∷ 1 ∷ cfg.agent.hidden_size % word32 ∷ [] };
    metadata = new_now clock session_id i;
  }

module _ {F P : Type 0} where
  -- `let ack = ….await?; assert!(ack, …)`, before the rest of the program.
  unfoldable pub proceed :
      Result (AptpError F) Bool
      → (rest : Result (AptpError F) ℕ × P) → P
      → Result (AptpError F) ℕ × P
  proceed (err e) rest peer = (err e, peer)
  proceed panic rest peer = (panic, peer)
  proceed (ok false) rest peer = (panic, peer)
  proceed (ok true) rest peer = rest

module _ {F P : Type 0} ⦃f : Float F⦄ (remote : Remote F P) (clock : ℕ → Option ℕ)
    (cfg : AptpConfig F) (session_id : String) where
  -- The loop over `i`, with `left` packets to go, and `client.finalize().await?` after it.
  unfoldable pub send_all : (left i : ℕ) → AptpClient F → P → Result (AptpError F) ℕ × P
  unfolding proceed
  send_all zero i client peer = finalize remote client peer
  send_all (suc left) i client peer =
      let (sent, client', peer') =
        send_primitive remote (demo_packet (clock i) cfg session_id i) client peer in
      proceed sent (send_all left (i + 1) client' peer') peer'

module _ {F P : Type 0} ⦃f : Float F⦄ (remote : Remote F P) (clock : ℕ → Option ℕ) (fresh : String)
    (cfg : AptpConfig F) where
  unfoldable pub after_handshake :
      Result (AptpError F) String → AptpClient F → P → Result (AptpError F) ℕ × P
  unfolding send_all
  after_handshake (err e) client peer = (err e, peer)
  after_handshake panic client peer = (panic, peer)
  after_handshake (ok session_id) client peer =
      send_all remote clock cfg session_id 100 0 client peer

  -- The program, from the connected client to the number of packets that it prints.
  unfoldable pub main : AptpClient F → P → Result (AptpError F) ℕ × P
  unfolding after_handshake
  main client peer =
      let (greeted, client', peer') =
        handshake remote (new_from_config fresh cfg.agent) client peer in
      after_handshake greeted client' peer'

module _ {F P Addr Stream : Type 0} ⦃f : Float F⦄ (dial : Dial Addr Stream) (remote : Remote F P)
    (clock : ℕ → Option ℕ) (fresh : String) where
  unfoldable pub after_connect :
      AptpConfig F → Result (AptpError F) (AptpClient F) → P → Result (AptpError F) ℕ × P
  unfolding main
  after_connect cfg (err e) peer = (err e, peer)
  after_connect cfg panic peer = (panic, peer)
  after_connect cfg (ok client) peer = main remote clock fresh cfg client peer

  unfoldable pub after_config : Result (AptpError F) (AptpConfig F) → P → Result (AptpError F) ℕ × P
  unfolding after_connect
  after_config (err e) peer = (err e, peer)
  after_config panic peer = (panic, peer)
  after_config (ok cfg) peer = after_connect cfg (connect dial cfg) peer

  -- The program from its arguments on.
  unfoldable pub program :
      (read_to_string : String → Result String String)
      (parse_config : String → Result String (AptpConfig F)) (args : List String)
      → P
      → Result (AptpError F) ℕ × P
  unfolding after_config config_path
  program read_to_string parse_config args peer =
      after_config (from_toml_file read_to_string parse_config (config_path args)) peer
