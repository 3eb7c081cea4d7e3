-- ===== src/Transport/Client/Connect.antt =====
-- `connect` and `connect_to` of src/transport/client.rs. The resolver and the sockets are a parameter;
-- the RPC system on top of the socket is the `Remote` that the client's calls are given.
use aptp.Prelude.{◌≡◌, sym, ap, ◌∙◌, ◌↔◌, String, ◌<>◌, List, [], ◌∷◌}
use aptp.Error.{
  Result, ok, err, AptpError, config, io, map_err, ◌>>=◌, ◌>>◌, >>=-eq-ok, map_err-eq-ok,
}
use aptp.Config.{AptpConfig}
use aptp.Transport.Client.{AptpClient, connected}

-- `to_socket_addrs`, `TcpStream::connect` and `set_nodelay`, with the errors' texts.
pub record Dial (Addr Stream : Type 0) : Type 0 where
  pub to_socket_addrs : String → Result String (List Addr)
  pub connect : Addr → Result String Stream
  pub set_nodelay : Stream → Result String (Unit {0})

-- `.next().ok_or_else(…)`
abbrev pub next_addr : {F Addr : Type 0} → List Addr → Result (AptpError F) Addr
next_addr [] = err (config "empty addr")
next_addr (addr ∷ others) = ok addr

next_addr-eq-ok :
    {F Addr : Type 0} (addrs : List Addr) (first : Addr)
    → next_addr {F = F} addrs ≡ ok first
    → (others : List Addr) × (addrs ≡ first ∷ others)
next_addr-eq-ok [] first e = cc
next_addr-eq-ok (addr ∷ others) first e = (others, cc)

module _ {F Addr Stream : Type 0} (dial : Dial Addr Stream) (cfg : AptpConfig F) where
  unfoldable pub connect_to : String → Result (AptpError F) (AptpClient F)
  unfolding connected
  connect_to addr = do
    addrs ← map_err (λ e. config ("invalid addr: " <> e)) (dial.to_socket_addrs addr)
    socket_addr ← next_addr addrs
    stream ← map_err io (dial.connect socket_addr)
    map_err io (dial.set_nodelay stream)
    ok (connected cfg)

  unfoldable pub connect : Result (AptpError F) (AptpClient F)
  unfolding connect_to
  connect = connect_to cfg.transport.bind_addr

  -- The address can be reached: the first one that it resolves to takes the connection, on which
  -- `set_nodelay` succeeds.
  abbrev pub Reaches : String → Type 0
  Reaches addr =
      (first : Addr) × (others : List Addr) × (stream : Stream) × (dial.to_socket_addrs addr
        ≡ ok (first ∷ others))
      × (dial.connect first ≡ ok stream)
      × (dial.set_nodelay stream ≡ ok tt)

  reached :
      (addr : String) (client : AptpClient F)
      → connect_to addr ≡ ok client
      → Reaches addr × (client ≡ connected cfg)
  unfolding connect_to
  reached addr client made =
      let (addrs, resolved, m1) =
        >>=-eq-ok (map_err (λ e. config ("invalid addr: " <> e)) (dial.to_socket_addrs addr)) _
          made in
      let (first, came_next, m2) = >>=-eq-ok (next_addr addrs) _ m1 in
      let (stream, taken, m3) = >>=-eq-ok (map_err io (dial.connect first)) _ m2 in
      let (u, set, m4) = >>=-eq-ok (map_err io (dial.set_nodelay stream)) _ m3 in
      let (others, addrs-eq) = next_addr-eq-ok addrs first came_next in
      (
        (
          first,
          others,
          stream,
          map_err-eq-ok _ (dial.to_socket_addrs addr) resolved ∙ ap ok addrs-eq,
          map_err-eq-ok io (dial.connect first) taken,
          map_err-eq-ok io (dial.set_nodelay stream) set,
        ),
        cc,
      )

  -- A client is made exactly when the address can be reached, and it is without a session, at packet 0.
  pub connect_to_exact :
      (addr : String) (client : AptpClient F)
      → (connect_to addr ≡ ok client) ↔ (Reaches addr × (client ≡ connected cfg))
  unfolding connect_to
  connect_to_exact addr client = (
    reached addr client,
    λ h.
        let ((first, others, stream, resolved, taken, set), same) = h in
        rw (resolved, taken, set) (ap ok (sym same)),
  )
