-- ===== src/Transport/Listener/Flight/Deaf.antt =====
-- What the program src/bin/aptp-server.rs tells its peers about their packets, with calls in flight.
use aptp.Prelude.{
  ℕ, ◌≡◌, refl, String, Bool, true, false, Option, none, some, List, [], All, if◌then◌else◌,
}
use aptp.Float.{Float, Double}
use aptp.Error.{Result, ok, err, panic, AptpError}
use aptp.Config.{AptpConfig}
use aptp.Primitives.{TaggedPrimitive, PrimitivePacket}
use aptp.Primitives.Provenance.{Sha256}
use aptp.Wire.{Capnp, Getter, PacketReader}
use aptp.Wire.Decode.{packet_from_capnp}
use aptp.Validation.Gate.{ValidationGate, validate}
use aptp.Rpc.Messages.{StreamPrimitiveParams}
use aptp.Rpc.Params.{fail, read_packet}
use aptp.Rpc.Sink.{Mpsc, ClosesOnDrop, closed}
use aptp.Rpc.Stream.{admit, receive_packet, receive}
use aptp.Rpc.Server.{AptpRpcServer}
use aptp.Rpc.Server.Calls.{Call, handshakes, streams, negotiates, finalizes}
use aptp.Rpc.Server.ClosedSink.{Refuses, IsDeaf, deliver-IsDeaf, step-IsDeaf, new-IsDeaf}
use aptp.Rpc.Server.Tasks.{
  Task, waiting, counting, Poll, pending, ready, call_of, suspend, begin_stream, whole, poll,
}
use aptp.Transport.Connection.{handle_connection}
use aptp.Transport.Listener.{Net, is_panic, spawned}
use aptp.Transport.Listener.Flight.{
  Action, arrives, runs, cancels, leaves, Turn, Connection, Flight, pick_at, started, progress,
  run_picked, cancel_picked, act_on, act, open_connection, program,
}
use aptp.Transport.Listener.Flight.Keeps.{All-snoc, All-imp, IsKept, fly-All, program-flies}
use aptp.Transport.Listener.Flight.Told.{Picked, pick_at-Picked}

-- No handler is past the sink.
abbrev IsWaiting : {F : Type 0} → Task F → Type 0
IsWaiting (waiting call) = Unit
IsWaiting (counting params id) = ⊥

module _ {F H Chan : Type 0} ⦃f : Float F⦄ (c : Capnp F) (s : Sha256 H)
    (m : Mpsc (TaggedPrimitive F) Chan) where
  -- No packet is in the sink.
  abbrev IsTurnedAway : Result (AptpError F) (Option (String × Chan)) → Type 0
  IsTurnedAway (err e) = Unit
  IsTurnedAway panic = Unit
  IsTurnedAway (ok none) = Unit
  IsTurnedAway (ok (some queued)) = ⊥

  -- A turn that ends in a reply, which is no acknowledgement.
  abbrev IsSilent : Call F → Poll F × AptpRpcServer F Chan → Type 0
  IsSilent call (pending t, srv) = ⊥
  IsSilent call (ready r, srv) = Refuses (call, r) × IsDeaf c s m srv.shared

  admit-IsTurnedAway :
      (answer : Result (AptpError F) (Unit {0})) (packet : PrimitivePacket F) (sink : Chan)
      → ((t : TaggedPrimitive F) → m.send sink t ≡ closed)
      → IsTurnedAway (admit s m answer packet sink)
  unfolding admit
  admit-IsTurnedAway (err e) packet sink no_send = tt
  admit-IsTurnedAway panic packet sink no_send = tt
  admit-IsTurnedAway (ok u) packet sink no_send = rw (deliver-IsDeaf c s m packet sink no_send) tt

  receive-IsTurnedAway :
      (reader : PacketReader F) (gate : ValidationGate F) (sink : Chan)
      → ((t : TaggedPrimitive F) → m.send sink t ≡ closed)
      → IsTurnedAway (receive s m reader gate sink)
  unfolding receive receive_packet
  receive-IsTurnedAway reader gate sink no_send =
      elim (packet_from_capnp reader) as (λ p. IsTurnedAway (receive_packet s m p gate sink)) [
        | err e ↦ tt
        | panic ↦ tt
        | ok packet ↦ admit-IsTurnedAway (gate packet.payload) packet sink no_send
      ]

  module _ (srv : AptpRpcServer F Chan) (deaf : IsDeaf c s m srv.shared) where
    suspend-IsSilent :
        (params : Getter (StreamPrimitiveParams F))
        (r : Result (AptpError F) (Option (String × Chan)))
        → IsTurnedAway r
        → IsSilent (streams params) (suspend c s m params r srv)
    unfolding suspend fail
    suspend-IsSilent params (err e) away = (λ h. cc, deaf)
    suspend-IsSilent params panic away = (λ h. cc, deaf)
    suspend-IsSilent params (ok none) away = (λ h. cc, deaf)
    suspend-IsSilent params (ok (some queued)) away = absurd away

    begin_stream-IsSilent :
        (params : Getter (StreamPrimitiveParams F)) (r : Getter (PacketReader F))
        → IsSilent (streams params) (begin_stream c s m params r srv)
    unfolding begin_stream
    begin_stream-IsSilent params (err e) = (λ h. cc, deaf)
    begin_stream-IsSilent params panic = (λ h. cc, deaf)
    begin_stream-IsSilent params (ok reader) =
        suspend-IsSilent params _
          (receive-IsTurnedAway reader (validate srv.firewall) srv.shared.sink deaf.no_send)

    poll-IsSilent : (t : Task F) → IsWaiting t → IsSilent (call_of t) (poll c s m t srv)
    unfolding poll whole
    poll-IsSilent (counting params id) is_waiting = absurd is_waiting
    poll-IsSilent (waiting (streams params)) is_waiting =
        begin_stream-IsSilent params (read_packet c params)
    poll-IsSilent (waiting (handshakes ambient params)) is_waiting =
        step-IsDeaf c s m srv (handshakes ambient params) deaf
    poll-IsSilent (waiting (negotiates ambient params)) is_waiting =
        step-IsDeaf c s m srv (negotiates ambient params) deaf
    poll-IsSilent (waiting (finalizes params)) is_waiting =
        step-IsDeaf c s m srv (finalizes params) deaf

  abbrev Serves : Option (AptpRpcServer F Chan × List (Task F)) → Type 0
  Serves none = Unit
  Serves (some (srv, ts)) = IsDeaf c s m srv.shared × All IsWaiting ts

  IsMute : Connection F Chan → Type 0
  IsMute connection = All Refuses connection.replied × Serves connection.task

  left-Serves :
      (unwinds : Bool) (srv : AptpRpcServer F Chan) (ts : List (Task F))
      → Serves (some (srv, ts))
      → Serves (if unwinds then none else some (srv, ts))
  left-Serves true srv ts serves = tt
  left-Serves false srv ts serves = serves

  progress-IsMute :
      (call : Call F) (rest : List (Task F)) (polled : Poll F × AptpRpcServer F Chan)
      (connection : Connection F Chan)
      → All Refuses connection.replied
      → All IsWaiting rest
      → IsSilent call polled
      → IsMute (progress call rest polled connection).0
  unfolding progress IsMute
  progress-IsMute call rest (pending t, srv) connection mute others silent = absurd silent
  progress-IsMute call rest (ready r, srv) connection mute others (refuses, deaf) = (
    All-snoc Refuses connection.replied (call, r) mute refuses,
    left-Serves (is_panic r) srv rest (deaf, others),
  )

  run_picked-IsMute :
      (picked : Option (Task F × List (Task F))) (srv : AptpRpcServer F Chan) (n : ℕ)
      (connection : Connection F Chan)
      → IsMute connection
      → IsDeaf c s m srv.shared
      → Picked IsWaiting picked
      → IsMute (run_picked c s m picked srv n connection).0
  unfolding run_picked IsMute
  run_picked-IsMute none srv n connection mute deaf all = mute
  run_picked-IsMute (some (t, rest)) srv n connection mute deaf (mine, others) =
      let srv' = record srv { counter = n } in
      progress-IsMute (call_of t) rest (poll c s m t srv') connection mute.0 others
        (poll-IsSilent srv' deaf t mine)

  cancel_picked-IsMute :
      (picked : Option (Task F × List (Task F))) (srv : AptpRpcServer F Chan)
      (connection : Connection F Chan)
      → IsMute connection
      → IsDeaf c s m srv.shared
      → Picked IsWaiting picked
      → IsMute (cancel_picked c s m picked srv connection)
  unfolding cancel_picked IsMute
  cancel_picked-IsMute none srv connection mute deaf all = mute
  cancel_picked-IsMute (some (t, rest)) srv connection mute deaf (mine, others) =
      (mute.0, (deaf, others))

  act_on-IsMute :
      (action : Action F) (task : Option (AptpRpcServer F Chan × List (Task F))) (n : ℕ)
      (connection : Connection F Chan)
      → IsMute connection
      → Serves task
      → IsMute (act_on c s m action task n connection).0
  unfolding act_on IsMute
  act_on-IsMute action none n connection mute serves = mute
  act_on-IsMute (arrives call) (some (srv, ts)) n connection mute (deaf, all) =
      (mute.0, (deaf, All-snoc IsWaiting ts (waiting call) all tt))
  act_on-IsMute (runs k) (some (srv, ts)) n connection mute (deaf, all) =
      run_picked-IsMute (pick_at k ts) srv n connection mute deaf
        (pick_at-Picked IsWaiting k ts all)
  act_on-IsMute (cancels k) (some (srv, ts)) n connection mute (deaf, all) =
      cancel_picked-IsMute (pick_at k ts) srv connection mute deaf
        (pick_at-Picked IsWaiting k ts all)
  act_on-IsMute leaves (some (srv, ts)) n connection mute serves = (mute.0, tt)

module _ {F H Chan : Type 0} (D : Type 0) ⦃f : Float F⦄ ⦃d : Double F D⦄ (c : Capnp F)
    (s : Sha256 H) (m : Mpsc (TaggedPrimitive F) Chan) (closes : ClosesOnDrop m)
    (read_to_string : String → Result String String)
    (from_str : String → Result String (List F)) where
  started-IsMute :
      (r : Result (AptpError F) (AptpRpcServer F Chan))
      → ((srv : AptpRpcServer F Chan) → r ≡ ok srv → IsDeaf c s m srv.shared)
      → IsMute c s m (started (spawned r))
  unfolding IsMute
  started-IsMute (ok srv) deaf = (tt, (deaf srv refl, tt))
  started-IsMute (err e) deaf = (tt, tt)
  started-IsMute panic deaf = (tt, tt)

  IsMute-kept : (cfg : AptpConfig F) → IsKept D c s m read_to_string from_str cfg (IsMute c s m)
  unfolding open_connection handle_connection act IsMute
  IsMute-kept cfg = record {
    opened = λ n.
        started-IsMute (handle_connection D m read_to_string from_str cfg n)
          λ srv made. new-IsDeaf D c s m closes read_to_string from_str cfg 1024 n made;
    acted = λ action n connection mute.
        act_on-IsMute c s m action connection.task n connection mute mute.1;
  }

  -- The server program with any calls of any connections in flight, over a channel that is closed
  -- with its receiver: whatever its arguments and its configuration, and in whatever order handlers
  -- take turns, peers connect, call, give calls up and leave, no reply to any peer acknowledges a
  -- packet, and every session that is finalised has the count 0.
  pub program_never_acknowledges :
      {Addr : Type 0} (parse_config : String → Result String (AptpConfig F)) (net : Net Addr)
      (args : List String) (turns : List (Turn F)) {end : Flight F Chan}
      → program D c s m read_to_string from_str parse_config net args turns ≡ ok end
      → All (λ (connection : Connection F Chan). All Refuses connection.replied) end.connections
  unfolding IsMute
  program_never_acknowledges parse_config net args turns {end} flown =
      let (cfg, configured, loop) =
        program-flies D c s m read_to_string from_str parse_config net args turns flown in
      All-imp (λ connection mute. mute.0) end.connections
        (fly-All D c s m read_to_string from_str cfg (IsMute c s m) (IsMute-kept cfg) turns
          (record { connections = []; counter = 0 }) tt loop)
