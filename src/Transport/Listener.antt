-- ===== src/Transport/Listener.antt =====
-- `run_server` of src/transport/server.rs, with the tasks that it spawns, and src/bin/aptp-server.rs.
-- Sockets and the parser of addresses are a parameter.
pub mod Counter
pub mod Isolation
pub mod Returns
pub mod Flight
mod Tests
use aptp.Prelude.{
  ℕ, zero, suc, String, ◌<>◌, Bool, true, false, Option, none, some, List, [], ◌∷◌, ◌++◌,
  if◌then◌else◌,
}
use aptp.Float.{Float, Double}
use aptp.Error.{Result, ok, err, panic, AptpError, config, io, map_err, ◌>>=◌, ◌>>◌}
use aptp.Config.{AptpConfig, from_toml_file}
use aptp.Primitives.{TaggedPrimitive}
use aptp.Primitives.Provenance.{Sha256}
use aptp.Wire.{Capnp}
use aptp.Rpc.Sink.{Mpsc}
use aptp.Rpc.Server.{AptpRpcServer}
use aptp.Rpc.Server.Calls.{Call, Reply, handshaken, streamed, negotiated, finalized, step}
use aptp.Transport.Args.{config_path}
use aptp.Transport.Connection.{handle_connection}

-- `str::parse::<SocketAddr>` and `TcpListener::bind`, with the errors' texts.
pub record Net (Addr : Type 0) : Type 0 where
  pub parse : String → Result String Addr
  pub bind : Addr → Result String (Unit {0})

-- What reaches the process: a peer that connects, with what `accept` and then `set_nodelay` return, or
-- a call on the connection that was accepted as number `i`.
pub data Event (F : Type 0) : Type 0 where
  accepts : Result String (Result String (Unit {0})) → Event F
  calls : (i : ℕ) → Call F → Event F

-- The connections in the order of their acceptance; `none` for one whose task has ended. All of them
-- share the static counter of src/rpc/negotiate.rs.
pub record Process (F Chan : Type 0) : Type 0 where
  pub connections : List (Option (AptpRpcServer F Chan))
  pub counter : ℕ

-- An error or a panic in a connection's task is the end of the task, and of nothing else.
abbrev pub spawned {ℓ κ} : {E : Type ℓ} {A : Type κ} → Result E A → Option A
spawned (ok server) = some server
spawned (err e) = none
spawned panic = none

abbrev pub unwound {ℓ κ} : {E : Type ℓ} {A : Type κ} → Result E A → Bool
unwound panic = true
unwound (ok a) = false
unwound (err e) = false

abbrev pub is_panic : {F : Type 0} → Reply F → Bool
is_panic (handshaken r) = unwound r
is_panic (streamed r) = unwound r
is_panic (negotiated r) = unwound r
is_panic (finalized r) = unwound r

module _ {F H Chan : Type 0} ⦃f : Float F⦄ (c : Capnp F) (s : Sha256 H)
    (m : Mpsc (TaggedPrimitive F) Chan) where
  -- A call on a connection, and the counter after it. The connection's task unwinds with a handler.
  unfoldable pub answer :
      Call F
      → ℕ
      → Option (AptpRpcServer F Chan)
      → Option (Reply F) × Option (AptpRpcServer F Chan) × ℕ
  answer call counter none = (none, none, counter)
  answer call counter (some srv) =
      let (reply, srv') = step c s m (record srv { counter = counter }) call in
      (some reply, (if is_panic reply then none else some srv'), srv'.counter)

  unfoldable pub answer_at :
      (i : ℕ)
      → Call F
      → ℕ
      → List (Option (AptpRpcServer F Chan))
      → Option (Reply F) × List (Option (AptpRpcServer F Chan)) × ℕ
  unfolding answer
  answer_at i call counter [] = (none, [], counter)
  answer_at zero call counter (connection ∷ others) =
      let (reply, connection', counter') = answer call counter connection in
      (reply, connection' ∷ others, counter')
  answer_at (suc i) call counter (connection ∷ others) =
      let (reply, others', counter') = answer_at i call counter others in
      (reply, connection ∷ others', counter')

module _ {F H Chan : Type 0} (D : Type 0) ⦃f : Float F⦄ ⦃d : Double F D⦄ (c : Capnp F)
    (s : Sha256 H) (m : Mpsc (TaggedPrimitive F) Chan)
    (read_to_string : String → Result String String) (from_str : String → Result String (List F))
    (cfg : AptpConfig F) where
  unfoldable pub happen :
      Event F → Process F Chan → Result (AptpError F) (Option (Reply F) × Process F Chan)
  unfolding handle_connection answer_at
  happen (accepts panic) process = panic
  happen (accepts (err e)) process = err (io e)
  happen (accepts (ok panic)) process = panic
  happen (accepts (ok (err e))) process = err (io e)
  happen (accepts (ok (ok u))) process =
      let server = handle_connection D m read_to_string from_str cfg process.counter in
      ok (none, record process { connections = process.connections ++ spawned server ∷ [] })
  happen (calls i call) process =
      let (reply, connections, counter) =
        answer_at c s m i call process.counter process.connections in
      ok (reply, record { connections = connections; counter = counter })

  -- The loop, through some events: an error is what `run_server` returns.
  unfoldable pub serve :
      List (Event F)
      → Process F Chan
      → Result (AptpError F) (List (Event F × Option (Reply F)) × Process F Chan)
  unfolding happen
  serve [] process = ok ([], process)
  serve (event ∷ events) process = do
    (reply, process') ← happen event process
    (history, end) ← serve events process'
    ok ((event, reply) ∷ history, end)

  unfoldable pub run_server :
      {Addr : Type 0}
      → Net Addr
      → (counter : ℕ) → List (Event F)
      → Result (AptpError F) (List (Event F × Option (Reply F)) × Process F Chan)
  unfolding serve
  run_server net counter events = do
    addr ← map_err (λ e. config ("invalid bind addr: " <> e)) (net.parse cfg.transport.bind_addr)
    map_err io (net.bind addr)
    serve events (record { connections = []; counter = counter })

module _ {F H Chan Addr : Type 0} (D : Type 0) ⦃f : Float F⦄ ⦃d : Double F D⦄ (c : Capnp F)
    (s : Sha256 H) (m : Mpsc (TaggedPrimitive F) Chan)
    (read_to_string : String → Result String String) (from_str : String → Result String (List F))
    (parse_config : String → Result String (AptpConfig F)) (net : Net Addr) where
  -- `main` of src/bin/aptp-server.rs, in a process whose counter is as it was initialised.
  unfoldable pub main :
      List String
      → List (Event F)
      → Result (AptpError F) (List (Event F × Option (Reply F)) × Process F Chan)
  unfolding config_path run_server
  main args events = do
    cfg ← from_toml_file read_to_string parse_config (config_path args)
    run_server D c s m read_to_string from_str cfg net 0 events
