-- ===== src/Transport/Listener/Flight.antt =====
-- The process of src/transport/server.rs with the calls of all its connections in flight. The
-- runtime has one thread: from one `await` to the next a handler runs alone, and between two of its
-- turns any other handler of any connection may run, peers connect, call, give calls up and leave.
-- Which of these comes next is up to tokio, capnp-rpc and the peers: a run is any sequence of them,
-- and the bookkeeping of handlers and replies is only what such a sequence needs.
pub mod Keeps
pub mod Told
pub mod Deaf
pub mod Guards
mod Scenario
mod Tests
use aptp.Prelude.{
  ℕ, zero, suc, String, ◌<>◌, Option, none, some, List, [], ◌∷◌, ◌++◌, if◌then◌else◌,
}
use aptp.Float.{Float, Double}
use aptp.Error.{Result, ok, err, panic, AptpError, config, io, map_err, ◌>>=◌, ◌>>◌}
use aptp.Config.{AptpConfig, from_toml_file}
use aptp.Primitives.{TaggedPrimitive}
use aptp.Primitives.Provenance.{Sha256}
use aptp.Wire.{Capnp}
use aptp.Rpc.Sink.{Mpsc}
use aptp.Rpc.Server.{AptpRpcServer}
use aptp.Rpc.Server.Calls.{Call, Reply}
use aptp.Rpc.Server.Tasks.{Task, waiting, Poll, pending, ready, call_of, poll}
use aptp.Transport.Args.{config_path}
use aptp.Transport.Connection.{handle_connection}
use aptp.Transport.Listener.{Net, is_panic, spawned}

-- What happens on one connection: a call comes in, its handler number `k` gets a turn, the peer gives
-- that handler's call up, or it closes the connection.
pub data Action (F : Type 0) : Type 0 where
  arrives : Call F → Action F
  runs : (k : ℕ) → Action F
  cancels : (k : ℕ) → Action F
  leaves : Action F

-- A peer that connects, with what `accept` and `set_nodelay` return, or an action on the connection
-- that was accepted as number `i`.
pub data Turn (F : Type 0) : Type 0 where
  accepts : Result String (Result String (Unit {0})) → Turn F
  on : (i : ℕ) → Action F → Turn F

-- The connection's task: the server with the handlers that have not replied, or `none` once it has
-- ended; and the replies that the peer was sent, with their calls, in their order.
pub record Connection (F Chan : Type 0) : Type 0 where
  pub task : Option (AptpRpcServer F Chan × List (Task F))
  pub replied : List (Call F × Reply F)

pub record Flight (F Chan : Type 0) : Type 0 where
  pub connections : List (Connection F Chan)
  pub counter : ℕ

-- Element `k`, and the others.
abbrev pub pick_at {ℓ} : {A : Type ℓ} → ℕ → List A → Option (A × List A)
pick_at k [] = none
pick_at zero (x ∷ xs) = some (x, xs)
pick_at (suc k) (x ∷ xs) = elim (pick_at k xs) [ none ↦ none | some (y, rest) ↦ some (y, x ∷ rest) ]

module _ {F Chan : Type 0} where
  abbrev pub with_tasks :
      AptpRpcServer F Chan → List (Task F) → Connection F Chan → Connection F Chan
  with_tasks srv ts connection = record connection { task = some (srv, ts) }

  -- After a turn of the handler of `call`: a panic unwinds the connection's task.
  unfoldable pub progress :
      Call F
      → List (Task F)
      → Poll F × AptpRpcServer F Chan
      → Connection F Chan
      → Connection F Chan × ℕ
  progress call rest (pending t, srv) connection =
      (with_tasks srv (t ∷ rest) connection, srv.counter)
  progress call rest (ready r, srv) connection = (
    record {
      task = if is_panic r then none else some (srv, rest);
      replied = connection.replied ++ (call, r) ∷ [];
    },
    srv.counter,
  )

module _ {F H Chan : Type 0} ⦃f : Float F⦄ (c : Capnp F) (s : Sha256 H)
    (m : Mpsc (TaggedPrimitive F) Chan) where
  unfoldable pub run_picked :
      Option (Task F × List (Task F))
      → AptpRpcServer F Chan
      → ℕ
      → Connection F Chan
      → Connection F Chan × ℕ
  unfolding progress
  run_picked none srv counter connection = (connection, counter)
  run_picked (some (t, rest)) srv counter connection =
      progress (call_of t) rest (poll c s m t (record srv { counter = counter })) connection

  unfoldable pub cancel_picked :
      Option (Task F × List (Task F)) → AptpRpcServer F Chan → Connection F Chan → Connection F Chan
  cancel_picked none srv connection = connection
  cancel_picked (some (t, rest)) srv connection = with_tasks srv rest connection

  unfoldable pub act_on :
      Action F
      → Option (AptpRpcServer F Chan × List (Task F))
      → ℕ
      → Connection F Chan
      → Connection F Chan × ℕ
  unfolding run_picked cancel_picked
  act_on action none counter connection = (connection, counter)
  act_on (arrives call) (some (srv, ts)) counter connection =
      (with_tasks srv (ts ++ waiting call ∷ []) connection, counter)
  act_on (runs k) (some (srv, ts)) counter connection =
      run_picked (pick_at k ts) srv counter connection
  act_on (cancels k) (some (srv, ts)) counter connection =
      (cancel_picked (pick_at k ts) srv connection, counter)
  act_on leaves (some (srv, ts)) counter connection = (record connection { task = none }, counter)

  unfoldable pub act : Action F → ℕ → Connection F Chan → Connection F Chan × ℕ
  unfolding act_on
  act action counter connection = act_on action connection.task counter connection

  unfoldable pub act_at :
      (i : ℕ) → Action F → ℕ → List (Connection F Chan) → List (Connection F Chan) × ℕ
  unfolding act
  act_at i action counter [] = ([], counter)
  act_at zero action counter (connection ∷ others) =
      let (connection', counter') = act action counter connection in
      (connection' ∷ others, counter')
  act_at (suc i) action counter (connection ∷ others) =
      let (others', counter') = act_at i action counter others in (connection ∷ others', counter')

abbrev pub started : {F Chan : Type 0} → Option (AptpRpcServer F Chan) → Connection F Chan
started none = record { task = none; replied = [] }
started (some srv) = record { task = some (srv, []); replied = [] }

module _ {F H Chan : Type 0} (D : Type 0) ⦃f : Float F⦄ ⦃d : Double F D⦄ (c : Capnp F)
    (s : Sha256 H) (m : Mpsc (TaggedPrimitive F) Chan)
    (read_to_string : String → Result String String) (from_str : String → Result String (List F))
    (cfg : AptpConfig F) where
  -- A connection of its own, with the server that `handle_connection` makes for it.
  unfoldable pub open_connection : ℕ → Connection F Chan
  unfolding handle_connection
  open_connection counter =
      started (spawned (handle_connection D m read_to_string from_str cfg counter))

  unfoldable pub turn : Turn F → Flight F Chan → Result (AptpError F) (Flight F Chan)
  unfolding open_connection act_at
  turn (accepts panic) flight = panic
  turn (accepts (err e)) flight = err (io e)
  turn (accepts (ok panic)) flight = panic
  turn (accepts (ok (err e))) flight = err (io e)
  turn (accepts (ok (ok u))) flight =
      ok (record flight { connections = flight.connections ++ open_connection flight.counter ∷ [] })
  turn (on i action) flight =
      let (connections, counter) = act_at c s m i action flight.counter flight.connections in
      ok (record { connections = connections; counter = counter })

  -- The process through some turns: an error is what `run_server` returns.
  unfoldable pub fly : List (Turn F) → Flight F Chan → Result (AptpError F) (Flight F Chan)
  unfolding turn
  fly [] flight = ok flight
  fly (t ∷ turns) flight = do flight' ← turn t flight; fly turns flight'

  -- `run_server`, in a process whose counter is as it was initialised.
  unfoldable pub listen :
      {Addr : Type 0} → Net Addr → List (Turn F) → Result (AptpError F) (Flight F Chan)
  unfolding fly
  listen net turns = do
    addr ← map_err (λ e. config ("invalid bind addr: " <> e)) (net.parse cfg.transport.bind_addr)
    map_err io (net.bind addr)
    fly turns (record { connections = []; counter = 0 })

module _ {F H Chan Addr : Type 0} (D : Type 0) ⦃f : Float F⦄ ⦃d : Double F D⦄ (c : Capnp F)
    (s : Sha256 H) (m : Mpsc (TaggedPrimitive F) Chan)
    (read_to_string : String → Result String String) (from_str : String → Result String (List F))
    (parse_config : String → Result String (AptpConfig F)) (net : Net Addr) where
  -- `main` of src/bin/aptp-server.rs.
  unfoldable pub program : List String → List (Turn F) → Result (AptpError F) (Flight F Chan)
  unfolding config_path listen
  program args turns = do
    cfg ← from_toml_file read_to_string parse_config (config_path args)
    listen D c s m read_to_string from_str cfg net turns
