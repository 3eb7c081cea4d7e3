-- ===== src/Transport/Listener/Flight/Guards.antt =====
-- The firewall before the sinks of all connections of src/transport/server.rs.
use mathlib.Core.Path.{subst}
use aptp.Prelude.{
  ℕ, ◌≡◌, refl, sym, ap, ◌∙◌, String, Bool, true, false, Option, none, some, List, [], All,
  if◌then◌else◌,
}
use aptp.Float.{Float, Double}
use aptp.Error.{Result, ok, err, panic, AptpError, >>=-eq-ok, ok_unique}
use aptp.Config.{AptpConfig, from_toml_file}
use aptp.Primitives.{TaggedPrimitive}
use aptp.Primitives.Provenance.{Sha256}
use aptp.Wire.{Capnp}
use aptp.Validation.Gate
use aptp.Rpc.Sink.{Mpsc}
use aptp.Rpc.Sink
use aptp.Rpc.Server.{AptpRpcServer, new}
use aptp.Rpc.Server.Calls.{Call}
use aptp.Rpc.Server.Tasks.{Task, Poll, pending, ready, call_of, poll}
use aptp.Rpc.Server.Tasks.Guarded.{Guarded, untouched, KeepsGuard, poll-KeepsGuard}
use aptp.Transport.Args.{config_path}
use aptp.Transport.Connection.{handle_connection}
use aptp.Transport.Listener.{Net, is_panic, spawned}
use aptp.Transport.Listener.Flight.{
  Action, arrives, runs, cancels, leaves, Turn, Connection, Flight, pick_at, started, progress,
  run_picked, cancel_picked, act_on, act, open_connection, program,
}
use aptp.Transport.Listener.Flight.Keeps.{IsKept, fly-All, program-flies}

module _ {F H Chan : Type 0} (D : Type 0) ⦃f : Float F⦄ ⦃d : Double F D⦄ (c : Capnp F)
    (s : Sha256 H) (m : Mpsc (TaggedPrimitive F) Chan)
    (read_to_string : String → Result String String) (from_str : String → Result String (List F))
    (cfg : AptpConfig F) where
  -- A server whose firewall is the configuration's, and whose sink has only what it passed.
  abbrev pub IsSafe : AptpRpcServer F Chan → Type 0
  IsSafe srv =
      (Gate.new D read_to_string from_str cfg.validation ≡ ok srv.firewall)
      × Guarded s m srv.firewall (m.drop_receiver (Sink.new m 1024)) srv.shared.sink

  abbrev pub Guards : Option (AptpRpcServer F Chan × List (Task F)) → Type 0
  Guards none = Unit
  Guards (some (srv, ts)) = IsSafe srv

  kept-IsSafe :
      {A : Type 0} (srv : AptpRpcServer F Chan) (turned : A × AptpRpcServer F Chan)
      → IsSafe srv
      → KeepsGuard c s m (m.drop_receiver (Sink.new m 1024)) srv turned
      → IsSafe turned.1
  kept-IsSafe srv (result, srv') (loaded, guarded) (same, keeps) = (
    loaded ∙ ap ok (sym same),
    subst (λ w. Guarded s m w (m.drop_receiver (Sink.new m 1024)) srv'.shared.sink) (sym same)
        (keeps guarded),
  )

  unwound-Guards :
      (unwinds : Bool) (srv : AptpRpcServer F Chan) (ts : List (Task F))
      → IsSafe srv
      → Guards (if unwinds then none else some (srv, ts))
  unwound-Guards true srv ts safe = tt
  unwound-Guards false srv ts safe = safe

  progress-Guards :
      (call : Call F) (rest : List (Task F)) (polled : Poll F × AptpRpcServer F Chan)
      (connection : Connection F Chan)
      → IsSafe polled.1
      → Guards (progress call rest polled connection).0.task
  unfolding progress
  progress-Guards call rest (pending t, srv) connection safe = safe
  progress-Guards call rest (ready r, srv) connection safe =
      unwound-Guards (is_panic r) srv rest safe

  run_picked-Guards :
      (picked : Option (Task F × List (Task F))) (srv : AptpRpcServer F Chan) (n : ℕ)
      (connection : Connection F Chan)
      → Guards connection.task
      → IsSafe srv
      → Guards (run_picked c s m picked srv n connection).0.task
  unfolding run_picked
  run_picked-Guards none srv n connection guards safe = guards
  run_picked-Guards (some (t, rest)) srv n connection guards safe =
      let srv' = record srv { counter = n } in
      progress-Guards (call_of t) rest (poll c s m t srv') connection (
        kept-IsSafe srv' (poll c s m t srv') safe
          (poll-KeepsGuard c s m (m.drop_receiver (Sink.new m 1024)) srv' t))

  cancel_picked-Guards :
      (picked : Option (Task F × List (Task F))) (srv : AptpRpcServer F Chan)
      (connection : Connection F Chan)
      → Guards connection.task
      → IsSafe srv
      → Guards (cancel_picked c s m picked srv connection).task
  unfolding cancel_picked
  cancel_picked-Guards none srv connection guards safe = guards
  cancel_picked-Guards (some (t, rest)) srv connection guards safe = safe

  act_on-Guards :
      (action : Action F) (task : Option (AptpRpcServer F Chan × List (Task F))) (n : ℕ)
      (connection : Connection F Chan)
      → Guards connection.task
      → Guards task
      → Guards (act_on c s m action task n connection).0.task
  unfolding act_on
  act_on-Guards action none n connection guards safe = guards
  act_on-Guards (arrives call) (some (srv, ts)) n connection guards safe = safe
  act_on-Guards (runs k) (some (srv, ts)) n connection guards safe =
      run_picked-Guards (pick_at k ts) srv n connection guards safe
  act_on-Guards (cancels k) (some (srv, ts)) n connection guards safe =
      cancel_picked-Guards (pick_at k ts) srv connection guards safe
  act_on-Guards leaves (some (srv, ts)) n connection guards safe = tt

  started-Guards :
      (r : Result (AptpError F) (AptpRpcServer F Chan))
      → ((srv : AptpRpcServer F Chan) → r ≡ ok srv → IsSafe srv)
      → Guards (started (spawned r)).task
  started-Guards (ok srv) safe = safe srv refl
  started-Guards (err e) safe = tt
  started-Guards panic safe = tt

  new-IsSafe :
      (n : ℕ) (srv : AptpRpcServer F Chan)
      → handle_connection D m read_to_string from_str cfg n ≡ ok srv
      → IsSafe srv
  unfolding handle_connection new
  new-IsSafe n srv made =
      let (firewall, loaded, built) =
        >>=-eq-ok (Gate.new D read_to_string from_str cfg.validation) _ made in
      subst IsSafe (ok_unique refl built) (loaded, untouched)

  Guards-kept :
      IsKept D c s m read_to_string from_str cfg
        (λ (connection : Connection F Chan). Guards connection.task)
  unfolding open_connection act
  Guards-kept = record {
    opened =
        λ n. started-Guards (handle_connection D m read_to_string from_str cfg n) (new-IsSafe n);
    acted = λ action n connection guards.
        act_on-Guards action connection.task n connection guards guards;
  }

module _ {F H Chan : Type 0} (D : Type 0) ⦃f : Float F⦄ ⦃d : Double F D⦄ (c : Capnp F)
    (s : Sha256 H) (m : Mpsc (TaggedPrimitive F) Chan)
    (read_to_string : String → Result String String)
    (from_str : String → Result String (List F)) where
  -- The server program with any calls of any connections in flight, over any channel: whatever its
  -- arguments and its configuration, and in whatever order handlers take turns, peers connect, call,
  -- give calls up and leave, on every connection whose task runs the firewall is the one of the
  -- configuration that the program read, and the sink has the packets that were sent to it and nothing
  -- else, each of which that firewall passes, with the tag that `TaggedPrimitive::new` makes for it.
  pub program-Guards :
      {Addr : Type 0} (parse_config : String → Result String (AptpConfig F)) (net : Net Addr)
      (args : List String) (turns : List (Turn F)) {end : Flight F Chan}
      → program D c s m read_to_string from_str parse_config net args turns ≡ ok end
      → (cfg : AptpConfig F) × (from_toml_file read_to_string parse_config (config_path args)
          ≡ ok cfg)
        × All
            (λ (connection : Connection F Chan).
              Guards D c s m read_to_string from_str cfg connection.task)
            end.connections
  program-Guards parse_config net args turns flown =
      let (cfg, configured, loop) =
        program-flies D c s m read_to_string from_str parse_config net args turns flown in
      (
        cfg,
        configured,
        fly-All D c s m read_to_string from_str cfg
            (λ (connection : Connection F Chan).
              Guards D c s m read_to_string from_str cfg connection.task)
            (Guards-kept D c s m read_to_string from_str cfg) turns
            (record { connections = []; counter = 0 }) tt loop,
      )
