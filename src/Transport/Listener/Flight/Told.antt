-- ===== src/Transport/Listener/Flight/Told.antt =====
-- The registries of all connections of src/transport/server.rs, told from the replies to their peers.
use aptp.Prelude.{
  ℕ, zero, suc, ◌≡◌, refl, sym, ap, ◌∙◌, String, Bool, true, false, Option, none, some, List, [],
  ◌∷◌, ◌++◌, All, if◌then◌else◌,
}
use aptp.Float.{Float, Double}
use aptp.Error.{Result, ok, err, panic, AptpError, >>=-eq-ok, ok_unique}
use aptp.Config.{AptpConfig}
use aptp.Primitives.{TaggedPrimitive}
use aptp.Primitives.Provenance.{Sha256}
use aptp.Wire.{Capnp}
use aptp.Validation.Gate
use aptp.Rpc.Registry.{SessionRegistry, default, find}
use aptp.Rpc.Sink.{Mpsc}
use aptp.Rpc.Server.{AptpRpcServer, new}
use aptp.Rpc.Server.Calls.{Call, Reply}
use aptp.Rpc.Server.Sessions.Tell.{entry, tell, tell_all, tell_all-snoc}
use aptp.Rpc.Server.Tasks.{Task, waiting, Poll, pending, ready, call_of, poll}
use aptp.Rpc.Server.Tasks.Told.{IsNamed, Tells, poll-Tells}
use aptp.Transport.Connection.{handle_connection}
use aptp.Transport.Listener.{Net, is_panic, spawned}
use aptp.Transport.Listener.Flight.{
  Action, arrives, runs, cancels, leaves, Turn, Connection, Flight, pick_at, started, progress,
  run_picked, cancel_picked, act_on, act, open_connection, program,
}
use aptp.Transport.Listener.Flight.Keeps.{All-snoc, All-imp, IsKept, fly-All, program-flies}

-- A handler that has the turn, and the others.
abbrev pub Picked : {A : Type 0} (P : A → Type 0) → Option (A × List A) → Type 0
Picked P none = Unit
Picked P (some (x, rest)) = P x × All P rest

pub pick_at-Picked :
    {A : Type 0} (P : A → Type 0) (k : ℕ) (xs : List A) → All P xs → Picked P (pick_at k xs)
pick_at-Picked P k [] all = tt
pick_at-Picked P zero (x ∷ xs) all = all
pick_at-Picked P (suc k) (x ∷ xs) (one, all) =
    elim (pick_at k xs)
        as (λ o.
          Picked P o → Picked P (elim o [ none ↦ none | some (y, rest) ↦ some (y, x ∷ rest) ])) [
            | none ↦ λ p. tt
            | some (y, rest) ↦ λ p. (p.0, (one, p.1))
          ]
      (pick_at-Picked P k xs all)

module _ {F H Chan : Type 0} ⦃f : Float F⦄ (c : Capnp F) (s : Sha256 H)
    (m : Mpsc (TaggedPrimitive F) Chan) where
  -- If the connection's task runs, what its registry has of each session is what its replies tell.
  abbrev Told : Option (AptpRpcServer F Chan × List (Task F)) → List (Call F × Reply F) → Type 0
  Told none replied = Unit
  Told (some (srv, ts)) replied =
      All (IsNamed c s m) ts × ((k : String) → entry k srv ≡ tell_all c k none replied)

  unwound-Told :
      (unwinds : Bool) (srv : AptpRpcServer F Chan) (ts : List (Task F))
      (replied : List (Call F × Reply F))
      → Told (some (srv, ts)) replied
      → Told (if unwinds then none else some (srv, ts)) replied
  unwound-Told true srv ts replied told = tt
  unwound-Told false srv ts replied told = told

  progress-Told :
      (call : Call F) (rest : List (Task F)) (polled : Poll F × AptpRpcServer F Chan)
      (srv : AptpRpcServer F Chan) (connection : Connection F Chan)
      → All (IsNamed c s m) rest
      → ((k : String) → entry k srv ≡ tell_all c k none connection.replied)
      → ((k : String) → Tells c s m k srv call polled)
      → let (after, n) = progress call rest polled connection in Told after.task after.replied
  unfolding progress
  progress-Told call rest (pending t, srv') srv connection others before tells =
      (((tells "").1, others), λ k. (tells k).0 ∙ before k)
  progress-Told call rest (ready r, srv') srv connection others before tells =
      unwound-Told (is_panic r) srv' rest (connection.replied ++ (call, r) ∷ []) (
        others,
        λ k.
            tells k
            ∙ ap (λ old. tell c k old (call, r)) (before k)
            ∙ sym (tell_all-snoc c k none connection.replied (call, r)),
      )

  run_picked-Told :
      (picked : Option (Task F × List (Task F))) (srv : AptpRpcServer F Chan) (n : ℕ)
      (connection : Connection F Chan)
      → Told connection.task connection.replied
      → Picked (IsNamed c s m) picked
      → ((k : String) → entry k srv ≡ tell_all c k none connection.replied)
      → let (after, n') = run_picked c s m picked srv n connection in Told after.task after.replied
  unfolding run_picked
  run_picked-Told none srv n connection told all before = told
  run_picked-Told (some (t, rest)) srv n connection told (mine, others) before =
      let srv' = record srv { counter = n } in
      progress-Told (call_of t) rest (poll c s m t srv') srv' connection others before
        (λ k. poll-Tells c s m k srv' t mine)

  cancel_picked-Told :
      (picked : Option (Task F × List (Task F))) (srv : AptpRpcServer F Chan)
      (connection : Connection F Chan)
      → Told connection.task connection.replied
      → Picked (IsNamed c s m) picked
      → ((k : String) → entry k srv ≡ tell_all c k none connection.replied)
      → let after = cancel_picked c s m picked srv connection in Told after.task after.replied
  unfolding cancel_picked
  cancel_picked-Told none srv connection told all before = told
  cancel_picked-Told (some (t, rest)) srv connection told (mine, others) before = (others, before)

  act_on-Told :
      (action : Action F) (task : Option (AptpRpcServer F Chan × List (Task F))) (n : ℕ)
      (connection : Connection F Chan)
      → connection.task ≡ task
      → Told connection.task connection.replied
      → let (after, n') = act_on c s m action task n connection in Told after.task after.replied
  unfolding act_on
  act_on-Told action none n connection same told = told
  act_on-Told (arrives call) (some (srv, ts)) n connection same told =
      let (all, before) : Told (some (srv, ts)) connection.replied = rw same at told in
      (All-snoc (IsNamed c s m) ts (waiting call) all tt, before)
  act_on-Told (runs k) (some (srv, ts)) n connection same told =
      let (all, before) : Told (some (srv, ts)) connection.replied = rw same at told in
      run_picked-Told (pick_at k ts) srv n connection told (pick_at-Picked (IsNamed c s m) k ts all)
        before
  act_on-Told (cancels k) (some (srv, ts)) n connection same told =
      let (all, before) : Told (some (srv, ts)) connection.replied = rw same at told in
      cancel_picked-Told (pick_at k ts) srv connection told
        (pick_at-Picked (IsNamed c s m) k ts all) before
  act_on-Told leaves (some (srv, ts)) n connection same told = tt

  -- What a peer can tell of its connection: as long as its task runs, what the registry holds of a
  -- session is what the calls answered and their replies tell, in the order of the replies.
  abbrev pub Tallies :
      Option (AptpRpcServer F Chan × List (Task F)) → List (Call F × Reply F) → Type 0
  Tallies none replied = Unit
  Tallies (some (srv, ts)) replied = (k : String) → entry k srv ≡ tell_all c k none replied

  abbrev pub Accounts : Connection F Chan → Type 0
  Accounts connection = Tallies connection.task connection.replied

  Told-Tallies :
      (task : Option (AptpRpcServer F Chan × List (Task F))) (replied : List (Call F × Reply F))
      → Told task replied
      → Tallies task replied
  Told-Tallies none replied told = tt
  Told-Tallies (some (srv, ts)) replied told = told.1

  IsTold : Connection F Chan → Type 0
  IsTold connection = Told connection.task connection.replied

  IsTold-Accounts : (connection : Connection F Chan) → IsTold connection → Accounts connection
  unfolding IsTold
  IsTold-Accounts connection told = Told-Tallies connection.task connection.replied told

  act-IsTold :
      (action : Action F) (n : ℕ) (connection : Connection F Chan)
      → IsTold connection
      → IsTold (act c s m action n connection).0
  unfolding act IsTold
  act-IsTold action n connection told = act_on-Told action connection.task n connection refl told

module _ {F H Chan : Type 0} (D : Type 0) ⦃f : Float F⦄ ⦃d : Double F D⦄ (c : Capnp F)
    (s : Sha256 H) (m : Mpsc (TaggedPrimitive F) Chan)
    (read_to_string : String → Result String String)
    (from_str : String → Result String (List F)) where
  started-IsTold :
      (r : Result (AptpError F) (AptpRpcServer F Chan))
      → ((srv : AptpRpcServer F Chan) → r ≡ ok srv → srv.shared.sessions ≡ default)
      → IsTold c s m (started (spawned r))
  unfolding IsTold find
  started-IsTold (ok srv) fresh =
      (tt, λ k. ap (λ (reg : SessionRegistry). find k reg.sessions) (fresh srv refl))
  started-IsTold (err e) fresh = tt
  started-IsTold panic fresh = tt

  new-default :
      (cfg : AptpConfig F) (n : ℕ) (srv : AptpRpcServer F Chan)
      → handle_connection D m read_to_string from_str cfg n ≡ ok srv
      → srv.shared.sessions ≡ default
  unfolding handle_connection new
  new-default cfg n srv made =
      let (firewall, loaded, built) =
        >>=-eq-ok (Gate.new D read_to_string from_str cfg.validation) _ made in
      ap (λ (t : AptpRpcServer F Chan). t.shared.sessions) (sym (ok_unique refl built))

  IsTold-kept : (cfg : AptpConfig F) → IsKept D c s m read_to_string from_str cfg (IsTold c s m)
  unfolding open_connection
  IsTold-kept cfg = record {
    opened = λ n.
        started-IsTold (handle_connection D m read_to_string from_str cfg n) (new-default cfg n);
    acted = act-IsTold c s m;
  }

  -- The server program with any calls of any connections in flight: whatever its arguments and its
  -- configuration, and in whatever order handlers take turns, peers connect, call, give calls up and
  -- leave, over any channel: on every connection whose task runs, what the registry holds of each
  -- session is what the calls that were answered and their replies tell, in the order of the replies:
  -- whether it is open, and then its id, its peer, the adapter that the reply to its handshake named,
  -- the time of that handshake, and the number, modulo 2^64, of its acknowledged packets since then.
  pub program-Accounts :
      {Addr : Type 0} (parse_config : String → Result String (AptpConfig F)) (net : Net Addr)
      (args : List String) (turns : List (Turn F)) {end : Flight F Chan}
      → program D c s m read_to_string from_str parse_config net args turns ≡ ok end
      → All (Accounts c s m) end.connections
  program-Accounts parse_config net args turns {end} flown =
      let (cfg, configured, loop) =
        program-flies D c s m read_to_string from_str parse_config net args turns flown in
      All-imp (IsTold-Accounts c s m) end.connections (
        fly-All D c s m read_to_string from_str cfg (IsTold c s m) (IsTold-kept cfg) turns
          (record { connections = []; counter = 0 }) tt loop)
