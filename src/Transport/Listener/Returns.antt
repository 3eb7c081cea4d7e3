-- ===== src/Transport/Listener/Returns.antt =====
-- When `run_server` of src/transport/server.rs returns.
use aptp.Prelude.{
  ℕ, zero, suc, ◌+◌, ◌≡◌, refl, ap, ◌∙◌, String, ◌<>◌, Option, List, [], ◌∷◌, length, length-append,
  arith,
}
use aptp.Float.{Float, Double}
use aptp.Error.{Result, ok, err, panic, AptpError, config, io, map_err, ◌>>=◌, ◌>>◌}
use aptp.Config.{AptpConfig}
use aptp.Primitives.{TaggedPrimitive}
use aptp.Primitives.Provenance.{Sha256}
use aptp.Wire.{Capnp}
use aptp.Rpc.Sink.{Mpsc}
use aptp.Rpc.Server.{AptpRpcServer}
use aptp.Rpc.Server.Calls.{Call, Reply}
use aptp.Transport.Listener.{
  Net, Event, accepts, calls, Process, answer_at, happen, serve, run_server,
}

-- The number of peers that are accepted, or the first error of a socket.
abbrev pub accepted : {F : Type 0} → List (Event F) → Result (AptpError F) ℕ
accepted [] = ok 0
accepted (calls i call ∷ events) = accepted events
accepted (accepts r ∷ events) = do
  nodelay ← map_err io r
  map_err io nodelay
  n ← accepted events
  ok (1 + n)

module _ {F : Type 0} where
  plus-accepted :
      (n k k' : ℕ) (r : Result (AptpError F) ℕ)
      → k' ≡ k + n
      → (do i ← r; ok (k' + i)) ≡ (do i ← (do j ← r; ok (n + j)); ok (k + i))
  plus-accepted n k k' (ok i) h = ap ok (omega (arith, h))
  plus-accepted n k k' (err e) h = refl
  plus-accepted n k k' panic h = refl

  zero-accepted : (r : Result (AptpError F) ℕ) → (do n ← r; ok (0 + n)) ≡ r
  zero-accepted (ok n) = ap ok (omega arith)
  zero-accepted (err e) = refl
  zero-accepted panic = refl

module _ {F Chan : Type 0} where
  -- The number of connections that a process has had, if it still runs.
  abbrev pub had :
      Result (AptpError F) (List (Event F × Option (Reply F)) × Process F Chan)
      → Result (AptpError F) ℕ
  had r = do (history, process) ← r; ok (length process.connections)

  had-recorded :
      (e : Event F × Option (Reply F))
      (r : Result (AptpError F) (List (Event F × Option (Reply F)) × Process F Chan))
      → had (do (history, process) ← r; ok (e ∷ history, process)) ≡ had r
  had-recorded e (ok p) = refl
  had-recorded e (err x) = refl
  had-recorded e panic = refl

module _ {F H Chan : Type 0} ⦃f : Float F⦄ (c : Capnp F) (s : Sha256 H)
    (m : Mpsc (TaggedPrimitive F) Chan) where
  length-answer_at :
      (i : ℕ) (call : Call F) (n : ℕ) (connections : List (Option (AptpRpcServer F Chan)))
      → length (answer_at c s m i call n connections).1 ≡ length connections
  unfolding answer_at
  length-answer_at i call n [] = refl
  length-answer_at zero call n (first ∷ others) = refl
  length-answer_at (suc i) call n (first ∷ others) = ap suc (length-answer_at i call n others)

module _ {F H Chan : Type 0} (D : Type 0) ⦃f : Float F⦄ ⦃d : Double F D⦄ (c : Capnp F)
    (s : Sha256 H) (m : Mpsc (TaggedPrimitive F) Chan)
    (read_to_string : String → Result String String) (from_str : String → Result String (List F))
    (cfg : AptpConfig F) where
  serve-had :
      (events : List (Event F)) (process : Process F Chan)
      → had (serve D c s m read_to_string from_str cfg events process)
        ≡ (do n ← accepted events; ok (length process.connections + n))
  unfolding serve happen
  serve-had [] process = ap ok (omega arith)
  serve-had (calls i call ∷ events) process =
      had-recorded (calls i call, _) (serve D c s m read_to_string from_str cfg events _)
      ∙ serve-had events _
      ∙ ap (λ k. do n ← accepted events; ok (k + n))
          (length-answer_at c s m i call process.counter process.connections)
  serve-had (accepts panic ∷ events) process = refl
  serve-had (accepts (err e) ∷ events) process = refl
  serve-had (accepts (ok panic) ∷ events) process = refl
  serve-had (accepts (ok (err e)) ∷ events) process = refl
  serve-had (accepts (ok (ok u)) ∷ events) process =
      had-recorded (accepts (ok (ok u)), _) (serve D c s m read_to_string from_str cfg events _)
      ∙ serve-had events _
      ∙ plus-accepted 1 (length process.connections) _ (accepted events)
          (length-append process.connections _)

  bound-had :
      {Addr : Type 0} (addr : Result String Addr) (bind : Addr → Result String (Unit {0}))
      (counter : ℕ) (events : List (Event F))
      → had (do
        a ← map_err (λ e. config ("invalid bind addr: " <> e)) addr
        map_err io (bind a)
        serve D c s m read_to_string from_str cfg events
            (record { connections = []; counter = counter }))
        ≡ (do
          a ← map_err (λ e. config ("invalid bind addr: " <> e)) addr
          map_err io (bind a)
          accepted events)
  bound-had (err e) bind counter events = refl
  bound-had panic bind counter events = refl
  bound-had (ok a) bind counter events =
      elim (bind a)
        as (λ b.
          had (do
            map_err io b
            serve D c s m read_to_string from_str cfg events
                (record { connections = []; counter = counter }))
          ≡ (do map_err io b; accepted events)) [
            | err e ↦ refl
            | panic ↦ refl
            | ok u ↦
                serve-had events (record { connections = []; counter = counter })
                ∙ zero-accepted (accepted events)
          ]

  -- `run_server` returns only with an error: of the configured address, of the bind, or the first of an
  -- accept or a `set_nodelay`. No call, and no connection that fails, ends it. While it runs, it has
  -- spawned a connection for each peer accepted.
  pub run_server-returns :
      {Addr : Type 0} (net : Net Addr) (counter : ℕ) (events : List (Event F))
      → had (run_server D c s m read_to_string from_str cfg net counter events) ≡ (do
        addr ←
            map_err (λ e. config ("invalid bind addr: " <> e)) (net.parse cfg.transport.bind_addr)
        map_err io (net.bind addr)
        accepted events)
  unfolding run_server
  run_server-returns net counter events =
      bound-had (net.parse cfg.transport.bind_addr) net.bind counter events
