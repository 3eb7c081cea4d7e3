-- ===== src/Transport/Listener/Isolation.antt =====
-- Connections of src/transport/server.rs, each against itself alone in a process.
use aptp.Prelude.{
  ℕ, ◌≡◌, sym, ap, ◌∙◌, Option, some, List, [], ◌∷◌, map, get_elem?, ◌==◌, if◌then◌else◌,
}
use aptp.Float.{Float}
use aptp.Error.{Result, ok, err, panic, AptpError, ◌>>=◌}
use aptp.Primitives.{TaggedPrimitive}
use aptp.Primitives.Provenance.{Sha256}
use aptp.Wire.{Capnp}
use aptp.Rpc.Sink.{Mpsc}
use aptp.Rpc.Server.{AptpRpcServer}
use aptp.Rpc.Server.Calls.{Call, Reply}
use aptp.Transport.Listener.{Event, accepts, calls, Process, answer}
use aptp.Transport.Listener.Counter.{heard, uncounted, view, answer-view}

-- The calls on connection `i`, and the replies to them.
abbrev pub calls_on : {F : Type 0} → ℕ → List (Event F) → List (Call F)
calls_on i [] = []
calls_on i (accepts r ∷ events) = calls_on i events
calls_on i (calls j call ∷ events) =
    let rest = calls_on i events in if j == i then call ∷ rest else rest

abbrev pub replies_on :
    {F : Type 0} → ℕ → List (Event F × Option (Reply F)) → List (Option (Reply F))
replies_on i [] = []
replies_on i ((accepts r, reply) ∷ history) = replies_on i history
replies_on i ((calls j call, reply) ∷ history) =
    let rest = replies_on i history in if j == i then reply ∷ rest else rest

module _ {F H Chan : Type 0} ⦃f : Float F⦄ (c : Capnp F) (s : Sha256 H)
    (m : Mpsc (TaggedPrimitive F) Chan) where
  -- A connection that is alone in its process.
  abbrev pub alone :
      List (Call F)
      → ℕ
      → Option (AptpRpcServer F Chan)
      → List (Option (Reply F)) × Option (AptpRpcServer F Chan)
  alone [] counter connection = ([], connection)
  alone (call ∷ others) counter connection =
      let (reply, connection', counter') = answer c s m call counter connection in
      let (replies, end) = alone others counter' connection' in (reply ∷ replies, end)

  pub answer-same :
      (call : Call F) (n n' : ℕ) (connection connection' : Option (AptpRpcServer F Chan))
      → uncounted connection ≡ uncounted connection'
      → view (answer c s m call n connection) ≡ view (answer c s m call n' connection')
  answer-same call n n' connection connection' same =
      answer-view c s m call n connection
      ∙ ap (λ u. view (answer c s m call 0 u)) same
      ∙ sym (answer-view c s m call n' connection')

module _ {F Chan : Type 0} where
  -- What connection `i` has answered, and where it is, if the process still runs.
  abbrev pub Sees :
      ℕ
      → List (Option (Reply F)) × Option (AptpRpcServer F Chan)
      → Result (AptpError F) (List (Event F × Option (Reply F)) × Process F Chan)
      → Type 0
  Sees i answers (err e) = Unit
  Sees i answers panic = Unit
  Sees i answers (ok (history, process)) =
      (map heard (replies_on i history) ≡ map heard answers.0)
      × ((connection : Option (AptpRpcServer F Chan)) × (get_elem? process.connections i
            ≡ some connection)
          × (uncounted connection ≡ uncounted answers.1))

  abbrev recorded :
      Event F
      → Option (Reply F)
      → Result (AptpError F) (List (Event F × Option (Reply F)) × Process F Chan)
      → Result (AptpError F) (List (Event F × Option (Reply F)) × Process F Chan)
  recorded event reply r = do (history, end) ← r; ok ((event, reply) ∷ history, end)
