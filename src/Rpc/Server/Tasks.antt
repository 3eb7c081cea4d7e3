-- ===== src/Rpc/Server/Tasks.antt =====
-- Calls in flight on one server of src/rpc/mod.rs. A handler runs from one `await` to the next, and
-- others run between. Only src/rpc/stream.rs can change state on both sides of an `await`: a
-- packet is in the sink before its session is counted for. All other handlers change state at one
-- point, so that they run as one step.
pub mod Told
pub mod Guarded
mod Tests
use aptp.Prelude.{◌≡◌, String, false, Option, none, some, List, [], ◌∷◌, All}
use aptp.Float.{Float}
use aptp.Error.{Result, ok, err, panic, AptpError}
use aptp.Primitives.{TaggedPrimitive}
use aptp.Primitives.Provenance.{Sha256}
use aptp.Wire.{Capnp, Getter, PacketReader}
use aptp.Validation.Gate.{validate}
use aptp.Rpc.Messages.{StreamPrimitiveParams}
use aptp.Rpc.Params.{fail, read_packet}
use aptp.Rpc.Sink.{Mpsc}
use aptp.Rpc.Stream.{receive, count}
use aptp.Rpc.Server.{AptpRpcServer}
use aptp.Rpc.Server.Calls.{Call, Reply, handshakes, streams, negotiates, finalizes, streamed, step}

-- `waiting` has not got past its first `await`; `counting` is after `sink.send(tagged).await?` and
-- before `sessions.lock().await`, with the `session_id` that it has cloned.
pub data Task (F : Type 0) : Type 0 where
  waiting : Call F → Task F
  counting : Getter (StreamPrimitiveParams F) → (session_id : String) → Task F

-- Where a handler is when another gets its turn.
pub data Poll (F : Type 0) : Type 0 where
  pending : Task F → Poll F
  ready : Reply F → Poll F

abbrev pub call_of : {F : Type 0} → Task F → Call F
call_of (waiting call) = call
call_of (counting params session_id) = streams params

module _ {F H Chan : Type 0} ⦃f : Float F⦄ (c : Capnp F) (s : Sha256 H)
    (m : Mpsc (TaggedPrimitive F) Chan) where
  -- After the sink: a return, or the session to count for.
  unfoldable pub suspend :
      Getter (StreamPrimitiveParams F)
      → Result (AptpError F) (Option (String × Chan))
      → AptpRpcServer F Chan
      → Poll F × AptpRpcServer F Chan
  suspend params (err e) srv = (ready (streamed (fail c (err e))), srv)
  suspend params panic srv = (ready (streamed panic), srv)
  suspend params (ok none) srv = (ready (streamed (ok false)), srv)
  suspend params (ok (some (session_id, sink'))) srv = (
    pending (counting params session_id),
    record srv { shared = record srv.shared { sink = sink' } },
  )

  unfoldable pub begin_stream :
      Getter (StreamPrimitiveParams F)
      → Getter (PacketReader F)
      → AptpRpcServer F Chan
      → Poll F × AptpRpcServer F Chan
  unfolding suspend
  begin_stream params (err e) srv = (ready (streamed (err e)), srv)
  begin_stream params panic srv = (ready (streamed panic), srv)
  begin_stream params (ok packet_reader) srv =
      suspend params (receive s m packet_reader (validate srv.firewall) srv.shared.sink) srv

  unfoldable pub whole : Call F → AptpRpcServer F Chan → Poll F × AptpRpcServer F Chan
  whole call srv = let (reply, srv') = step c s m srv call in (ready reply, srv')

  -- One turn of a handler.
  unfoldable pub poll : Task F → AptpRpcServer F Chan → Poll F × AptpRpcServer F Chan
  unfolding begin_stream whole
  poll (waiting (streams params)) srv = begin_stream params (read_packet c params) srv
  poll (waiting (handshakes ambient params)) srv = whole (handshakes ambient params) srv
  poll (waiting (negotiates ambient params)) srv = whole (negotiates ambient params) srv
  poll (waiting (finalizes params)) srv = whole (finalizes params) srv
  poll (counting params session_id) srv =
      let (result, shared) = count session_id srv.shared in
      (ready (streamed (fail c result)), record srv { shared = shared })

-- `Pick t ts rest`: the executor gives a turn to `t`, one of `ts`.
pub data Pick {F : Type 0} (t : Task F) : List (Task F) → List (Task F) → Type 0 where
  first : {ts : List (Task F)} → Pick t (t ∷ ts) ts
  later : {u : Task F} {ts rest : List (Task F)} → Pick t ts rest → Pick t (u ∷ ts) (u ∷ rest)

pub Pick-All :
    {F : Type 0} (P : Task F → Type 0) {t : Task F} {ts rest : List (Task F)}
    → Pick t ts rest
    → All P ts
    → P t × All P rest
Pick-All P first (mine, others) = (mine, others)
Pick-All P (later p) (one, others) = let (mine, left) = Pick-All P p others in (mine, (one, left))

module _ {F H Chan : Type 0} ⦃f : Float F⦄ (c : Capnp F) (s : Sha256 H)
    (m : Mpsc (TaggedPrimitive F) Chan) where
  -- Turns in any order: from a server and its tasks, the calls answered with their replies, in the
  -- order of the replies, to a server and the tasks that are left. A call that comes later is one
  -- that waits. Turns of a task that stays where it is (a full sink, a lock) change nothing.
  pub data Trace
      : AptpRpcServer F Chan
        → List (Task F)
        → List (Call F × Reply F)
        → AptpRpcServer F Chan
        → List (Task F)
        → Type 0 where
    stop : {srv : AptpRpcServer F Chan} {ts : List (Task F)} → Trace srv ts [] srv ts
    suspends :
        {srv srv' end : AptpRpcServer F Chan} {t t' : Task F} {ts rest left : List (Task F)}
        {history : List (Call F × Reply F)}
        → Pick t ts rest
        → poll c s m t srv ≡ (pending t', srv')
        → Trace srv' (t' ∷ rest) history end left
        → Trace srv ts history end left
    replies :
        {srv srv' end : AptpRpcServer F Chan} {t : Task F} {ts rest left : List (Task F)}
        {r : Reply F} {history : List (Call F × Reply F)}
        → Pick t ts rest
        → poll c s m t srv ≡ (ready r, srv')
        → Trace srv' rest history end left
        → Trace srv ts ((call_of t, r) ∷ history) end left
