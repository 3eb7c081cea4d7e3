-- ===== src/Rpc/Sink.antt =====
-- `PacketSink` of src/rpc/mod.rs over tokio's bounded channel, which is a parameter.
use aptp.Prelude.{ℕ, ◌≡◌}
use aptp.Error.{Result, ok, err, AptpError, internal}
use aptp.Primitives.{TaggedPrimitive}

-- How an awaited `send` ends: with the channel after it, or with a `SendError`.
pub data Sent (Chan : Type 0) : Type 0 where
  sent : Chan → Sent Chan
  closed : Sent Chan

-- A channel with both its ends. `drop_receiver` is the end of the receiver's life.
pub record Mpsc (T Chan : Type 0) : Type 0 where
  pub channel : ℕ → Chan
  pub drop_receiver : Chan → Chan
  pub send : Chan → T → Sent Chan

-- "If the receive half of the channel is closed […], the function returns an error."
pub record ClosesOnDrop {T Chan : Type 0} (m : Mpsc T Chan) : Type 0 where
  pub send-drop_receiver : (c : Chan) (t : T) → m.send (m.drop_receiver c) t ≡ closed

module _ {F Chan : Type 0} (m : Mpsc (TaggedPrimitive F) Chan) where
  -- `PacketSink::new`: the sink, with its receiver alive.
  unfoldable pub new : ℕ → Chan
  new buffer = m.channel buffer

  unfoldable pub send : Chan → TaggedPrimitive F → Result (AptpError F) Chan
  send chan tagged = elim (m.send chan tagged) [
    | sent chan' ↦ ok chan'
    | closed ↦ err (internal "PacketSink channel closed")
  ]
