-- ===== src/Transport/Listener/Counter.antt =====
-- The static counter of src/rpc/negotiate.rs is all that the connections of src/transport/server.rs
-- share: what it holds shows in drawn weights only.
use native.Mathlib.Decide.{dec_lt}
use aptp.Prelude.{
  ℕ, ◌*◌, ◌%◌, ◌≡◌, refl, sym, ap, ◌∙◌, String, Bool, true, false, Option, none, some, List, length,
  arith, if◌then◌else◌, ltb, ◌==◌, ◌||◌, Bool-cases, inl, inr, not,
}
use aptp.Float.{Float, zero_f32}
use aptp.Error.{CapnpError, Result, ok, err, panic, ◌>>=◌}
use aptp.Primitives.{word, TaggedPrimitive, AgentCard}
use aptp.Primitives.Provenance.{Sha256}
use aptp.Wire.{Capnp, Getter, PacketReader}
use aptp.Wire.Build.{max_elements, write_list}
use aptp.Wire.RoundTrip.Lists.{write_list-eq-ok, write_list-eq-panic}
use aptp.Adapter.Spec.{AdapterVariant, linear_projection}
use aptp.Rpc.Params.{fail, write_spec, read_card, read_packet, read_negotiation, read_session}
use aptp.Rpc.Messages.{AlignmentSpecMessage}
use aptp.Rpc.Registry.{SessionRegistry, drain}
use aptp.Rpc.Sink.{Mpsc}
use aptp.Primitives.{max_floats}
use aptp.Rpc.Negotiate.{kaiming_uniform_weights, draws}
use aptp.Rpc.Negotiate
use aptp.Rpc.Negotiate.Weights.{length-draws}
use aptp.Rpc.Server.{
  AptpRpcServer, Ambient, after_card, after_packet, after_negotiation, after_drain, after_session,
  handshake, stream_primitive, negotiate_alignment, finalize,
}
use aptp.Rpc.Server.Calls.{
  Call, Reply, handshakes, streams, negotiates, finalizes, handshaken, streamed, negotiated,
  finalized, step,
}
use aptp.Transport.Listener.{unwound, is_panic, answer}

-- A reply, but for the weights that a negotiation draws.
abbrev pub heard : {F : Type 0} → Option (Reply F) → Option (Reply F)
heard (some (negotiated r)) = none
heard reply = reply

-- A connection, but for the counter.
abbrev pub uncounted :
    {F Chan : Type 0} → Option (AptpRpcServer F Chan) → Option (AptpRpcServer F Chan)
uncounted none = none
uncounted (some srv) = some (record srv { counter = 0 })

abbrev pub view :
    {F Chan : Type 0}
    → Option (Reply F) × Option (AptpRpcServer F Chan) × ℕ
    → Option (Reply F) × Option (AptpRpcServer F Chan)
view (reply, connection, counter) = (heard reply, uncounted connection)

unwound->>= :
    {E A B : Type 0} (r : Result E A) (g : A → B) → unwound (r >>= λ a. ok (g a)) ≡ unwound r
unwound->>= (ok a) g = refl
unwound->>= (err e) g = refl
unwound->>= panic g = refl

module _ {F : Type 0} ⦃f : Float F⦄ where
  write_list-unwound :
      (E : Type 0) (xs : List F)
      → unwound (write_list {E = E} zero_f32 xs) ≡ not (ltb (length xs) max_elements)
  write_list-unwound E xs = elim (dec_lt (length xs) max_elements) [
    | yes few ↦ rw (write_list-eq-ok {E = E} zero_f32 xs few) (ground arith)
    | no many ↦ rw (write_list-eq-panic {E = E} zero_f32 xs (omega arith)) (ground arith)
  ]

  write_spec-unwound :
      (c : Capnp F) (source target : ℕ) (variant : AdapterVariant) (xs ys : List F)
      → length xs ≡ length ys
      → unwound (write_spec c source target (variant, xs))
        ≡ unwound (write_spec c source target (variant, ys))
  unfolding write_spec
  write_spec-unwound c source target variant xs ys same =
      unwound->>= (write_list zero_f32 xs) _
      ∙ write_list-unwound CapnpError xs
      ∙ ap (λ n. not (ltb n max_elements)) same
      ∙ sym (write_list-unwound CapnpError ys)
      ∙ sym (unwound->>= (write_list zero_f32 ys) _)

  module _ (c : Capnp F) (clock : Option ℕ) (n n' source target : ℕ)
      (source_family target_family : String) where
    written : ℕ → Getter (AlignmentSpecMessage F)
    written k =
        fail c (Negotiate.handle clock k source target source_family target_family).0
        >>= write_spec c source target

    written-unwound : unwound (written n) ≡ unwound (written n')
    unfolding written Negotiate.handle kaiming_uniform_weights fail
    written-unwound = elim (Bool-cases ((source == 0) || (target == 0))) [
      | inl zero ↦ rw (zero, Negotiate.handle) refl
      | inr some_each ↦ elim (Bool-cases (source == target)) [
        | inl same ↦ rw (some_each, same, Negotiate.handle) refl
        | inr differ ↦ elim (Bool-cases (ltb max_floats (source * target % word))) [
          | inl large ↦ rw (some_each, differ, large) refl
          | inr fits ↦
              rw (some_each, differ, fits)
                (write_spec-unwound c source target linear_projection _ _
                  (length-draws _ _ _ ∙ sym (length-draws _ _ _)))
        ]
      ]
    ]

-- What a turn of a connection's task gives.
abbrev turn_of :
    {F Chan : Type 0}
    → Reply F × AptpRpcServer F Chan
    → Option (Reply F) × Option (AptpRpcServer F Chan)
turn_of (reply, srv) = view (some reply, (if is_panic reply then none else some srv), srv.counter)

uncounted-left :
    {F Chan : Type 0} (b : Bool) (srv : AptpRpcServer F Chan)
    → uncounted (if b then none else some srv) ≡ (if b then none else uncounted (some srv))
uncounted-left true srv = refl
uncounted-left false srv = refl

turn-same :
    {F Chan : Type 0} (reply reply' : Reply F) (srv srv' : AptpRpcServer F Chan)
    → heard (some reply) ≡ heard (some reply')
    → is_panic reply ≡ is_panic reply'
    → uncounted (some srv) ≡ uncounted (some srv')
    → turn_of (reply, srv) ≡ turn_of (reply', srv')
turn-same reply reply' srv srv' replies unwinding servers =
    rw
      (
        uncounted-left (is_panic reply) srv,
        uncounted-left (is_panic reply') srv',
        replies,
        unwinding,
        servers,
      )
      refl

module _ {F H Chan : Type 0} ⦃f : Float F⦄ (c : Capnp F) (s : Sha256 H)
    (m : Mpsc (TaggedPrimitive F) Chan) where
  module _ (srv : AptpRpcServer F Chan) (n : ℕ) where
    abbrev at : ℕ → AptpRpcServer F Chan
    at k = record srv { counter = k }

    abbrev card_turn :
        Getter AgentCard → Ambient → ℕ → Option (Reply F) × Option (AptpRpcServer F Chan)
    card_turn r ambient k =
        let (reply, srv') = after_card c s m r ambient (at k) in turn_of (handshaken reply, srv')

    card-same :
        (r : Getter AgentCard) (ambient : Ambient) → card_turn r ambient n ≡ card_turn r ambient 0
    unfolding after_card
    card-same (err e) ambient = refl
    card-same panic ambient = refl
    card-same (ok card) ambient = refl

    abbrev packet_turn :
        Getter (PacketReader F) → ℕ → Option (Reply F) × Option (AptpRpcServer F Chan)
    packet_turn r k =
        let (reply, srv') = after_packet c s m r (at k) in turn_of (streamed reply, srv')

    packet-same : (r : Getter (PacketReader F)) → packet_turn r n ≡ packet_turn r 0
    unfolding after_packet
    packet-same (err e) = refl
    packet-same panic = refl
    packet-same (ok reader) =
        let (reply, srv') = after_packet c s m (ok reader) (at n) in
        let (reply', srv'') = after_packet c s m (ok reader) (at 0) in
        turn-same (streamed reply) (streamed reply') srv' srv'' refl refl refl

    abbrev session_turn : Getter String → ℕ → Option (Reply F) × Option (AptpRpcServer F Chan)
    session_turn r k =
        let (reply, srv') = after_session c s m r (at k) in turn_of (finalized reply, srv')

    drain-same :
        (r : Getter (ℕ × SessionRegistry))
        → (let (reply, srv') = after_drain c s m r (at n) in turn_of (finalized reply, srv'))
          ≡ (let (reply, srv') = after_drain c s m r (at 0) in turn_of (finalized reply, srv'))
    unfolding after_drain
    drain-same (err e) = refl
    drain-same panic = refl
    drain-same (ok drained) = refl

    session-same : (r : Getter String) → session_turn r n ≡ session_turn r 0
    unfolding after_session
    session-same (err e) = refl
    session-same panic = refl
    session-same (ok id) = drain-same (fail c (drain srv.shared.sessions id))

    abbrev negotiation_turn :
        Getter (ℕ × ℕ × String × String)
        → Ambient
        → ℕ
        → Option (Reply F) × Option (AptpRpcServer F Chan)
    negotiation_turn r ambient k =
        let (reply, srv') = after_negotiation c s m r ambient (at k) in
        turn_of (negotiated reply, srv')

    negotiation-same :
        (r : Getter (ℕ × ℕ × String × String)) (ambient : Ambient)
        → negotiation_turn r ambient n ≡ negotiation_turn r ambient 0
    unfolding after_negotiation written
    negotiation-same (err e) ambient = refl
    negotiation-same panic ambient = refl
    negotiation-same (ok (source, target, source_family, target_family)) ambient =
        let request : Getter (ℕ × ℕ × String × String) =
          ok (source, target, source_family, target_family) in
        let (reply, srv') = after_negotiation c s m request ambient (at n) in
        let (reply', srv'') = after_negotiation c s m request ambient (at 0) in
        turn-same (negotiated reply) (negotiated reply') srv' srv'' refl
          (written-unwound c ambient.clock n 0 source target source_family target_family) refl

  -- But for drawn weights, what a connection answers and what becomes of it do not depend on the
  -- counter.
  pub answer-view :
      (call : Call F) (n : ℕ) (connection : Option (AptpRpcServer F Chan))
      → view (answer c s m call n connection) ≡ view (answer c s m call 0 (uncounted connection))
  unfolding answer step handshake stream_primitive negotiate_alignment finalize
  answer-view call n none = refl
  answer-view (handshakes ambient params) n (some srv) =
      card-same srv n (read_card c params) ambient
  answer-view (streams params) n (some srv) = packet-same srv n (read_packet c params)
  answer-view (negotiates ambient params) n (some srv) =
      negotiation-same srv n (read_negotiation c params) ambient
  answer-view (finalizes params) n (some srv) = session-same srv n (read_session c params)
