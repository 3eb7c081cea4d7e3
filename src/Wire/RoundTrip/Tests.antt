-- ===== src/Wire/RoundTrip/Tests.antt =====
-- Packets of the three kinds, written and read.
use aptp.Prelude.{ℕ, ◌≡◌, arith, List, replicate, length, length-replicate, some}
use aptp.Float.{Fixed, fixed_float}
use aptp.Error.{ok, panic, ◌>>=◌}
use aptp.Samples.{direct, direct-IsFaithful, kv_packet, packet_with}
use aptp.Primitives.{hidden_state}
use aptp.Wire.Build.{max_elements, write_packet}
use aptp.Wire.Decode.{packet_from_capnp}
use aptp.Wire.RoundTrip.{Fits, packet_round_trip, write_packet_too_long}

packet_round_trip_example :
    (do m ← write_packet kv_packet; packet_from_capnp (direct.read_packet m)) ≡ ok kv_packet
packet_round_trip_example = packet_round_trip direct direct-IsFaithful kv_packet (omega arith)

copies : ℕ → List Fixed
copies n = replicate n (some 1)

length-copies : (n : ℕ) → length (copies n) ≡ n
unfolding copies
length-copies n = length-replicate n (some 1)

copies_too_long : ¬ Fits (packet_with (hidden_state (copies max_elements)))
copies_too_long h = absurd (omega (arith, h.0, length-copies max_elements))

write_packet_too_long_example :
    write_packet (packet_with (hidden_state (copies max_elements))) ≡ panic
write_packet_too_long_example =
    write_packet_too_long (packet_with (hidden_state (copies max_elements))) copies_too_long
