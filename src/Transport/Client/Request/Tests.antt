-- ===== src/Transport/Client/Request/Tests.antt =====
-- The request that carries a cache.
use aptp.Prelude.{◌≡◌}
use aptp.Float.{fixed_float}
use aptp.Samples.{kv_packet}
use aptp.Wire.Build.{write_packet}
use aptp.Transport.Client.Request.{request_packet}
use aptp.Transport.Client.Request.Same.{request_packet-eq-write_packet}

request_packet-eq-write_packet_example : request_packet kv_packet ≡ write_packet kv_packet
request_packet-eq-write_packet_example = request_packet-eq-write_packet kv_packet
