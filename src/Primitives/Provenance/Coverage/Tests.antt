-- ===== src/Primitives/Provenance/Coverage/Tests.antt =====
-- A cache whose values are replaced, under a hash without collisions.
use mathlib.Core.List.{append_assoc}
use aptp.Prelude.{◌≡◌, refl, ◌↔◌, true, some, [], ◌∷◌}
use aptp.Float.{Fixed, fixed_float, Fixed-IsFourBytes, Fixed-bytes-injective}
use aptp.Samples.{transcript, kv_packet, packet_with, sample_kv}
use aptp.Primitives.{PrimitivePacket, kv_cache}
use aptp.Primitives.Provenance.{IsStreaming, new, verify_provenance}
use aptp.Primitives.Provenance.Coverage.{covered, forge, verify_provenance_exact}

transcript-IsStreaming : IsStreaming transcript
transcript-IsStreaming = record { update-append = append_assoc }

abbrev other_values : PrimitivePacket Fixed
other_values = packet_with (kv_cache (record sample_kv { values = some 1000 ∷ [] }))

verify_provenance_exact_example :
    (verify_provenance transcript (forge (new transcript kv_packet (some 1)) other_values) ≡ true)
    ↔ (covered other_values.payload ≡ covered kv_packet.payload)
verify_provenance_exact_example =
    verify_provenance_exact transcript transcript-IsStreaming kv_packet other_values (some 1)
      Fixed-IsFourBytes Fixed-bytes-injective (λ e. e) refl refl
