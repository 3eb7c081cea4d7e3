-- ===== src/Rpc/Handshake/Branches/Tests.antt =====
-- A handshake with a peer of another hidden size.
use aptp.Prelude.{◌≡◌, ◌≢◌, ◌↔◌, some, str_eq, if◌then◌else◌, refl, none, ◌==◌, ◌&&◌}
use aptp.Primitives.{AgentCard, version_number}
use aptp.Samples.{sample_card, server_config}
use aptp.Adapter.Spec.{linear_projection, identity}
use aptp.Rpc.Messages.{rejected, needs_adapter}
use aptp.Rpc.Registry.{default}
use aptp.Rpc.Registry.Counts.{count_of}
use aptp.Rpc.Handshake.{handle}
use aptp.Rpc.Handshake.Branches.{answer, after, Compatible, NeedsProjection, handshake_branches}

abbrev wide_card : AgentCard
wide_card = record sample_card { hidden_size = 7 }

projection_needed : (handle "s-1" none wide_card server_config default).0.status ≡ needs_adapter
unfolding handle
projection_needed = refl

handshake_branches_example :
    let reply = answer "s-1" none wide_card server_config default in
    ((reply.status ≡ rejected) ↔ (¬ Compatible "s-1" none wide_card server_config default))
    × ((reply.status ≡ needs_adapter) ↔ (
        Compatible "s-1" none wide_card server_config default
        × NeedsProjection "s-1" none wide_card server_config default))
    × ((reply.adapter ≡ linear_projection) ↔ (reply.status ≡ needs_adapter))
    × ((reply.adapter ≡ identity) ↔ (reply.status ≢ needs_adapter))
    × (reply.session_id ≡ (if wide_card.aptp_version == version_number then "s-1" else ""))
    × (count_of (after "s-1" none wide_card server_config default) "s-1" ≡ (
        if (wide_card.aptp_version == version_number) && str_eq "s-1" "s-1"
        then some 0
        else count_of default "s-1"))
handshake_branches_example = handshake_branches "s-1" none wide_card server_config default "s-1"
