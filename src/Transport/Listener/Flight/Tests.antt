-- ===== src/Transport/Listener/Flight/Tests.antt =====
-- A peer that gives up a call between the send of its packet and the count, and one that leaves.
use aptp.Prelude.{◌≡◌, refl, none, some, List, [], ◌∷◌, All}
use aptp.Float.{Fixed, fixed_float, fixed_double, one_f32}
use aptp.Error.{ok, err}
use aptp.Primitives.Provenance
use aptp.Samples.{
  direct, transcript, server_config, Queue, queue, queue_server, no_json, stream, greet, kv_packet,
  validation_config, Mailbox, mailbox, mailbox-ClosesOnDrop,
}
use aptp.Config.{AptpConfig, from_toml_file}
use aptp.Transport.Args.{config_path}
use aptp.Rpc.Registry.{default}
use aptp.Rpc.Server.Calls.{finalized, streamed}
use aptp.Rpc.Server.ClosedSink.{Refuses}
use aptp.Transport.Listener.Flight.{
  Turn, accepts, on, arrives, runs, cancels, leaves, Connection, Flight, program,
}
use aptp.Transport.Listener.Flight.Told.{Accounts, program-Accounts}
use aptp.Transport.Listener.Flight.Guards.{Guards, program-Guards}
use aptp.Transport.Listener.Flight.Deaf.{program_never_acknowledges}
use aptp.Transport.Listener.Flight.Scenario.{ending, toml, net, greeting}
unfoldable use aptp.Transport.Listener.Flight.Scenario.{whole_program}

abbrev gives_up : List (Turn Fixed)
gives_up =
    accepts (ok (ok tt))
    ∷ on 0 (arrives (greet "s-1"))
    ∷ on 0 (runs 0)
    ∷ on 0 (arrives stream)
    ∷ accepts (ok (ok tt))
    ∷ on 0 (runs 0)
    ∷ on 1 leaves
    ∷ on 0 (cancels 0)
    ∷ on 0 (arrives ending)
    ∷ on 0 (runs 0)
    ∷ []

abbrev hasty : List (Turn Fixed)
hasty =
    accepts (ok (ok tt))
    ∷ on 0 (arrives (greet "s-1"))
    ∷ on 0 (arrives stream)
    ∷ on 0 (runs 1)
    ∷ on 0 (runs 0)
    ∷ on 0 (arrives ending)
    ∷ on 0 (runs 0)
    ∷ []

-- The packet is in the sink, and the session ended with the count 0.
abbrev uncounted_end : Flight Fixed Queue
uncounted_end = record {
  connections =
      record {
        task = some (
          record queue_server {
            shared = record {
              sessions = default;
              sink = Provenance.new transcript kv_packet one_f32 ∷ [];
            };
          },
          [],
        );
        replied = (greet "s-1", greeting) ∷ (ending, finalized (ok 0)) ∷ [];
      }
      ∷ record { task = none; replied = [] }
      ∷ [];
  counter = 0;
}

flown :
    program Fixed direct transcript queue toml no_json (λ raw. ok server_config) net [] gives_up
    ≡ ok uncounted_end
unfolding whole_program
flown = refl

program-Accounts_example : All (Accounts direct transcript queue) uncounted_end.connections
program-Accounts_example =
    program-Accounts Fixed direct transcript queue toml no_json (λ raw. ok server_config) net []
      gives_up flown

program-Guards_example :
    (cfg : AptpConfig Fixed) × (from_toml_file toml (λ raw. ok server_config) (config_path [])
      ≡ ok cfg)
    × All
        (λ (connection : Connection Fixed Queue).
          Guards Fixed direct transcript queue toml no_json cfg connection.task)
        uncounted_end.connections
program-Guards_example =
    program-Guards Fixed direct transcript queue toml no_json (λ raw. ok server_config) net []
      gives_up flown

abbrev deaf_end : Flight Fixed Mailbox
deaf_end = record {
  connections =
      record {
        task = some (
          record {
            cfg = server_config;
            firewall = record { cfg = validation_config; probe = none };
            shared = record { sessions = default; sink = none };
            counter = 0;
          },
          [],
        );
        replied =
            (stream, streamed (err (direct.failed "Internal error: PacketSink channel closed")))
            ∷ (greet "s-1", greeting)
            ∷ (ending, finalized (ok 0))
            ∷ [];
      }
      ∷ [];
  counter = 0;
}

refused :
    program Fixed direct transcript mailbox toml no_json (λ raw. ok server_config) net [] hasty
    ≡ ok deaf_end
unfolding whole_program
refused = refl

program_never_acknowledges_example :
    All
      (λ (connection : Connection Fixed Mailbox). All Refuses connection.replied)
      deaf_end.connections
program_never_acknowledges_example =
    program_never_acknowledges Fixed direct transcript mailbox mailbox-ClosesOnDrop toml no_json
      (λ raw. ok server_config) net [] hasty refused
