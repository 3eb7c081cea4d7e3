-- ===== src/Rpc/Server/ClosedSink/Tests.antt =====
-- A connection on a server that `new` made.
use aptp.Prelude.{◌≡◌, refl, String, none, List}
use aptp.Float.{Fixed, fixed_float, fixed_double}
use aptp.Error.{Result, ok, err}
use aptp.Samples.{Mailbox, mailbox, server_config, validation_config}
use aptp.Rpc.Registry.{default}
use aptp.Rpc.Server.{AptpRpcServer, new}

abbrev no_file : String → Result String String
no_file path = err "no file"

abbrev no_json : String → Result String (List Fixed)
no_json line = err "no json"

abbrev made_server : AptpRpcServer Fixed Mailbox
made_server = record {
  cfg = server_config;
  firewall = record { cfg = validation_config; probe = none };
  shared = record { sessions = default; sink = none };
  counter = 0;
}

made : new Fixed mailbox no_file no_json server_config 1024 0 ≡ ok made_server
unfolding new aptp.Validation.Gate.new
made = refl
