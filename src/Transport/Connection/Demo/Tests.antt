-- ===== src/Transport/Connection/Demo/Tests.antt =====
-- The demo program against the server that the sample configuration gives.
use native.Mathlib.Decide.{dec_lt}
use aptp.Prelude.{
  ℕ, zero, suc, ◌<◌, ◌≡◌, refl, ◌≢◌, String, Bool, true, false, ◌&&◌, none, some, [], ◌∷◌, str_eq,
  arith, if◌then◌else◌,
}
use aptp.Float.{Fixed, fixed_float, fixed_double}
use aptp.Error.{Result, ok, err, panic}
use aptp.Primitives.{hidden_state}
use aptp.Samples.{
  direct, direct-IsFaithful, transcript, Mailbox, mailbox, mailbox-ClosesOnDrop, server_config,
  validation_config, no_file, no_json, queue, queue-IsRead, queue_server,
}
use aptp.Validation.Gate.{validate}
use aptp.Rpc.Registry.{default}
use aptp.Rpc.Server.{AptpRpcServer, Ambient}
use aptp.Transport.Client.{connected}
use aptp.Transport.Client.Connect.{Dial, connect}
use aptp.Transport.Connection.{Link, remote, handle_connection}
use aptp.Transport.Connection.Demo.{demo_vector, main, program}
use aptp.Transport.Connection.Demo.Fate.{demo_never_completes}
use aptp.Transport.Connection.Demo.Completes.{Passes, program-completes}

abbrev wire : Link
wire = record { exception = λ e. e; disconnected = record { description = "disconnected" } }

abbrev deaf_server : AptpRpcServer Fixed Mailbox
deaf_server = record {
  cfg = server_config;
  firewall = record { cfg = validation_config; probe = none };
  shared = record { sessions = default; sink = none };
  counter = 0;
}

connection_made : handle_connection Fixed mailbox no_file no_json server_config 0 ≡ ok deaf_server
unfolding handle_connection aptp.Rpc.Server.new aptp.Validation.Gate.new
connection_made = refl

abbrev moment : ℕ → Ambient
moment n = record { fresh = "s-1"; clock = some n }

demo_never_completes_example :
    (main
      (remote wire direct transcript mailbox)
      some
      "agent"
      server_config
      (connected server_config)
      (record { server = deaf_server; ambient = moment; greeted = 0 })).0
    ≢ ok 100
demo_never_completes_example =
    demo_never_completes Fixed wire direct transcript mailbox mailbox-ClosesOnDrop no_file no_json
      server_config 0 connection_made moment some "agent" server_config 100

-- The program's vectors, tested one by one.
abbrev accepts_vector : ℕ → Bool
accepts_vector i = elim (validate queue_server.firewall (hidden_state (demo_vector 2 0 i))) [
  | ok u ↦ true
  | err e ↦ false
  | panic ↦ false
]

abbrev all_below : ℕ → (ℕ → Bool) → Bool
all_below zero p = true
all_below (suc n) p = p n && all_below n p

all_below_lem : (n : ℕ) (p : ℕ → Bool) → all_below n p ≡ true → (i : ℕ) → i < n → p i ≡ true
all_below_lem zero p all i less = absurd (omega arith)
all_below_lem (suc n) p all i less =
    let here : p n ≡ true = ground arith in
    let rest : all_below n p ≡ true = ground arith in
    elim (dec_lt i n) [
      | yes below ↦ all_below_lem n p rest i below
      | no over ↦ let same : i ≡ n = omega arith in rw same here
    ]

vectors_accepted : all_below 100 accepts_vector ≡ true
unfolding validate aptp.Validation.Gate.check_vector aptp.Float.l2_norm demo_vector
vectors_accepted = refl

is_ok_lem :
    {E : Type 0} (r : Result E (Unit {0}))
    → elim r as (λ x. Bool) [ ok u ↦ true | err e ↦ false | panic ↦ false ] ≡ true
    → r ≡ ok tt
is_ok_lem (ok u) e = refl
is_ok_lem (err x) e = cc
is_ok_lem panic e = cc

vectors-Passes : Passes queue_server.firewall 2
vectors-Passes i less =
    is_ok_lem (validate queue_server.firewall (hidden_state (demo_vector 2 0 i)))
      (all_below_lem 100 accepts_vector vectors_accepted i less)

abbrev dial : Dial String (Unit {0})
dial = record {
  to_socket_addrs = λ addr. ok (addr ∷ []);
  connect = λ addr. ok tt;
  set_nodelay = λ stream. ok tt;
}

abbrev toml : String → Result String String
toml path = if str_eq path "aptp.toml" then ok "[transport]" else err "No such file or directory"

program-completes_example :
    (program dial
      (remote wire direct transcript queue)
      some
      "agent"
      toml
      (λ raw. ok server_config)
      []
      (record { server = queue_server; ambient = moment; greeted = 0 })).0
    ≡ ok 100
unfolding aptp.Config.from_toml_file aptp.Transport.Args.config_path connect
program-completes_example =
    program-completes wire direct direct-IsFaithful transcript queue queue-IsRead some server_config
      (omega arith) dial "agent" toml (λ raw. ok server_config) []
      (record { server = queue_server; ambient = moment; greeted = 0 }) refl refl refl
      vectors-Passes
