-- ===== src/Benches.antt =====
-- benches/serialization.rs. The harness is criterion's: its `iter` is a parameter, for each
-- dimension. A benchmark fails if it panics.
use aptp.Prelude.{
  ℕ, ◌*◌, ◌%◌, ◌<◌, ◌≤◌, ltb, false, ◌≡◌, refl, String, Option, none, List, [], ◌∷◌, replicate,
  length, length-replicate, ==_iff, arith,
}
use aptp.Float.{Float, Double, zero_f32}
use aptp.Error.{CapnpError, Result, ok, err, panic, AptpError, ◌>>=◌, ◌>>◌}
use aptp.Config.{ValidationConfig}
use aptp.Primitives.{
  PrimitivePacket, hidden_state, version_number, new_now, word, word32, max_floats,
}
use aptp.Wire.{PacketMessage}
use aptp.Wire.Build.{packet_to_bytes, max_elements}
use aptp.Wire.RoundTrip.{write_packet-eq-ok}
use aptp.Validation.Gate.{validate, check_vector, check_probe}
use aptp.Validation.Gate
use aptp.Adapter.Linear.{adapt}
use aptp.Adapter.Linear
use aptp.Adapter.Linear.Product.{new-full, adapt-eq-product}
use aptp.UnitTests.{unwrap}

module _ {E : Type 0} where
  abbrev for_each : List ℕ → (ℕ → Result E (Unit {0})) → Result E (Unit {0})
  for_each [] body = ok tt
  for_each (dim ∷ dims) body = do body dim; for_each dims body

  -- `.ok();`
  abbrev ignore : {A : Type 0} → Result E A → Result E (Unit {0})
  ignore (ok a) = ok tt
  ignore (err e) = ok tt
  ignore panic = panic

module _ {F : Type 0} (D : Type 0) ⦃f : Float F⦄ ⦃d : Double F D⦄
    (read_to_string : String → Result String String) (from_str : String → Result String (List F))
    (write_message : PacketMessage F → Result CapnpError (List ℕ))
    (iter : ℕ → Result (AptpError F) (Unit {0}) → Result (AptpError F) (Unit {0}))
    (clock : ℕ → Option ℕ) where
  make_hidden_state_packet : ℕ → PrimitivePacket F
  make_hidden_state_packet dim = record {
    version = version_number;
    sender_id = "bench-agent";
    model_fingerprint = replicate 32 0;
    layer_index = 16;
    payload = hidden_state (replicate dim (f.literal 1 10));
    shape = record { dims = 1 ∷ 1 ∷ dim % word32 ∷ [] };
    metadata = new_now (clock dim) "bench-session" 0;
  }

  bench_serialization : Result (AptpError F) (Unit {0})
  bench_serialization = for_each (512 ∷ 2048 ∷ 4096 ∷ 8192 ∷ []) (λ dim.
      iter dim
        (do bytes ← unwrap (packet_to_bytes write_message (make_hidden_state_packet dim)); ok tt))

  abbrev bench_config : ValidationConfig F
  bench_config = record {
    l2_norm_max = f.literal 1000 1;
    cosine_sim_min = f.sub zero_f32 (f.literal 95 100);
    fairness_threshold = f.literal 1 10;
    probe_vectors_path = none;
  }

  bench_firewall : Result (AptpError F) (Unit {0})
  bench_firewall = do
    fw ← unwrap (Gate.new D read_to_string from_str bench_config)
    for_each (512 ∷ 4096 ∷ 8192 ∷ [])
        (λ dim. iter dim (ignore (validate fw (hidden_state (replicate dim (f.literal 1 100))))))

  -- For the dimension `dim` of the code.
  square_adapter : (dim : ℕ) → Result (AptpError F) (Unit {0})
  square_adapter dim = do
    adapter ← unwrap (Linear.new dim dim (replicate (dim * dim) (f.literal 1 1000)))
    iter dim (ignore (adapt adapter (replicate dim (f.literal 1 10))))

  bench_adapter : Result (AptpError F) (Unit {0})
  bench_adapter = square_adapter 4096

  -- What the harness calls, in order.
  benches : Result (AptpError F) (Unit {0})
  benches = do bench_serialization; bench_firewall; bench_adapter

  -- A firewall without a probe never panics on a vector.
  check_vector-returns :
      (cfg : ValidationConfig F) (v : List F)
      → ignore (check_vector (record { cfg = cfg; probe = none }) v) ≡ ok tt
  unfolding check_vector check_probe
  check_vector-returns cfg v = ground arith

  -- The harness returns if the routine that it is given does.
  module _ (returns : (dim : ℕ) → iter dim (ok tt) ≡ ok tt) where
    iter-eq-ok :
        (dim : ℕ) (routine : Result (AptpError F) (Unit {0}))
        → routine ≡ ok tt
        → iter dim routine ≡ ok tt
    iter-eq-ok dim routine passes = rw passes (returns dim)

    firewall_run_passes :
        (dim : ℕ)
        → iter dim (
            ignore (
              check_vector
                (record { cfg = bench_config; probe = none })
                (replicate dim (f.literal 1 100))))
          ≡ ok tt
    firewall_run_passes dim =
        iter-eq-ok dim _ (check_vector-returns bench_config (replicate dim (f.literal 1 100)))

    bench_firewall_passes : bench_firewall ≡ ok tt
    unfolding bench_firewall Gate.new validate
    bench_firewall_passes =
        rw (firewall_run_passes 512, firewall_run_passes 4096, firewall_run_passes 8192) refl

    square_adapter_passes :
        (dim : ℕ) → dim * dim < word → dim ≤ max_floats → square_adapter dim ≡ ok tt
    unfolding square_adapter
    square_adapter_passes dim small few =
        let weights = replicate (dim * dim) (f.literal 1 1000) in
        let input = replicate dim (f.literal 1 10) in
        let made =
          new-full dim dim weights (length-replicate (dim * dim) (f.literal 1 1000)) small in
        let (adapted, long) = adapt-eq-product dim dim weights made small input in
        let fits : length input ≡ dim = length-replicate dim (f.literal 1 10) in
        let held : ltb max_floats dim ≡ false = ground (arith, few) in
        rw (made, adapted, (==_iff (length input) dim).1 fits, held) (returns dim)

    bench_adapter_passes : bench_adapter ≡ ok tt
    unfolding bench_adapter
    bench_adapter_passes = square_adapter_passes 4096 (omega arith) (omega arith)

    module _
        (writes : (m : PacketMessage F) → (bytes : List ℕ) × (write_message m ≡ ok bytes)) where
      packet_passes :
          (dim : ℕ)
          → dim < max_elements
          → iter dim (
              unwrap (packet_to_bytes write_message (make_hidden_state_packet dim)) >>= λ bytes.
              ok tt)
            ≡ ok tt
      unfolding make_hidden_state_packet packet_to_bytes
      packet_passes dim small =
          let packet = make_hidden_state_packet dim in
          let fits : length (replicate dim (f.literal 1 10)) < max_elements =
            omega (arith, small, length-replicate dim (f.literal 1 10)) in
          let (m, written) = write_packet-eq-ok packet (fits, omega arith, omega arith) in
          iter-eq-ok dim _ (rw (written, (writes m).1) refl)

      bench_serialization_passes : bench_serialization ≡ ok tt
      unfolding bench_serialization
      bench_serialization_passes =
          rw
            (
              packet_passes 512 (omega arith),
              packet_passes 2048 (omega arith),
              packet_passes 4096 (omega arith),
              packet_passes 8192 (omega arith),
            )
            refl

      -- The benchmarks run to their end, if the harness returns when their routines do and writing a
      -- message into memory succeeds.
      benches_pass : benches ≡ ok tt
      unfolding benches
      benches_pass =
          rw (bench_serialization_passes, bench_firewall_passes, bench_adapter_passes) refl
