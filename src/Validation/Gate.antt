-- ===== src/Validation/Gate.antt =====
-- src/validation/gate.rs: the neural firewall. A `ValidationGate` is a function from payloads to
-- results; the firewall's is `validate`.
pub mod Exact
pub mod Nan
mod Tests
use aptp.Prelude.{String, Option, none, some, List, if◌then◌else◌}
use aptp.Float.{Float, Double, zero_f32, l2_norm}
use aptp.Error.{Result, ok, err, AptpError, off_manifold, ◌>>=◌, ◌>>◌}
use aptp.Config.{ValidationConfig}
use aptp.Primitives.{PrimitivePayload, hidden_state, kv_cache, latent_thought}
use aptp.Validation.Probe.{SafetyProbe, cosine_similarity, load}

-- The trait: `ok` lets a payload pass.
abbrev pub ValidationGate : Type 0 → Type 0
ValidationGate F = PrimitivePayload F → Result (AptpError F) (Unit {0})

pub record NeuralFirewall (F : Type 0) : Type 0 where
  pub cfg : ValidationConfig F
  pub probe : Option (SafetyProbe F)

module _ {F : Type 0} (D : Type 0) ⦃f : Float F⦄ ⦃d : Double F D⦄ where
  unfoldable pub new :
      (read_to_string : String → Result String String) (from_str : String → Result String (List F))
      (cfg : ValidationConfig F)
      → Result (AptpError F) (NeuralFirewall F)
  new read_to_string from_str cfg = elim cfg.probe_vectors_path [
    | none ↦ ok (record { cfg = cfg; probe = none })
    | some path ↦ do
      probe ← load D read_to_string from_str path
      ok (record { cfg = cfg; probe = some probe })
  ]

module _ {F : Type 0} ⦃f : Float F⦄ where
  -- The second half of `check_vector`, with the norm computed before.
  unfoldable pub check_probe :
      Option (SafetyProbe F) → ValidationConfig F → F → List F → Result (AptpError F) (Unit {0})
  check_probe none cfg l2 v = ok tt
  check_probe (some probe) cfg l2 v =
      let cosine = cosine_similarity probe v in
      if f.lt cosine cfg.cosine_sim_min then err (off_manifold l2 cosine) else ok tt

  unfoldable pub check_vector : NeuralFirewall F → List F → Result (AptpError F) (Unit {0})
  unfolding check_probe
  check_vector fw v =
      let l2 = l2_norm v in
      if f.gt l2 fw.cfg.l2_norm_max
      then err (off_manifold l2 zero_f32)
      else check_probe fw.probe fw.cfg l2 v

  unfoldable pub validate : NeuralFirewall F → ValidationGate F
  validate fw (hidden_state v) = check_vector fw v
  validate fw (latent_thought v) = check_vector fw v
  validate fw (kv_cache kv) = do check_vector fw kv.keys; check_vector fw kv.values
