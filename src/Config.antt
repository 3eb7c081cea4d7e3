-- ===== src/Config.antt =====
-- src/config.rs: the configuration records and how a file is read into one.
-- `f32` limits are of the float type. The file system and the TOML parser are not part of the
-- program: they are the arguments of `from_toml_file`.
use aptp.Prelude.{ℕ, String, Bool, Option}
use aptp.Error.{Result, AptpError, config, map_err, ◌>>=◌}

pub record TlsConfig : Type 0 where
  pub cert_pem_path : String
  pub key_pem_path : String
  pub ca_pem_path : Option String

pub record TransportConfig : Type 0 where
  pub bind_addr : String
  pub connect_timeout_ms : ℕ
  pub max_frame_bytes : ℕ
  pub tls : Option TlsConfig

pub record ValidationConfig (F : Type 0) : Type 0 where
  pub l2_norm_max : F
  pub cosine_sim_min : F
  pub fairness_threshold : F
  pub probe_vectors_path : Option String

pub record AdapterConfig : Type 0 where
  pub allow_dimension_mismatch_passthrough : Bool

pub record AgentConfig : Type 0 where
  pub agent_id : String
  pub model_family : String
  pub hidden_size : ℕ
  pub num_layers : ℕ
  pub num_heads : ℕ
  pub vocab_size : ℕ
  pub aptp_version : ℕ

pub record BackendConfig : Type 0 where
  pub model_path : String
  pub n_gpu_layers : ℕ
  pub n_ctx : ℕ
  pub enable_embeddings : Bool

pub record AptpConfig (F : Type 0) : Type 0 where
  pub transport : TransportConfig
  pub validation : ValidationConfig F
  pub adapter : AdapterConfig
  pub agent : AgentConfig
  pub backend : Option BackendConfig

abbrev pub default_gpu_layers : ℕ
default_gpu_layers = 0

abbrev pub default_n_ctx : ℕ
default_n_ctx = 2048

-- The errors of the file system and of the parser are texts, as `e.to_string()` gives them.
unfoldable pub from_toml_file :
    {F : Type 0} (read_to_string : String → Result String String)
    (from_str : String → Result String (AptpConfig F)) (path : String)
    → Result (AptpError F) (AptpConfig F)
from_toml_file read_to_string from_str path = do
  raw ← map_err config (read_to_string path)
  map_err config (from_str raw)
