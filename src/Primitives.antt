-- ===== src/Primitives.antt =====
-- src/primitives.rs: the data that agents exchange. The children are the provenance hash, the
-- agent card, and the conversion from and to Cap'n Proto messages.
pub mod Provenance
pub mod Card
use aptp.Prelude.{ℕ, ◌-◌, ◌/◌, ◌*◌, ◌%◌, ◌^◌, String, Option, none, some, List, foldl}

abbrev pub version_number : ℕ
version_number = 1

-- The number of values of `usize` and `u64` on the 64-bit targets that the program is built for.
abbrev pub word : ℕ
word = 2 ^ 64

-- The number of values of `u32`.
abbrev pub word32 : ℕ
word32 = 2 ^ 32

-- The largest number of `f32` that a `Vec` can hold: `isize::MAX` bytes. More is a panic.
abbrev pub max_floats : ℕ
max_floats = (2 ^ 63 - 1) / 4

pub record Shape : Type 0 where
  pub dims : List ℕ

-- The product wraps, as release builds do.
unfoldable pub element_count : Shape → ℕ
element_count s = foldl (λ a d. a * d % word) 1 s.dims

pub record KvCache (F : Type 0) : Type 0 where
  pub layer_idx : ℕ
  pub keys : List F
  pub values : List F
  pub shape : Shape

pub data PrimitivePayload (F : Type 0) : Type 0 where
  hidden_state : List F → PrimitivePayload F
  kv_cache : KvCache F → PrimitivePayload F
  latent_thought : List F → PrimitivePayload F

pub record Metadata : Type 0 where
  pub timestamp_ns : ℕ
  pub sequence_id : ℕ
  pub session_id : String
  pub compression_alg : String

-- `SystemTime::now()`: the nanoseconds since 1970, or `none` for a clock before that, for which the
-- code takes 0; `as u64` keeps the low 64 bits.
unfoldable pub unix_nanos : Option ℕ → ℕ
unix_nanos none = 0
unix_nanos (some n) = n % word

unfoldable pub new_now : Option ℕ → String → ℕ → Metadata
unfolding unix_nanos
new_now clock session_id sequence_id = record {
  timestamp_ns = unix_nanos clock;
  sequence_id = sequence_id;
  session_id = session_id;
  compression_alg = "none";
}

pub record PrimitivePacket (F : Type 0) : Type 0 where
  pub version : ℕ
  pub sender_id : String
  pub model_fingerprint : List ℕ
  pub layer_index : ℕ
  pub payload : PrimitivePayload F
  pub shape : Shape
  pub metadata : Metadata

pub record TaggedPrimitive (F : Type 0) : Type 0 where
  pub provenance_hash : List ℕ
  pub fairness_score : F
  pub payload : PrimitivePacket F

pub record AgentCard : Type 0 where
  pub agent_id : String
  pub aptp_version : ℕ
  pub hidden_size : ℕ
  pub num_layers : ℕ
  pub num_heads : ℕ
  pub vocab_size : ℕ
  pub model_family : String
  pub capabilities : List String
