-- ===== src/Error.antt =====
-- src/error.rs, and Rust's `Result` with its two ways to leave a function: `?` and a panic.
use aptp.Prelude.{ℕ, String, ◌≡◌, refl, ◌<>◌, show_nat}
use aptp.Float.{Float}

-- An error value of the capnp crate, known by what `Display` prints of it.
pub record CapnpError : Type 0 where
  pub description : String

-- `panic` is no value of Rust's `Result`: it stands for a function that unwinds.
pub data Result {ℓ κ} (E : Type ℓ) (A : Type κ) : Type (ℓ ⊔ κ) where
  ok : A → Result E A
  err : E → Result E A
  panic : Result E A

-- `?` after a call whose error is of another type.
abbrev pub map_err {ℓ κ ν} :
    {E : Type ℓ} {D : Type κ} {A : Type ν} → (E → D) → Result E A → Result D A
map_err convert panic = panic
map_err convert (err reason) = err (convert reason)
map_err convert (ok value) = ok value

infixl 5 ◌>>=◌ ◌>>◌
abbrev pub ◌>>=◌ {ℓ κ ν} :
    {E : Type ℓ} {A : Type κ} {B : Type ν} → Result E A → (A → Result E B) → Result E B
panic >>= next = panic
err reason >>= next = err reason
ok value >>= next = next value

abbrev pub ◌>>◌ {ℓ κ ν} :
    {E : Type ℓ} {A : Type κ} {B : Type ν} → Result E A → Result E B → Result E B
first >> second = first >>= λ _. second

abbrev pub unwrap_or {ℓ κ} : {E : Type ℓ} {A : Type κ} → A → Result E A → Result E A
unwrap_or d (err e) = ok d
unwrap_or d r = r

pub data AptpError (F : Type 0) : Type 0 where
  io : String → AptpError F
  rpc : CapnpError → AptpError F
  not_in_schema : String → AptpError F
  handshake_rejected : (reason : String) → AptpError F
  version_mismatch : (local remote : ℕ) → AptpError F
  off_manifold : (l2 cosine : F) → AptpError F
  provenance_mismatch : AptpError F
  fairness_below_threshold : (score threshold : F) → AptpError F
  incompatible_dimensions : (src dst : ℕ) → AptpError F
  adapter_not_ready : AptpError F
  config : String → AptpError F
  backend_not_available : String → AptpError F
  internal : String → AptpError F

-- `Display`, from the `#[error]` attributes.
unfoldable pub to_string : {F : Type 0} ⦃f : Float F⦄ → AptpError F → String
to_string (io e) = "TCP bind/connect failed: " <> e
to_string (rpc e) = "Cap'n Proto RPC error: " <> e.description
to_string (not_in_schema e) = "Not in schema: " <> e
to_string (handshake_rejected reason) = "Handshake rejected by peer: " <> reason
to_string (version_mismatch local remote) =
    "Protocol version mismatch: local=" <> show_nat local <> ", remote=" <> show_nat remote
to_string ⦃f⦄ (off_manifold l2 cosine) =
    "NeuralFirewall: off-manifold injection detected (l2="
    <> f.show 4 l2
    <> ", cosine="
    <> f.show 4 cosine
    <> ")"
to_string provenance_mismatch = "NeuralFirewall: provenance hash mismatch"
to_string ⦃f⦄ (fairness_below_threshold score threshold) =
    "NeuralFirewall: fairness score below threshold ("
    <> f.show 3 score
    <> " < "
    <> f.show 3 threshold
    <> ")"
to_string (incompatible_dimensions src dst) =
    "ManifoldAdapter: incompatible dimensions (src="
    <> show_nat src
    <> ", dst="
    <> show_nat dst
    <> ")"
to_string adapter_not_ready = "ManifoldAdapter: adapter weights not yet negotiated"
to_string (config e) = "Configuration error: " <> e
to_string (backend_not_available e) = "Backend not available: " <> e
to_string (internal e) = "Internal error: " <> e

-- `?` on a capnp result: the `From` of the error type.
abbrev pub from_rpc {ℓ} : {F : Type 0} {A : Type ℓ} → Result CapnpError A → Result (AptpError F) A
from_rpc = map_err rpc

pub ok_unique {ℓ κ} :
    {E : Type ℓ} {A : Type κ} {r : Result E A} {x y : A} → r ≡ ok x → r ≡ ok y → x ≡ y
ok_unique e f = cc

-- A chain that succeeds has a first step that succeeds.
pub >>=-eq-ok {ℓ κ ν} :
    {E : Type ℓ} {A : Type κ} {B : Type ν} (first : Result E A) (next : A → Result E B) {end : B}
    → (first >>= next) ≡ ok end
    → (middle : A) × (first ≡ ok middle) × (next middle ≡ ok end)
>>=-eq-ok panic next e = cc
>>=-eq-ok (err reason) next e = cc
>>=-eq-ok (ok value) next e = (value, refl, e)

pub map_err-eq-ok {ℓ κ ν} :
    {E : Type ℓ} {D : Type κ} {A : Type ν} (f : E → D) (r : Result E A) {a : A}
    → map_err f r ≡ ok a
    → r ≡ ok a
map_err-eq-ok f (ok b) h = cc
map_err-eq-ok f (err e) h = cc
map_err-eq-ok f panic h = cc
