-- ===== src/Transport/Args.antt =====
-- The arguments of src/bin/aptp-client.rs and src/bin/aptp-server.rs.
use aptp.Prelude.{String, List, [], ◌∷◌}

-- `std::env::args().nth(1).unwrap_or_else(|| "aptp.toml".into())`
unfoldable pub config_path : List String → String
config_path [] = "aptp.toml"
config_path (program ∷ []) = "aptp.toml"
config_path (program ∷ path ∷ others) = path
