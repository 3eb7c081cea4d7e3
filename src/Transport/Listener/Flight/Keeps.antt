-- ===== src/Transport/Listener/Flight/Keeps.antt =====
-- What every connection starts with and every action keeps, every connection of the process has.
use mathlib.Core.Path.{subst}
use aptp.Prelude.{ℕ, zero, suc, ◌≡◌, String, List, [], ◌∷◌, ◌++◌, All}
use aptp.Float.{Float, Double}
use aptp.Error.{Result, ok, err, panic, AptpError, io, map_err, >>=-eq-ok}
use aptp.Config.{AptpConfig, from_toml_file}
use aptp.Primitives.{TaggedPrimitive}
use aptp.Primitives.Provenance.{Sha256}
use aptp.Wire.{Capnp}
use aptp.Rpc.Sink.{Mpsc}
use aptp.Transport.Args.{config_path}
use aptp.Transport.Listener.{Net}
use aptp.Transport.Listener.Flight.{
  Action, Turn, accepts, on, Connection, Flight, act, act_at, open_connection, turn, fly, program,
}

pub All-snoc :
    {A : Type 0} (P : A → Type 0) (xs : List A) (x : A) → All P xs → P x → All P (xs ++ x ∷ [])
All-snoc P [] x all one = (one, tt)
All-snoc P (y ∷ xs) x (first, all) one = (first, All-snoc P xs x all one)

pub All-imp :
    {A : Type 0} {P Q : A → Type 0} → ((x : A) → P x → Q x) → (xs : List A) → All P xs → All Q xs
All-imp h [] all = tt
All-imp h (x ∷ xs) (one, all) = (h x one, All-imp h xs all)

module _ {F H Chan : Type 0} (D : Type 0) ⦃f : Float F⦄ ⦃d : Double F D⦄ (c : Capnp F)
    (s : Sha256 H) (m : Mpsc (TaggedPrimitive F) Chan)
    (read_to_string : String → Result String String) (from_str : String → Result String (List F))
    (cfg : AptpConfig F) where
  pub record IsKept (P : Connection F Chan → Type 0) : Type 0 where
    pub opened : (n : ℕ) → P (open_connection D c s m read_to_string from_str cfg n)
    pub acted :
        (action : Action F) (n : ℕ) (connection : Connection F Chan)
        → P connection
        → P (act c s m action n connection).0

  module _ (P : Connection F Chan → Type 0) (kept : IsKept P) where
    act_at-kept :
        (i : ℕ) (action : Action F) (n : ℕ) (connections : List (Connection F Chan))
        → All P connections
        → All P (act_at c s m i action n connections).0
    unfolding act_at
    act_at-kept i action n [] all = tt
    act_at-kept zero action n (connection ∷ others) (one, all) =
        (kept.acted action n connection one, all)
    act_at-kept (suc i) action n (connection ∷ others) (one, all) =
        (one, act_at-kept i action n others all)

    abbrev AllIn : Result (AptpError F) (Flight F Chan) → Type 0
    AllIn (ok flight) = All P flight.connections
    AllIn (err e) = Unit
    AllIn panic = Unit

    fly-AllIn :
        (turns : List (Turn F)) (flight : Flight F Chan)
        → All P flight.connections
        → AllIn (fly D c s m read_to_string from_str cfg turns flight)
    unfolding fly turn
    fly-AllIn [] flight all = all
    fly-AllIn (accepts panic ∷ turns) flight all = tt
    fly-AllIn (accepts (err e) ∷ turns) flight all = tt
    fly-AllIn (accepts (ok panic) ∷ turns) flight all = tt
    fly-AllIn (accepts (ok (err e)) ∷ turns) flight all = tt
    fly-AllIn (accepts (ok (ok u)) ∷ turns) flight all =
        fly-AllIn turns _ (All-snoc P flight.connections _ all (kept.opened flight.counter))
    fly-AllIn (on i action ∷ turns) flight all =
        fly-AllIn turns _ (act_at-kept i action flight.counter flight.connections all)

    pub fly-All :
        (turns : List (Turn F)) (flight : Flight F Chan) {end : Flight F Chan}
        → All P flight.connections
        → fly D c s m read_to_string from_str cfg turns flight ≡ ok end
        → All P end.connections
    fly-All turns flight all flown = subst AllIn flown (fly-AllIn turns flight all)

module _ {F H Chan Addr : Type 0} (D : Type 0) ⦃f : Float F⦄ ⦃d : Double F D⦄ (c : Capnp F)
    (s : Sha256 H) (m : Mpsc (TaggedPrimitive F) Chan)
    (read_to_string : String → Result String String) (from_str : String → Result String (List F))
    (parse_config : String → Result String (AptpConfig F)) (net : Net Addr) where
  -- A program that runs has read its configuration, and is in the loop.
  pub program-flies :
      (args : List String) (turns : List (Turn F)) {end : Flight F Chan}
      → program D c s m read_to_string from_str parse_config net args turns ≡ ok end
      → (cfg : AptpConfig F) × (from_toml_file read_to_string parse_config (config_path args)
          ≡ ok cfg)
        × (fly D c s m read_to_string from_str cfg turns (record { connections = []; counter = 0 })
            ≡ ok end)
  unfolding program
  program-flies args turns flown =
      let (cfg, configured, run) =
        >>=-eq-ok (from_toml_file read_to_string parse_config (config_path args)) _ flown in
      let (addr, parsed, bound) = >>=-eq-ok (map_err _ (net.parse cfg.transport.bind_addr)) _ run in
      let (u, bind, looped) = >>=-eq-ok (map_err io (net.bind addr)) _ bound in
      (cfg, configured, looped)
