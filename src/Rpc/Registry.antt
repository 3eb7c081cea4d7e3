-- ===== src/Rpc/Registry.antt =====
-- `SessionRegistry` of src/rpc/mod.rs. The `HashMap` is an association list: the code never iterates
-- over it.
pub mod Counts
pub mod Store
use aptp.Prelude.{
  ℕ, ◌+◌, ◌%◌, String, ◌<>◌, Option, none, some, List, [], ◌∷◌, str_eq, if◌then◌else◌,
}
use aptp.Error.{Result, ok, err, AptpError, internal}
use aptp.Primitives.{word, unix_nanos}
use aptp.Adapter.Spec.{AdapterVariant}

pub record SessionState : Type 0 where
  pub session_id : String
  pub peer_agent_id : String
  pub received_count : ℕ
  pub adapter : Option AdapterVariant
  pub opened_at_ns : ℕ

pub record SessionRegistry : Type 0 where
  pub sessions : List (String × SessionState)

-- `SessionRegistry::default()`
abbrev pub default : SessionRegistry
default = record { sessions = [] }

unfoldable pub find : String → List (String × SessionState) → Option SessionState
find k [] = none
find k ((j, s) ∷ m) = if str_eq j k then some s else find k m

unfoldable pub without : String → List (String × SessionState) → List (String × SessionState)
without k [] = []
without k ((j, s) ∷ m) = let rest = without k m in if str_eq j k then rest else (j, s) ∷ rest

-- `HashMap::insert`, which replaces.
unfoldable pub put :
    String → SessionState → List (String × SessionState) → List (String × SessionState)
unfolding without
put k s m = (k, s) ∷ without k m

-- `id` is what `Uuid::new_v4()` returns, and `clock` what the system clock does.
unfoldable pub open_session :
    (id : String) (clock : Option ℕ)
    → SessionRegistry
    → (peer_agent_id : String) (adapter : Option AdapterVariant) → SessionRegistry × String
unfolding put
open_session id clock reg peer_agent_id adapter = (
  record {
    sessions =
        put id
          (record {
            session_id = id;
            peer_agent_id = peer_agent_id;
            received_count = 0;
            adapter = adapter;
            opened_at_ns = unix_nanos clock;
          })
          reg.sessions;
  },
  id,
)

module _ {F : Type 0} where
  -- The sum wraps, as in a release build. An error leaves the registry as it was.
  unfoldable pub increment : SessionRegistry → String → Result (AptpError F) SessionRegistry
  unfolding put
  increment reg session_id = elim (find session_id reg.sessions) [
    | none ↦ err (internal ("unknown session: " <> session_id))
    | some s ↦ ok (record {
      sessions =
          put session_id (record s { received_count = (s.received_count + 1) % word }) reg.sessions;
    })
  ]

  unfoldable pub drain : SessionRegistry → String → Result (AptpError F) (ℕ × SessionRegistry)
  drain reg session_id = elim (find session_id reg.sessions) [
    | none ↦ err (internal ("unknown session: " <> session_id))
    | some s ↦ ok (s.received_count, record { sessions = without session_id reg.sessions })
  ]
