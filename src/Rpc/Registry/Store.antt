-- ===== src/Rpc/Registry/Store.antt =====
-- What `SessionRegistry` of src/rpc/mod.rs promises its handlers: a map from ids to sessions, as an
-- interface of its three operations with their laws. Two stores that keep to it cannot be told apart.
pub mod Agree
mod Tests
use aptp.Prelude.{
  ℕ, ◌+◌, ◌%◌, ◌≡◌, refl, ap, String, ◌<>◌, Option, none, some, str_eq, if◌then◌else◌, arith,
}
use aptp.Error.{Result, ok, err, AptpError, internal}
use aptp.Primitives.{word, unix_nanos}
use aptp.Adapter.Spec.{AdapterVariant}
use aptp.Rpc.Registry.{
  SessionState, SessionRegistry, default, find, without, put, open_session, increment, drain,
}
use aptp.Rpc.Registry.Counts.{find-put, find-without}

-- A session as it is opened, and one packet later.
abbrev pub opening :
    (id peer : String) (adapter : Option AdapterVariant) (clock : Option ℕ) → SessionState
opening id peer adapter clock = record {
  session_id = id;
  peer_agent_id = peer;
  received_count = 0;
  adapter = adapter;
  opened_at_ns = unix_nanos clock;
}

abbrev pub one_more : SessionState → SessionState
one_more s = record s { received_count = (s.received_count + 1) % word }

abbrev pub unknown : {F : Type 0} → String → AptpError F
unknown id = internal ("unknown session: " <> id)

pub record SessionStore (F M : Type 0) : Type 0 where
  pub empty : M
  pub held : M → String → Option SessionState
  pub opens :
      (id : String) (clock : Option ℕ)
      → M
      → (peer : String) (adapter : Option AdapterVariant) → M × String
  pub increments : M → String → Result (AptpError F) M
  pub drains : M → String → Result (AptpError F) (ℕ × M)

pub record StoreLaws {F M : Type 0} (st : SessionStore F M) : Type 0 where
  pub held-empty : (k : String) → st.held st.empty k ≡ none
  pub held-opens :
      (id : String) (clock : Option ℕ) (m : M) (peer : String) (adapter : Option AdapterVariant)
      → ((st.opens id clock m peer adapter).1 ≡ id)
        × ((k : String)
            → st.held (st.opens id clock m peer adapter).0 k
              ≡ (if str_eq id k then some (opening id peer adapter clock) else st.held m k))
  pub unknown_lem :
      (m : M) (id : String)
      → st.held m id ≡ none
      → (st.increments m id ≡ err (unknown id)) × (st.drains m id ≡ err (unknown id))
  pub increments_lem :
      (m : M) (id : String) (s : SessionState)
      → st.held m id ≡ some s
      → (m' : M) × (st.increments m id ≡ ok m')
        × ((k : String) → st.held m' k ≡ (if str_eq id k then some (one_more s) else st.held m k))
  pub drains_lem :
      (m : M) (id : String) (s : SessionState)
      → st.held m id ≡ some s
      → (m' : M) × (st.drains m id ≡ ok (s.received_count, m'))
        × ((k : String) → st.held m' k ≡ (if str_eq id k then none else st.held m k))

-- The registry of the code.
abbrev pub registry : {F : Type 0} → SessionStore F SessionRegistry
registry = record {
  empty = default;
  held = λ reg k. find k reg.sessions;
  opens = open_session;
  increments = increment;
  drains = drain;
}

pub registry-StoreLaws : (F : Type 0) → StoreLaws (registry {F = F})
unfolding find open_session increment drain
registry-StoreLaws F = record {
  held-empty = λ k. refl;
  held-opens = λ id clock m peer adapter.
      (refl, λ k. find-put id k (opening id peer adapter clock) m.sessions);
  unknown_lem = λ m id h. (ground arith, ground arith);
  increments_lem = λ m id s h. (
    record { sessions = put id (one_more s) m.sessions },
    rw (h, increment) refl,
    λ k. find-put id k (one_more s) m.sessions,
  );
  drains_lem = λ m id s h. (
    record { sessions = without id m.sessions },
    rw (h, drain) refl,
    λ k. find-without id k m.sessions,
  );
}
