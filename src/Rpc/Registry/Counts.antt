-- ===== src/Rpc/Registry/Counts.antt =====
-- The registry as a map from session ids to counts.
use aptp.Prelude.{
  ℕ, ◌+◌, ◌%◌, ◌≡◌, refl, ap, inl, inr, String, ◌<>◌, Option, none, some, List, [], ◌∷◌, str_eq,
  eq_iff, if◌then◌else◌, Option-cases, arith,
}
use aptp.Error.{ok, err, internal}
use aptp.Primitives.{word}
use aptp.Adapter.Spec.{AdapterVariant}
use aptp.Rpc.Registry.{
  SessionState, SessionRegistry, default, find, without, put, open_session, increment, drain,
}

abbrev pub count_in : Option SessionState → Option ℕ
count_in none = none
count_in (some s) = some s.received_count

-- The count that a session's entry holds, if the session is open.
unfoldable pub count_of : SessionRegistry → String → Option ℕ
count_of reg k = count_in (find k reg.sessions)

-- One more packet.
abbrev pub bump : Option ℕ → Option ℕ
bump none = none
bump (some n) = some ((n + 1) % word)

pub find-without :
    (k j : String) (m : List (String × SessionState))
    → find j (without k m) ≡ (if str_eq k j then none else find j m)
unfolding find without
find-without k j [] = ground arith
find-without k j ((i, s) ∷ m) =
    ground (arith, find-without k j m, eq_iff i k, eq_iff i j, eq_iff k j)

pub find-put :
    (k j : String) (s : SessionState) (m : List (String × SessionState))
    → find j (put k s m) ≡ (if str_eq k j then some s else find j m)
unfolding put find
find-put k j s m = ground (arith, find-without k j m)

pub count_of-open_session :
    (id : String) (clock : Option ℕ) (reg : SessionRegistry) (peer : String)
    (adapter : Option AdapterVariant) (k : String)
    → count_of (open_session id clock reg peer adapter).0 k
      ≡ (if str_eq id k then some 0 else count_of reg k)
unfolding count_of open_session
count_of-open_session id clock reg peer adapter k = rw (find-put id k) (ground arith)

pub count_of-default : (k : String) → count_of default k ≡ none
unfolding count_of find
count_of-default k = refl

-- A session that is not open is an error, to count and to drain.
pub unknown_session :
    {F : Type 0} (reg : SessionRegistry) (id : String)
    → count_of reg id ≡ none
    → (increment {F = F} reg id ≡ err (internal ("unknown session: " <> id)))
      × (drain {F = F} reg id ≡ err (internal ("unknown session: " <> id)))
unfolding count_of increment drain
unknown_session reg id e = (ground arith, ground arith)

module _ {F : Type 0} where
  -- Counting for an open session adds one to its count, modulo 2^64, and changes no other.
  pub increment_known :
      (reg : SessionRegistry) (id : String) (n : ℕ)
      → count_of reg id ≡ some n
      → (reg' : SessionRegistry) × (increment {F = F} reg id ≡ ok reg')
        × ((k : String)
            → count_of reg' k ≡ (if str_eq id k then bump (count_of reg k) else count_of reg k))
  unfolding count_of increment
  increment_known reg id n e = elim (Option-cases (find id reg.sessions)) [
    | inl none_found ↦ cc (ap count_in none_found)
    | inr (s, found) ↦ (
      record {
        sessions =
            put id (record s { received_count = (s.received_count + 1) % word }) reg.sessions;
      },
      rw (found, increment),
      λ k. rw (find-put id k) (ground (arith, eq_iff id k)),
    )
  ]

  -- Draining an open session returns its count and closes it, and changes no other.
  pub drain_known :
      (reg : SessionRegistry) (id : String) (n : ℕ)
      → count_of reg id ≡ some n
      → (reg' : SessionRegistry) × (drain {F = F} reg id ≡ ok (n, reg'))
        × ((k : String) → count_of reg' k ≡ (if str_eq id k then none else count_of reg k))
  unfolding count_of drain
  drain_known reg id n e = elim (Option-cases (find id reg.sessions)) [
    | inl none_found ↦ cc (ap count_in none_found)
    | inr (s, found) ↦ (
      record { sessions = without id reg.sessions },
      ground arith,
      λ k. rw (find-without id k) (ground arith),
    )
  ]
