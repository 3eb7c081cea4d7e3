-- ===== src/Rpc/Handshake/Branches.antt =====
-- What a handshake decides, on every branch.
mod Tests
use native.Mathlib.Decide.{ℕ_discrete}
use aptp.Prelude.{
  ap, sym, ◌∙◌, ℕ, ◌≡◌, refl, ◌≢◌, ◌↔◌, ◌⊎◌, inl, String, Option, some, false, str_eq,
  if◌then◌else◌, ◌==◌, ◌&&◌, ==_iff, arith,
}
use aptp.Config.{AptpConfig}
use aptp.Primitives.{AgentCard, version_number}
use aptp.Adapter.Spec.{identity, linear_projection}
use aptp.Rpc.Registry.{SessionRegistry, open_session}
use aptp.Rpc.Registry.Counts.{count_of, count_of-open_session}
use aptp.Rpc.Messages.{HandshakeStatus, accepted, rejected, needs_adapter}
use aptp.Rpc.Handshake.{Answer, choose, handle}

-- What an answer tells of the count of session `k`, which was `old`.
abbrev pub opened : (status : HandshakeStatus) (assigned k : String) (old : Option ℕ) → Option ℕ
opened rejected assigned k old = old
opened accepted assigned k old = if str_eq assigned k then some 0 else old
opened needs_adapter assigned k old = if str_eq assigned k then some 0 else old

module _ {F : Type 0} (id : String) (clock : Option ℕ) (card : AgentCard) (cfg : AptpConfig F)
    (reg : SessionRegistry) where
  abbrev pub answer : Answer
  answer = (handle id clock card cfg reg).0

  abbrev pub after : SessionRegistry
  after = (handle id clock card cfg reg).1

  -- The peer speaks this version of the protocol.
  abbrev pub Compatible : Type 0
  Compatible = card.aptp_version ≡ version_number

  -- The two hidden sizes differ, and the configuration does not let that pass.
  abbrev pub NeedsProjection : Type 0
  NeedsProjection =
      (cfg.agent.hidden_size ≢ card.hidden_size)
      × (cfg.adapter.allow_dimension_mismatch_passthrough ≡ false)

  opens :
      Compatible
      → (answer.session_id ≡ id)
        × ((k : String) → count_of after k ≡ (if str_eq id k then some 0 else count_of reg k))
  unfolding handle open_session
  opens h =
      let same = (==_iff card.aptp_version version_number).1 h in
      (
        rw (same, answer, handle),
        λ k.
            rw (same, after, handle)
              (count_of-open_session id clock reg card.agent_id (some (choose cfg card).1) k),
      )

  refusal : ¬ Compatible → (after ≡ reg) × (answer.session_id ≡ "") × (answer.status ≡ rejected)
  unfolding handle
  refusal h = (ground arith, ground arith, ground arith)

  -- A handshake is rejected exactly when the versions differ; it asks for a projection exactly when
  -- they agree, the hidden sizes differ and the passthrough is off; its adapter is the projection
  -- exactly when it asks for one, and else the identity. With equal versions it assigns the fresh
  -- session and opens it with the count 0; with other versions it assigns and opens none. The count
  -- of every other session stays as it was.
  pub handshake_branches :
      (k : String)
      → ((answer.status ≡ rejected) ↔ (¬ Compatible))
        × ((answer.status ≡ needs_adapter) ↔ (Compatible × NeedsProjection))
        × ((answer.adapter ≡ linear_projection) ↔ (answer.status ≡ needs_adapter))
        × ((answer.adapter ≡ identity) ↔ (answer.status ≢ needs_adapter))
        × (answer.session_id ≡ (if card.aptp_version == version_number then id else ""))
        × (count_of after k ≡ (
            if (card.aptp_version == version_number) && str_eq id k
            then some 0
            else count_of reg k))
  unfolding handle choose
  handshake_branches k = (
    (λ h. ground arith, λ h. ground arith),
    (λ h. ground arith, λ h. ground arith),
    (λ h. ground arith, λ h. ground arith),
    (λ h. ground arith, λ h. ground arith),
    elim (ℕ_discrete card.aptp_version version_number) [
      | no differ ↦ ground (arith, (refusal differ).1)
      | yes same ↦ ground (arith, (opens same).0)
    ],
    elim (ℕ_discrete card.aptp_version version_number) [
      | no differ ↦ ground (arith, ap (λ r. count_of r k) (refusal differ).0)
      | yes same ↦ ground (arith, (opens same).1 k)
    ],
  )

  -- A session's count after a handshake is what it was, or 0 for the session that was opened.
  pub count_of-handle :
      (k : String) → (count_of after k ≡ count_of reg k) ⊎ (count_of after k ≡ some 0)
  count_of-handle k = elim (ℕ_discrete card.aptp_version version_number) [
    | no differ ↦ inl (ap (λ r. count_of r k) (refusal differ).0)
    | yes same ↦ ground (arith, (opens same).1 k)
  ]

  opened-session :
      (status : HandshakeStatus) (assigned k : String) (old : Option ℕ)
      → status ≢ rejected
      → opened status assigned k old ≡ (if str_eq assigned k then some 0 else old)
  opened-session rejected assigned k old h = absurd (h refl)
  opened-session accepted assigned k old h = refl
  opened-session needs_adapter assigned k old h = refl

  -- The answer tells the peer what became of every count.
  pub count_of-handle-opened :
      (k : String) → count_of after k ≡ opened answer.status answer.session_id k (count_of reg k)
  count_of-handle-opened k = elim (ℕ_discrete card.aptp_version version_number) [
    | no differ ↦
        let status = (refusal differ).2 in
        ap (λ r. count_of r k) (refusal differ).0
        ∙ ap (λ t. opened t answer.session_id k (count_of reg k)) (sym status)
    | yes same ↦
        let status = λ (e : answer.status ≡ rejected). (handshake_branches k).0.0 e same in
        (opens same).1 k
        ∙ ap (λ t. if str_eq t k then some 0 else count_of reg k) (sym (opens same).0)
        ∙ sym (opened-session answer.status answer.session_id k (count_of reg k) status)
  ]
