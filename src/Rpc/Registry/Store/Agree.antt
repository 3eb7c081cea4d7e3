-- ===== src/Rpc/Registry/Store/Agree.antt =====
-- `SessionRegistry` of src/rpc/mod.rs against the map that it stands for.
use mathlib.Core.Path.{ap₂}
use aptp.Prelude.{
  ℕ, ◌≡◌, refl, sym, ap, ◌∙◌, String, Option, none, some, List, [], ◌∷◌, str_eq, if◌then◌else◌,
  Option-cases, inl, inr,
}
use aptp.Error.{Result, ok, err, panic, AptpError}
use aptp.Adapter.Spec.{AdapterVariant}
use aptp.Rpc.Registry.{SessionState, default}
use aptp.Rpc.Registry.Store.{
  opening, one_more, unknown, SessionStore, StoreLaws, registry, registry-StoreLaws,
}

-- The map, as a function.
abbrev pub Sessions : Type 0
Sessions = String → Option SessionState

abbrev pub set : String → Option SessionState → Sessions → Sessions
set id entry held k = if str_eq id k then entry else held k

module _ {F : Type 0} where
  abbrev count_entry : Option SessionState → String → Sessions → Result (AptpError F) Sessions
  count_entry none id held = err (unknown id)
  count_entry (some s) id held = ok (set id (some (one_more s)) held)

  abbrev take_entry : Option SessionState → String → Sessions → Result (AptpError F) (ℕ × Sessions)
  take_entry none id held = err (unknown id)
  take_entry (some s) id held = ok (s.received_count, set id none held)

  abbrev pub specification : SessionStore F Sessions
  specification = record {
    empty = λ k. none;
    held = λ held k. held k;
    opens = λ id clock held peer adapter. (set id (some (opening id peer adapter clock)) held, id);
    increments = λ held id. count_entry (held id) id held;
    drains = λ held id. take_entry (held id) id held;
  }

specification-StoreLaws : (F : Type 0) → StoreLaws (specification {F = F})
specification-StoreLaws F = record {
  held-empty = λ k. refl;
  held-opens = λ id clock m peer adapter. (refl, λ k. refl);
  unknown_lem = λ m id h. (rw h refl, rw h refl);
  increments_lem = λ m id s h. (set id (some (one_more s)) m, rw h refl, λ k. refl);
  drains_lem = λ m id s h. (set id none m, rw h refl, λ k. refl);
}

-- The uses of a store, and what they answer.
pub data Use : Type 0 where
  open_one :
      (id : String) (clock : Option ℕ) (peer : String) (adapter : Option AdapterVariant) → Use
  count_one : String → Use
  end_one : String → Use

pub data Answer (F : Type 0) : Type 0 where
  opened : String → Answer F
  counted : Answer F
  ended : ℕ → Answer F
  refused : AptpError F → Answer F
  crashed : Answer F

module _ {F M : Type 0} (st : SessionStore F M) where
  abbrev after_count : Result (AptpError F) M → M → Answer F × M
  after_count (ok m') m = (counted, m')
  after_count (err e) m = (refused e, m)
  after_count panic m = (crashed, m)

  abbrev after_end : Result (AptpError F) (ℕ × M) → M → Answer F × M
  after_end (ok (n, m')) m = (ended n, m')
  after_end (err e) m = (refused e, m)
  after_end panic m = (crashed, m)

  abbrev pub perform : Use → M → Answer F × M
  perform (open_one id clock peer adapter) m =
      let (m', session_id) = st.opens id clock m peer adapter in (opened session_id, m')
  perform (count_one id) m = after_count (st.increments m id) m
  perform (end_one id) m = after_end (st.drains m id) m

  abbrev pub answers : List Use → M → List (Answer F)
  answers [] m = []
  answers (u ∷ uses) m = let (a, m') = perform u m in a ∷ answers uses m'

module _ {F M N : Type 0} (st : SessionStore F M) (laws : StoreLaws st) (other : SessionStore F N)
    (other_laws : StoreLaws other) where
  abbrev Alike : M → N → Type 0
  Alike m n = (k : String) → st.held m k ≡ other.held n k

  -- The same answer, and states that are alike.
  abbrev Agrees : Answer F × M → Answer F × N → Type 0
  Agrees (a, m) (b, n) = (a ≡ b) × Alike m n

  -- Entries that are set alike stay alike.
  set-Alike :
      (id k : String) (entry x y x' y' : Option SessionState)
      → x ≡ y
      → x' ≡ (if str_eq id k then entry else x)
      → y' ≡ (if str_eq id k then entry else y)
      → x' ≡ y'
  set-Alike id k entry x y x' y' same e e' =
      e ∙ ap (λ o. if str_eq id k then entry else o) same ∙ sym e'

  open-Agrees :
      (id : String) (clock : Option ℕ) (peer : String) (adapter : Option AdapterVariant) (m : M)
      (n : N)
      → Alike m n
      → Agrees
          (perform st (open_one id clock peer adapter) m)
          (perform other (open_one id clock peer adapter) n)
  open-Agrees id clock peer adapter m n alike =
      let (named, entries) = laws.held-opens id clock m peer adapter in
      let (named', entries') = other_laws.held-opens id clock n peer adapter in
      (
        ap (λ (i : String). opened i) (named ∙ sym named'),
        λ k. set-Alike id k _ (st.held m k) (other.held n k) _ _ (alike k) (entries k) (entries' k),
      )

  count-Agrees :
      (id : String) (m : M) (n : N)
      → Alike m n
      → Agrees (perform st (count_one id) m) (perform other (count_one id) n)
  count-Agrees id m n alike = elim (Option-cases (st.held m id)) [
    | inl missing ↦
        rw
          (
            (laws.unknown_lem m id missing).0,
            (other_laws.unknown_lem n id (sym (alike id) ∙ missing)).0,
          )
          (refl, alike)
    | inr (s, found) ↦
        let (m', done, entries) = laws.increments_lem m id s found in
        let (n', done', entries') = other_laws.increments_lem n id s (sym (alike id) ∙ found) in
        rw (done, done')
          (
            refl,
            λ k.
                set-Alike id k _ (st.held m k) (other.held n k) _ _ (alike k) (entries k)
                  (entries' k),
          )
  ]

  end-Agrees :
      (id : String) (m : M) (n : N)
      → Alike m n
      → Agrees (perform st (end_one id) m) (perform other (end_one id) n)
  end-Agrees id m n alike = elim (Option-cases (st.held m id)) [
    | inl missing ↦
        rw
          (
            (laws.unknown_lem m id missing).1,
            (other_laws.unknown_lem n id (sym (alike id) ∙ missing)).1,
          )
          (refl, alike)
    | inr (s, found) ↦
        let (m', done, entries) = laws.drains_lem m id s found in
        let (n', done', entries') = other_laws.drains_lem n id s (sym (alike id) ∙ found) in
        rw (done, done')
          (
            refl,
            λ k.
                set-Alike id k _ (st.held m k) (other.held n k) _ _ (alike k) (entries k)
                  (entries' k),
          )
  ]

  perform-Agrees :
      (u : Use) (m : M) (n : N) → Alike m n → Agrees (perform st u m) (perform other u n)
  perform-Agrees (open_one id clock peer adapter) = open-Agrees id clock peer adapter
  perform-Agrees (count_one id) = count-Agrees id
  perform-Agrees (end_one id) = end-Agrees id

  pub answers-Alike :
      (uses : List Use) (m : M) (n : N) → Alike m n → answers st uses m ≡ answers other uses n
  answers-Alike [] m n alike = refl
  answers-Alike (u ∷ uses) m n alike =
      let (same, alike') = perform-Agrees u m n alike in
      ap₂ (λ (a : Answer F) (rest : List (Answer F)). a ∷ rest) same
        (answers-Alike uses (perform st u m).1 (perform other u n).1 alike')

-- Whatever sessions are opened, counted for and ended, in whatever order, the registry answers as the
-- map from ids to sessions does, errors included.
pub registry-refines :
    (F : Type 0) (uses : List Use)
    → answers (registry {F = F}) uses default ≡ answers (specification {F = F}) uses (λ k. none)
registry-refines F uses =
    answers-Alike registry (registry-StoreLaws F) specification (specification-StoreLaws F) uses
      default (λ k. none) (registry-StoreLaws F).held-empty
