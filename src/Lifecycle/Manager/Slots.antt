-- ===== src/Lifecycle/Manager/Slots.antt =====
-- acp/lifecycle.go: how a launch takes an id and how the end of a session gives it back.
use go_agent_wrapper.Shared.{
  ==-refl, ◌∙◌, ==_iff, ℕ, Bytes, is_empty, ◌==◌, ◌≡◌, refl, false, ◌&&◌, inl, inr, none, some,
  nat_eq, if◌then◌else◌, length, lookup, lookup-insert, lookup-delete, arith, Bool-cases,
  Option-cases,
}
use go_agent_wrapper.Lifecycle.Outcome.{duplicate_session}
use go_agent_wrapper.Lifecycle.Manager.{Manager, reserve, unregister, is_registered}

-- A duplicate launch is refused and changes nothing: where an id is registered, Launch returns the
-- duplicate's error; and where it is neither empty nor registered, the id is registered for the
-- session that Launch makes, and every other id stands for what it stood for.
reserve_lem :
    (id : Bytes) (m : Manager)
    → is_empty id ≡ false
    → ((h : ℕ) → lookup id m.sessions ≡ some h → reserve id m ≡ (inl (duplicate_session id), m))
      × (lookup id m.sessions ≡ none
          → ((reserve id m).0 ≡ inr (length m.store))
            × ((k : Bytes)
                → lookup k (reserve id m).1.sessions
                  ≡ (if id == k then some (length m.store) else lookup k m.sessions)))
unfolding reserve
reserve_lem id m named = (
  λ h taken. rw (named, taken, reserve) refl,
  λ free. (
    rw (named, free, reserve) refl,
    λ k. rw (named, free, reserve) (lookup-insert id k (length m.store) m.sessions),
  ),
)

-- The end of a session removes its own registration and no other: every other id, and its own id
-- where it already stands for another session, stand for what they stood for.
pub unregister_lem :
    (id k : Bytes) (expected : ℕ) (m : Manager)
    → lookup k (unregister id expected m).sessions ≡ (
        if id == k && is_registered (lookup id m.sessions) expected
        then none
        else lookup k m.sessions)
unfolding unregister
unregister_lem id k expected m = elim (Option-cases (lookup id m.sessions)) [
  | inl free ↦ rw (free, unregister) (ground arith)
  | inr (j, taken) ↦
      let gone = lookup-delete id k m.sessions in
      elim (Bool-cases (nat_eq j expected)) [
        | inl e ↦ rw (taken, e, unregister) (ground (arith, gone))
        | inr e ↦ rw (taken, e, unregister) (ground arith)
      ]
]

-- A launch and the end of its session undo each other: where Launch takes an id, then after the
-- end of the session that it made every id stands for what it stood for before, and the id can be
-- launched again; and until then a further launch of the id is refused.
pub reserve_round_trip :
    (id k : Bytes) (m : Manager)
    → is_empty id ≡ false
    → lookup id m.sessions ≡ none
    → (lookup k (unregister id (length m.store) (reserve id m).1).sessions ≡ lookup k m.sessions)
      × (reserve id (reserve id m).1 ≡ (inl (duplicate_session id), (reserve id m).1))
reserve_round_trip id k m named free =
    let taken = (reserve_lem id m named).1 free in
    let held : lookup id (reserve id m).1.sessions ≡ some (length m.store) =
      taken.1 id ∙ rw ==-refl refl in
    (
      unregister_lem id k (length m.store) (reserve id m).1
          ∙ ground (arith, held, taken.1 k, ==_iff id k, free),
      (reserve_lem id (reserve id m).1 named).0 (length m.store) held,
    )
