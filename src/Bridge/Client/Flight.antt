-- ===== src/Bridge/Client/Flight.antt =====
-- acp/ndjsonclient.go: at most one turn of a client is in flight, the one that currentTurnID names.
use go_agent_wrapper.Shared.{
  ℕ, zero, suc, ◌≡◌, refl, inl, inr, ◌⊎◌, All, Bytes, Bool, true, false, none, some, List, [], ◌∷◌,
  ◌++◌, get_elem?, is_empty, Bool-cases, sym,
}
use go_agent_wrapper.Bridge.Client.{
  Running, Phase, admitted, announced, reported, numbered, writing, unsent, waiting, finishing,
  ended, cleared, draining, opened_turn,
}
use go_agent_wrapper.Bridge.Client.Run.{replace}

-- The turn has given up currentTurnID.
abbrev pub is_past : Phase → Bool
is_past (cleared failed) = true
is_past reported = true
is_past admitted = false
is_past announced = false
is_past (numbered n) = false
is_past (writing n) = false
is_past (unsent n) = false
is_past (waiting n) = false
is_past (finishing failed) = false
is_past (ended failed) = false
is_past (draining failed g) = false

abbrev pub Head : Bool → Bytes → Bytes → (Bytes → Type 0) → Type 0
Head true id current Rest = Rest current
Head false id current Rest = (id ≡ current) × (is_empty current ≡ false) × Rest []

-- One turn is not past, and has the current id; or none is, and the current id is empty.
abbrev pub InFlight : List Running → Bytes → Type 0
InFlight [] current = is_empty current ≡ true
InFlight (r ∷ rest) current = Head (is_past r.phase) r.id current (InFlight rest)

false-true : false ≡ true → ⊥
false-true e = cc

Head-map :
    (b : Bool) (id current : Bytes) (P Q : Bytes → Type 0)
    → ((k : Bytes) → P k → Q k)
    → Head b id current P
    → Head b id current Q
Head-map true id current P Q f h = f current h
Head-map false id current P Q f h = (h.0, h.1, f [] h.2)

opened_head :
    (b : Bool) (old id : Bytes) (P Q : Bytes → Type 0)
    → (P [] → Q id)
    → Head b old [] P
    → Head b old id Q
opened_head true old id P Q f h = f h
opened_head false old id P Q f h = absurd (false-true (sym (h.1)))

pub InFlight-opened :
    (id : Bytes) (rs : List Running)
    → is_empty id ≡ false
    → InFlight rs []
    → InFlight (rs ++ opened_turn id ∷ []) id
InFlight-opened id [] new h = (refl, new, refl)
InFlight-opened id (r ∷ rest) new h =
    opened_head (is_past r.phase) r.id id _ _ (InFlight-opened id rest new) h

-- A step that leaves the turn's id, and whether it is past.
pub InFlight-replace :
    (i : ℕ) (r new : Running) (rs : List Running) (current : Bytes)
    → get_elem? rs i ≡ some r
    → is_past new.phase ≡ is_past r.phase
    → new.id ≡ r.id
    → InFlight rs current
    → InFlight (replace i (some new) rs) current
unfolding replace
InFlight-replace i r new [] current found past same h = h
InFlight-replace zero r new (old ∷ rest) current found past same h =
    let e : r ≡ old = cc in rw (past, same, e) h
InFlight-replace (suc i) r new (old ∷ rest) current found past same h =
    Head-map (is_past old.phase) old.id current _ _
      (λ k. InFlight-replace i r new rest k found past same) h

Head-yields :
    (id current : Bytes) (b : Bool) (P : Bytes → Type 0)
    → b ≡ false
    → Head b id current P
    → (id ≡ current) × (is_empty current ≡ false) × P []
Head-yields id current true P e h = absurd (false-true (sym e))
Head-yields id current false P e h = h

Head-skips :
    (id current : Bytes) (b : Bool) (P : Bytes → Type 0)
    → b ≡ true
    → Head b id current P
    → P current
Head-skips id current true P e h = h
Head-skips id current false P e h = absurd (false-true e)

-- The turn that is not past is the current one.
pub InFlight-current :
    (i : ℕ) (r : Running) (rs : List Running) (current : Bytes)
    → get_elem? rs i ≡ some r
    → is_past r.phase ≡ false
    → InFlight rs current
    → (r.id ≡ current) × (is_empty current ≡ false)
InFlight-current i r [] current found now h = cc
InFlight-current zero r (old ∷ rest) current found now h =
    let e : old ≡ r = cc in
    let at_head : Head (is_past r.phase) r.id current (InFlight rest) = rw (← e) h in
    let (same, some_id, _) =
      Head-yields r.id current (is_past r.phase) (InFlight rest) now at_head in
    (same, some_id)
InFlight-current (suc i) r (old ∷ rest) current found now h =
    elim (Bool-cases (is_past old.phase)) [
      | inl past ↦
          InFlight-current i r rest current found now
            (Head-skips old.id current (is_past old.phase) (InFlight rest) past h)
      | inr not_past ↦
          let (_, _, none_left) =
            Head-yields old.id current (is_past old.phase) (InFlight rest) not_past h in
          let (_, full) = InFlight-current i r rest [] found now none_left in
          absurd (false-true (sym full))
    ]

-- The current turn becomes past, and no id is current.
pub InFlight-cleared :
    (i : ℕ) (r new : Running) (rs : List Running) (current : Bytes)
    → get_elem? rs i ≡ some r
    → is_past r.phase ≡ false
    → is_past new.phase ≡ true
    → InFlight rs current
    → InFlight (replace i (some new) rs) []
unfolding replace
InFlight-cleared i r new [] current found now past h = cc
InFlight-cleared zero r new (old ∷ rest) current found now past h =
    let e : old ≡ r = cc in
    let at_head : Head (is_past r.phase) r.id current (InFlight rest) = rw (← e) h in
    let (_, _, none_left) =
      Head-yields r.id current (is_past r.phase) (InFlight rest) now at_head in
    rw past none_left
InFlight-cleared (suc i) r new (old ∷ rest) current found now past h =
    elim (Bool-cases (is_past old.phase)) [
      | inl old_past ↦ rw old_past (
          InFlight-cleared i r new rest current found now past
            (Head-skips old.id current (is_past old.phase) (InFlight rest) old_past h))
      | inr not_past ↦
          let (_, _, none_left) =
            Head-yields old.id current (is_past old.phase) (InFlight rest) not_past h in
          let (_, full) = InFlight-current i r rest [] found now none_left in
          absurd (false-true (sym full))
    ]

-- A past turn goes.
pub InFlight-gone :
    (i : ℕ) (r : Running) (rs : List Running) (current : Bytes)
    → get_elem? rs i ≡ some r
    → is_past r.phase ≡ true
    → InFlight rs current
    → InFlight (replace i none rs) current
unfolding replace
InFlight-gone i r [] current found past h = h
InFlight-gone zero r (old ∷ rest) current found past h =
    let e : old ≡ r = cc in
    let old_past : is_past old.phase ≡ true = rw e past in
    Head-skips old.id current (is_past old.phase) (InFlight rest) old_past h
InFlight-gone (suc i) r (old ∷ rest) current found past h =
    Head-map (is_past old.phase) old.id current _ _ (λ k. InFlight-gone i r rest k found past) h

pub idle_turns_past :
    (rs : List Running) → InFlight rs [] → All (λ (r : Running). is_past r.phase ≡ true) rs
idle_turns_past [] h = tt
idle_turns_past (r ∷ rest) h = elim (Bool-cases (is_past r.phase)) [
  | inl past ↦
      (past, idle_turns_past rest (Head-skips r.id [] (is_past r.phase) (InFlight rest) past h))
  | inr not_past ↦
      let (_, full, _) = Head-yields r.id [] (is_past r.phase) (InFlight rest) not_past h in
      absurd (false-true (sym full))
]

idle_turns_past_named :
    (rs : List Running) (current : Bytes)
    → All (λ (r : Running). is_past r.phase ≡ true) rs
    → All (λ (r : Running). (is_past r.phase ≡ true) ⊎ (r.id ≡ current)) rs
idle_turns_past_named [] current h = tt
idle_turns_past_named (r ∷ rest) current h = (inl h.0, idle_turns_past_named rest current h.1)

pub InFlight-named :
    (rs : List Running) (current : Bytes)
    → InFlight rs current
    → All (λ (r : Running). (is_past r.phase ≡ true) ⊎ (r.id ≡ current)) rs
InFlight-named [] current h = tt
InFlight-named (r ∷ rest) current h = elim (Bool-cases (is_past r.phase)) [
  | inl past ↦ (
    inl past,
    InFlight-named rest current (Head-skips r.id current (is_past r.phase) (InFlight rest) past h),
  )
  | inr not_past ↦
      let (same, _, none_left) =
        Head-yields r.id current (is_past r.phase) (InFlight rest) not_past h in
      (inr same, idle_turns_past_named rest current (idle_turns_past rest none_left))
]
