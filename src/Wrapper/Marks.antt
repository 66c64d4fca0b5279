-- ===== src/Wrapper/Marks.antt =====
-- wrapper/turn_interrupt.go: turnMarks, and how requestTurnInterrupt uses it. What InterruptTurn of
-- the session returns is an argument: whether it failed.
use go_agent_wrapper.Shared.{
  Bool-cases, inl, inr, Bytes, is_empty, ◌==◌, ==_iff, ==-refl, ◌≡◌, refl, Bool, true, false, not,
  ◌&&◌, List, [], ◌∷◌, if◌then◌else◌, arith,
}

pub record TurnMarks : Type 0 where
  pub open_id : Bytes
  pub interrupted : Bytes

unfoldable pub opened : Bytes → TurnMarks → TurnMarks
opened id m = record m { open_id = id }

unfoldable pub closed : Bytes → TurnMarks → TurnMarks
closed id m = record {
  open_id = if m.open_id == id then [] else m.open_id;
  interrupted = if m.interrupted == id then [] else m.interrupted;
}

unfoldable pub mark_open : TurnMarks → Bytes × TurnMarks
mark_open m = (m.open_id, record m { interrupted = m.open_id })

unfoldable pub unmark : Bytes → TurnMarks → TurnMarks
unmark id m = if not (is_empty id) && m.interrupted == id then record m { interrupted = [] } else m

unfoldable pub is_interrupted : Bytes → TurnMarks → Bool
is_interrupted id m = not (is_empty id) && m.interrupted == id

pub data Action : Type 0 where
  opens closes unmarks : Bytes → Action
  marks : Action

unfoldable pub step : Action → TurnMarks → TurnMarks
step (opens id) m = opened id m
step (closes id) m = closed id m
step (unmarks id) m = unmark id m
step marks m = (mark_open m).1

unfoldable pub run : List Action → TurnMarks → TurnMarks
unfolding step
run [] m = m
run (a ∷ rest) m = run rest (step a m)

-- The actions that do not concern the mark of a turn: other turns open and close, marks of other
-- turns are taken back.
abbrev pub spares : Bytes → Action → Bool
spares id (opens other) = true
spares id (closes other) = not (other == id)
spares id (unmarks other) = not (other == id)
spares id marks = false

abbrev pub AreSparing : Bytes → List Action → Type 0
AreSparing id [] = Unit
AreSparing id (a ∷ rest) = (spares id a ≡ true) × AreSparing id rest

step-is_interrupted :
    (id : Bytes) (a : Action) (m : TurnMarks)
    → spares id a ≡ true
    → m.interrupted ≡ id
    → (step a m).interrupted ≡ id
unfolding step
step-is_interrupted id (opens other) m s h = unfold opened in h
step-is_interrupted id (closes other) m s h =
    unfold closed in ground (arith, s, h, ==_iff m.interrupted other, ==_iff other id)
step-is_interrupted id (unmarks other) m s h =
    unfold unmark in ground (arith, s, h, ==_iff m.interrupted other, ==_iff other id)
step-is_interrupted id marks m s h = ground (arith, s)

run-is_interrupted :
    (id : Bytes) (actions : List Action) (m : TurnMarks)
    → AreSparing id actions
    → m.interrupted ≡ id
    → (run actions m).interrupted ≡ id
unfolding run
run-is_interrupted id [] m s h = h
run-is_interrupted id (a ∷ rest) m s h =
    run-is_interrupted id rest (step a m) s.1 (step-is_interrupted id a m s.0 h)

marked_is_interrupted :
    (id : Bytes) (m : TurnMarks)
    → is_empty id ≡ false
    → m.interrupted ≡ id
    → is_interrupted id m ≡ true
unfolding is_interrupted
marked_is_interrupted id m named h = rw h (ground (arith, named, ==-refl id))

closed_not_interrupted :
    (id : Bytes) (m : TurnMarks) → is_empty id ≡ false → is_interrupted id (closed id m) ≡ false
unfolding is_interrupted closed ◌==◌
closed_not_interrupted [] m named = cc
closed_not_interrupted (c ∷ id) m named = elim (Bool-cases (m.interrupted == (c ∷ id))) [
  | inl e ↦ rw e refl
  | inr e ↦ rw e (ground (arith, e))
]

-- Marking the open turn lasts: where a turn is open when markOpen is called, markOpen returns its
-- id, and the turn counts as interrupted until it is closed, its mark is taken back or another
-- turn is marked, whichever turns open and close in between; and once it is closed it no longer
-- counts as interrupted.
mark_open_lasts :
    (m : TurnMarks) (actions : List Action)
    → is_empty m.open_id ≡ false
    → AreSparing m.open_id actions
    → ((mark_open m).0 ≡ m.open_id)
      × (is_interrupted m.open_id (run actions (mark_open m).1) ≡ true)
      × (is_interrupted m.open_id (closed m.open_id (run actions (mark_open m).1)) ≡ false)
mark_open_lasts m actions named s =
    let held = run-is_interrupted m.open_id actions (mark_open m).1 s (unfold mark_open in refl) in
    (
      unfold mark_open in refl,
      marked_is_interrupted m.open_id (run actions (mark_open m).1) named held,
      closed_not_interrupted m.open_id (run actions (mark_open m).1) named,
    )
