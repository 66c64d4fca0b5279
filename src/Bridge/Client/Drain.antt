-- ===== src/Bridge/Client/Drain.antt =====
-- acp/ndjsonclient.go: how far the goroutine of a turn is from its end, and when it is not blocked.
use go_agent_wrapper.Shared.{
  ℕ, zero, suc, ◌+◌, ◌≤◌, ◌≡◌, inl, inr, Bytes, Bool, true, false, not, ◌&&◌, Option, none, some,
  List, [], ◌∷◌, Bool-cases, arith, get_elem?, is_some,
}
use go_agent_wrapper.Shared.Table.{lookup}
use go_agent_wrapper.Permission.Coordinator.{PermissionTurn, find_turn}
use go_agent_wrapper.Bridge.Rpc.{Reply}
use go_agent_wrapper.Bridge.Client.{
  Client, Running, Phase, admitted, announced, reported, numbered, writing, unsent, waiting,
  finishing, ended, cleared, draining,
}
use go_agent_wrapper.Bridge.Client.Run.{
  Choice, goes_well, goes_wrong, awaited, released, begin_end, drained, is_over, advance,
  is_reported, is_waiting, step_turn, replace, advance_found,
}
use go_agent_wrapper.Bridge.Client.View.{advance_moves, moved_running}

-- How many steps a turn has left at most, the end of its goroutine included.
abbrev pub steps_left : Phase → ℕ
steps_left admitted = 10
steps_left announced = 9
steps_left (numbered n) = 8
steps_left (writing n) = 7
steps_left (unsent n) = 6
steps_left (waiting n) = 6
steps_left (finishing failed) = 5
steps_left (draining failed g) = 4
steps_left (ended failed) = 3
steps_left (cleared failed) = 2
steps_left reported = 1

-- Whether the goroutine can go on: awaitCall with a response, or with the end of the lifetime, and
-- EndTurn with the done channel of its turn closed. No other step of it blocks.
unfoldable pub can_step : Choice → Phase → Client → Bool
unfolding lookup find_turn
can_step goes_well (waiting n) c = is_some (lookup n c.rpc.replies)
can_step goes_wrong (waiting n) c = c.lifetime_stopped
can_step choice (draining failed g) c = is_over (find_turn g c.permissions.turns)
can_step choice admitted c = true
can_step choice announced c = true
can_step choice (numbered n) c = true
can_step choice (writing n) c = true
can_step choice (unsent n) c = true
can_step choice (finishing failed) c = true
can_step choice (ended failed) c = true
can_step choice (cleared failed) c = true
can_step choice reported c = true

abbrev pub one_if : Bool → ℕ
one_if true = 1
one_if false = 0

one_if_bound : (b : Bool) → one_if b ≤ 1
one_if_bound true = omega arith
one_if_bound false = omega arith

pub left_positive : (phase : Phase) → 1 ≤ steps_left phase
left_positive phase = ground arith

pub left_bound : (phase : Phase) → steps_left phase ≤ 10
left_bound phase = ground arith

module _ (c : Client) where
  awaited_left : (o : Option Reply) (n : ℕ) → steps_left (awaited o n c).0 + one_if (is_some o) ≤ 6
  awaited_left none n = omega arith
  awaited_left (some reply) n = omega arith

  released_left : (b : Bool) (n : ℕ) → steps_left (released b n c).0 + one_if b ≤ 6
  released_left true n = omega arith
  released_left false n = omega arith

  begin_end_left :
      (o : Option PermissionTurn) (failed : Bool) → steps_left (begin_end o failed c).0 + 1 ≤ 5
  begin_end_left none failed = omega arith
  begin_end_left (some t) failed = omega arith

  drained_left : (b failed : Bool) (g : ℕ) → steps_left (drained b failed g c).0 + one_if b ≤ 4
  drained_left true failed g = omega arith
  drained_left false failed g = omega arith

  -- A step that is not blocked brings the turn nearer to its end, and a blocked one keeps it.
  advance_left :
      (choice : Choice) (id : Bytes) (phase : Phase)
      → is_reported phase ≡ false
      → steps_left (advance choice id phase c).0 + one_if (can_step choice phase c)
        ≤ steps_left phase
  unfolding advance can_step
  advance_left choice id admitted going = omega arith
  advance_left choice id announced going = omega arith
  advance_left choice id (numbered n) going = omega arith
  advance_left goes_well id (writing n) going = omega arith
  advance_left goes_wrong id (writing n) going = omega arith
  advance_left choice id (unsent n) going = omega arith
  advance_left goes_well id (waiting n) going = awaited_left (lookup n c.rpc.replies) n
  advance_left goes_wrong id (waiting n) going = released_left c.lifetime_stopped n
  advance_left choice id (finishing failed) going =
      begin_end_left (find_turn c.permissions.generation c.permissions.turns) failed
  advance_left choice id (draining failed g) going =
      drained_left (is_over (find_turn g c.permissions.turns)) failed g
  advance_left choice id (ended failed) going = omega arith
  advance_left choice id (cleared failed) going = omega arith
  advance_left choice id reported going = cc

unfoldable pub total_left : List Running → ℕ
total_left [] = 0
total_left (r ∷ rs) = steps_left r.phase + total_left rs

total_left-replace :
    (i : ℕ) (r new : Running) (rs : List Running)
    → get_elem? rs i ≡ some r
    → total_left (replace i (some new) rs) + steps_left r.phase
      ≡ total_left rs + steps_left new.phase
unfolding total_left replace
total_left-replace i r new [] found = cc
total_left-replace zero r new (old ∷ rest) found = let e : old ≡ r = cc in rw e (omega arith)
total_left-replace (suc i) r new (old ∷ rest) found =
    omega (arith, total_left-replace i r new rest found)

total_left-gone :
    (i : ℕ) (r : Running) (rs : List Running)
    → get_elem? rs i ≡ some r
    → total_left (replace i none rs) + steps_left r.phase ≡ total_left rs
unfolding total_left replace
total_left-gone i r [] found = cc
total_left-gone zero r (old ∷ rest) found = let e : old ≡ r = cc in rw e (omega arith)
total_left-gone (suc i) r (old ∷ rest) found = omega (arith, total_left-gone i r rest found)

-- A step of the turn at a position: 1 if there is one and it is not blocked.
abbrev pub moves_found : Choice → Option Running → Client → ℕ
moves_found choice none c = 0
moves_found choice (some r) c = one_if (can_step choice r.phase c)

pub found_left :
    (i : ℕ) (choice : Choice) (o : Option Running) (c : Client)
    → get_elem? c.running i ≡ o
    → total_left (advance_found i choice o c).running + moves_found choice o c
      ≤ total_left c.running
unfolding step_turn
found_left i choice none c found = omega arith
found_left i choice (some r) c found = elim (Bool-cases (is_reported r.phase)) [
  | inl e ↦
      let gone = total_left-gone i r c.running found in
      let few = one_if_bound (can_step choice r.phase c) in
      rw e (omega (arith, gone, few, left_positive r.phase))
  | inr e ↦
      let next = (advance choice r.id r.phase c).0 in
      let new : Running = record r { gated = r.gated && not (is_waiting next); phase = next } in
      let same = moved_running (advance_moves r.id c choice r.phase) in
      let l = total_left-replace i r new c.running found in
      let near = advance_left c choice r.id r.phase e in rw (e, same) (omega (arith, l, near))
]
