-- ===== src/Bridge/Client/Calm.antt =====
-- acp/ndjsonclient.go: what a step of a turn does to the permission coordinator.
use go_agent_wrapper.Shared.{
  ℕ, zero, suc, ◌≡◌, refl, Bytes, Bool, true, false, ◌||◌, Option, none, some, List, [], ◌∷◌, ◌++◌,
  get_elem?, arith,
}
use go_agent_wrapper.Shared.Table.{lookup}
use go_agent_wrapper.Permission.Coordinator.{PermissionTurn, find_turn, close_admission, end_turn}
use go_agent_wrapper.Bridge.Rpc.{Reply}
use go_agent_wrapper.Bridge.Client.{
  Client, Event, Running, Phase, admitted, announced, reported, numbered, writing, unsent, waiting,
  finishing, ended, cleared, draining, emit, clear_turn, opened_turn, new,
}
use go_agent_wrapper.Bridge.Client.Run.{
  Choice, goes_well, goes_wrong, awaited, released, begin_end, drained, is_over, advance, replace,
  is_reported,
}

-- The turn may still have requests granted: EndTurn has not closed its admission.
abbrev pub is_begun : Phase → Bool
is_begun admitted = true
is_begun announced = true
is_begun (numbered n) = true
is_begun (writing n) = true
is_begun (unsent n) = true
is_begun (waiting n) = true
is_begun (finishing failed) = true
is_begun (draining failed g) = false
is_begun (ended failed) = false
is_begun (cleared failed) = false
is_begun reported = false

abbrev pub has_begun : List Running → Bool
has_begun [] = false
has_begun (r ∷ rest) = is_begun r.phase || has_begun rest

-- What a step of a turn does to the coordinator.
pub data Calm (phase : Phase) (c : Client) : Phase → Client → Type 0 where
  keeps :
      {next : Phase} {d : Client}
      → is_begun next ≡ is_begun phase
      → d.permissions ≡ c.permissions
      → Calm phase c next d
  closes :
      {next : Phase} {d : Client}
      → d.permissions ≡ close_admission c.permissions
      → Calm phase c next d
  finds_none :
      {next : Phase} {d : Client}
      → find_turn c.permissions.generation c.permissions.turns ≡ none
      → d.permissions ≡ c.permissions
      → Calm phase c next d
  drains :
      {next : Phase} {d : Client} (g : ℕ)
      → is_begun next ≡ is_begun phase
      → d.permissions ≡ end_turn g c.permissions
      → Calm phase c next d

module _ (id : Bytes) (c : Client) where
  pub awaited-Calm :
      (o : Option Reply) (n : ℕ) → Calm (waiting n) c (awaited o n c).0 (awaited o n c).1
  awaited-Calm none n = keeps refl refl
  awaited-Calm (some reply) n = keeps refl refl

  pub released-Calm : (b : Bool) (n : ℕ) → Calm (waiting n) c (released b n c).0 (released b n c).1
  released-Calm true n = keeps refl refl
  released-Calm false n = keeps refl refl

  pub begin_end-Calm :
      (o : Option PermissionTurn) (failed : Bool)
      → find_turn c.permissions.generation c.permissions.turns ≡ o
      → Calm (finishing failed) c (begin_end o failed c).0 (begin_end o failed c).1
  begin_end-Calm none failed e = finds_none e refl
  begin_end-Calm (some t) failed e = closes refl

  pub drained-Calm :
      (b failed : Bool) (g : ℕ)
      → Calm (draining failed g) c (drained b failed g c).0 (drained b failed g c).1
  drained-Calm true failed g = drains g refl refl
  drained-Calm false failed g = keeps refl refl

  pub emit_permissions : (event : Event) → (emit event c).permissions ≡ c.permissions
  unfolding emit
  emit_permissions event = ground arith

  pub clear_permissions : (clear_turn id c).permissions ≡ c.permissions
  unfolding clear_turn
  clear_permissions = ground arith

  pub advance-Calm :
      (choice : Choice) (phase : Phase)
      → Calm phase c (advance choice id phase c).0 (advance choice id phase c).1
  unfolding advance
  advance-Calm choice admitted = keeps refl (emit_permissions _)
  advance-Calm choice announced = keeps refl refl
  advance-Calm choice (numbered n) = keeps refl refl
  advance-Calm goes_well (writing n) = keeps refl refl
  advance-Calm goes_wrong (writing n) = keeps refl refl
  advance-Calm choice (unsent n) = keeps refl refl
  advance-Calm goes_well (waiting n) = awaited-Calm (lookup n c.rpc.replies) n
  advance-Calm goes_wrong (waiting n) = released-Calm c.lifetime_stopped n
  advance-Calm choice (finishing failed) =
      begin_end-Calm (find_turn c.permissions.generation c.permissions.turns) failed refl
  advance-Calm choice (draining failed g) =
      drained-Calm (is_over (find_turn g c.permissions.turns)) failed g
  advance-Calm choice (ended failed) = keeps refl clear_permissions
  advance-Calm choice (cleared failed) = keeps refl (emit_permissions _)
  advance-Calm choice reported = keeps refl refl

pub reported_not_begun : (p : Phase) → is_reported p ≡ true → is_begun p ≡ false
reported_not_begun reported e = refl
reported_not_begun _ e = cc

pub has_begun-replace :
    (i : ℕ) (r new : Running) (rs : List Running)
    → get_elem? rs i ≡ some r
    → is_begun new.phase ≡ is_begun r.phase
    → has_begun (replace i (some new) rs) ≡ has_begun rs
unfolding replace
has_begun-replace i r new [] found same = cc
has_begun-replace zero r new (old ∷ rest) found same = let e : old ≡ r = cc in rw (same, e) refl
has_begun-replace (suc i) r new (old ∷ rest) found same =
    rw (has_begun-replace i r new rest found same) refl

pub has_begun-gone :
    (i : ℕ) (r : Running) (rs : List Running)
    → get_elem? rs i ≡ some r
    → is_reported r.phase ≡ true
    → has_begun (replace i none rs) ≡ has_begun rs
unfolding replace
has_begun-gone i r [] found done = cc
has_begun-gone zero r (old ∷ rest) found done =
    let e : old ≡ r = cc in rw (e, reported_not_begun r.phase done) refl
has_begun-gone (suc i) r (old ∷ rest) found done = rw (has_begun-gone i r rest found done) refl

pub has_begun-opened : (k : Bytes) (rs : List Running) → has_begun (rs ++ opened_turn k ∷ []) ≡ true
has_begun-opened k [] = refl
has_begun-opened k (r ∷ rest) = rw (has_begun-opened k rest) (ground arith)
