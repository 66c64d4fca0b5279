-- ===== src/Bridge/Client/Stops.antt =====
-- acp/ndjsonclient.go: what a step of a turn does to the turns that are in EndTurn.
use go_agent_wrapper.Shared.{
  ℕ, zero, suc, ◌≡◌, refl, sym, subst, Bytes, Bool, true, false, Option, none, some, List, [], ◌∷◌,
  ◌++◌, All, get_elem?,
}
use go_agent_wrapper.Shared.Table.{lookup}
use go_agent_wrapper.Permission.Coordinator.{Coordinator, PermissionTurn, find_turn}
use go_agent_wrapper.Permission.Run.Stopped.{
  IsStopped, close_admission-IsStopped, end_turn-IsStopped, stops_found,
}
use go_agent_wrapper.Bridge.Rpc.{Reply}
use go_agent_wrapper.Bridge.Client.{
  Client, Running, Phase, admitted, announced, reported, numbered, writing, unsent, waiting,
  finishing, ended, cleared, draining, opened_turn, new,
}
use go_agent_wrapper.Bridge.Client.Run.{
  Choice, goes_well, goes_wrong, awaited, released, begin_end, drained, is_over, advance, replace,
}
use go_agent_wrapper.Bridge.Client.Calm.{emit_permissions, clear_permissions}

-- Where a turn is in EndTurn, the admission of its permission turn is stopped.
abbrev pub StopsAt : Phase → Coordinator → Type 0
StopsAt (draining failed g) p = IsStopped g p
StopsAt _ p = Unit {0}

abbrev pub StopAll : List Running → Coordinator → Type 0
StopAll rs p = All (λ (r : Running). StopsAt r.phase p) rs

-- A change of the coordinator that starts no stopped turn again.
abbrev pub Keeps : Coordinator → Coordinator → Type 0
Keeps p q = (g : ℕ) → IsStopped g p → IsStopped g q

pub StopsAt-map :
    (p q : Coordinator) → Keeps p q → (phase : Phase) → StopsAt phase p → StopsAt phase q
StopsAt-map p q k (draining failed g) h = k g h
StopsAt-map p q k _ h = tt

pub StopAll-map :
    (p q : Coordinator) → Keeps p q → (rs : List Running) → StopAll rs p → StopAll rs q
StopAll-map p q k [] h = tt
StopAll-map p q k (r ∷ rs) h = (StopsAt-map p q k r.phase h.0, StopAll-map p q k rs h.1)

pub StopAll-replace :
    (i : ℕ) (new : Running) (rs : List Running) (p : Coordinator)
    → StopsAt new.phase p
    → StopAll rs p
    → StopAll (replace i (some new) rs) p
unfolding replace
StopAll-replace i new [] p n h = tt
StopAll-replace zero new (old ∷ rest) p n h = (n, h.1)
StopAll-replace (suc i) new (old ∷ rest) p n h = (h.0, StopAll-replace i new rest p n h.1)

pub StopAll-gone :
    (i : ℕ) (rs : List Running) (p : Coordinator) → StopAll rs p → StopAll (replace i none rs) p
unfolding replace
StopAll-gone i [] p h = tt
StopAll-gone zero (old ∷ rest) p h = h.1
StopAll-gone (suc i) (old ∷ rest) p h = (h.0, StopAll-gone i rest p h.1)

pub StopAll-opened :
    (k : Bytes) (rs : List Running) (p : Coordinator)
    → StopAll rs p
    → StopAll (rs ++ opened_turn k ∷ []) p
StopAll-opened k [] p h = (tt, tt)
StopAll-opened k (r ∷ rs) p h = (h.0, StopAll-opened k rs p h.1)

pub StopAll-found :
    (i : ℕ) (r : Running) (rs : List Running) (p : Coordinator)
    → get_elem? rs i ≡ some r
    → StopAll rs p
    → StopsAt r.phase p
StopAll-found i r [] p found h = cc
StopAll-found zero r (old ∷ rest) p found h =
    let e : old ≡ r = cc in subst (λ (q : Running). StopsAt q.phase p) e h.0
StopAll-found (suc i) r (old ∷ rest) p found h = StopAll-found i r rest p found h.1

-- What a step of a turn leaves.
abbrev pub Stepped : Client → Phase → Client → Type 0
Stepped c next d = Keeps c.permissions d.permissions × StopsAt next d.permissions

pub same-Keeps : {p q : Coordinator} → q ≡ p → Keeps p q
same-Keeps e = λ g h. subst (IsStopped g) (sym e) h

module _ (id : Bytes) (c : Client) where
  pub awaited-Stepped : (o : Option Reply) (n : ℕ) → Stepped c (awaited o n c).0 (awaited o n c).1
  awaited-Stepped none n = (λ g h. h, tt)
  awaited-Stepped (some reply) n = (λ g h. h, tt)

  pub released-Stepped : (b : Bool) (n : ℕ) → Stepped c (released b n c).0 (released b n c).1
  released-Stepped true n = (λ g h. h, tt)
  released-Stepped false n = (λ g h. h, tt)

  pub begin_end-Stepped :
      (o : Option PermissionTurn) (failed : Bool)
      → find_turn c.permissions.generation c.permissions.turns ≡ o
      → Stepped c (begin_end o failed c).0 (begin_end o failed c).1
  begin_end-Stepped none failed e = (λ g h. h, tt)
  begin_end-Stepped (some t) failed e =
      (λ g. close_admission-IsStopped g c.permissions, stops_found c.permissions t e)

  pub drained-Stepped :
      (b failed : Bool) (g : ℕ)
      → IsStopped g c.permissions
      → Stepped c (drained b failed g c).0 (drained b failed g c).1
  drained-Stepped true failed g h = (λ k. end_turn-IsStopped k g c.permissions, tt)
  drained-Stepped false failed g h = (λ k s. s, h)

  pub advance-Stepped :
      (choice : Choice) (phase : Phase)
      → StopsAt phase c.permissions
      → Stepped c (advance choice id phase c).0 (advance choice id phase c).1
  unfolding advance
  advance-Stepped choice admitted h = (same-Keeps (emit_permissions id c _), tt)
  advance-Stepped choice announced h = (λ g s. s, tt)
  advance-Stepped choice (numbered n) h = (λ g s. s, tt)
  advance-Stepped goes_well (writing n) h = (λ g s. s, tt)
  advance-Stepped goes_wrong (writing n) h = (λ g s. s, tt)
  advance-Stepped choice (unsent n) h = (λ g s. s, tt)
  advance-Stepped goes_well (waiting n) h = awaited-Stepped (lookup n c.rpc.replies) n
  advance-Stepped goes_wrong (waiting n) h = released-Stepped c.lifetime_stopped n
  advance-Stepped choice (finishing failed) h =
      begin_end-Stepped (find_turn c.permissions.generation c.permissions.turns) failed refl
  advance-Stepped choice (draining failed g) h =
      drained-Stepped (is_over (find_turn g c.permissions.turns)) failed g h
  advance-Stepped choice (ended failed) h = (same-Keeps (clear_permissions id c), tt)
  advance-Stepped choice (cleared failed) h = (same-Keeps (emit_permissions id c _), tt)
  advance-Stepped choice reported h = (λ g s. s, tt)
