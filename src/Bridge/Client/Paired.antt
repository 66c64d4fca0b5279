-- ===== src/Bridge/Client/Paired.antt =====
-- acp/ndjsonclient.go: each turn that starts on the Events channel ends there.
use go_agent_wrapper.Shared.{
  ℕ, ◌+◌, ◌≡◌, refl, ◌⊎◌, Bytes, ◌==◌, Bool, true, false, ◌&&◌, not, List, [], ◌∷◌, ◌++◌, All,
  if◌then◌else◌, arith,
}
use go_agent_wrapper.Bridge.Client.{
  Client, Running, Event, Fate, Kind, other, turn_started, turn_completed, turn_failed, sent,
  overflowed, refused, new,
}
use go_agent_wrapper.Bridge.Client.Run.{Action, run}
use go_agent_wrapper.Bridge.Client.Flight.{is_past}
use go_agent_wrapper.Bridge.Client.Events.{
  is_turn_kind, is_start, is_end, IsKept, start_count, end_count, open_count,
}
use go_agent_wrapper.Bridge.Client.Ended.{IsMinted, attempts_pair}
use go_agent_wrapper.Bridge.Client.Channel.{
  sent_events, IsRoomed, KeepsUp, run-Delivered, new-Delivered,
}

-- How many of the events start turn `id`, and how many end it.
unfoldable pub starts_in : Bytes → List Event → ℕ
unfolding ◌==◌
starts_in id [] = 0
starts_in id (e ∷ rest) = (if is_start e.kind && e.turn_id == id then 1 else 0) + starts_in id rest

unfoldable pub ends_in : Bytes → List Event → ℕ
unfolding ◌==◌
ends_in id [] = 0
ends_in id (e ∷ rest) = (if is_end e.kind && e.turn_id == id then 1 else 0) + ends_in id rest

starts_in-append :
    (id : Bytes) (xs : List Event) (e : Event)
    → starts_in id (xs ++ e ∷ [])
      ≡ (if is_start e.kind && e.turn_id == id then 1 else 0) + starts_in id xs
unfolding starts_in
starts_in-append id [] e = refl
starts_in-append id (x ∷ xs) e = omega (arith, starts_in-append id xs e)

ends_in-append :
    (id : Bytes) (xs : List Event) (e : Event)
    → ends_in id (xs ++ e ∷ [])
      ≡ (if is_end e.kind && e.turn_id == id then 1 else 0) + ends_in id xs
unfolding ends_in
ends_in-append id [] e = refl
ends_in-append id (x ∷ xs) e = omega (arith, ends_in-append id xs e)

not_turn : (k : Kind) → (is_turn_kind k && true) ≡ false → (is_start k ≡ false) × (is_end k ≡ false)
not_turn (other k) e = (refl, refl)
not_turn turn_started e = cc
not_turn turn_completed e = cc
not_turn turn_failed e = cc

-- With no turn event refused and no event lost, all turn events went into the channel.
sent_counts :
    (id : Bytes) (emitted : List (Event × Fate))
    → All IsKept emitted
    → All IsRoomed emitted
    → (starts_in id (sent_events emitted) ≡ start_count id emitted)
      × (ends_in id (sent_events emitted) ≡ end_count id emitted)
unfolding start_count end_count starts_in ends_in
sent_counts id [] kept roomed = (refl, refl)
sent_counts id ((e, sent) ∷ rest) kept roomed =
    let (s, t) = sent_counts id rest kept.1 roomed.1 in
    (
      rw (starts_in-append id (sent_events rest) e, s) refl,
      rw (ends_in-append id (sent_events rest) e, t) refl,
    )
sent_counts id ((e, overflowed) ∷ rest) kept roomed = cc
sent_counts id ((e, refused) ∷ rest) kept roomed =
    let (s, t) = sent_counts id rest kept.1 roomed.1 in
    let (not_start, not_end) = not_turn e.kind kept.0 in
    (rw (not_start, s) (omega arith), rw (not_end, t) (omega arith))

-- What the host got from the Events channel, and what waits there for it.
abbrev pub host_events : Client → List Event
host_events c = c.received ++ c.channel

abbrev pub is_sent : Fate → Bool
is_sent sent = true
is_sent overflowed = false
is_sent refused = false

-- The event went into the channel, if it starts or ends a turn.
abbrev pub IsGiven : Event × Fate → Type 0
IsGiven (e, f) = (is_turn_kind e.kind && not (is_sent f)) ≡ false

given :
    (emitted : List (Event × Fate))
    → All IsKept emitted
    → All IsRoomed emitted
    → All IsGiven emitted
given [] kept roomed = tt
given ((e, sent) ∷ rest) kept roomed = (ground arith, given rest kept.1 roomed.1)
given ((e, overflowed) ∷ rest) kept roomed = cc
given ((e, refused) ∷ rest) kept roomed = (kept.0, given rest kept.1 roomed.1)

-- What the host sees of one turn id: it starts as often as it ends, but for the turns of that id that
-- are under way; and with the channel closed, exactly as often.
abbrev pub IsSeenWhole : Bytes → Client → Type 0
IsSeenWhole id c =
    (starts_in id (host_events c) ≡ ends_in id (host_events c) + open_count id c.running)
    × ((c.events_closed ≡ false) ⊎ (starts_in id (host_events c) ≡ ends_in id (host_events c)))

-- The turns that the host sees: whatever the goroutines of a new client do, in whatever order, while
-- turn ids are not empty and the host keeps up, so that the buffer of 64 events has room at every
-- step: every event that starts or ends a turn goes into the Events channel; among the events that
-- the host took from it or that wait in it, each id starts as often as it ends, but for the turns of
-- that id that are under way, and exactly as often once the channel is closed; and every turn under
-- way has given up its id or is the one that CurrentTurnID names.
pub turns_end :
    (component : Bytes) (has_responder : Bool) (actions : List Action)
    → All IsMinted actions
    → KeepsUp component actions (new has_responder)
    → All IsGiven (run component actions (new has_responder)).emitted
      × ((id : Bytes) → IsSeenWhole id (run component actions (new has_responder)))
      × All
          (λ (r : Running).
            (is_past r.phase ≡ true)
            ⊎ (r.id ≡ (run component actions (new has_responder)).current_turn))
          (run component actions (new has_responder)).running
turns_end component has_responder actions minted up =
    let c = run component actions (new has_responder) in
    let (kept, paired, named) = attempts_pair component has_responder actions minted in
    let (is, roomed) =
      run-Delivered component actions (new has_responder) up (new-Delivered has_responder) in
    (
      given c.emitted kept roomed,
      λ id.
          let (s, t) = sent_counts id c.emitted kept roomed in
          let (balance, closed) = paired id in rw (← is, s, t) (balance, closed),
      named,
    )
