-- ===== src/Bridge/Client/Events.antt =====
-- acp/ndjsonclient.go: each turn that starts on the Events channel ends there, before it closes.
use go_agent_wrapper.Shared.{
  ℕ, zero, suc, ◌+◌, ◌≡◌, refl, sym, ap, subst, ◌∙◌, inl, inr, Bytes, ◌==◌, ==_iff, Bool, true,
  false, ◌&&◌, none, some, List, [], ◌∷◌, ◌++◌, All, get_elem?, is_empty, if◌then◌else◌, Bool-cases,
  arith,
}
use go_agent_wrapper.Bridge.Client.{
  Client, Running, Event, Fate, Kind, other, turn_started, turn_completed, turn_failed, clear_turn,
  opened_turn, new,
}
use go_agent_wrapper.Bridge.Client.Run.{terminal, replace}
use go_agent_wrapper.Bridge.Client.Flight.{
  InFlight, InFlight-replace, InFlight-current, InFlight-cleared,
}
use go_agent_wrapper.Bridge.Client.View.{
  View, view, is_open, is_refused, Moved, quiet, starts, clears, finishes,
}

abbrev pub is_turn_kind : Kind → Bool
is_turn_kind turn_started = true
is_turn_kind turn_completed = true
is_turn_kind turn_failed = true
is_turn_kind (other k) = false

abbrev pub is_start : Kind → Bool
is_start turn_started = true
is_start turn_completed = false
is_start turn_failed = false
is_start (other k) = false

abbrev pub is_end : Kind → Bool
is_end turn_started = false
is_end turn_completed = true
is_end turn_failed = true
is_end (other k) = false

-- How many of the events start turn `id`, and how many end it.
unfoldable pub start_count : Bytes → List (Event × Fate) → ℕ
unfolding ◌==◌
start_count id [] = 0
start_count id ((e, f) ∷ rest) =
    (if is_start e.kind && e.turn_id == id then 1 else 0) + start_count id rest

unfoldable pub end_count : Bytes → List (Event × Fate) → ℕ
unfolding ◌==◌
end_count id [] = 0
end_count id ((e, f) ∷ rest) =
    (if is_end e.kind && e.turn_id == id then 1 else 0) + end_count id rest

unfoldable pub weight : Bytes → Running → ℕ
unfolding ◌==◌
weight id r = if is_open r.phase && r.id == id then 1 else 0

-- How many turns of an id have started and not yet ended.
unfoldable pub open_count : Bytes → List Running → ℕ
unfolding weight
open_count id [] = 0
open_count id (r ∷ rest) = weight id r + open_count id rest

-- No event that starts or ends a turn came too late for the channel.
abbrev pub IsKept : Event × Fate → Type 0
IsKept (e, f) = (is_turn_kind e.kind && is_refused f) ≡ false

pub record Holds (id : Bytes) (v : View) : Type 0 where
  pub flight : InFlight v.running v.current
  pub drained : v.closed ≡ true → is_empty v.running ≡ true
  pub latched : v.closed ≡ true → v.closing ≡ true
  pub kept : All IsKept v.emitted
  pub balance : start_count id v.emitted ≡ end_count id v.emitted + open_count id v.running

open_count-replace :
    (id : Bytes) (i : ℕ) (r new : Running) (rs : List Running)
    → get_elem? rs i ≡ some r
    → open_count id (replace i (some new) rs) + weight id r ≡ open_count id rs + weight id new
unfolding open_count replace
open_count-replace id i r new [] found = cc
open_count-replace id zero r new (old ∷ rest) found = let e : old ≡ r = cc in rw e (omega arith)
open_count-replace id (suc i) r new (old ∷ rest) found =
    omega (arith, open_count-replace id i r new rest found)

pub open_count-gone :
    (id : Bytes) (i : ℕ) (r : Running) (rs : List Running)
    → get_elem? rs i ≡ some r
    → open_count id (replace i none rs) + weight id r ≡ open_count id rs
unfolding open_count replace
open_count-gone id i r [] found = cc
open_count-gone id zero r (old ∷ rest) found = let e : old ≡ r = cc in rw e (omega arith)
open_count-gone id (suc i) r (old ∷ rest) found = omega (arith, open_count-gone id i r rest found)

pub open_count-opened :
    (id k : Bytes) (rs : List Running) → open_count id (rs ++ opened_turn k ∷ []) ≡ open_count id rs
unfolding open_count weight
open_count-opened id k [] = refl
open_count-opened id k (r ∷ rest) = omega (arith, open_count-opened id k rest)

pub is_empty-replace :
    (i : ℕ) (new : Running) (rs : List Running) → is_empty (replace i (some new) rs) ≡ is_empty rs
unfolding replace
is_empty-replace i new [] = refl
is_empty-replace zero new (old ∷ rest) = refl
is_empty-replace (suc i) new (old ∷ rest) = refl

is_empty_found :
    (i : ℕ) (r : Running) (rs : List Running) → get_elem? rs i ≡ some r → is_empty rs ≡ false
is_empty_found i r [] found = cc
is_empty_found i r (old ∷ rest) found = refl

clear_view :
    (id : Bytes) (c : Client)
    → id ≡ c.current_turn
    → view (clear_turn id c) ≡ record (view c) { current = [] }
unfolding clear_turn
clear_view id c mine = ground (arith, ==_iff c.current_turn id, mine)

module _ (id : Bytes) (i : ℕ) (r new : Running) (same : new.id ≡ r.id) where
  -- The turn at i is replaced, and the counts follow.
  replaced_Holds :
      (v : View) (rs : List Running)
      → get_elem? rs i ≡ some r
      → v.running ≡ replace i (some new) rs
      → InFlight v.running v.current
      → (v.closed ≡ true → is_empty rs ≡ true)
      → (v.closed ≡ true → v.closing ≡ true)
      → All IsKept v.emitted
      → start_count id v.emitted + weight id r
        ≡ end_count id v.emitted + open_count id rs + weight id new
      → Holds id v
  replaced_Holds v rs found is flight drained latched kept count = record {
    flight = flight;
    drained = λ c. ap is_empty is ∙ (is_empty-replace i new rs ∙ drained c);
    latched = latched;
    kept = kept;
    balance = let l = open_count-replace id i r new rs found in rw is (omega (arith, count, l));
  }

  module _ (c : Client) (h : Holds id (view c)) (found : get_elem? c.running i ≡ some r) where
    not_closed : c.events_closed ≡ false
    not_closed = elim (Bool-cases c.events_closed) [
      | inl shut ↦ let e = h.drained shut in let f = is_empty_found i r c.running found in cc
      | inr e ↦ e
    ]

    pub moved_Holds :
        (d : Client)
        → Moved r.id r.phase c new.phase d
        → Holds id (record (view d) { running = replace i (some new) d.running })
    unfolding weight start_count end_count
    moved_Holds d (quiet past opened seen) =
        subst (λ (w : View). Holds id (record w { running = replace i (some new) w.running }))
          (sym seen)
          (replaced_Holds (record (view c) { running = replace i (some new) c.running }) c.running
            found refl (InFlight-replace i r new c.running c.current_turn found past same h.flight)
            h.drained h.latched h.kept (let l = h.balance in rw (same, opened) (omega (arith, l))))
    moved_Holds d (starts past before after e) =
        subst (λ (w : View). Holds id (record w { running = replace i (some new) w.running }))
          (sym e.seen)
          (replaced_Holds
            (record (view c) {
              running = replace i (some new) c.running;
              emitted = (record { kind = turn_started; turn_id = r.id }, e.fate) ∷ c.emitted;
            })
            c.running found refl
            (InFlight-replace i r new c.running c.current_turn found past same h.flight) h.drained
            h.latched (e.refuses ∙ not_closed, h.kept)
            (let l = h.balance in rw (same, before, after) (ground (arith, l))))
    moved_Holds d (clears before after opened seen) =
        let (mine, _) = InFlight-current i r c.running c.current_turn found before h.flight in
        subst (λ (w : View). Holds id (record w { running = replace i (some new) w.running }))
          (sym (seen ∙ clear_view r.id c mine))
          (replaced_Holds
            (record (view c) { running = replace i (some new) c.running; current = [] }) c.running
            found refl
            (InFlight-cleared i r new c.running c.current_turn found before after h.flight)
            h.drained h.latched h.kept (let l = h.balance in rw (same, opened) (omega (arith, l))))
    moved_Holds d (finishes true past before after e) =
        subst (λ (w : View). Holds id (record w { running = replace i (some new) w.running }))
          (sym e.seen)
          (replaced_Holds
            (record (view c) {
              running = replace i (some new) c.running;
              emitted = (terminal true r.id, e.fate) ∷ c.emitted;
            })
            c.running found refl
            (InFlight-replace i r new c.running c.current_turn found past same h.flight) h.drained
            h.latched (e.refuses ∙ not_closed, h.kept)
            (let l = h.balance in rw (same, before, after) (ground (arith, l))))
    moved_Holds d (finishes false past before after e) =
        subst (λ (w : View). Holds id (record w { running = replace i (some new) w.running }))
          (sym e.seen)
          (replaced_Holds
            (record (view c) {
              running = replace i (some new) c.running;
              emitted = (terminal false r.id, e.fate) ∷ c.emitted;
            })
            c.running found refl
            (InFlight-replace i r new c.running c.current_turn found past same h.flight) h.drained
            h.latched (e.refuses ∙ not_closed, h.kept)
            (let l = h.balance in rw (same, before, after) (ground (arith, l))))
