-- ===== src/Bridge/Client/Steps.antt =====
-- acp/ndjsonclient.go: what single steps of a client keep of its turns and events.
use go_agent_wrapper.Shared.{
  ℕ, ◌≡◌, refl, subst, inl, inr, ◌⊎◌, Bytes, true, false, Option, none, some, List, [], ◌∷◌, ◌++◌,
  get_elem?, is_empty, Bool-cases, arith,
}
use go_agent_wrapper.Bridge.Client.{
  Client, Running, Phase, reported, admit_prompt, opened_turn, close_events,
}
use go_agent_wrapper.Bridge.Client.Run.{
  Choice, advance, replace, step_turn, advance_found, is_reported,
}
use go_agent_wrapper.Bridge.Client.Flight.{is_past, InFlight, InFlight-opened, InFlight-gone}
use go_agent_wrapper.Bridge.Client.View.{view, is_open, advance_moves}
use go_agent_wrapper.Bridge.Client.Events.{
  Holds, moved_Holds, open_count-opened, open_count-gone, weight,
}

pub reported_past : (p : Phase) → is_reported p ≡ true → (is_past p ≡ true) × (is_open p ≡ false)
reported_past reported e = (refl, refl)
reported_past _ e = cc

pub is_empty-gone :
    (i : ℕ) (rs : List Running) → is_empty rs ≡ true → is_empty (replace i none rs) ≡ true
unfolding replace
is_empty-gone i [] e = refl
is_empty-gone i (r ∷ rs) e = cc

pub empty_is_nil : (k : Bytes) → is_empty k ≡ true → k ≡ []
empty_is_nil [] e = refl
empty_is_nil (c ∷ k) e = cc

pub gone_Holds :
    (id : Bytes) (i : ℕ) (r : Running) (c : Client)
    → Holds id (view c)
    → get_elem? c.running i ≡ some r
    → is_reported r.phase ≡ true
    → Holds id (record (view c) { running = replace i none c.running })
unfolding weight
gone_Holds id i r c h found done =
    let (past, not_open) = reported_past r.phase done in
    record {
      flight = InFlight-gone i r c.running c.current_turn found past h.flight;
      drained = λ e. is_empty-gone i c.running (h.drained e);
      latched = h.latched;
      kept = h.kept;
      balance =
          let l = h.balance in
          let count = open_count-gone id i r c.running found in ground (arith, l, count, not_open);
    }

pub found_Holds :
    (id : Bytes) (i : ℕ) (choice : Choice) (o : Option Running) (c : Client)
    → get_elem? c.running i ≡ o
    → Holds id (view c)
    → Holds id (view (advance_found i choice o c))
unfolding step_turn replace
found_Holds id i choice none c found h = h
found_Holds id i choice (some r) c found h = elim (Bool-cases (is_reported r.phase)) [
  | inl done ↦ rw done (gone_Holds id i r c h found done)
  | inr not_done ↦ rw not_done (
      moved_Holds id i r _ refl c h found (advance choice r.id r.phase c).1
        (advance_moves r.id c choice r.phase))
]

pub opened_Holds :
    (id k : Bytes) (c : Client)
    → is_empty k ≡ false
    → is_empty c.current_turn ≡ true
    → c.events_closing ≡ false
    → Holds id (view c)
    → Holds id (record (view c) { current = k; running = c.running ++ opened_turn k ∷ [] })
opened_Holds id k c some_id idle still_open h = record {
  flight =
      InFlight-opened k c.running some_id
        (subst (InFlight c.running) (empty_is_nil c.current_turn idle) h.flight);
  drained = λ e. let latched = h.latched e in cc;
  latched = h.latched;
  kept = h.kept;
  balance = let l = h.balance in omega (arith, l, open_count-opened id k c.running);
}

-- Prompt leaves everything as it is, or opens a turn where none is in flight.
pub admit_view :
    (k : Bytes) (c : Client)
    → (view (admit_prompt k c).1 ≡ view c)
      ⊎ ((view (admit_prompt k c).1
            ≡ record (view c) { current = k; running = c.running ++ opened_turn k ∷ [] })
          × (is_empty c.current_turn ≡ true)
          × (c.events_closing ≡ false))
unfolding admit_prompt
admit_view k c = elim (Bool-cases (is_empty c.current_turn)) [
  | inr busy ↦ inl (rw busy refl)
  | inl idle ↦ elim (Bool-cases c.closed) [
    | inl shut ↦ inl (ground (arith, idle, shut))
    | inr not_shut ↦ elim (Bool-cases c.events_closing) [
      | inl closing ↦ inl (ground (arith, idle, not_shut, closing))
      | inr still_open ↦ elim (Bool-cases (is_empty c.session_id)) [
        | inl no_id ↦ inl (ground (arith, idle, not_shut, still_open, no_id))
        | inr with_id ↦
            inr ((ground (arith, idle, not_shut, still_open, with_id)), idle, still_open)
      ]
    ]
  ]
]

pub close_view :
    (c : Client)
    → (view (close_events c) ≡ view c)
      ⊎ ((view (close_events c) ≡ record (view c) { closed = true })
          × (c.events_closing ≡ true)
          × (is_empty c.running ≡ true))
unfolding close_events
close_view c = elim (Bool-cases c.events_closing) [
  | inr not_closing ↦ inl (ground (arith, not_closing))
  | inl closing ↦ elim (Bool-cases (is_empty c.running)) [
    | inr busy ↦ inl (ground (arith, closing, busy))
    | inl idle ↦ inr (ground (arith, closing, idle), closing, idle)
  ]
]
