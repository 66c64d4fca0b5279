-- ===== src/Turnoutput/Reducer/Invariant.antt =====
-- turnoutput/reducer.go: what holds of a Reducer between two events.
use go_agent_wrapper.Shared.{
  Bytes, ◌≡◌, refl, ap, sym, ◌∙◌, false, none, is_some, [], ◌∷◌, lookup, get_last?, Option-cases,
  Bool-cases, inl, inr, arith,
}
use go_agent_wrapper.Turnoutput.Turn.{Turn}
use go_agent_wrapper.Turnoutput.Signals.{contains}
use go_agent_wrapper.Turnoutput.Safety.{Keeps}
use go_agent_wrapper.Turnoutput.Reducer.{
  Reducer, current, mint, was_finished, body, in_body, note_stop, Config, new,
}
use go_agent_wrapper.Turnoutput.Reducer.Opening.{
  IsKept, begin-IsKept, update_turn-IsKept, contains-get_last?, get_last?-none,
}

-- With no current turn there is no open turn at all.
pub current_none : (r : Reducer) → IsKept r → current r ≡ none → r.order ≡ []
unfolding current
current_none r h e = elim (Option-cases (get_last? r.order)) [
  | inl bare ↦ get_last?-none r.order bare
  | inr (k, last) ↦
      let held = sym (h.consistent.keys k) ∙ contains-get_last? r.order last in
      ground (arith, e, last, held)
]

-- The invariant is about the open turns, their order and the finished ids alone.
pub IsKept-same :
    (r s : Reducer)
    → s.open_turns ≡ r.open_turns
    → s.order ≡ r.order
    → s.finished ≡ r.finished
    → IsKept r
    → IsKept s
IsKept-same r s eo eq ef h = record {
  consistent = record {
    keys = rw (eo, eq) h.consistent.keys;
    distinct = rw eq h.consistent.distinct;
    turns = rw eo h.consistent.turns;
  };
  few_open = rw eq h.few_open;
  few_finished = rw ef h.few_finished;
}

pub mint-IsKept : (r : Reducer) → IsKept r → IsKept (mint r).1
unfolding mint
mint-IsKept r h = IsKept-same r (mint r).1 refl refl refl h

Keeps-usage_stop : (stop : Bytes) → Keeps (λ t. record t { usage_stop = stop })
Keeps-usage_stop stop = record { same_id = λ t. refl; safe = λ t h. ground (arith, h) }

order-mint : (r : Reducer) → (mint r).1.order ≡ r.order
unfolding mint
order-mint r = refl

pub body-IsKept : (id : Bytes) (r : Reducer) → IsKept r → IsKept (body id r).1
unfolding body
body-IsKept [] r h = elim (Option-cases (current r)) [
  | inr (k, e) ↦ rw (e, body) h
  | inl e ↦
      let fresh : contains (mint r).1.order (mint r).0 ≡ false =
        rw (order-mint r, current_none r h e) (unfold contains in refl) in
      rw (e, body) (begin-IsKept (mint r).0 (mint r).1 fresh (mint-IsKept r h))
]
body-IsKept (c ∷ id) r h = elim (Option-cases (lookup (c ∷ id) r.open_turns)) [
  | inr (t, e) ↦ rw (e, body) h
  | inl e ↦ elim (Bool-cases (was_finished (c ∷ id) r)) [
    | inl late ↦ rw (e, body) (rw late h)
    | inr early ↦
        rw (e, body)
          (rw early (begin-IsKept (c ∷ id) r (h.consistent.keys (c ∷ id) ∙ ap is_some e) h))
  ]
]

pub in_body-IsKept :
    (id : Bytes) (f : Turn → Turn) (r : Reducer) → Keeps f → IsKept r → IsKept (in_body id f r)
unfolding in_body
in_body-IsKept id f r kf h = elim (Option-cases (body id r).0) [
  | inl e ↦ rw (e, in_body) (body-IsKept id r h)
  | inr (k, e) ↦ rw (e, in_body) (update_turn-IsKept k f (body id r).1 kf (body-IsKept id r h))
]

pub note_stop-IsKept : (stop : Bytes) (r : Reducer) → IsKept r → IsKept (note_stop stop r)
unfolding note_stop
note_stop-IsKept [] r h = h
note_stop-IsKept (c ∷ stop) r h = elim (Option-cases (current r)) [
  | inr (k, e) ↦ rw (e, note_stop) (update_turn-IsKept k _ r (Keeps-usage_stop (c ∷ stop)) h)
  | inl e ↦ elim (Bool-cases r.settled) [
    | inl s ↦ rw (e, note_stop) (rw s (IsKept-same r _ refl refl refl h))
    | inr s ↦ rw (e, note_stop) (rw s (IsKept-same r _ refl refl refl h))
  ]
]

pub new-IsKept : (cfg : Config) → IsKept (new cfg)
unfolding new contains lookup
new-IsKept cfg = record {
  consistent = record { keys = λ j. refl; distinct = tt; turns = λ j t e. cc };
  few_open = omega arith;
  few_finished = omega arith;
}
