-- ===== src/Turnoutput/Signals/Ending.antt =====
-- openSignal of turnoutput/signals.go: which signal the turn ended on.
use go_agent_wrapper.Shared.{
  ◌≡◌, refl, ap, sym, ◌∙◌, Bool, true, false, not, ◌&&◌, Option, none, some, List, [], ◌∷◌, ◌++◌,
  map, get_last?, if◌then◌else◌,
}
use go_agent_wrapper.Turnoutput.Turn.{Signal, PendingRequest, Turn}
use go_agent_wrapper.Turnoutput.Signals.{
  is_open, is_question, consider, consider_signals, consider_pending, prefer, open_signal,
}

-- The items that pass the test, in order.
abbrev pub select : (Signal → Bool) → List Signal → List Signal
select test [] = []
select test (s ∷ ss) = let rest = select test ss in if test s then s ∷ rest else rest

-- All that may need the user: the turn's signals, then its unresolved requests.
abbrev pub candidates : Turn → List Signal
candidates t = t.signals ++ map (λ (p : PendingRequest). p.sig) t.pending

abbrev pub open_questions : Turn → List Signal
open_questions t = select (λ s. is_open s t && is_question s.kind) (candidates t)

abbrev pub open_approvals : Turn → List Signal
open_approvals t = select (λ s. is_open s t && not (is_question s.kind)) (candidates t)

-- The first of two that there is.
abbrev pub or_else : Option Signal → Option Signal → Option Signal
or_else (some s) o = some s
or_else none o = o

last_or : Option Signal → List Signal → Option Signal
last_or o [] = o
last_or o (s ∷ ss) = last_or (some s) ss

last_or-some : (s : Signal) (ss : List Signal) → last_or (some s) ss ≡ get_last? (s ∷ ss)
unfolding last_or
last_or-some s [] = refl
last_or-some s (s' ∷ ss) = last_or-some s' ss

last_or-none : (ss : List Signal) → last_or none ss ≡ get_last? ss
unfolding last_or
last_or-none [] = refl
last_or-none (s ∷ ss) = last_or-some s ss

-- One round, with the two tests as values.
consider_round :
    (o asks : Bool) (t : Turn) (q a : Option Signal) (s : Signal)
    → is_open s t ≡ o
    → is_question s.kind ≡ asks
    → consider t (q, a) s ≡ (if o && asks then some s else q, if o && not asks then some s else a)
unfolding consider
consider_round true true t q a s e f = rw (e, f)
consider_round true false t q a s e f = rw (e, f)
consider_round false asks t q a s e f = rw e

last_or-if :
    (b : Bool) (o : Option Signal) (s : Signal) (ss : List Signal)
    → last_or (if b then some s else o) ss ≡ last_or o (if b then s ∷ ss else ss)
unfolding last_or
last_or-if true o s ss = refl
last_or-if false o s ss = refl

consider_signals-select :
    (t : Turn) (q a : Option Signal) (ss : List Signal)
    → consider_signals t (q, a) ss ≡ (
      last_or q (select (λ s. is_open s t && is_question s.kind) ss),
      last_or a (select (λ s. is_open s t && not (is_question s.kind)) ss),
    )
unfolding consider_signals last_or
consider_signals-select t q a [] = refl
consider_signals-select t q a (s ∷ ss) =
    let o = is_open s t in
    let asks = is_question s.kind in
    ap (λ acc. consider_signals t acc ss) (consider_round o asks t q a s refl refl)
    ∙ consider_signals-select t (if o && asks then some s else q)
        (if o && not asks then some s else a) ss
    ∙ (λ i. (
      last_or-if (o && asks) q s (select (λ r. is_open r t && is_question r.kind) ss) i,
      last_or-if (o && not asks) a s (select (λ r. is_open r t && not (is_question r.kind)) ss) i,
    ))

consider_signals-append :
    (t : Turn) (acc : Option Signal × Option Signal) (xs ys : List Signal)
    → consider_signals t acc (xs ++ ys) ≡ consider_signals t (consider_signals t acc xs) ys
unfolding consider_signals
consider_signals-append t acc [] ys = refl
consider_signals-append t acc (x ∷ xs) ys = consider_signals-append t (consider t acc x) xs ys

consider_pending-map :
    (t : Turn) (acc : Option Signal × Option Signal) (ps : List PendingRequest)
    → consider_pending t acc ps ≡ consider_signals t acc (map (λ (p : PendingRequest). p.sig) ps)
unfolding consider_signals consider_pending
consider_pending-map t acc [] = refl
consider_pending-map t acc (p ∷ ps) = consider_pending-map t (consider t acc p.sig) ps

prefer_lem : (q a : Option Signal) → prefer (q, a) ≡ or_else q a
prefer_lem none a = refl
prefer_lem (some s) a = refl

-- For every turn, the signal that it ended on is the last open question among its signals and its
-- unresolved requests, or, with no open question, the last open approval among them, or none.
pub open_signal_lem :
    (t : Turn)
    → open_signal t ≡ or_else (get_last? (open_questions t)) (get_last? (open_approvals t))
unfolding open_signal
open_signal_lem t =
    ap prefer (
      consider_pending-map t (consider_signals t (none, none) t.signals) t.pending
      ∙ sym (consider_signals-append t (none, none) t.signals _)
      ∙ consider_signals-select t none none (candidates t)
      ∙ (λ i. (last_or-none (open_questions t) i, last_or-none (open_approvals t) i)))
    ∙ prefer_lem (get_last? (open_questions t)) (get_last? (open_approvals t))
