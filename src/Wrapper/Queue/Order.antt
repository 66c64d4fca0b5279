-- ===== src/Wrapper/Queue/Order.antt =====
-- wrapper/typed_order.go: markers and queued functions correspond, and none is lost or overtaken.
use mathlib.Core.List.{append-nil, append_assoc}
use go_agent_wrapper.Shared.{
  ℕ, suc, ◌+◌, ◌≡◌, refl, ap, sym, ◌∙◌, Bool, List, [], ◌∷◌, ◌++◌, inl, inr, ◌⊎◌, if◌then◌else◌,
  length, length-append, arith, Bool-cases,
}
use go_agent_wrapper.Wrapper.Queue.{
  Item, stream, marker, Queue, empty_queue, send_marker, send_stream, translate, close_fanout,
  Action, appends, sends_marker, translates, closes, sends_stream, step, run,
}

module _ {E : Type 0} where
  abbrev pub markers : List (Item E) → ℕ
  markers [] = 0
  markers (stream _ ∷ rest) = markers rest
  markers (marker ∷ rest) = suc (markers rest)

  markers-append : (xs ys : List (Item E)) → markers (xs ++ ys) ≡ markers xs + markers ys
  markers-append [] ys = omega arith
  markers-append (stream _ ∷ xs) ys = markers-append xs ys
  markers-append (marker ∷ xs) ys = omega (arith, markers-append xs ys)

module _ {E T : Type 0} where
  -- The typed events among what was emitted.
  abbrev pub typed : List (E ⊎ T) → List T
  typed [] = []
  typed (inl _ ∷ rest) = typed rest
  typed (inr emit ∷ rest) = emit ∷ typed rest

  -- What a step queues: the function of a call of enqueue that found the queue open.
  abbrev pub queued_by : Action E T → Queue E T → List T
  queued_by (appends emit) q = if q.closed then [] else emit ∷ []
  queued_by _ q = []

  abbrev pub queued : List (Action E T) → Queue E T → List T
  queued [] q = []
  queued (a ∷ rest) q = queued_by a q ++ queued rest (step a q)

  -- One marker, sent or still to be sent, for each queued function.
  abbrev pub Matches : Queue E T → Type 0
  Matches q = markers q.fanout + q.sending ≡ length q.items

  typed-append : (xs ys : List (E ⊎ T)) → typed (xs ++ ys) ≡ typed xs ++ typed ys
  typed-append [] ys = refl
  typed-append (inl _ ∷ xs) ys = typed-append xs ys
  typed-append (inr emit ∷ xs) ys = ap (λ l. emit ∷ l) (typed-append xs ys)

  -- The typed events emitted and those still queued.
  abbrev all_typed : Queue E T → List T
  all_typed q = typed q.emitted ++ q.items

  translate-typed :
      (fanout : List (Item E)) (closed : Bool) (items : List T) (sending : ℕ)
      (emitted : List (E ⊎ T))
      → all_typed (
          translate (record {
            fanout = fanout;
            closed = closed;
            items = items;
            sending = sending;
            emitted = emitted;
          }))
        ≡ typed emitted ++ items
  unfolding translate
  translate-typed [] closed items sending emitted = refl
  translate-typed (stream event ∷ rest) closed items sending emitted =
      ap (λ l. l ++ items) (typed-append emitted (inl event ∷ []) ∙ append-nil (typed emitted))
  translate-typed (marker ∷ rest) closed [] sending emitted = refl
  translate-typed (marker ∷ rest) closed (emit ∷ items) sending emitted =
      ap (λ l. l ++ items) (typed-append emitted (inr emit ∷ []))
      ∙ append_assoc (typed emitted) (emit ∷ []) items

  same-typed :
      (q r : Queue E T)
      → (r.emitted ≡ q.emitted) × (r.items ≡ q.items)
      → all_typed r ≡ all_typed q ++ []
  same-typed q r same = rw (same.0, same.1) (sym (append-nil (all_typed q)))

  step-typed :
      (a : Action E T) (q : Queue E T) → all_typed (step a q) ≡ all_typed q ++ queued_by a q
  unfolding step
  step-typed (appends emit) q = elim (Bool-cases q.closed) [
    | inl e ↦ rw e (sym (append-nil (all_typed q)))
    | inr e ↦ rw e (sym (append_assoc (typed q.emitted) q.items (emit ∷ [])))
  ]
  step-typed sends_marker q = same-typed q (send_marker q) (unfold send_marker in ground arith)
  step-typed (sends_stream full event) q =
      same-typed q (send_stream full event q) (unfold send_stream in ground arith)
  step-typed translates q =
      translate-typed q.fanout q.closed q.items q.sending q.emitted ∙ sym (append-nil (all_typed q))
  step-typed closes q = same-typed q (close_fanout q) (unfold close_fanout in ground arith)

  translate-Matches :
      (fanout : List (Item E)) (closed : Bool) (items : List T) (sending : ℕ)
      (emitted : List (E ⊎ T))
      → markers fanout + sending ≡ length items
      → Matches (
          translate (record {
            fanout = fanout;
            closed = closed;
            items = items;
            sending = sending;
            emitted = emitted;
          }))
  unfolding translate
  translate-Matches [] closed items sending emitted h = h
  translate-Matches (stream event ∷ rest) closed items sending emitted h = h
  translate-Matches (marker ∷ rest) closed [] sending emitted h = ground (arith, h)
  translate-Matches (marker ∷ rest) closed (emit ∷ items) sending emitted h = omega (arith, h)

  step-Matches : (a : Action E T) (q : Queue E T) → Matches q → Matches (step a q)
  unfolding step
  step-Matches (appends emit) q h = elim (Bool-cases q.closed) [
    | inl e ↦ ground (arith, e, h)
    | inr e ↦ ground (arith, e, h, length-append q.items (emit ∷ []))
  ]
  step-Matches sends_marker q h =
      unfold send_marker in ground (arith, h, markers-append q.fanout (marker ∷ []))
  step-Matches (sends_stream full event) q h =
      unfold send_stream in ground (arith, h, markers-append q.fanout (stream event ∷ []))
  step-Matches translates q h = translate-Matches q.fanout q.closed q.items q.sending q.emitted h
  step-Matches closes q h = unfold close_fanout in ground (arith, h)

  run-typed :
      (actions : List (Action E T)) (q : Queue E T)
      → all_typed (run actions q) ≡ all_typed q ++ queued actions q
  unfolding run
  run-typed [] q = sym (append-nil (all_typed q))
  run-typed (a ∷ rest) q =
      run-typed rest (step a q)
      ∙ (ap (λ l. l ++ queued rest (step a q)) (step-typed a q)
          ∙ append_assoc (all_typed q) (queued_by a q) (queued rest (step a q)))

  run-Matches : (actions : List (Action E T)) (q : Queue E T) → Matches q → Matches (run actions q)
  unfolding run
  run-Matches [] q h = h
  run-Matches (a ∷ rest) q h = run-Matches rest (step a q) (step-Matches a q h)

  -- Whatever the goroutines do to a new queue, in whatever order: the typed events that the
  -- translator has emitted, followed by those still queued, are exactly the ones that enqueue
  -- accepted, in the order in which it appended them, so that none is lost or overtaken; and
  -- there is one marker, in the channel or about to be sent, for each queued function, so that the
  -- translator finds a function for every marker that it takes.
  pub queue_in_order :
      (actions : List (Action E T))
      → (typed (run actions empty_queue).emitted ++ (run actions empty_queue).items
          ≡ queued actions empty_queue)
        × (markers (run actions empty_queue).fanout + (run actions empty_queue).sending
            ≡ length (run actions empty_queue).items)
  queue_in_order actions =
      (run-typed actions empty_queue, run-Matches actions empty_queue (omega arith))
