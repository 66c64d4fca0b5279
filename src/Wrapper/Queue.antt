-- ===== src/Wrapper/Queue.antt =====
-- wrapper/typed_order.go: typedQueue, as the steps of the goroutines that use it. The fanout channel
-- is the list of what it holds, oldest first; a call of enqueue takes its two steps one after the
-- other, while other calls are in between. The emit functions are values of a type T, stream
-- events of a type E.
pub mod Order
use go_agent_wrapper.Shared.{
  ℕ, zero, suc, ◌-◌, Bool, true, false, Option, none, some, List, [], ◌∷◌, ◌++◌, inl, inr, ◌⊎◌,
  if◌then◌else◌, nat_eq,
}

-- What the channel holds: a stream event, or a marker.
pub data Item (E : Type 0) : Type 0 where
  stream : E → Item E
  marker : Item E

-- `sending` counts the calls of enqueue that hold the read side of closeMu and have appended their
-- function but not sent its marker; `emitted` is what the translator has passed on, oldest first.
pub record Queue (E T : Type 0) : Type 0 where
  pub fanout : List (Item E)
  pub closed : Bool
  pub items : List T
  pub sending : ℕ
  pub emitted : List (E ⊎ T)

module _ {E T : Type 0} where
  abbrev pub empty_queue : Queue E T
  empty_queue = record { fanout = []; closed = false; items = []; sending = 0; emitted = [] }

  -- enqueue up to the append.
  unfoldable pub append : T → Queue E T → Bool × Queue E T
  append emit q =
      if q.closed
      then (false, q)
      else (true, record q { items = q.items ++ emit ∷ []; sending = suc q.sending })

  -- The send of the marker.
  unfoldable pub send_marker : Queue E T → Queue E T
  send_marker q = elim q.sending [
    | zero ↦ q
    | suc n ↦ record q { fanout = q.fanout ++ marker ∷ []; sending = n }
  ]

  -- A send by agentkit of a stream event, which is dropped where the channel is full.
  unfoldable pub send_stream : Bool → E → Queue E T → Queue E T
  send_stream full event q =
      if q.closed
      then q
      else if full
      then q
      else record q { fanout = q.fanout ++ stream event ∷ [] }

  unfoldable pub dequeue : Queue E T → Option T × Queue E T
  dequeue q = elim q.items [ [] ↦ (none, q) | emit ∷ rest ↦ (some emit, record q { items = rest }) ]

  abbrev pub emit_typed : Option T × Queue E T → Queue E T
  emit_typed (none, q) = q
  emit_typed (some emit, q) = record q { emitted = q.emitted ++ inr emit ∷ [] }

  -- The translator takes one item off the channel.
  unfoldable pub translate : Queue E T → Queue E T
  unfolding dequeue
  translate q = elim q.fanout [
    | [] ↦ q
    | stream event ∷ rest ↦ record q { fanout = rest; emitted = q.emitted ++ inl event ∷ [] }
    | marker ∷ rest ↦ emit_typed (dequeue (record q { fanout = rest }))
  ]

  -- closeFanout waits for the calls of enqueue that hold the read side.
  unfoldable pub close_fanout : Queue E T → Queue E T
  close_fanout q = if nat_eq q.sending 0 then record q { closed = true } else q

pub data Action (E T : Type 0) : Type 0 where
  appends : T → Action E T
  sends_marker translates closes : Action E T
  sends_stream : Bool → E → Action E T

module _ {E T : Type 0} where
  unfoldable pub step : Action E T → Queue E T → Queue E T
  unfolding append send_marker send_stream translate close_fanout
  step (appends emit) q = (append emit q).1
  step sends_marker q = send_marker q
  step (sends_stream full event) q = send_stream full event q
  step translates q = translate q
  step closes q = close_fanout q

  unfoldable pub run : List (Action E T) → Queue E T → Queue E T
  unfolding step
  run [] q = q
  run (a ∷ rest) q = run rest (step a q)
