-- ===== src/Bridge/Rpc.antt =====
-- acp/ndjsonclient.go: the table of outbound requests, as the critical sections of the goroutines
-- that use it. A response channel is its request's number; `replies` has what was sent on it.
-- The counter of ids is unbounded here.
pub mod Lives
pub mod Answers
pub mod Zero
use go_agent_wrapper.Shared.{
  ℕ, suc, Bytes, bytes, ◌==◌, Bool, true, false, Option, none, some, List, [], ◌∷◌, ◌++◌,
  if◌then◌else◌,
}
use go_agent_wrapper.Shared.Table.{lookup, delete, insert, holds, remove}
use go_agent_wrapper.Shared.Int.{ℤ, pos, negsuc}

pub record RpcError : Type 0 where
  pub code : ℤ
  pub message : Bytes
  pub component : Bytes

pub data Reply : Type 0 where
  result : Bytes → Reply
  failure : RpcError → Reply

-- The `id` of a frame: absent, or the JSON value that the raw bytes hold. `number` is one that is no
-- int64, `composite` an array, an object or a Boolean.
pub data RawId : Type 0 where
  absent null text number composite : RawId
  integer : ℤ → RawId

-- json.Unmarshal into an int64: null leaves the variable at 0.
abbrev pub decode_int64 : RawId → Option ℤ
decode_int64 null = some (pos 0)
decode_int64 (integer z) = some z
decode_int64 absent = none
decode_int64 text = none
decode_int64 number = none
decode_int64 composite = none

-- `allocated` holds the ids that beginCall took from the counter and has not yet registered.
pub record Rpc : Type 0 where
  pub next_id : ℕ
  pub allocated : List ℕ
  pub pending : List (ℕ × Bool)
  pub replies : List (ℕ × Reply)

abbrev pub empty_rpc : Rpc
empty_rpc = record { next_id = 0; allocated = []; pending = []; replies = [] }

-- c.nextID.Add(1)
unfoldable pub allocate : Rpc → Rpc
allocate c = record c { next_id = suc c.next_id; allocated = suc c.next_id ∷ c.allocated }

-- The locked section of beginCall, for an id that it has taken.
unfoldable pub register : ℕ → Bytes → Rpc → Rpc
unfolding holds remove insert ◌==◌
register n method c =
    if holds n c.allocated
    then record c {
      allocated = remove n c.allocated;
      pending = insert n (method == bytes "session/prompt") c.pending;
    }
    else c

-- dropPending, after a failed write or a caller that stopped waiting.
unfoldable pub drop_pending : ℕ → Rpc → Rpc
unfolding delete
drop_pending n c = record c { pending = delete n c.pending }

abbrev pub own_error : Bytes → Reply → Reply
own_error component (result raw) = result raw
own_error component (failure e) = failure (record e { component = component })

-- What deliverResponse reports: whether the frame was malformed, and whether it answered a prompt,
-- for which it closes the turn's admission of permission requests.
pub record Delivery : Type 0 where
  pub malformed : Bool
  pub closes_admission : Bool

abbrev pub ignored : Delivery
ignored = record { malformed = false; closes_admission = false }

-- The rest of deliverResponse for an int64.
unfoldable pub deliver : Bytes → ℤ → Reply → Rpc → Delivery × Rpc
unfolding lookup delete insert
deliver component (negsuc n) reply c = (ignored, c)
deliver component (pos n) reply c = elim (lookup n c.pending) [
  | none ↦ (ignored, c)
  | some prompt ↦ (
    record { malformed = false; closes_admission = prompt },
    record c {
      pending = delete n c.pending;
      replies = insert n (own_error component reply) c.replies;
    },
  )
]

unfoldable pub deliver_response : Bytes → RawId → Reply → Rpc → Delivery × Rpc
unfolding deliver
deliver_response component id reply c = elim (decode_int64 id) [
  | none ↦ (record { malformed = true; closes_admission = false }, c)
  | some z ↦ deliver component z reply c
]

-- -32000
abbrev pub closed_code : ℤ
closed_code = negsuc 31999

abbrev pub closed_reply : Bytes → Bytes → Reply
closed_reply component message =
    failure (record { code = closed_code; message = message; component = component })

-- The loop of failPending over the table that it took.
unfoldable pub fail_all : Reply → List (ℕ × Bool) → List (ℕ × Reply) → List (ℕ × Reply)
unfolding insert
fail_all reply [] replies = replies
fail_all reply ((n, prompt) ∷ pending) replies = insert n reply (fail_all reply pending replies)

unfoldable pub fail_pending : Bytes → Bytes → Rpc → Rpc
unfolding fail_all
fail_pending component message c = record c {
  pending = [];
  replies = fail_all (closed_reply component message) c.pending c.replies;
}

pub data Action : Type 0 where
  allocates : Action
  registers : ℕ → Bytes → Action
  drops : ℕ → Action
  responds : RawId → Reply → Action
  fails : Bytes → Action

-- The actions of any number of goroutines, for a client's component.
unfoldable pub step : Bytes → Action → Rpc → Rpc
step component allocates c = allocate c
step component (registers n method) c = register n method c
step component (drops n) c = drop_pending n c
step component (responds id reply) c = (deliver_response component id reply c).1
step component (fails message) c = fail_pending component message c

unfoldable pub run : Bytes → List Action → Rpc → Rpc
run component [] c = c
run component (a ∷ rest) c = run component rest (step component a c)
