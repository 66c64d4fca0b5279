-- ===== src/Bridge/Rpc/Lives.antt =====
-- acp/ndjsonclient.go: the life of one outbound request by itself.
use go_agent_wrapper.Shared.{
  ℕ, suc, ◌<◌, ◌≡◌, Bytes, bytes, ◌==◌, Bool, true, false, Option, none, some, List, [], ◌∷◌,
  nat_eq, if◌then◌else◌,
}
use go_agent_wrapper.Shared.Table.{lookup, holds}
use go_agent_wrapper.Shared.Int.{pos, negsuc}
use go_agent_wrapper.Bridge.Rpc.{
  Rpc, Reply, RawId, absent, null, integer, text, number, composite, Action, allocates, registers,
  drops, responds, fails, own_error, closed_reply,
}

-- The life of one request by itself: its id is not taken yet, taken, registered, answered, or
-- forgotten by its caller.
pub data Life : Type 0 where
  unborn taken gone : Life
  waiting : Bool → Life
  answered : Reply → Life

-- `count` ids were taken so far.
pub record Story : Type 0 where
  pub count : ℕ
  pub life : Life

abbrev pub untold : Story
untold = record { count = 0; life = unborn }

abbrev pub on_take : Bool → Life → Life
on_take mine unborn = if mine then taken else unborn
on_take mine taken = taken
on_take mine gone = gone
on_take mine (waiting p) = waiting p
on_take mine (answered r) = answered r

abbrev pub on_register : Bool → Life → Life
on_register prompt taken = waiting prompt
on_register prompt unborn = unborn
on_register prompt gone = gone
on_register prompt (waiting p) = waiting p
on_register prompt (answered r) = answered r

abbrev pub on_drop : Life → Life
on_drop (waiting p) = gone
on_drop unborn = unborn
on_drop taken = taken
on_drop gone = gone
on_drop (answered r) = answered r

abbrev pub on_reply : Reply → Life → Life
on_reply reply (waiting p) = answered reply
on_reply reply unborn = unborn
on_reply reply taken = taken
on_reply reply gone = gone
on_reply reply (answered r) = answered r

-- A response concerns a request where its id is the request's as an integer.
abbrev pub addresses : ℕ → RawId → Bool
addresses n (integer (pos m)) = nat_eq m n
addresses n (integer (negsuc m)) = false
addresses n null = nat_eq 0 n
addresses n absent = false
addresses n text = false
addresses n number = false
addresses n composite = false

-- What an action is for request n.
unfoldable pub tell : Bytes → ℕ → Action → Story → Story
unfolding ◌==◌
tell component n allocates s = record {
  count = suc s.count;
  life = on_take (nat_eq (suc s.count) n) s.life;
}
tell component n (registers m method) s = record s {
  life = if nat_eq m n then on_register (method == bytes "session/prompt") s.life else s.life;
}
tell component n (drops m) s = record s { life = if nat_eq m n then on_drop s.life else s.life }
tell component n (responds id reply) s = record s {
  life = if addresses n id then on_reply (own_error component reply) s.life else s.life;
}
tell component n (fails message) s = record s {
  life = on_reply (closed_reply component message) s.life;
}

unfoldable pub story : Bytes → ℕ → List Action → Story → Story
story component n [] s = s
story component n (a ∷ rest) s = story component n rest (tell component n a s)

abbrev pub reply_of : Life → Option Reply
reply_of unborn = none
reply_of taken = none
reply_of gone = none
reply_of (waiting p) = none
reply_of (answered r) = some r

abbrev pub pending_of : Life → Option Bool
pending_of unborn = none
pending_of taken = none
pending_of gone = none
pending_of (waiting p) = some p
pending_of (answered r) = none

abbrev pub is_taken : Life → Bool
is_taken taken = true
is_taken unborn = false
is_taken gone = false
is_taken (waiting p) = false
is_taken (answered r) = false

-- The tables agree with the life of request n. An id above the counter is not born.
pub record Agrees (n : ℕ) (c : Rpc) (s : Story) : Type 0 where
  pub counted : s.count ≡ c.next_id
  pub unborn_above : c.next_id < n → s.life ≡ unborn
  pub takes : holds n c.allocated ≡ is_taken s.life
  pub waits : lookup n c.pending ≡ pending_of s.life
  pub replied : lookup n c.replies ≡ reply_of s.life
