-- ===== src/Bridge/Rpc/Answers.antt =====
-- acp/ndjsonclient.go: which reply an outbound request gets.
use go_agent_wrapper.Shared.{
  ℕ, ◌≡◌, refl, Bytes, bytes, ◌==◌, Bool, some, List, [], ◌∷◌, nat_eq, if◌then◌else◌, arith,
  is_some,
}
use go_agent_wrapper.Shared.Table.{lookup, holds, holds-remove, lookup-insert, lookup-delete}
use go_agent_wrapper.Shared.Int.{pos, negsuc}
use go_agent_wrapper.Bridge.Rpc.{
  Rpc, Reply, RawId, absent, null, integer, text, number, composite, Action, allocates, registers,
  drops, responds, fails, allocate, register, drop_pending, deliver, deliver_response, fail_all,
  fail_pending, own_error, closed_reply, step, run, empty_rpc,
}
use go_agent_wrapper.Bridge.Rpc.Lives.{
  Life, Story, untold, on_reply, tell, story, reply_of, pending_of, Agrees, unborn,
}

lookup-fail_all :
    (n : ℕ) (reply : Reply) (pending : List (ℕ × Bool)) (replies : List (ℕ × Reply))
    → lookup n (fail_all reply pending replies)
      ≡ (if is_some (lookup n pending) then some reply else lookup n replies)
unfolding fail_all lookup
lookup-fail_all n reply [] replies = refl
lookup-fail_all n reply ((m, prompt) ∷ pending) replies = ground (
  arith,
  lookup-insert m n reply (fail_all reply pending replies),
  lookup-fail_all n reply pending replies,
)

empty-Agrees : (n : ℕ) → Agrees n empty_rpc untold
unfolding holds lookup
empty-Agrees n = record {
  counted = refl;
  unborn_above = λ _. refl;
  takes = refl;
  waits = refl;
  replied = refl;
}

module _ (component : Bytes) (n : ℕ) where
  allocate-Agrees :
      (k : ℕ) (life : Life) (c : Rpc)
      → Agrees n c (record { count = k; life = life })
      → Agrees n (allocate c) (tell component n allocates (record { count = k; life = life }))
  unfolding allocate holds tell
  allocate-Agrees k unborn c h = ground arith
  allocate-Agrees k _ c h = ground arith

  register-Agrees :
      (m : ℕ) (method : Bytes) (k : ℕ) (life : Life) (c : Rpc)
      → Agrees n c (record { count = k; life = life })
      → Agrees n
          (register m method c)
          (tell component n (registers m method) (record { count = k; life = life }))
  unfolding register tell
  register-Agrees m method k unborn c h = ground (
    arith,
    holds-remove m n c.allocated,
    lookup-insert m n (method == bytes "session/prompt") c.pending,
  )
  register-Agrees m method k _ c h = ground (
    arith,
    holds-remove m n c.allocated,
    lookup-insert m n (method == bytes "session/prompt") c.pending,
  )

  drop-Agrees :
      (m k : ℕ) (life : Life) (c : Rpc)
      → Agrees n c (record { count = k; life = life })
      → Agrees n (drop_pending m c) (tell component n (drops m) (record { count = k; life = life }))
  unfolding drop_pending tell
  drop-Agrees m k unborn c h = ground (arith, lookup-delete m n c.pending)
  drop-Agrees m k _ c h = ground (arith, lookup-delete m n c.pending)

  deliver-Agrees :
      (m : ℕ) (reply : Reply) (k : ℕ) (life : Life) (c : Rpc)
      → Agrees n c (record { count = k; life = life })
      → Agrees n (deliver component (pos m) reply c).1 (record {
        count = k;
        life = if nat_eq m n then on_reply (own_error component reply) life else life;
      })
  unfolding deliver
  deliver-Agrees m reply k unborn c h =
      ground (
        arith,
        lookup-delete m n c.pending,
        lookup-insert m n (own_error component reply) c.replies,
      )
  deliver-Agrees m reply k _ c h =
      ground (
        arith,
        lookup-delete m n c.pending,
        lookup-insert m n (own_error component reply) c.replies,
      )

  respond-Agrees :
      (id : RawId) (reply : Reply) (k : ℕ) (life : Life) (c : Rpc)
      → Agrees n c (record { count = k; life = life })
      → Agrees n
          (deliver_response component id reply c).1
          (tell component n (responds id reply) (record { count = k; life = life }))
  unfolding deliver_response tell
  respond-Agrees absent reply k life c h = h
  respond-Agrees text reply k life c h = h
  respond-Agrees number reply k life c h = h
  respond-Agrees composite reply k life c h = h
  respond-Agrees null reply k life c h = deliver-Agrees 0 reply k life c h
  respond-Agrees (integer (pos m)) reply k life c h = deliver-Agrees m reply k life c h
  respond-Agrees (integer (negsuc m)) reply k life c h = unfold deliver in h

  fail-Agrees :
      (message : Bytes) (k : ℕ) (life : Life) (c : Rpc)
      → Agrees n c (record { count = k; life = life })
      → Agrees n
          (fail_pending component message c)
          (tell component n (fails message) (record { count = k; life = life }))
  unfolding fail_pending tell lookup
  fail-Agrees message k unborn c h =
      ground (arith, lookup-fail_all n (closed_reply component message) c.pending c.replies)
  fail-Agrees message k _ c h =
      ground (arith, lookup-fail_all n (closed_reply component message) c.pending c.replies)

  step-Agrees :
      (a : Action) (c : Rpc) (s : Story)
      → Agrees n c s
      → Agrees n (step component a c) (tell component n a s)
  unfolding step
  step-Agrees allocates c s h = allocate-Agrees s.count s.life c h
  step-Agrees (registers m method) c s h = register-Agrees m method s.count s.life c h
  step-Agrees (drops m) c s h = drop-Agrees m s.count s.life c h
  step-Agrees (responds id reply) c s h = respond-Agrees id reply s.count s.life c h
  step-Agrees (fails message) c s h = fail-Agrees message s.count s.life c h

  run-Agrees :
      (actions : List Action) (c : Rpc) (s : Story)
      → Agrees n c s
      → Agrees n (run component actions c) (story component n actions s)
  unfolding run story
  run-Agrees [] c s h = h
  run-Agrees (a ∷ rest) c s h =
      run-Agrees rest (step component a c) (tell component n a s) (step-Agrees a c s h)

  -- Every request lives by itself: whatever the goroutines do to the table of outbound requests of
  -- a new client, in whatever order, what is sent on the channel of request n, and whether it is
  -- pending, is what its own life has. In it the request is taken from the counter once and then
  -- registered; the first event after that settles it: a response whose id is n, with its result or
  -- its error, the failure of all pending requests, or its caller, who forgets it. Nothing before or
  -- after, and no response to another id, makes a difference.
  pub request_life :
      (actions : List Action)
      → (lookup n (run component actions empty_rpc).replies
          ≡ reply_of (story component n actions untold).life)
        × (lookup n (run component actions empty_rpc).pending
            ≡ pending_of (story component n actions untold).life)
  request_life actions =
      let at_start : Agrees n empty_rpc untold = empty-Agrees n in
      let agrees = run-Agrees actions empty_rpc untold at_start in (agrees.replied, agrees.waits)
