-- ===== src/Bridge/Launch/Calls.antt =====
-- acp/ndjsonclient.go: the calls of a launch that succeed.
use mathlib.Core.List.{append-nil}
use go_agent_wrapper.Shared.{
  Bytes, bytes, ◌==◌, ◌≡◌, refl, Option, none, some, ◌⊎◌, inl, inr, List, [], ◌∷◌, ◌++◌, is_empty,
  if◌then◌else◌, Bool-cases, arith,
}
use go_agent_wrapper.Bridge.Launch.{
  AuthMethod, InitializeResult, Request, authenticate, Agent, LaunchError, authenticate_failed,
  Progress,
}
use go_agent_wrapper.Bridge.Launch.Handshake.{
  M, bind_result, sent, call_plain, call, lift, find_method, use_method, authenticate_with,
}

-- Inversion of a step that succeeded after another.
pub bind_lem :
    {A B : Type 0} (r : (LaunchError ⊎ A) × Progress) (f : A → M B) (b : B) (q : Progress)
    → bind_result r f ≡ (inr b, q)
    → (a : A) × (p : Progress) × (r ≡ (inr a, p)) × (f a p ≡ (inr b, q))
bind_lem (inl e, p) f b q h = let impossible : ⊥ = ground (arith, h) in absurd impossible
bind_lem (inr a, p) f b q h = (a, p, refl, h)

pub call_plain_lem :
    (failed : Bytes → LaunchError) (request : Request) (answer : Option Bytes) (p q : Progress)
    → call_plain failed request answer p ≡ (inr tt, q)
    → q ≡ sent request p
call_plain_lem failed request none p q h = ground (arith, h)
call_plain_lem failed request (some e) p q h = ground (arith, h)

pub call_lem :
    {A : Type 0} (failed : Bytes → LaunchError) (request : Request) (answer : Bytes ⊎ A) (a : A)
    (p q : Progress)
    → call failed request answer p ≡ (inr a, q)
    → (answer ≡ inr a) × (q ≡ sent request p)
call_lem failed request (inl e) a p q h = ground (arith, h)
call_lem failed request (inr x) a p q h = ground (arith, h)

pub lift_lem :
    {E A : Type 0} (failed : E → LaunchError) (r : E ⊎ A) (a : A) (p q : Progress)
    → lift failed r p ≡ (inr a, q)
    → (r ≡ inr a) × (q ≡ p)
lift_lem failed (inl e) a p q h = ground (arith, h)
lift_lem failed (inr x) a p q h = ground (arith, h)

-- The requests of authenticate.
abbrev pub authenticates : Bytes → List Request
authenticates id = if is_empty id then [] else authenticate id ∷ []

abbrev pub added : List Request → Progress → Progress
added requests p = record p { requests = p.requests ++ requests }

pub use_method_lem :
    (id : Bytes) (agent : Agent) (found : Option AuthMethod) (p q : Progress)
    → use_method id agent found p ≡ (inr tt, q)
    → q ≡ sent (authenticate id) p
unfolding ◌==◌
use_method_lem id agent none p q h = ground (arith, h)
use_method_lem id agent (some method) p q h = elim (Bool-cases (method.type == bytes "terminal")) [
  | inl e ↦ ground (arith, e, h)
  | inr e ↦
      call_plain_lem authenticate_failed (authenticate id) agent.on_authenticate p q
        (ground (arith, e, h))
]

pub authenticate_lem :
    (id : Bytes) (agent : Agent) (result : InitializeResult) (p q : Progress)
    → authenticate_with id agent result p ≡ (inr tt, q)
    → q ≡ added (authenticates id) p
unfolding authenticate_with
authenticate_lem id agent result p q h = elim (Bool-cases (is_empty id)) [
  | inl e ↦ ground (arith, e, h, append-nil p.requests)
  | inr e ↦
      rw e (use_method_lem id agent (find_method id result.auth_methods) p q (ground (arith, e, h)))
]
